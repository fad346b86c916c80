-- ===== src/Store/Action/Returns.antt =====
-- What an action returns when it does not fail, whatever the store: a rule for each way to build one.
use panda_server.Prelude.{◌≡◌, Bool, true, false, if◌then◌else◌}
use panda_server.Domain.Error.{ok}
use panda_server.Store.State.{Store}
use panda_server.Store.Action.{Action, pure, ◌>>=◌, bind-eq-ok, pure-eq-ok}

pub record Returns {A : Type 0} (Q : A → Type 0) (m : Action A) : Type 0 where
  pub at : (before : Store) (a : A) (after : Store) → m before ≡ (ok a, after) → Q a

module _ {A : Type 0} {Q : A → Type 0} where
  pub Returns-if :
      (b : Bool) (x y : Action A) → Returns Q x → Returns Q y → Returns Q (if b then x else y)
  Returns-if true x y kx ky = kx
  Returns-if false x y kx ky = ky

  pub Returns-pure : (a : A) → Q a → Returns Q (pure a)
  Returns-pure a held = record {
    at = λ before b after h. let (same, _) = pure-eq-ok a before h in rw (← same) held;
  }

  pub Returns-bind :
      {B : Type 0} (first : Action B) (next : B → Action A)
      → ((b : B) → Returns Q (next b))
      → Returns Q (first >>= next)
  Returns-bind first next rest = record {
    at = λ before a after h.
        let (b, _, last) = bind-eq-ok first next before h in (rest b).at _ a after last;
  }

pub ruleset returns_rules = (Returns-if, Returns-bind)
