-- ===== src/Store/Action/Keeps.antt =====
-- Invariants of actions: a rule for each way to build an action.
use panda_server.Prelude.{◌≡◌, refl, Bool, true, false, if◌then◌else◌}
use panda_server.Domain.Error.{Result, ok, err}
use panda_server.Store.State.{Store}
use panda_server.Store.Action.{Action, pure, lift, reads, continue, ◌>>=◌, committed, transaction}

-- The action leaves a store that satisfies `P`, whether it returns or fails.
pub record Keeps {A : Type 0} (P : Store → Type 0) (m : Action A) : Type 0 where
  pub at : (before : Store) → P before → P (m before).1

module _ {A : Type 0} {P : Store → Type 0} where
  pub Keeps-if : (b : Bool) (x y : Action A) → Keeps P x → Keeps P y → Keeps P (if b then x else y)
  Keeps-if true x y kx ky = kx
  Keeps-if false x y kx ky = ky

  pub Keeps-reads : (query : Store → Result A) → Keeps P (reads query)
  unfolding reads
  Keeps-reads query = record { at = λ before held. held }

  pub Keeps-lift : (outcome : Result A) → Keeps P (lift outcome)
  unfolding lift
  Keeps-lift outcome = record { at = λ before held. held }

  pub Keeps-pure : (a : A) → Keeps P (pure a)
  unfolding pure
  Keeps-pure a = record { at = λ before held. held }

  pub Keeps-transaction : (m : Action A) → Keeps P m → Keeps P (transaction m)
  Keeps-transaction m kept = record {
    at = λ before held. from_result before held (m before).0 (m before).1 (kept.at before held);
  }
    where
      from_result :
          (before : Store)
          → P before
          → (outcome : Result A) (after : Store) → P after
          → P (committed before outcome after).1
      from_result before held (ok a) after done = done
      from_result before held (err e) after done = held

module _ {A B : Type 0} {P : Store → Type 0} where
  pub Keeps-bind :
      (first : Action A) (next : A → Action B)
      → Keeps P first
      → ((a : A) → Keeps P (next a))
      → Keeps P (first >>= next)
  unfolding ◌>>=◌
  Keeps-bind first next kept keeps = record {
    at = λ before held. from_result (first before).0 (first before).1 (kept.at before held);
  }
    where
      from_result : (outcome : Result A) (mid : Store) → P mid → P (continue outcome next mid).1
      from_result (err e) mid held = held
      from_result (ok a) mid held = (keeps a).at mid held

  -- What follows a check may use that the check passed.
  pub Keeps-bind-lift :
      (outcome : Result A) (next : A → Action B)
      → ((a : A) → outcome ≡ ok a → Keeps P (next a))
      → Keeps P (lift outcome >>= next)
  unfolding ◌>>=◌
  Keeps-bind-lift (err e) next keeps = record { at = λ before held. held }
  Keeps-bind-lift (ok a) next keeps = keeps a refl

read-then :
    {A B : Type 0} (P : Store → Type 0) (r : Result A) (f : A → Action B) (s : Store)
    → P s
    → ((a : A) → r ≡ ok a → P (f a s).1)
    → P ((lift r >>= f) s).1
unfolding ◌>>=◌
read-then P (ok a) f s h k = k a refl
read-then P (err e) f s h k = h

module _ {A B : Type 0} {P : Store → Type 0} where
  -- For a first step that keeps `P` from this store on only.
  pub Keeps-after :
      (m : Action A) (f : A → Action B) (s : Store)
      → P (m s).1
      → ((a : A) → Keeps P (f a))
      → P ((m >>= f) s).1
  unfolding ◌>>=◌
  Keeps-after m f s h kf = (Keeps-bind-lift (m s).0 f (λ a _. kf a)).at (m s).1 h

  -- What follows a read may use what was read.
  pub Keeps-bind-reads :
      (r : Store → Result A) (f : A → Action B)
      → ((s : Store) → P s → (a : A) → r s ≡ ok a → P (f a s).1)
      → Keeps P (reads r >>= f)
  unfolding ◌>>=◌
  Keeps-bind-reads r f k = record { at = λ s h. read-then P (r s) f s h (k s h) }

pub ruleset keeps_rules =
    (Keeps-transaction, Keeps-pure, Keeps-lift, Keeps-reads, Keeps-if, Keeps-bind)
