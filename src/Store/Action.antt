-- ===== src/Store/Action.antt =====
-- Methods that write to the store and may fail. What was written before a failure stays written, so
-- the store comes back beside the error too.
pub mod Keeps
pub mod Returns
use panda_server.Prelude.{◌≡◌, refl, ap, arith}
use panda_server.Domain.Error.{PandaError, Result, ok, err}
use panda_server.Store.State.{Store}

abbrev pub Action : Type 0 → Type 0
Action A = Store → Result A × Store

module _ {A : Type 0} where
  pub pure : A → Action A
  pure a s = (ok a, s)

  pub lift : Result A → Action A
  lift r s = (r, s)

  -- A read of the tables.
  pub reads : (Store → Result A) → Action A
  reads f s = (f s, s)

abbrev pub continue : {A B : Type 0} → Result A → (A → Action B) → Action B
continue (ok a) f s = f a s
continue (err e) f s = (err e, s)

infixl 10 ◌>>=◌ ◌>>◌
-- Opening this opens `pure`, `lift` and `reads` too.
unfoldable pub ◌>>=◌ : {A B : Type 0} → Action A → (A → Action B) → Action B
unfolding pure lift reads
◌>>=◌ m f s = continue (m s).0 f (m s).1

abbrev pub ◌>>◌ : {A B : Type 0} → Action A → Action B → Action B
m >> n = m >>= λ _. n

abbrev pub committed : {A : Type 0} → Store → Result A → Store → Result A × Store
committed before (ok a) after = (ok a, after)
committed before (err e) after = (err e, before)

-- `begin` … `commit`: a failure in between rolls back.
abbrev pub transaction : {A : Type 0} → Action A → Action A
transaction m s = committed s (m s).0 (m s).1

continue-eq-ok :
    {A B : Type 0} (r : Result A) (f : A → Action B) (u : Store) {b : B} {t : Store}
    → continue r f u ≡ (ok b, t)
    → (a : A) × (r ≡ ok a) × (f a u ≡ (ok b, t))
continue-eq-ok (ok a) f u h = (a, refl, h)
continue-eq-ok (err e) f u h = cc

-- A block that returns has run its first action to a result, and the rest from there.
pub bind-eq-ok :
    {A B : Type 0} (m : Action A) (f : A → Action B) (s : Store) {b : B} {t : Store}
    → (m >>= f) s ≡ (ok b, t)
    → (a : A) × ((m s).0 ≡ ok a) × (f a (m s).1 ≡ (ok b, t))
unfolding ◌>>=◌
bind-eq-ok m f s h = continue-eq-ok (m s).0 f (m s).1 h

module _ {A B : Type 0} where
  pub reads-eq-ok :
      (r : Store → Result A) (f : A → Action B) (s : Store) {b : B} {t : Store}
      → (reads r >>= f) s ≡ (ok b, t)
      → (a : A) × (r s ≡ ok a) × (f a s ≡ (ok b, t))
  unfolding ◌>>=◌
  reads-eq-ok r f s h = continue-eq-ok (r s) f s h

  pub lift-eq-ok :
      (r : Result A) (f : A → Action B) (s : Store) {b : B} {t : Store}
      → (lift r >>= f) s ≡ (ok b, t)
      → (a : A) × (r ≡ ok a) × (f a s ≡ (ok b, t))
  unfolding ◌>>=◌
  lift-eq-ok r f s h = continue-eq-ok r f s h

pub ok-inj : {A : Type 0} (x y : A) → ok x ≡ ok y → x ≡ y
ok-inj x y h = ground arith

pub pure-eq-ok :
    {A : Type 0} (a : A) (s : Store) {b : A} {t : Store} → pure a s ≡ (ok b, t) → (a ≡ b) × (s ≡ t)
unfolding pure
pure-eq-ok a s {b} h = (ok-inj a b (ap (λ p. p.0) h), ap (λ p. p.1) h)

pub reads-done :
    {A : Type 0} (r : Store → Result A) (s : Store) {b : A} {t : Store}
    → reads r s ≡ (ok b, t)
    → (r s ≡ ok b) × (s ≡ t)
unfolding reads
reads-done r s h = (ap (λ p. p.0) h, ap (λ p. p.1) h)
