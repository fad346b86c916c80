-- ===== src/Prelude/Sql.antt =====
-- The SQL statements that the repositories send, over a table as the list of its rows in the order
-- of insertion. A WHERE clause is a Boolean test on a row.
use mathlib.Core.Path.{◌≡◌, refl}
use mathlib.Core.Bool.{Bool, true, false}
use mathlib.Core.Option.{Option, none, some}
use mathlib.Core.List.{List, [], ◌∷◌, ◌++◌}
use native.Mathlib.Omega.{arith}
use Prim.Native.Nat.{ℕ, ◌+◌, ◌≤◌}
use mathlib.Core.Logic.{inl, inr}
use panda_server.Prelude.Lists.{All}
use panda_server.Prelude.Tests.{if◌then◌else◌, Bool-cases}

module _ {ℓ} {A : Type ℓ} where
  -- `SELECT … WHERE p`, fetched as an optional row
  abbrev pub find : (A → Bool) → List A → Option A
  find p [] = none
  find p (x ∷ xs) = if p x then some x else find p xs

  -- `SELECT … WHERE p`, all rows
  abbrev pub select : (A → Bool) → List A → List A
  select p [] = []
  select p (x ∷ xs) = let rest = select p xs in if p x then x ∷ rest else rest

  -- `UPDATE … SET f WHERE p`
  abbrev pub update : (A → Bool) → (A → A) → List A → List A
  update p f [] = []
  update p f (x ∷ xs) = (if p x then f x else x) ∷ update p f xs

  -- `DELETE … WHERE p`
  abbrev pub delete : (A → Bool) → List A → List A
  delete p [] = []
  delete p (x ∷ xs) = let rest = delete p xs in if p x then rest else x ∷ rest

  -- `SELECT COUNT(*) … WHERE p`, and the number of rows that a write affects
  abbrev pub count : (A → Bool) → List A → ℕ
  count p [] = 0
  count p (x ∷ xs) = (if p x then 1 else 0) + count p xs

  unfoldable pub insert_by : (A → A → Bool) → A → List A → List A
  insert_by before x [] = x ∷ []
  insert_by before x (y ∷ ys) = if before x y then x ∷ y ∷ ys else y ∷ insert_by before x ys

  -- `ORDER BY`, where `before x y` says that `x` may stand in front of `y`; also `sort_by_key`
  unfoldable pub order_by : (A → A → Bool) → List A → List A
  unfolding insert_by
  order_by before [] = []
  order_by before (x ∷ xs) = insert_by before x (order_by before xs)

  -- Each row may stand in front of the next.
  abbrev pub IsOrdered : (A → A → Bool) → List A → Type 0
  IsOrdered before [] = Unit
  IsOrdered before (x ∷ []) = Unit
  IsOrdered before (x ∷ y ∷ ys) = (before x y ≡ true) × IsOrdered before (y ∷ ys)

  pub order_by_of_IsOrdered :
      (before : A → A → Bool) (xs : List A) → IsOrdered before xs → order_by before xs ≡ xs
  unfolding order_by
  order_by_of_IsOrdered before [] h = refl
  order_by_of_IsOrdered before (x ∷ []) h = refl
  order_by_of_IsOrdered before (x ∷ y ∷ ys) h = rw (order_by_of_IsOrdered before (y ∷ ys) h.1, h.0)

  pub select-append :
      (p : A → Bool) (xs ys : List A) → select p (xs ++ ys) ≡ select p xs ++ select p ys
  select-append p [] ys = refl
  select-append p (x ∷ xs) ys = ground (arith, select-append p xs ys)

  pub delete-append :
      (p : A → Bool) (xs ys : List A) → delete p (xs ++ ys) ≡ delete p xs ++ delete p ys
  delete-append p [] ys = refl
  delete-append p (x ∷ xs) ys = ground (arith, delete-append p xs ys)

  pub select-cons_of_false :
      (p : A → Bool) (x : A) (xs : List A) → p x ≡ false → select p (x ∷ xs) ≡ select p xs
  select-cons_of_false p x xs h = rw h

  -- A row that is found is found again behind its update, by any test that the new row passes and
  -- that passes no row which the first test does not.
  pub find-update :
      (p p' q : A → Bool) (f : A → A) (xs : List A) {x : A}
      → ((y : A) → q y ≡ true → p y ≡ true)
      → ((y : A) → p' y ≡ true → p y ≡ true)
      → find p xs ≡ some x
      → q x ≡ true
      → p' (f x) ≡ true
      → find p' (update q f xs) ≡ some (f x)
  find-update p p' q f [] qp pp found hq hf = cc
  find-update p p' q f (y ∷ ys) {x} qp pp found hq hf = elim (Bool-cases (p y)) [
    | inl here ↦ let e : y ≡ x = ground arith in rw (e, hq, hf)
    | inr later ↦
        let not_q : q y ≡ false = ground (arith, qp y) in
        let not_p : p' y ≡ false = ground (arith, pp y) in
        rw (not_q, not_p) (find-update p p' q f ys qp pp (ground arith) hq hf)
  ]

  -- Rows that an update does not touch are found as before.
  pub find-update_other :
      (p q : A → Bool) (f : A → A) (xs : List A)
      → ((y : A) → q y ≡ true → (p y ≡ false) × (p (f y) ≡ false))
      → find p (update q f xs) ≡ find p xs
  find-update_other p q f [] apart = refl
  find-update_other p q f (y ∷ ys) apart = elim (Bool-cases (q y)) [
    | inl here ↦ rw (here, (apart y here).0, (apart y here).1) (find-update_other p q f ys apart)
    | inr later ↦ rw (later, find-update_other p q f ys apart)
  ]

  pub select-update_other :
      (p q : A → Bool) (f : A → A) (xs : List A)
      → ((y : A) → q y ≡ true → (p y ≡ false) × (p (f y) ≡ false))
      → select p (update q f xs) ≡ select p xs
  select-update_other p q f [] apart = refl
  select-update_other p q f (y ∷ ys) apart = elim (Bool-cases (q y)) [
    | inl here ↦ rw (here, (apart y here).0, (apart y here).1) (select-update_other p q f ys apart)
    | inr later ↦ rw (later, select-update_other p q f ys apart)
  ]

  pub select-delete_other :
      (p q : A → Bool) (xs : List A)
      → ((y : A) → q y ≡ true → p y ≡ false)
      → select p (delete q xs) ≡ select p xs
  select-delete_other p q [] apart = refl
  select-delete_other p q (y ∷ ys) apart = elim (Bool-cases (q y)) [
    | inl here ↦ rw (here, apart y here) (select-delete_other p q ys apart)
    | inr later ↦ rw (later, select-delete_other p q ys apart)
  ]

  pub All-update {κ} :
      (P : A → Type κ) (q : A → Bool) (f : A → A) (xs : List A)
      → ((y : A) → q y ≡ true → P y → P (f y))
      → All P xs
      → All P (update q f xs)
  All-update P q f [] keep h = tt
  All-update P q f (y ∷ ys) keep (h, t) = elim (Bool-cases (q y)) [
    | inl here ↦ rw here (keep y here h, All-update P q f ys keep t)
    | inr later ↦ rw later (h, All-update P q f ys keep t)
  ]

  pub All-delete {κ} :
      (P : A → Type κ) (q : A → Bool) (xs : List A) → All P xs → All P (delete q xs)
  All-delete P q [] h = tt
  All-delete P q (y ∷ ys) (h, t) = elim (Bool-cases (q y)) [
    | inl here ↦ rw here (All-delete P q ys t)
    | inr later ↦ rw later (h, All-delete P q ys t)
  ]

  pub All-find {κ} :
      (P : A → Type κ) (p : A → Bool) (xs : List A) {x : A} → All P xs → find p xs ≡ some x → P x
  All-find P p [] h found = cc
  All-find P p (y ∷ ys) {x} (h, t) found = elim (Bool-cases (p y)) [
    | inl here ↦ let e : y ≡ x = ground arith in rw (← e) h
    | inr later ↦ All-find P p ys t (ground arith)
  ]

  All-insert_by {κ} :
      (P : A → Type κ) (before : A → A → Bool) (x : A) (ys : List A)
      → P x
      → All P ys
      → All P (insert_by before x ys)
  unfolding insert_by
  All-insert_by P before x [] h t = (h, tt)
  All-insert_by P before x (y ∷ ys) h (k, t) = elim (Bool-cases (before x y)) [
    | inl first ↦ rw first (h, (k, t))
    | inr later ↦ rw later (k, All-insert_by P before x ys h t)
  ]

  pub All-order_by {κ} :
      (P : A → Type κ) (before : A → A → Bool) (xs : List A) → All P xs → All P (order_by before xs)
  unfolding order_by
  All-order_by P before [] h = tt
  All-order_by P before (x ∷ xs) (h, t) =
      All-insert_by P before x (order_by before xs) h (All-order_by P before xs t)

  pub All-select {κ} :
      (P : A → Type κ) (p : A → Bool) (xs : List A)
      → All P xs
      → All (λ x. P x × (p x ≡ true)) (select p xs)
  All-select P p [] h = tt
  All-select P p (x ∷ xs) (h, t) = elim (Bool-cases (p x)) [
    | inl kept ↦ rw kept ((h, kept), All-select P p xs t)
    | inr dropped ↦ rw dropped (All-select P p xs t)
  ]

  -- The test that found a row holds of it.
  pub find-holds : (p : A → Bool) (xs : List A) {x : A} → find p xs ≡ some x → p x ≡ true
  find-holds p [] found = cc
  find-holds p (y ∷ ys) {x} found = elim (Bool-cases (p y)) [
    | inl here ↦ let e : y ≡ x = ground arith in rw (← e) here
    | inr later ↦ find-holds p ys (ground arith)
  ]

  pub count_mono :
      (p q : A → Bool) (xs : List A) → ((y : A) → q y ≡ true → p y ≡ true) → count q xs ≤ count p xs
  count_mono p q [] h = omega arith
  count_mono p q (y ∷ ys) h = ground (arith, h y, count_mono p q ys h)

  -- A row that is found counts under any test that it passes.
  pub count-pos :
      (p q : A → Bool) (xs : List A) (x : A) → find p xs ≡ some x → q x ≡ true → 1 ≤ count q xs
  count-pos p q [] x found h = cc
  count-pos p q (y ∷ ys) x found h = elim (Bool-cases (p y)) [
    | inl here ↦ let e : y ≡ x = ground arith in rw (e, h) (omega arith)
    | inr later ↦ let ih = count-pos p q ys x (ground arith) h in omega (arith, ih)
  ]

  -- The first row of a wider test, if it passes the narrower one, is the first row of that.
  pub find-narrow :
      (p p' : A → Bool) (xs : List A) (x : A)
      → ((y : A) → p' y ≡ true → p y ≡ true)
      → find p xs ≡ some x
      → p' x ≡ true
      → find p' xs ≡ some x
  find-narrow p p' [] x pp found h = cc
  find-narrow p p' (y ∷ ys) x pp found h = elim (Bool-cases (p y)) [
    | inl here ↦ let e : y ≡ x = ground arith in rw (e, h)
    | inr later ↦
        let not_p : p' y ≡ false = ground (arith, pp y) in
        rw not_p (find-narrow p p' ys x pp (ground arith) h)
  ]

  pub count-update :
      (p q : A → Bool) (f : A → A) (xs : List A)
      → ((y : A) → p (f y) ≡ p y)
      → count p (update q f xs) ≡ count p xs
  count-update p q f [] same = refl
  count-update p q f (y ∷ ys) same = elim (Bool-cases (q y)) [
    | inl here ↦ rw (here, same y, count-update p q f ys same)
    | inr later ↦ rw (later, count-update p q f ys same)
  ]
