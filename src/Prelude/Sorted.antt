-- ===== src/Prelude/Sorted.antt =====
-- Rows in a strict order: what ORDER BY gives, and what a cursor leaves of them.
use Prim.Native.Nat.{ℕ, zero, suc}
use mathlib.Core.Path.{◌≡◌, refl, sym, ap, ◌∙◌}
use mathlib.Core.Logic.{inl, inr}
use mathlib.Core.Bool.{Bool, true, false}
use mathlib.Core.Option.{some}
use mathlib.Core.List.{List, [], ◌∷◌}
use native.Mathlib.Omega.{arith}
use panda_server.Prelude.Tests.{Bool-cases}
use panda_server.Prelude.Lists.{All, take, drop, get_last?}
use panda_server.Prelude.Sql.{select, order_by, insert_by, All-order_by}

module _ {ℓ} {A : Type ℓ} (lt before : A → A → Bool) where
  abbrev pub IsSorted : List A → Type 0
  IsSorted [] = Unit
  IsSorted (x ∷ xs) = All (λ y. lt x y ≡ true) xs × IsSorted xs

  -- ORDER BY never has to choose between two of the rows.
  abbrev pub Decides : A → A → Type 0
  Decides x y = (before x y ≡ true → lt x y ≡ true) × (before x y ≡ false → lt y x ≡ true)

  abbrev pub IsApart : List A → Type 0
  IsApart [] = Unit
  IsApart (x ∷ xs) = All (Decides x) xs × IsApart xs

  module _ (trans : (x y z : A) → lt x y ≡ true → lt y z ≡ true → lt x z ≡ true) where
    All-lt_below :
        (x y : A) (ys : List A)
        → lt x y ≡ true
        → All (λ z. lt y z ≡ true) ys
        → All (λ z. lt x z ≡ true) ys
    All-lt_below x y [] h k = tt
    All-lt_below x y (z ∷ zs) h (k, t) = (trans x y z h k, All-lt_below x y zs h t)

    All-insert_by :
        (y x : A) (ys : List A)
        → lt y x ≡ true
        → All (λ z. lt y z ≡ true) ys
        → All (λ z. lt y z ≡ true) (insert_by before x ys)
    unfolding insert_by
    All-insert_by y x [] h k = (h, tt)
    All-insert_by y x (z ∷ zs) h (k, t) = elim (Bool-cases (before x z)) [
      | inl first ↦ rw first (h, (k, t))
      | inr later ↦ rw later (k, All-insert_by y x zs h t)
    ]

    insert_by-IsSorted :
        (x : A) (ys : List A) → All (Decides x) ys → IsSorted ys → IsSorted (insert_by before x ys)
    unfolding insert_by
    insert_by-IsSorted x [] d h = (tt, tt)
    insert_by-IsSorted x (y ∷ ys) (d, ds) (h, t) = elim (Bool-cases (before x y)) [
      | inl first ↦ rw first ((d.0 first, All-lt_below x y ys (d.0 first) h), (h, t))
      | inr later ↦ rw later (All-insert_by y x ys (d.1 later) h, insert_by-IsSorted x ys ds t)
    ]

    pub order_by-IsSorted : (xs : List A) → IsApart xs → IsSorted (order_by before xs)
    unfolding order_by
    order_by-IsSorted [] h = tt
    order_by-IsSorted (x ∷ xs) (h, t) =
        insert_by-IsSorted x (order_by before xs) (All-order_by (Decides x) before xs h)
          (order_by-IsSorted xs t)

  module _ (trans : (x y z : A) → lt x y ≡ true → lt y z ≡ true → lt x z ≡ true)
      (irrefl : (x : A) → lt x x ≡ false) where
    not_behind : (x y : A) → lt y x ≡ true → lt x y ≡ false
    not_behind x y h = elim (Bool-cases (lt x y)) [
      | inl g ↦ absurd (cc (trans x y x g h, irrefl x))
      | inr g ↦ g
    ]

    before_of_lt : (x y : A) → Decides x y → lt x y ≡ true → before x y ≡ true
    before_of_lt x y d h = elim (Bool-cases (before x y)) [
      | inl g ↦ g
      | inr g ↦ absurd (cc (not_behind x y (d.1 g), h))
    ]

    module _ (p : A → Bool) where
      insert_first :
          (x : A) (ys : List A)
          → All (Decides x) ys
          → All (λ z. lt x z ≡ true) ys
          → insert_by before x (select p ys) ≡ x ∷ select p ys
      unfolding insert_by
      insert_first x [] d k = refl
      insert_first x (z ∷ zs) (d, ds) (k, t) = elim (Bool-cases (p z)) [
        | inl kept ↦ rw (kept, before_of_lt x z d k)
        | inr dropped ↦ rw dropped (insert_first x zs ds t)
      ]

      insert_by-select :
          (x : A) (ys : List A)
          → p x ≡ true
          → All (Decides x) ys
          → IsSorted ys
          → insert_by before x (select p ys) ≡ select p (insert_by before x ys)
      unfolding insert_by
      insert_by-select x [] h d k = rw h
      insert_by-select x (y ∷ ys) h (d, ds) (k, t) = elim (Bool-cases (before x y)) [
        | inl first ↦
            rw (first, h)
              (insert_first x (y ∷ ys) (d, ds) (d.0 first, All-lt_below trans x y ys (d.0 first) k))
        | inr later ↦ elim (Bool-cases (p y)) [
          | inl kept ↦ rw (later, kept, later, insert_by-select x ys h ds t)
          | inr dropped ↦ rw (later, dropped, insert_by-select x ys h ds t)
        ]
      ]

      select-insert_by :
          (x : A) (ys : List A) → p x ≡ false → select p (insert_by before x ys) ≡ select p ys
      unfolding insert_by
      select-insert_by x [] h = rw h
      select-insert_by x (y ∷ ys) h = elim (Bool-cases (before x y)) [
        | inl first ↦ rw (first, h)
        | inr later ↦ rw (later, select-insert_by x ys h)
      ]

      pub order_by-select :
          (xs : List A) → IsApart xs → order_by before (select p xs) ≡ select p (order_by before xs)
      unfolding order_by
      order_by-select [] h = refl
      order_by-select (x ∷ xs) (h, t) = elim (Bool-cases (p x)) [
        | inl kept ↦
            rw (kept, order_by-select xs t)
              (insert_by-select x (order_by before xs) kept (All-order_by (Decides x) before xs h)
                (order_by-IsSorted trans xs t))
        | inr dropped ↦
            rw (dropped, order_by-select xs t, select-insert_by x (order_by before xs) dropped)
      ]

    -- What a cursor at the last row of a page leaves is what stands behind the page.
    select_kept : (p : A → Bool) (xs : List A) → All (λ y. p y ≡ true) xs → select p xs ≡ xs
    select_kept p [] h = refl
    select_kept p (x ∷ xs) (h, t) = rw (h, select_kept p xs t)

    select_holds : (q : A → Bool) (xs : List A) → All (λ y. q y ≡ true) (select q xs)
    select_holds q [] = tt
    select_holds q (x ∷ xs) = elim (Bool-cases (q x)) [
      | inl kept ↦ rw kept (kept, select_holds q xs)
      | inr dropped ↦ rw dropped (select_holds q xs)
    ]

    All-select_kept {κ} :
        (P : A → Type κ) (q : A → Bool) (xs : List A) → All P xs → All P (select q xs)
    All-select_kept P q [] h = tt
    All-select_kept P q (x ∷ xs) (h, t) = elim (Bool-cases (q x)) [
      | inl kept ↦ rw kept (h, All-select_kept P q xs t)
      | inr dropped ↦ rw dropped (All-select_kept P q xs t)
    ]

    select-IsSorted : (q : A → Bool) (xs : List A) → IsSorted xs → IsSorted (select q xs)
    select-IsSorted q [] h = tt
    select-IsSorted q (x ∷ xs) (h, t) = elim (Bool-cases (q x)) [
      | inl kept ↦ rw kept (All-select_kept (λ y. lt x y ≡ true) q xs h, select-IsSorted q xs t)
      | inr dropped ↦ rw dropped (select-IsSorted q xs t)
    ]

    select_behind :
        (y : A) (ys : List A) → All (λ z. lt y z ≡ true) ys → select (lt y) (y ∷ ys) ≡ ys
    select_behind y ys h = rw (irrefl y, select_kept (lt y) ys h)

    pub select-select :
        (p q : A → Bool) (xs : List A)
        → ((y : A) → p y ≡ true → q y ≡ true)
        → select p (select q xs) ≡ select p xs
    select-select p q [] h = refl
    select-select p q (x ∷ xs) h = ground (arith, h x, select-select p q xs h)

    All-last {κ} :
        (P : A → Type κ) (k : ℕ) (xs : List A) {x : A}
        → All P xs
        → get_last? (take k xs) ≡ some x
        → P x
    All-last P zero xs h e = cc
    All-last P (suc k) [] h e = cc
    All-last P (suc zero) (y ∷ ys) {x} (h, t) e = let same : y ≡ x = ground arith in rw (← same) h
    All-last P (suc (suc k)) (y ∷ []) {x} (h, t) e =
        let same : y ≡ x = ground arith in rw (← same) h
    All-last P (suc (suc k)) (y ∷ z ∷ ys) (h, t) e = All-last P (suc k) (z ∷ ys) t e

    pub select-lt_last :
        (k : ℕ) (xs : List A) {x : A}
        → IsSorted xs
        → get_last? (take k xs) ≡ some x
        → select (lt x) xs ≡ drop k xs
    select-lt_last zero xs h e = cc
    select-lt_last (suc k) [] h e = cc
    select-lt_last (suc zero) (y ∷ ys) {x} (h, t) e =
        let same : y ≡ x = ground arith in
        ap (λ v. select (lt v) (y ∷ ys)) (sym same) ∙ select_behind y ys h
    select-lt_last (suc (suc k)) (y ∷ []) {x} (h, t) e =
        let same : y ≡ x = ground arith in
        ap (λ v. select (lt v) (y ∷ [])) (sym same) ∙ select_behind y [] h
    select-lt_last (suc (suc k)) (y ∷ z ∷ ys) {x} (h, t) e =
        rw (not_behind x y (All-last (λ v. lt y v ≡ true) (suc k) (z ∷ ys) h e))
          (select-lt_last (suc k) (z ∷ ys) t e)

    -- The rows behind a cursor `q` that a page of `k` rows leaves.
    pub select-lt_page :
        (q : A → Bool) (k : ℕ) (xs : List A) {x : A}
        → ((y z : A) → q y ≡ true → lt y z ≡ true → q z ≡ true)
        → IsSorted xs
        → get_last? (take k (select q xs)) ≡ some x
        → select (lt x) xs ≡ drop k (select q xs)
    select-lt_page q k xs {x} up h e =
        let own : q x ≡ true = All-last (λ y. q y ≡ true) k (select q xs) (select_holds q xs) e in
        sym (select-select (lt x) q xs (λ y. up x y own))
        ∙ select-lt_last k (select q xs) (select-IsSorted q xs h) e
