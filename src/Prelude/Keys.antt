-- ===== src/Prelude/Keys.antt =====
-- Tables whose rows are found under their keys, and rows that stay found when the table changes.
use mathlib.Core.Path.{◌≡◌, refl, ap, ◌∙◌, fun_ext}
use mathlib.Core.Logic.{inl, inr}
use mathlib.Core.Bool.{Bool, true, false}
use mathlib.Core.Option.{Option, none, some}
use mathlib.Core.List.{List, [], ◌∷◌, ◌++◌}
use native.Mathlib.Omega.{arith}
use panda_server.Prelude.Lists.{All, All-append}
use panda_server.Prelude.Tests.{if◌then◌else◌, Bool-cases, is_some}
use panda_server.Prelude.Sql.{find, update, delete}

pub find-append {ℓ} :
    {A : Type ℓ} (p : A → Bool) (xs ys : List A) {x : A}
    → find p xs ≡ some x
    → find p (xs ++ ys) ≡ some x
find-append p [] ys h = cc
find-append p (x ∷ xs) ys h = elim (Bool-cases (p x)) [
  | inl here ↦ rw here (ground arith)
  | inr later ↦ rw later (find-append p xs ys (ground arith))
]

pub find-update_kept {ℓ} :
    {A : Type ℓ} (p q : A → Bool) (f : A → A) (xs : List A) {x : A}
    → ((y : A) → p (f y) ≡ p y)
    → find p xs ≡ some x
    → find p (update q f xs) ≡ some (if q x then f x else x)
find-update_kept p q f [] keep h = cc
find-update_kept p q f (y ∷ ys) {x} keep h = elim (Bool-cases (p y)) [
  | inl here ↦
      let e : y ≡ x = ground arith in
      elim (Bool-cases (q y)) [
        | inl hit ↦ rw (hit, keep y, here) (rw (← e, hit))
        | inr miss ↦ rw (miss, here) (rw (← e, miss))
      ]
  | inr later ↦ elim (Bool-cases (q y)) [
    | inl hit ↦ rw (hit, keep y, later) (find-update_kept p q f ys keep (ground arith))
    | inr miss ↦ rw (miss, later) (find-update_kept p q f ys keep (ground arith))
  ]
]

pub find-append_last {ℓ} :
    {A : Type ℓ} (p : A → Bool) (xs : List A) (x : A)
    → find p xs ≡ none
    → p x ≡ true
    → find p (xs ++ x ∷ []) ≡ some x
find-append_last p [] x missing hit = rw hit
find-append_last p (y ∷ xs) x missing hit = elim (Bool-cases (p y)) [
  | inl here ↦ absurd (cc (rw here at missing))
  | inr later ↦ rw later (find-append_last p xs x (rw later at missing) hit)
]

module _ {ℓ} {A : Type ℓ} where
  pub find-delete_kept :
      (p q : A → Bool) (xs : List A) {x : A}
      → find p xs ≡ some x
      → q x ≡ false
      → find p (delete q xs) ≡ some x
  find-delete_kept p q [] found keep = cc
  find-delete_kept p q (y ∷ ys) {x} found keep = elim (Bool-cases (p y)) [
    | inl here ↦ let e : y ≡ x = ground arith in rw (e, keep) (ground arith)
    | inr later ↦ elim (Bool-cases (q y)) [
      | inl hit ↦ rw hit (find-delete_kept p q ys (ground arith) keep)
      | inr miss ↦ rw (miss, later) (find-delete_kept p q ys (ground arith) keep)
    ]
  ]

  -- No row passes a narrower test when none passes the wider one.
  pub find-none :
      (p q : A → Bool) (xs : List A)
      → ((y : A) → q y ≡ true → p y ≡ true)
      → find p xs ≡ none
      → find q xs ≡ none
  find-none p q [] qp missing = refl
  find-none p q (y ∷ ys) qp missing = elim (Bool-cases (p y)) [
    | inl here ↦ absurd (cc (rw here at missing))
    | inr later ↦
        let not_q : q y ≡ false = ground (arith, qp y) in
        rw not_q (find-none p q ys qp (rw later at missing))
  ]

  pub is_some-none : (o : Option A) → is_some o ≡ false → o ≡ none
  is_some-none none h = refl
  is_some-none (some a) h = cc

  -- A UNIQUE or PRIMARY KEY constraint: the row that is found under the key of a row is that row.
  abbrev pub Keyed : (A → A → Bool) → List A → Type ℓ
  Keyed same xs = All (λ x. find (same x) xs ≡ some x) xs

  module _ (same : A → A → Bool) where
    found-append :
        (all : List A) (n : A) (xs : List A)
        → All (λ x. find (same x) all ≡ some x) xs
        → All (λ x. find (same x) (all ++ n ∷ []) ≡ some x) xs
    found-append all n [] h = tt
    found-append all n (x ∷ xs) (h, t) =
        (find-append (same x) all (n ∷ []) h, found-append all n xs t)

    pub Keyed-append :
        (xs : List A) (n : A)
        → find (same n) xs ≡ none
        → same n n ≡ true
        → Keyed same xs
        → Keyed same (xs ++ n ∷ [])
    Keyed-append xs n free own keyed =
        All-append (λ x. find (same x) (xs ++ n ∷ []) ≡ some x) xs (n ∷ [])
          (found-append xs n xs keyed) (find-append_last (same n) xs n free own, tt)

    module _ (q : A → Bool) (f : A → A) (left : (x y : A) → same (f x) y ≡ same x y)
        (right : (x y : A) → same x (f y) ≡ same x y) where
      found-update :
          (all : List A) (x : A)
          → find (same x) all ≡ some x
          → find (same (if q x then f x else x)) (update q f all) ≡ some (if q x then f x else x)
      found-update all x found = elim (Bool-cases (q x)) [
        | inl hit ↦ rw hit (
            let again : find (same (f x)) all ≡ some x =
              ap (λ p. find p all) (fun_ext (left x)) ∙ found in
            let kept = find-update_kept (same (f x)) q f all (right (f x)) again in rw hit at kept)
        | inr miss ↦
            rw miss
              (let kept = find-update_kept (same x) q f all (right x) found in rw miss at kept)
      ]

      found_rows-update :
          (all xs : List A)
          → All (λ x. find (same x) all ≡ some x) xs
          → All (λ x. find (same x) (update q f all) ≡ some x) (update q f xs)
      found_rows-update all [] h = tt
      found_rows-update all (x ∷ xs) (h, t) = (found-update all x h, found_rows-update all xs t)

      pub Keyed-update : (xs : List A) → Keyed same xs → Keyed same (update q f xs)
      Keyed-update xs keyed = found_rows-update xs xs keyed

    found_rows-delete :
        (q : A → Bool) (all xs : List A)
        → All (λ x. find (same x) all ≡ some x) xs
        → All (λ x. find (same x) (delete q all) ≡ some x) (delete q xs)
    found_rows-delete q all [] h = tt
    found_rows-delete q all (x ∷ xs) (h, t) = elim (Bool-cases (q x)) [
      | inl hit ↦ rw hit (found_rows-delete q all xs t)
      | inr miss ↦ rw miss (find-delete_kept (same x) q all h miss, found_rows-delete q all xs t)
    ]

    pub Keyed-delete : (q : A → Bool) (xs : List A) → Keyed same xs → Keyed same (delete q xs)
    Keyed-delete q xs keyed = found_rows-delete q xs xs keyed
