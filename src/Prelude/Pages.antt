-- ===== src/Prelude/Pages.antt =====
-- A client that asks for one page after the other, and what it gets.
use Prim.Native.Nat.{ℕ, zero, suc, ◌+◌, ◌≤◌, ◌<◌}
use mathlib.Core.Path.{◌≡◌, refl, sym, ap, ◌∙◌}
use mathlib.Core.Logic.{inl, inr}
use mathlib.Core.Bool.{Bool, true, ◌&&◌}
use mathlib.Core.Option.{Option, none, some}
use mathlib.Core.List.{List, [], ◌∷◌, ◌++◌, map}
use native.Mathlib.Omega.{arith}
use native.Mathlib.Numerals.{add-one}
use panda_server.Prelude.Tests.{Bool-cases, ltb, if◌then◌else◌}
use panda_server.Prelude.Lists.{
  length, take, drop, get_last?, take_all, take-take-suc, length-take, length-drop-lt,
  take-append-drop,
}
use panda_server.Prelude.Sql.{select, order_by, insert_by}

-- The pages from a cursor on, at most as many as the number says.
abbrev pub follow {ℓ κ} :
    {B : Type ℓ} {C : Type κ} → (Option C → List B × Option C) → ℕ → Option C → List B
follow pg zero c = []
follow pg (suc n) c =
    let p = pg c in p.0 ++ (elim p.1 [ none ↦ [] | some d ↦ follow pg n (some d) ])

module _ {ℓ κ ι} {A : Type ℓ} {B : Type κ} {C : Type ι} (f : A → B) (next : A → C) where
  abbrev pub cursor_of : Option A → Option C
  cursor_of none = none
  cursor_of (some x) = some (next x)

  -- A page of `k` of the rows `xs`.
  abbrev pub cut : ℕ → List A → List B × Option C
  cut k xs =
      if ltb k (length xs)
      then (map f (take k xs), cursor_of (get_last? (take k xs)))
      else (map f xs, none)

  -- Reading one row more than the page has tells whether there are more.
  pub cut-take :
      (k : ℕ) (xs : List A)
      → (if ltb k (length (take (k + 1) xs))
          then (map f (take k (take (k + 1) xs)), cursor_of (get_last? (take k (take (k + 1) xs))))
          else (map f (take (k + 1) xs), none))
        ≡ cut k xs
  cut-take k xs = elim (Bool-cases (ltb k (length xs))) [
    | inl more ↦
        let longer : ltb k (length (take (suc k) xs)) ≡ true =
          ground (arith, length-take (suc k) xs) in
        rw (add-one, longer, more, take-take-suc k xs)
    | inr last ↦
        let all : take (suc k) xs ≡ xs = take_all (suc k) xs (ground arith) in rw (add-one, all)
  ]

  last_of_page :
      (k : ℕ) (xs : List A) → k < length xs → 0 < k → (x : A) × (get_last? (take k xs) ≡ some x)
  last_of_page zero xs h p = absurd (omega arith)
  last_of_page (suc k) [] h p = absurd (omega arith)
  last_of_page (suc zero) (x ∷ xs) h p = (x, refl)
  last_of_page (suc (suc k)) (x ∷ []) h p = absurd (omega arith)
  last_of_page (suc (suc k)) (x ∷ y ∷ xs) h p =
      last_of_page (suc k) (y ∷ xs) (omega arith) (omega arith)

  map-append : (xs ys : List A) → map f (xs ++ ys) ≡ map f xs ++ map f ys
  map-append [] ys = refl
  map-append (x ∷ xs) ys = rw (map-append xs ys)

  append-nil : (ys : List B) → ys ++ [] ≡ ys
  append-nil [] = refl
  append-nil (y ∷ ys) = rw (append-nil ys)

  -- The pages together are the rows, where a cursor leaves what stands behind its page.
  pub follow-cut :
      (pg : Option C → List B × Option C) (rows : Option C → List A) (k : ℕ)
      → 0 < k
      → ((c : Option C) → pg c ≡ cut k (rows c))
      → ((c : Option C) (x : A)
          → get_last? (take k (rows c)) ≡ some x
          → rows (some (next x)) ≡ drop k (rows c))
      → (n : ℕ) (c : Option C) → length (rows c) < n
      → follow pg n c ≡ map f (rows c)
  follow-cut pg rows k p law tail zero c h = absurd (omega arith)
  follow-cut pg rows k p law tail (suc n) c h = elim (Bool-cases (ltb k (length (rows c)))) [
    | inl more ↦
        let (x, e) = last_of_page k (rows c) (ground arith) p in
        let shorter = length-drop-lt k (rows c) (ground arith) p in
        let ih =
          follow-cut pg rows k p law tail n (some (next x)) (rw (tail c x e) (omega arith)) in
        rw (law c, more, e, ih, tail c x e)
          (sym (map-append (take k (rows c)) (drop k (rows c)))
            ∙ ap (map f) (take-append-drop k (rows c)))
    | inr last ↦ rw (law c, last) (append-nil (map f (rows c)))
  ]

module _ {ℓ} {A : Type ℓ} where
  pub length-select_le : (p : A → Bool) (xs : List A) → length (select p xs) ≤ length xs
  length-select_le p [] = omega arith
  length-select_le p (x ∷ xs) = ground (arith, length-select_le p xs)

  length-insert_by :
      (before : A → A → Bool) (x : A) (ys : List A)
      → length (insert_by before x ys) ≡ suc (length ys)
  unfolding insert_by
  length-insert_by before x [] = refl
  length-insert_by before x (y ∷ ys) = elim (Bool-cases (before x y)) [
    | inl first ↦ rw first
    | inr later ↦ rw (later, length-insert_by before x ys)
  ]

  pub length-order_by :
      (before : A → A → Bool) (xs : List A) → length (order_by before xs) ≡ length xs
  unfolding order_by
  length-order_by before [] = refl
  length-order_by before (x ∷ xs) =
      length-insert_by before x (order_by before xs) ∙ ap suc (length-order_by before xs)

  pub select-and :
      (p q : A → Bool) (xs : List A) → select (λ x. p x && q x) xs ≡ select q (select p xs)
  select-and p q [] = refl
  select-and p q (x ∷ xs) = ground (arith, select-and p q xs)

  pub select_same :
      (p q : A → Bool) (xs : List A) → ((x : A) → p x ≡ q x) → select p xs ≡ select q xs
  select_same p q [] h = refl
  select_same p q (x ∷ xs) h = rw (h x, select_same p q xs h)

  pub select_always : (p : A → Bool) (xs : List A) → ((x : A) → p x ≡ true) → select p xs ≡ xs
  select_always p [] h = refl
  select_always p (x ∷ xs) h = rw (h x, select_always p xs h)
