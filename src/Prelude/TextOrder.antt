-- ===== src/Prelude/TextOrder.antt =====
-- Rust's order of texts, by the characters' codes, is a strict total order.
use Prim.Native.Nat.{ℕ, Ordering, compare}
use Prim.Native.Char.{code}
use Prim.Native.String
use Prim.Native.String.{String, [], ◌∷◌, then}
use mathlib.Core.Path.{◌≡◌, sym, ◌∙◌}
use native.Mathlib.Omega.{arith}

then_lt_trans :
    (k m n : ℕ) (p q r : Ordering)
    → then (compare k m) p ≡ Ordering.lt
    → then (compare m n) q ≡ Ordering.lt
    → (p ≡ Ordering.lt → q ≡ Ordering.lt → r ≡ Ordering.lt)
    → then (compare k n) r ≡ Ordering.lt
then_lt_trans k m n p q r h h' tail = ground arith

then_gt_swap :
    (m n : ℕ) (p q : Ordering)
    → then (compare m n) p ≡ Ordering.gt
    → (p ≡ Ordering.gt → q ≡ Ordering.lt)
    → then (compare n m) q ≡ Ordering.lt
then_gt_swap m n p q h tail = ground arith

pub compare_trans :
    (s t u : String)
    → String.compare s t ≡ Ordering.lt
    → String.compare t u ≡ Ordering.lt
    → String.compare s u ≡ Ordering.lt
compare_trans [] [] u h h' = absurd (cc (h, String.compare.nil-nil))
compare_trans [] (d ∷ t) [] h h' = absurd (cc (h', String.compare.cons-nil d t))
compare_trans [] (d ∷ t) (e ∷ u) h h' = String.compare.nil-cons e u
compare_trans (c ∷ s) [] u h h' = absurd (cc (h, String.compare.cons-nil c s))
compare_trans (c ∷ s) (d ∷ t) [] h h' = absurd (cc (h', String.compare.cons-nil d t))
compare_trans (c ∷ s) (d ∷ t) (e ∷ u) h h' =
    String.compare.cons-cons c e s u
    ∙ then_lt_trans (code c) (code d) (code e) (String.compare s t) (String.compare t u)
        (String.compare s u) (sym (String.compare.cons-cons c d s t) ∙ h)
        (sym (String.compare.cons-cons d e t u) ∙ h') (compare_trans s t u)

pub compare_swap :
    (s t : String) → String.compare s t ≡ Ordering.gt → String.compare t s ≡ Ordering.lt
compare_swap [] [] h = absurd (cc (h, String.compare.nil-nil))
compare_swap [] (d ∷ t) h = absurd (cc (h, String.compare.nil-cons d t))
compare_swap (c ∷ s) [] h = String.compare.nil-cons c s
compare_swap (c ∷ s) (d ∷ t) h =
    String.compare.cons-cons d c t s
    ∙ then_gt_swap (code c) (code d) (String.compare s t) (String.compare t s)
        (sym (String.compare.cons-cons c d s t) ∙ h) (compare_swap s t)
