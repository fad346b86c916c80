-- ===== src/Domain/Markdown/Links.antt =====
-- `strip_md_links` of crates/domain/src/markdown.rs.
pub mod Stripped
use Prim.Native.String
use Prim.Native.String.{[], ◌∷◌}
use panda_server.Prelude.{
  ℕ, zero, suc, ◌+◌, ◌≤◌, ◌<◌, ◌≡◌, refl, sym, ap, ◌∙◌, String, Char, code, Bool, true, false, not,
  ◌&&◌, arith, eqb, if◌then◌else◌, Bool-cases, inl, inr,
}
use panda_server.Prelude.Text.{char_count, next_is, tail, char_count-append}

-- The inner loops `while i < chars.len() && chars[i] != stop`: what they push, and where they end.
abbrev until : ℕ → String → String
until stop [] = []
until stop (c ∷ s) = let rest = until stop s in if eqb (code c) stop then [] else c ∷ rest

abbrev from : ℕ → String → String
from stop [] = []
from stop (c ∷ s) = let rest = from stop s in if eqb (code c) stop then c ∷ s else rest

-- What follows the text of a link: the "]", and a "(…)" right behind it.
link_rest : String → String
link_rest s =
    let closed = tail (from b']' s) in
    if next_is b'(' closed then tail (from b')' (tail closed)) else closed

-- One round of the outer loop is one unit of fuel.
pub strip_from : ℕ → String → String
strip_from zero s = []
strip_from (suc fuel) [] = []
strip_from (suc fuel) (c ∷ s) =
    let image = String.◌++◌ (until b']' (tail s)) (strip_from fuel (link_rest (tail s))) in
    let link = String.◌++◌ (until b']' s) (strip_from fuel (link_rest s)) in
    let plain = c ∷ strip_from fuel s in
    if eqb (code c) b'!' && next_is b'[' s then image else if eqb (code c) b'[' then link else plain

-- Each round takes a character, so the number of characters and one more is enough fuel.
unfoldable pub strip_md_links : String → String
unfolding strip_from link_rest
strip_md_links s = strip_from (suc (char_count s)) s

strip_links_tests :
    (strip_md_links "see [a](u) ![b](v)!" ≡ "see a b!") × (strip_md_links "x [open" ≡ "x open")
unfolding strip_md_links
strip_links_tests = (refl, refl)

char_count-tail : (s : String) → char_count (tail s) ≤ char_count s
char_count-tail [] = omega arith
char_count-tail (c ∷ s) = omega arith

-- What an inner loop pushes and what it leaves are no more than what it read.
char_count-until-from :
    (stop : ℕ) (s : String) → char_count (until stop s) + char_count (from stop s) ≡ char_count s
char_count-until-from stop [] = omega arith
char_count-until-from stop (c ∷ s) = elim (Bool-cases (eqb (code c) stop)) [
  | inl here ↦ rw here (omega arith)
  | inr later ↦ rw later (omega (arith, char_count-until-from stop s))
]

char_count-link : (s : String) → char_count (until b']' s) + char_count (link_rest s) ≤ char_count s
unfolding link_rest
char_count-link s =
    let closed = tail (from b']' s) in
    ground (
      arith,
      char_count-until-from b']' s,
      char_count-tail (from b']' s),
      char_count-tail closed,
      char_count-until-from b')' (tail closed),
      char_count-tail (from b')' (tail closed)),
    )

-- More fuel than characters gives one result.
strip_from_enough :
    (f g : ℕ) (s : String) → char_count s < f → char_count s < g → strip_from f s ≡ strip_from g s
unfolding strip_from
strip_from_enough zero g s h k = absurd (omega arith)
strip_from_enough (suc f) zero s h k = absurd (omega arith)
strip_from_enough (suc f) (suc g) [] h k = refl
strip_from_enough (suc f) (suc g) (c ∷ s) h k =
    let at_tail = char_count-tail s in
    ground (
      arith,
      strip_from_enough f g s (omega arith) (omega arith),
      strip_from_enough f g (link_rest s) (omega (arith, char_count-link s))
          (omega (arith, char_count-link s)),
      strip_from_enough f g (link_rest (tail s)) (omega (arith, char_count-link (tail s)))
          (omega (arith, char_count-link (tail s))),
    )

-- A round of the outer loop, with no fuel to count.
strip_md_links-cons :
    (c : Char) (s : String)
    → strip_md_links (c ∷ s) ≡ (
        if eqb (code c) b'!' && next_is b'[' s
        then String.◌++◌ (until b']' (tail s)) (strip_md_links (link_rest (tail s)))
        else if eqb (code c) b'['
        then String.◌++◌ (until b']' s) (strip_md_links (link_rest s))
        else c ∷ strip_md_links s)
unfolding strip_md_links strip_from
strip_md_links-cons c s =
    let at_tail = char_count-tail s in
    let n = char_count s in
    ground (
      arith,
      strip_from_enough (suc n) (suc (char_count (link_rest s))) (link_rest s)
          (omega (arith, char_count-link s)) (omega arith),
      strip_from_enough (suc n) (suc (char_count (link_rest (tail s)))) (link_rest (tail s))
          (omega (arith, char_count-link (tail s))) (omega arith),
    )

-- The text does not have the character.
abbrev pub lacks : ℕ → String → Bool
lacks k [] = true
lacks k (c ∷ s) = not (eqb (code c) k) && lacks k s

until-append :
    (stop : ℕ) (t : String) (c : Char) (s : String)
    → lacks stop t ≡ true
    → eqb (code c) stop ≡ true
    → (until stop (String.◌++◌ t (c ∷ s)) ≡ t) × (from stop (String.◌++◌ t (c ∷ s)) ≡ c ∷ s)
until-append stop [] c s h k = rw (String.append.nil, k) (refl, refl)
until-append stop (d ∷ t) c s h k =
    let other : eqb (code d) stop ≡ false = ground arith in
    let ih = until-append stop t c s (ground arith) k in
    rw (String.append.cons, other) (ap (λ u. d ∷ u) ih.0, ih.1)
