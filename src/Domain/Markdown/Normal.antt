-- ===== src/Domain/Markdown/Normal.antt =====
-- What `normalize_markdown` guarantees (crates/domain/src/markdown.rs).
use Prim.Native.String.{[], ◌∷◌}
use panda_server.Prelude.{
  ℕ, ◌≡◌, refl, String, code, false, arith, eqb, if◌then◌else◌, Bool-cases, inl, inr,
}
use panda_server.Prelude.Text.{without_char, replace_char, contains_char, replace_crlf}
use text.Mathlib.TextEquality.{Char-path}
use panda_server.Domain.Markdown.{normalize_markdown}

-- No carriage return and no NUL.
abbrev pub IsNormal : String → Type 0
IsNormal s = (contains_char 13 s ≡ false) × (contains_char 0 s ≡ false)

contains_char-replace_char : (s : String) → contains_char 13 (replace_char 13 "\n" s) ≡ false
unfolding contains_char replace_char
contains_char-replace_char [] = refl
contains_char-replace_char (c ∷ s) = elim (Bool-cases (eqb (code c) 13)) [
  | inl found ↦ rw found (contains_char-replace_char s)
  | inr other ↦ rw (other, other) (contains_char-replace_char s)
]

contains_char-without_char_self : (n : ℕ) (s : String) → contains_char n (without_char n s) ≡ false
unfolding contains_char without_char
contains_char-without_char_self n [] = refl
contains_char-without_char_self n (c ∷ s) = ground (arith, contains_char-without_char_self n s)

contains_char-without_char :
    (n m : ℕ) (s : String) → contains_char n s ≡ false → contains_char n (without_char m s) ≡ false
unfolding contains_char without_char
contains_char-without_char n m [] h = refl
contains_char-without_char n m (c ∷ s) h = ground (arith, contains_char-without_char n m s)

-- Whatever the input, the normalised text has no carriage return and no NUL, at its end or within it.
pub normalize_markdown-IsNormal : (input : String) → IsNormal (normalize_markdown input)
unfolding normalize_markdown
normalize_markdown-IsNormal input =
    let s = replace_char 13 "\n" (replace_crlf input) in
    ground (
      arith,
      contains_char-without_char 13 0 s,
      contains_char-without_char_self 0 s,
      contains_char-replace_char (replace_crlf input),
    )

replace_crlf_of_clean : (s : String) → contains_char 13 s ≡ false → replace_crlf s ≡ s
unfolding contains_char replace_crlf
replace_crlf_of_clean [] h = refl
replace_crlf_of_clean (c ∷ s) h = ground (arith, replace_crlf_of_clean s)

replace_char_of_clean : (s : String) → contains_char 13 s ≡ false → replace_char 13 "\n" s ≡ s
unfolding contains_char replace_char
replace_char_of_clean [] h = refl
replace_char_of_clean (c ∷ s) h = ground (arith, replace_char_of_clean s)

-- A text without carriage returns and NULs is its own normal form.
pub normalize_markdown_of_IsNormal : (s : String) → IsNormal s → normalize_markdown s ≡ s
unfolding normalize_markdown
normalize_markdown_of_IsNormal s h =
    rw (replace_crlf_of_clean s h.0, replace_char_of_clean s h.0, h.1)

-- Normalising twice is normalising once.
pub normalize_markdown_idem :
    (input : String) → normalize_markdown (normalize_markdown input) ≡ normalize_markdown input
normalize_markdown_idem input = normalize_markdown_of_IsNormal _ (normalize_markdown-IsNormal input)

-- The text as an editor with CRLF line ends writes it.
abbrev pub to_crlf : String → String
to_crlf [] = []
to_crlf (c ∷ s) = if eqb (code c) 10 then "\r" ∷ "\n" ∷ to_crlf s else c ∷ to_crlf s

replace_crlf-to_crlf : (s : String) → contains_char 13 s ≡ false → replace_crlf (to_crlf s) ≡ s
unfolding contains_char replace_crlf
replace_crlf-to_crlf [] h = refl
replace_crlf-to_crlf (c ∷ s) h = ground (arith, replace_crlf-to_crlf s, Char-path c "\n")

-- A text that has no carriage returns and the same text with CRLF line ends have one normal form,
-- and so one content hash.
pub normalize_markdown-to_crlf :
    (s : String)
    → contains_char 13 s ≡ false
    → normalize_markdown (to_crlf s) ≡ normalize_markdown s
unfolding normalize_markdown
normalize_markdown-to_crlf s h = rw (replace_crlf-to_crlf s h, replace_crlf_of_clean s h)
