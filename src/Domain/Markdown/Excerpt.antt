-- ===== src/Domain/Markdown/Excerpt.antt =====
-- The length of an excerpt (crates/domain/src/markdown.rs).
use Prim.Native.String.{[], ◌∷◌}
use panda_server.Prelude.{ℕ, zero, suc, ◌+◌, ◌≤◌, String, arith, leb, Bool-cases, inl, inr, leb→le}
use panda_server.Prelude.Text.{char_count, char_count-append, join, split_whitespace}
use panda_server.Domain.Etag.{take_chars}
use panda_server.Domain.Markdown.{derive_plain_text, derive_excerpt}

char_count-take_chars-le : (n : ℕ) (s : String) → char_count (take_chars n s) ≤ n
unfolding take_chars
char_count-take_chars-le zero s = omega arith
char_count-take_chars-le (suc n) [] = omega arith
char_count-take_chars-le (suc n) (c ∷ s) = omega (arith, char_count-take_chars-le n s)

-- An excerpt has at most the asked number of characters and the three dots of a cut.
pub char_count-derive_excerpt-le :
    (markdown : String) (max_chars : ℕ)
    → char_count (derive_excerpt markdown max_chars) ≤ max_chars + 3
unfolding derive_excerpt
char_count-derive_excerpt-le markdown max_chars =
    let collapsed = join " " (split_whitespace (derive_plain_text markdown)) in
    elim (Bool-cases (leb (char_count collapsed) max_chars)) [
      | inl short ↦ rw short (omega (arith, leb→le (char_count collapsed) max_chars short))
      | inr long ↦
          rw (long, char_count-append (take_chars max_chars collapsed) "...")
            (omega (arith, char_count-take_chars-le max_chars collapsed))
    ]
