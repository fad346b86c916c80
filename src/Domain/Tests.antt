-- ===== src/Domain/Tests.antt =====
-- Runs of the etags and the Markdown functions on concrete input.
use Prim.Native.String
use Prim.Native.String.{◌∷◌}
use panda_server.Prelude.{ℕ, ◌+◌, ◌≤◌, true, some, ◌≡◌, ◌↔◌, refl, arith, eq_iff}
use text.Mathlib.Text.{starts_with}
use panda_server.Prelude.Text.{char_count, contains_char}
use panda_server.Domain.Etag.{take_chars, split_once, format_etag, parse_etag, etag_matches}
use panda_server.Domain.Etag.Decimal.{parse_u64}
use panda_server.Domain.Etag.RoundTrip.{
  parse_etag-format_etag, etag_matches-format_etag_iff, etag_matches_unique,
}
use panda_server.Domain.Markdown.{normalize_markdown, derive_excerpt}
use panda_server.Domain.Markdown.Links.{strip_md_links}
use panda_server.Domain.Markdown.Links.Stripped.{link_body, strip_md_links-append}
use panda_server.Domain.Markdown.Normal.{
  IsNormal, to_crlf, normalize_markdown-IsNormal, normalize_markdown_idem,
  normalize_markdown-to_crlf,
}
use panda_server.Domain.Markdown.Excerpt.{char_count-derive_excerpt-le}

parse_etag-format_etag_example :
    parse_etag (format_etag 42 "0123456789abcdef01")
    ≡ some (record { revision = 42; hash_prefix = take_chars 16 "0123456789abcdef01" })
parse_etag-format_etag_example =
    parse_etag-format_etag 42 "0123456789abcdef01" (omega arith)
      (ground (arith, eq_iff "0123456789abcdef01" ""))

etag_matches-format_etag_iff_example :
    (etag_matches (format_etag 42 "0123456789abcdef01") 43 "0123456789abcdef01" ≡ true) ↔ (
      (◌≡◌ {A = ℕ} 42 43)
      × (starts_with "0123456789abcdef01" (take_chars 16 "0123456789abcdef01") ≡ true))
etag_matches-format_etag_iff_example =
    etag_matches-format_etag_iff 42 "0123456789abcdef01" 43 "0123456789abcdef01" (omega arith)
      (ground (arith, eq_iff "0123456789abcdef01" ""))

etag_matches_unique_example : ◌≡◌ {A = ℕ} 7 7
unfolding etag_matches parse_etag split_once parse_u64
etag_matches_unique_example = etag_matches_unique "7:ab" 7 7 "abcd" "abef" refl refl

normalize_markdown-IsNormal_example : IsNormal (normalize_markdown "a\r\nb")
normalize_markdown-IsNormal_example = normalize_markdown-IsNormal "a\r\nb"

normalize_markdown_idem_example :
    normalize_markdown (normalize_markdown "a\r\nb") ≡ normalize_markdown "a\r\nb"
normalize_markdown_idem_example = normalize_markdown_idem "a\r\nb"

normalize_markdown-to_crlf_example : normalize_markdown (to_crlf "a\nb") ≡ normalize_markdown "a\nb"
unfolding contains_char
normalize_markdown-to_crlf_example = normalize_markdown-to_crlf "a\nb" refl

strip_md_links-append_example :
    (strip_md_links (String.◌++◌ "see " ("[" ∷ link_body "it" "x" " or [that](y)"))
      ≡ String.◌++◌ "see " (String.◌++◌ "it" (strip_md_links " or [that](y)")))
    × (strip_md_links (String.◌++◌ "see " ("!" ∷ ("[" ∷ link_body "it" "x" " or [that](y)")))
        ≡ String.◌++◌ "see " (String.◌++◌ "it" (strip_md_links " or [that](y)")))
strip_md_links-append_example =
    strip_md_links-append "see " "it" "x" " or [that](y)" refl refl refl refl

char_count-derive_excerpt-le_example : char_count (derive_excerpt "# one two" 5) ≤ 5 + 3
char_count-derive_excerpt-le_example = char_count-derive_excerpt-le "# one two" 5
