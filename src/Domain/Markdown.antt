-- ===== src/Domain/Markdown.antt =====
-- crates/domain/src/markdown.rs: normal form, plain text and excerpt of a note.
pub mod Links
pub mod Normal
pub mod Excerpt
use Prim.Native.String
use text.Mathlib.Text.{starts_with}
use panda_server.Prelude.{
  ℕ, String, Bool, true, false, not, Option, none, some, List, [], ◌∷◌, leb, if◌then◌else◌,
}
use panda_server.Prelude.Text.{
  char_count, trim_start, lines, split_whitespace, join, strip_prefix, without_char, replace_char,
  contains_char, replace_crlf,
}
use panda_server.Domain.Etag.{take_chars}
use panda_server.Domain.Markdown.Links.{strip_md_links}

unfoldable pub normalize_markdown : String → String
normalize_markdown input =
    let s = replace_char 13 "\n" (replace_crlf input) in
    if contains_char 0 s then without_char 0 s else s

first_prefix : List String → String → String
first_prefix [] l = l
first_prefix (p ∷ ps) l = elim (strip_prefix p l) [ none ↦ first_prefix ps l | some rest ↦ rest ]

abbrev block_prefixes : List String
block_prefixes = "# " ∷ "## " ∷ "### " ∷ "#### " ∷ "##### " ∷ "###### " ∷ "> " ∷ "- " ∷ "* " ∷ []

plain_lines : Bool → List String → String
plain_lines in_fence [] = ""
plain_lines in_fence (line ∷ ls) =
    let fence = starts_with (trim_start line) "```" in
    let rest = plain_lines (if fence then not in_fence else in_fence) ls in
    if fence
    then rest
    else if in_fence
    then String.◌++◌ line (String.◌++◌ "\n" rest)
    else String.◌++◌ (strip_md_links (first_prefix block_prefixes line)) (String.◌++◌ "\n" rest)

unfoldable pub derive_plain_text : String → String
unfolding plain_lines first_prefix
derive_plain_text markdown = plain_lines false (lines markdown)

unfoldable pub derive_excerpt : String → ℕ → String
derive_excerpt markdown max_chars =
    let collapsed = join " " (split_whitespace (derive_plain_text markdown)) in
    if leb (char_count collapsed) max_chars
    then collapsed
    else String.◌++◌ (take_chars max_chars collapsed) "..."
