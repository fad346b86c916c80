-- ===== src/Domain/Etag.antt =====
-- crates/domain/src/etag.rs. Texts are native strings, lists of Unicode scalar values.
pub mod Decimal
pub mod RoundTrip
use text.Mathlib.Text.{starts_with}
use Prim.Native.String
use Prim.Native.String.{[], ◌∷◌}
use mathlib.Core.Option
use panda_server.Prelude.{
  ℕ, zero, suc, String, code, Bool, false, not, ◌&&◌, Option, none, some, ◌==◌, eqb, if◌then◌else◌,
}
use panda_server.Domain.Etag.Decimal.{print_u64, parse_u64}

pub record ETag : Type 0 where
  pub revision : ℕ
  pub hash_prefix : String

-- `s.chars().take(n).collect()`
unfoldable pub take_chars : ℕ → String → String
take_chars zero s = []
take_chars (suc n) [] = []
take_chars (suc n) (c ∷ s) = c ∷ take_chars n s

-- `s.split_once(sep)`, at the first separator
unfoldable pub split_once : ℕ → String → Option (String × String)
split_once sep [] = none
split_once sep (c ∷ s) =
    if eqb (code c) sep then some ([], s) else Option.map (λ p. (c ∷ p.0, p.1)) (split_once sep s)

unfoldable pub format_etag : ℕ → String → String
format_etag revision content_hash =
    String.◌++◌ (print_u64 revision) (String.◌++◌ ":" (take_chars 16 content_hash))

abbrev parsed : String → Option ℕ → Option ETag
parsed prefix none = none
parsed prefix (some revision) =
    if prefix == "" then none else some (record { revision = revision; hash_prefix = prefix })

unfoldable pub parse_etag : String → Option ETag
parse_etag etag = elim (split_once b':' etag) [
  | none ↦ none
  | some (rev, prefix) ↦ parsed prefix (parse_u64 rev)
]

unfoldable pub etag_matches : String → ℕ → String → Bool
etag_matches etag revision content_hash = elim (parse_etag etag) [
  | none ↦ false
  | some e ↦
      eqb e.revision revision && starts_with content_hash e.hash_prefix && not (e.hash_prefix == "")
]
