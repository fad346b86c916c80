-- ===== src/Domain/Etag/RoundTrip.antt =====
-- Etags read back as they were written (crates/domain/src/etag.rs).
use Prim.Native.String
use Prim.Native.String.{[], ◌∷◌}
use text.Mathlib.Text.{starts_with}
use text.Mathlib.TextPositions.{starts_with-append}
use text.Mathlib.TextLemmas.{nil-append, cons-append, cons-ne-nil}
use panda_server.Prelude.{
  ℕ, zero, suc, ◌<◌, ◌≡◌, ◌≢◌, ◌↔◌, refl, ap, subst, String, true, false, some, arith, ◌==◌, eq_iff,
  eqb_iff,
}
use panda_server.Domain.Etag.{take_chars, split_once, format_etag, parse_etag, etag_matches}
use panda_server.Domain.Etag.Decimal.{
  u64_mod, AllDigits, print_u64, print_u64-AllDigits, parse_u64-print_u64, digit-ne-colon,
}

split_once-append :
    (s t : String) → AllDigits s → split_once b':' (String.◌++◌ s (String.◌++◌ ":" t)) ≡ some (s, t)
unfolding split_once
split_once-append [] t h = rw (nil-append, cons-append, nil-append)
split_once-append (c ∷ s) t h = rw (cons-append, digit-ne-colon c h.0, split_once-append s t h.1)

take_chars-ne-empty : (n : ℕ) (s : String) → s ≢ "" → take_chars (suc n) s ≢ ""
unfolding take_chars
take_chars-ne-empty n [] h = h
take_chars-ne-empty n (c ∷ s) h = cons-ne-nil _ _

drop_chars : ℕ → String → String
drop_chars zero s = s
drop_chars (suc n) [] = []
drop_chars (suc n) (c ∷ s) = drop_chars n s

take_chars-append-drop_chars :
    (n : ℕ) (s : String) → String.◌++◌ (take_chars n s) (drop_chars n s) ≡ s
unfolding take_chars drop_chars
take_chars-append-drop_chars zero s = nil-append s
take_chars-append-drop_chars (suc n) [] = nil-append ""
take_chars-append-drop_chars (suc n) (c ∷ s) =
    rw cons-append (ap (λ t. c ∷ t) (take_chars-append-drop_chars n s))

starts_with-take_chars : (n : ℕ) (s : String) → starts_with s (take_chars n s) ≡ true
starts_with-take_chars n s =
    subst (λ t. starts_with t (take_chars n s) ≡ true) (take_chars-append-drop_chars n s)
      (starts_with-append (take_chars n s) (drop_chars n s))

eq-empty-false : (s : String) → s ≢ "" → (s == "") ≡ false
eq-empty-false s h = ground (arith, eq_iff s "")

-- An etag written for a revision that fits in 64 bits and a hash that is not empty reads back as
-- that revision and the first 16 characters of the hash.
pub parse_etag-format_etag :
    (revision : ℕ) (content_hash : String)
    → revision < u64_mod
    → content_hash ≢ ""
    → parse_etag (format_etag revision content_hash)
      ≡ some (record { revision = revision; hash_prefix = take_chars 16 content_hash })
unfolding parse_etag format_etag
parse_etag-format_etag revision content_hash fits ne = rw (
  split_once-append (print_u64 revision) (take_chars 16 content_hash)
      (print_u64-AllDigits revision),
  parse_u64-print_u64 revision fits,
  eq-empty-false _ (take_chars-ne-empty 15 content_hash ne),
  parse_etag,
)

-- The etag of a saved revision matches a stored revision and hash exactly when the revisions are
-- equal and the stored hash begins with the first 16 characters of the saved one.
pub etag_matches-format_etag_iff :
    (revision : ℕ) (content_hash : String) (stored : ℕ) (stored_hash : String)
    → revision < u64_mod
    → content_hash ≢ ""
    → (etag_matches (format_etag revision content_hash) stored stored_hash ≡ true)
      ↔ ((revision ≡ stored) × (starts_with stored_hash (take_chars 16 content_hash) ≡ true))
unfolding etag_matches
etag_matches-format_etag_iff revision content_hash stored stored_hash fits ne =
    rw
      (
        parse_etag-format_etag revision content_hash fits ne,
        eq-empty-false _ (take_chars-ne-empty 15 content_hash ne),
        etag_matches,
      )
      (ground (arith, eqb_iff revision stored))

-- The etag that the server stores for a revision is accepted as the precondition of that revision.
pub etag_matches-format_etag :
    (revision : ℕ) (content_hash : String)
    → revision < u64_mod
    → content_hash ≢ ""
    → etag_matches (format_etag revision content_hash) revision content_hash ≡ true
etag_matches-format_etag revision content_hash fits ne =
    (etag_matches-format_etag_iff revision content_hash revision content_hash fits ne).1
      (refl, starts_with-take_chars 16 content_hash)

-- One text cannot be the etag of two revisions.
pub etag_matches_unique :
    (etag : String) (r₁ r₂ : ℕ) (h₁ h₂ : String)
    → etag_matches etag r₁ h₁ ≡ true
    → etag_matches etag r₂ h₂ ≡ true
    → r₁ ≡ r₂
unfolding etag_matches
etag_matches_unique etag r₁ r₂ h₁ h₂ p q = ground arith
