-- ===== src/Domain/Markdown/Links/Stripped.antt =====
-- What `strip_md_links` of crates/domain/src/markdown.rs leaves of a link and of an image.
use Prim.Native.String
use Prim.Native.String.{[], ◌∷◌}
use text.Mathlib.TextLemmas.{nil-append, cons-append}
use panda_server.Prelude.{◌≡◌, refl, ap, ◌∙◌, String, code, true, false, arith, eqb}
use panda_server.Prelude.Text.{tail}
use panda_server.Domain.Markdown.Links.{
  until, link_rest, strip_md_links, strip_md_links-cons, lacks, until-append,
}

-- A text without "[" and "!" is kept.
strip-plain :
    (p s : String)
    → lacks b'[' p ≡ true
    → lacks b'!' p ≡ true
    → strip_md_links (String.◌++◌ p s) ≡ String.◌++◌ p (strip_md_links s)
strip-plain [] s h k = rw (nil-append, nil-append)
strip-plain (c ∷ p) s h k =
    let no_link : eqb (code c) b'[' ≡ false = ground arith in
    let no_image : eqb (code c) b'!' ≡ false = ground arith in
    rw (cons-append, cons-append, strip_md_links-cons, no_image, no_link)
      (ap (λ u. c ∷ u) (strip-plain p s (ground arith) (ground arith)))

-- What stands behind the "[" of a link.
abbrev pub link_body : String → String → String → String
link_body text url rest = String.◌++◌ text ("]" ∷ ("(" ∷ String.◌++◌ url (")" ∷ rest)))

module _ (text url rest : String) (in_text : lacks b']' text ≡ true)
    (in_url : lacks b')' url ≡ true) where
  until-link_body : until b']' (link_body text url rest) ≡ text
  until-link_body = (until-append b']' text "]" _ in_text refl).0

  link_rest-link_body : link_rest (link_body text url rest) ≡ rest
  unfolding link_rest
  link_rest-link_body =
      rw ((until-append b']' text "]" ("(" ∷ String.◌++◌ url (")" ∷ rest)) in_text refl).1)
        (ap tail (until-append b')' url ")" rest in_url refl).1)

  strip-link :
      strip_md_links ("[" ∷ link_body text url rest) ≡ String.◌++◌ text (strip_md_links rest)
  strip-link = rw strip_md_links-cons (rw (until-link_body, link_rest-link_body) refl)

  strip-image :
      strip_md_links ("!" ∷ ("[" ∷ link_body text url rest))
      ≡ String.◌++◌ text (strip_md_links rest)
  strip-image = rw strip_md_links-cons (rw (until-link_body, link_rest-link_body) refl)

-- Of a text without "[" and "!", followed by a link, `[text](url)`, or an image, `![text](url)`, and any
-- rest, what stays is the text in front, the text of the link and what is left of the rest, in this
-- order, and the url goes; the text of the link has no "]", and its url no ")".
pub strip_md_links-append :
    (front text url rest : String)
    → lacks b'[' front ≡ true
    → lacks b'!' front ≡ true
    → lacks b']' text ≡ true
    → lacks b')' url ≡ true
    → (strip_md_links (String.◌++◌ front ("[" ∷ link_body text url rest))
        ≡ String.◌++◌ front (String.◌++◌ text (strip_md_links rest)))
      × (strip_md_links (String.◌++◌ front ("!" ∷ ("[" ∷ link_body text url rest)))
          ≡ String.◌++◌ front (String.◌++◌ text (strip_md_links rest)))
strip_md_links-append front text url rest h k in_text in_url = (
  strip-plain front ("[" ∷ link_body text url rest) h k
      ∙ ap (String.◌++◌ front) (strip-link text url rest in_text in_url),
  strip-plain front ("!" ∷ ("[" ∷ link_body text url rest)) h k
      ∙ ap (String.◌++◌ front) (strip-image text url rest in_text in_url),
)
