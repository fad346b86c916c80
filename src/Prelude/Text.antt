-- ===== src/Prelude/Text.antt =====
-- The methods of `str` in Rust's standard library that the source uses, over texts as lists of
-- Unicode scalar values.
use Prim.Native.String
use Prim.Native.String.{[], ◌∷◌}
use Prim.Native.Nat.{ℕ, suc, ◌+◌}
use Prim.Native.Char.{Char, code}
use Prim.Native.String.{String}
use mathlib.Core.Bool.{Bool, true, false, not, ◌&&◌, ◌||◌}
use mathlib.Core.Option.{Option, none, some}
use mathlib.Core.List.{List}
use mathlib.Core.Path.{◌≡◌}
use native.Mathlib.Omega.{arith}
use text.Mathlib.TextLemmas.{nil-append, cons-append}
use panda_server.Prelude.Tests.{eqb, leb, if◌then◌else◌}

-- `s.chars().count()`
abbrev pub char_count : String → ℕ
char_count [] = 0
char_count (c ∷ s) = suc (char_count s)

abbrev pub is_empty : String → Bool
is_empty [] = true
is_empty (c ∷ s) = false

-- Whether the next character has this code.
abbrev pub next_is : ℕ → String → Bool
next_is n [] = false
next_is n (c ∷ s) = eqb (code c) n

abbrev pub tail : String → String
tail [] = []
tail (c ∷ s) = s

-- `char::is_whitespace`, Unicode's White_Space
unfoldable pub is_whitespace : Char → Bool
is_whitespace c =
    let n = code c in
    leb 9 n && leb n 13
    || eqb n 32
    || eqb n 133
    || eqb n 160
    || eqb n 5760
    || leb 8192 n && leb n 8202
    || eqb n 8232
    || eqb n 8233
    || eqb n 8239
    || eqb n 8287
    || eqb n 12288

unfoldable pub trim_start : String → String
unfolding is_whitespace
trim_start [] = []
trim_start (c ∷ s) = if is_whitespace c then trim_start s else c ∷ s

pub trim_end : String → String
unfolding is_whitespace
trim_end [] = []
trim_end (c ∷ s) =
    let rest = trim_end s in if is_whitespace c && is_empty rest then [] else c ∷ rest

unfoldable pub trim : String → String
unfolding trim_start trim_end
trim s = trim_end (trim_start s)

onto_first : Char → List String → List String
onto_first c List.[] = List.◌∷◌ (c ∷ []) List.[]
onto_first c (List.◌∷◌ l ls) = List.◌∷◌ (c ∷ l) ls

-- `s.lines()`: a line ends at "\n" or "\r\n", and an empty last line is left out
unfoldable pub lines : String → List String
unfolding onto_first
lines [] = List.[]
lines (c ∷ s) =
    let rest = lines s in
    if eqb (code c) 10
    then List.◌∷◌ [] rest
    else if eqb (code c) 13 && next_is 10 s
    then rest
    else onto_first c rest

split_words : String → String → List String
split_words cur [] = if is_empty cur then List.[] else List.◌∷◌ cur List.[]
split_words cur (c ∷ s) =
    let space = is_whitespace c in
    let rest = split_words (if space then [] else String.◌++◌ cur (c ∷ [])) s in
    if space && not (is_empty cur) then List.◌∷◌ cur rest else rest

unfoldable pub split_whitespace : String → List String
unfolding split_words is_whitespace
split_whitespace s = split_words [] s

-- `parts.join(sep)`
unfoldable pub join : String → List String → String
join sep List.[] = []
join sep (List.◌∷◌ p List.[]) = p
join sep (List.◌∷◌ p (List.◌∷◌ q ps)) = String.◌++◌ p (String.◌++◌ sep (join sep (List.◌∷◌ q ps)))

unfoldable pub strip_prefix : String → String → Option String
strip_prefix [] s = some s
strip_prefix (p ∷ ps) [] = none
strip_prefix (p ∷ ps) (c ∷ s) = if eqb (code p) (code c) then strip_prefix ps s else none

-- `s.replace(c, "")` and `s.replace(c, d)` of one character
unfoldable pub without_char : ℕ → String → String
without_char n [] = []
without_char n (c ∷ s) = let rest = without_char n s in if eqb (code c) n then rest else c ∷ rest

unfoldable pub replace_char : ℕ → Char → String → String
replace_char n d [] = []
replace_char n d (c ∷ s) = (if eqb (code c) n then d else c) ∷ replace_char n d s

unfoldable pub contains_char : ℕ → String → Bool
contains_char n [] = false
contains_char n (c ∷ s) = eqb (code c) n || contains_char n s

-- `s.replace("\r\n", "\n")`: the matches from the left, which cannot overlap
unfoldable pub replace_crlf : String → String
replace_crlf [] = []
replace_crlf (c ∷ s) =
    let rest = replace_crlf s in if eqb (code c) 13 && next_is 10 s then rest else c ∷ rest

pub char_count-append : (s t : String) → char_count (String.◌++◌ s t) ≡ char_count s + char_count t
char_count-append [] t = rw nil-append (omega arith)
char_count-append (c ∷ s) t = rw cons-append (omega (arith, char_count-append s t))
