-- ===== src/Domain/Etag/Decimal.antt =====
-- The decimal form of a `u64` as the standard library prints and parses it.
use Prim.Native.String.{[], ◌∷◌}
use text.Mathlib.TextLemmas.{cons-ne-nil}
use panda_server.Prelude.{
  ℕ, zero, suc, ◌+◌, ◌*◌, ◌-◌, ◌/◌, ◌%◌, ◌^◌, ◌<◌, ◌≡◌, ◌≢◌, refl, Char, code, String, Bool, true,
  false, ◌&&◌, Option, none, some, arith, eqb, leb, ltb, if◌then◌else◌, Bool-cases, inl, inr, ◌∙◌,
  ap, eqb_iff,
}

abbrev pub u64_mod : ℕ
u64_mod = 2 ^ 64

digit_char : ℕ → Char
digit_char zero = "0"
digit_char (suc zero) = "1"
digit_char (suc (suc zero)) = "2"
digit_char (suc (suc (suc zero))) = "3"
digit_char (suc (suc (suc (suc zero)))) = "4"
digit_char (suc (suc (suc (suc (suc zero))))) = "5"
digit_char (suc (suc (suc (suc (suc (suc zero)))))) = "6"
digit_char (suc (suc (suc (suc (suc (suc (suc zero))))))) = "7"
digit_char (suc (suc (suc (suc (suc (suc (suc (suc zero)))))))) = "8"
digit_char _ = "9"

-- The digits of `n` in front of `out`. Fuel `suc n` is enough, since each round divides by ten.
print_digits : ℕ → ℕ → String → String
print_digits zero n out = out
print_digits (suc fuel) n out =
    let longer = digit_char (n % 10) ∷ out in
    let rest = print_digits fuel (n / 10) longer in if eqb (n / 10) 0 then longer else rest

-- `format!("{n}")`
unfoldable pub print_u64 : ℕ → String
unfolding print_digits digit_char
print_u64 n = print_digits (suc n) n ""

pub is_digit : Char → Bool
is_digit c = leb b'0' (code c) && leb (code c) b'9'

-- `checked_mul(10)` and `checked_add(d)` at each digit
parse_digits : ℕ → String → Option ℕ
parse_digits acc [] = some acc
parse_digits acc (c ∷ s) =
    let next = acc * 10 + (code c - b'0') in
    let rest = parse_digits next s in
    if is_digit c then (if ltb next u64_mod then rest else none) else none

-- `s.parse::<u64>().ok()`: one leading '+' is allowed, an empty number is not
unfoldable pub parse_u64 : String → Option ℕ
unfolding parse_digits is_digit
parse_u64 [] = none
parse_u64 (c ∷ []) = parse_digits 0 (c ∷ [])
parse_u64 (c ∷ d ∷ s) =
    if eqb (code c) b'+' then parse_digits 0 (d ∷ s) else parse_digits 0 (c ∷ d ∷ s)

code-digit_char : (k : ℕ) → k < 10 → code (digit_char k) ≡ 48 + k
unfolding digit_char
code-digit_char zero h = refl
code-digit_char (suc zero) h = refl
code-digit_char (suc (suc zero)) h = refl
code-digit_char (suc (suc (suc zero))) h = refl
code-digit_char (suc (suc (suc (suc zero)))) h = refl
code-digit_char (suc (suc (suc (suc (suc zero))))) h = refl
code-digit_char (suc (suc (suc (suc (suc (suc zero)))))) h = refl
code-digit_char (suc (suc (suc (suc (suc (suc (suc zero))))))) h = refl
code-digit_char (suc (suc (suc (suc (suc (suc (suc (suc zero)))))))) h = refl
code-digit_char (suc (suc (suc (suc (suc (suc (suc (suc (suc k))))))))) h =
    let e : k ≡ 0 = omega arith in rw e

is_digit-digit_char : (k : ℕ) → k < 10 → is_digit (digit_char k) ≡ true
unfolding is_digit
is_digit-digit_char k h = ground (arith, code-digit_char k h)

parse_digits-digit_char :
    (acc k : ℕ) (s : String)
    → k < 10
    → acc * 10 + k < u64_mod
    → parse_digits acc (digit_char k ∷ s) ≡ parse_digits (acc * 10 + k) s
unfolding parse_digits
parse_digits-digit_char acc k s h fits =
    rw (is_digit-digit_char k h, code-digit_char k h)
      (let e : 48 + k - 48 ≡ k = omega arith in rw e (ground arith))

one_digit : (n : ℕ) → eqb (n / 10) 0 ≡ true → 0 * 10 + n % 10 ≡ n
one_digit n h = let e = (eqb_iff (n / 10) 0).0 h in omega arith

parse_digits-print_digits :
    (fuel n : ℕ) (out : String)
    → n < fuel
    → n < u64_mod
    → parse_digits 0 (print_digits fuel n out) ≡ parse_digits n out
unfolding print_digits
parse_digits-print_digits zero n out h fits = absurd (omega arith)
parse_digits-print_digits (suc fuel) n out h fits = elim (Bool-cases (eqb (n / 10) 0)) [
  | inl last ↦ rw last (
      parse_digits-digit_char 0 (n % 10) out (omega arith) (omega arith)
      ∙ ap (λ k. parse_digits k out) (one_digit n last))
  | inr more ↦ rw more (
      parse_digits-print_digits fuel (n / 10) _ (ground arith) (omega arith)
      ∙ parse_digits-digit_char (n / 10) (n % 10) out (omega arith) (omega arith)
      ∙ ap (λ k. parse_digits k out) (omega arith))
]

-- Every character is a digit.
abbrev pub AllDigits : String → Type 0
AllDigits [] = Unit
AllDigits (c ∷ s) = (is_digit c ≡ true) × AllDigits s

print_digits-AllDigits :
    (fuel n : ℕ) (out : String) → AllDigits out → AllDigits (print_digits fuel n out)
unfolding print_digits
print_digits-AllDigits zero n out h = h
print_digits-AllDigits (suc fuel) n out h =
    let d = is_digit-digit_char (n % 10) (omega arith) in
    elim (Bool-cases (eqb (n / 10) 0)) [
      | inl last ↦ rw last (d, h)
      | inr more ↦ rw more (print_digits-AllDigits fuel (n / 10) (digit_char (n % 10) ∷ out) (d, h))
    ]

pub print_u64-AllDigits : (n : ℕ) → AllDigits (print_u64 n)
unfolding print_u64
print_u64-AllDigits n = print_digits-AllDigits (suc n) n "" tt

-- A sign is read only in front of a digit, so a number without one is read digit by digit.
parse_u64_of_AllDigits : (s : String) → AllDigits s → s ≢ "" → parse_u64 s ≡ parse_digits 0 s
unfolding parse_u64
parse_u64_of_AllDigits [] h ne = absurd (ne refl)
parse_u64_of_AllDigits (c ∷ []) h ne = refl
parse_u64_of_AllDigits (c ∷ d ∷ s) h ne = ground arith

print_digits-ne-empty : (fuel n : ℕ) (out : String) → out ≢ "" → print_digits fuel n out ≢ ""
unfolding print_digits
print_digits-ne-empty zero n out h = h
print_digits-ne-empty (suc fuel) n out h = elim (Bool-cases (eqb (n / 10) 0)) [
  | inl last ↦ rw last (cons-ne-nil _ _)
  | inr more ↦ rw more (print_digits-ne-empty fuel (n / 10) _ (cons-ne-nil _ _))
]

print_u64-ne-empty : (n : ℕ) → print_u64 n ≢ ""
unfolding print_u64
print_u64-ne-empty n = elim (Bool-cases (eqb (n / 10) 0)) [
  | inl last ↦ rw last (cons-ne-nil _ _)
  | inr more ↦ rw more (print_digits-ne-empty n (n / 10) _ (cons-ne-nil _ _))
]

parse_digits-print_u64 : (n : ℕ) → n < u64_mod → parse_digits 0 (print_u64 n) ≡ some n
unfolding print_u64 parse_digits
parse_digits-print_u64 n h = parse_digits-print_digits (suc n) n "" (omega arith) h

-- A printed `u64` reads back.
pub parse_u64-print_u64 : (n : ℕ) → n < u64_mod → parse_u64 (print_u64 n) ≡ some n
parse_u64-print_u64 n h =
    parse_u64_of_AllDigits _ (print_u64-AllDigits n) (print_u64-ne-empty n)
    ∙ parse_digits-print_u64 n h

pub digit-ne-colon : (c : Char) → is_digit c ≡ true → eqb (code c) b':' ≡ false
unfolding is_digit
digit-ne-colon c h = ground arith
