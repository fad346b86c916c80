-- ===== src/Prelude/Tests.antt =====
-- Boolean tests on the native numbers, the conditional, options and the `i64` of the source.
use Prim.Native.Nat.{ℕ, ◌≤◌, ◌<◌, compare, Ordering, min, max}
use Prim.Native.String.{String}
use mathlib.Core.Path.{◌≡◌, refl}
use mathlib.Core.Logic.{◌↔◌, ◌⊎◌, inl, inr}
use mathlib.Core.Bool.{Bool, true, false}
use mathlib.Core.Option.{Option, none, some}
use native.Mathlib.Omega.{arith}
use text.Mathlib.Text.{◌==◌}
use text.Mathlib.TextEquality.{eq_iff}

-- These compute to `compare`, which the tactics read with no lemma listed.
abbrev pub ltb : ℕ → ℕ → Bool
ltb a b = elim (compare a b) [ Ordering.lt ↦ true | _ ↦ false ]

abbrev pub leb : ℕ → ℕ → Bool
leb a b = elim (compare a b) [ Ordering.gt ↦ false | _ ↦ true ]

abbrev pub eqb : ℕ → ℕ → Bool
eqb a b = elim (compare a b) [ Ordering.eq ↦ true | _ ↦ false ]

infix 1 if◌then◌else◌
abbrev pub if◌then◌else◌ {ℓ} : {A : Type ℓ} → Bool → A → A → A
if true then x else y = x
if false then x else y = y

pub ltb→lt : (a b : ℕ) → ltb a b ≡ true → a < b
ltb→lt a b h = ground arith

pub leb→le : (a b : ℕ) → leb a b ≡ true → a ≤ b
leb→le a b h = ground arith

pub eqb_iff : (a b : ℕ) → (eqb a b ≡ true) ↔ (a ≡ b)
eqb_iff a b = ground arith

-- To split on a computed value and keep the equation.
pub Bool-cases : (b : Bool) → (b ≡ true) ⊎ (b ≡ false)
Bool-cases true = inl refl
Bool-cases false = inr refl

pub Option-cases {ℓ} : {A : Type ℓ} (o : Option A) → (o ≡ none) ⊎ ((a : A) × (o ≡ some a))
Option-cases none = inl refl
Option-cases (some a) = inr (a, refl)

abbrev pub is_some {ℓ} : {A : Type ℓ} → Option A → Bool
is_some none = false
is_some (some a) = true

-- `o.unwrap_or(d)`
abbrev pub unwrap_or {ℓ} : {A : Type ℓ} → Option A → A → A
unwrap_or none d = d
unwrap_or (some a) d = a

-- `o.or(p)`
abbrev pub or_option {ℓ} : {A : Type ℓ} → Option A → Option A → Option A
or_option none p = p
or_option (some a) p = some a

-- SQL's `a IS b` on nullable texts.
abbrev pub is_same : Option String → Option String → Bool
is_same none none = true
is_same (some a) (some b) = a == b
is_same none (some b) = false
is_same (some a) none = false

pub is_same_iff : (a b : Option String) → (is_same a b ≡ true) ↔ (a ≡ b)
is_same_iff none none = ground arith
is_same_iff (some a) (some b) = ground (arith, eq_iff a b)
is_same_iff none (some b) = ground arith
is_same_iff (some a) none = ground arith

-- A signed machine integer; `negsuc n` is -(n + 1).
pub data ℤ : Type 0 where
  pos : ℕ → ℤ
  negsuc : ℕ → ℤ

-- `v.clamp(lo, hi)` of an `i64`, for bounds that are natural numbers.
abbrev pub clamp : ℤ → ℕ → ℕ → ℕ
clamp (negsuc n) lo hi = lo
clamp (pos n) lo hi = max lo (min n hi)
