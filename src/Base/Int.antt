-- ===== src/Base/Int.antt =====
-- Signed integers over the native numbers, with C++'s division, and the int64_t range.
use Prim.Native.Nat.{ℕ, zero, suc, ◌+◌, ◌-◌, ◌*◌, ◌/◌, ◌%◌, ◌^◌, ◌≤◌, ◌<◌}
use native.Mathlib.Nat.{div-add-mod}
use mathlib.Core.Path.{◌≡◌, refl, ap}
use mathlib.Core.Bool.{Bool}
use native.Mathlib.Omega.{arith}
use tickline.Base.Tests.{ltb, leb, if◌then◌else◌}

-- `negsuc n` is -(n + 1).
pub data ℤ : Type 0 where
  pos : ℕ → ℤ
  negsuc : ℕ → ℤ

abbrev pub pos_part : ℤ → ℕ
pos_part (pos n) = n
pos_part (negsuc n) = 0

abbrev pub neg_part : ℤ → ℕ
neg_part (pos n) = 0
neg_part (negsuc n) = suc n

-- a - b, as an integer.
abbrev pub sub_ℕ : ℕ → ℕ → ℤ
sub_ℕ a b = if leb b a then pos (a - b) else negsuc (b - a - 1)

infixl 65 ◌+ℤ◌ ◌-ℤ◌
infixl 70 ◌*ℤ◌
infix 50 ◌≤ℤ◌
unfoldable pub ◌+ℤ◌ : ℤ → ℤ → ℤ
a +ℤ b = sub_ℕ (pos_part a + pos_part b) (neg_part a + neg_part b)

unfoldable pub ◌-ℤ◌ : ℤ → ℤ → ℤ
a -ℤ b = sub_ℕ (pos_part a + neg_part b) (neg_part a + pos_part b)

unfoldable pub ◌*ℤ◌ : ℤ → ℤ → ℤ
a *ℤ b =
    sub_ℕ (pos_part a * pos_part b + neg_part a * neg_part b)
      (pos_part a * neg_part b + neg_part a * pos_part b)

unfoldable pub negate : ℤ → ℤ
negate a = sub_ℕ (neg_part a) (pos_part a)

-- The quotient is truncated towards zero, and the remainder has the dividend's sign.
unfoldable pub quot : ℤ → ℤ → ℤ
quot a b =
    sub_ℕ (pos_part a / pos_part b + neg_part a / neg_part b)
      (pos_part a / neg_part b + neg_part a / pos_part b)

unfoldable pub rem : ℤ → ℤ → ℤ
unfolding ◌-ℤ◌ ◌*ℤ◌ quot
rem a b = a -ℤ quot a b *ℤ b

abbrev pub ◌≤ℤ◌ : ℤ → ℤ → Type 0
a ≤ℤ b = pos_part a + neg_part b ≤ pos_part b + neg_part a

abbrev pub ltb_ℤ : ℤ → ℤ → Bool
ltb_ℤ a b = ltb (pos_part a + neg_part b) (pos_part b + neg_part a)

abbrev pub leb_ℤ : ℤ → ℤ → Bool
leb_ℤ a b = leb (pos_part a + neg_part b) (pos_part b + neg_part a)

-- std::numeric_limits<std::int64_t>
abbrev pub i64_max : ℤ
i64_max = pos (2 ^ 63 - 1)

abbrev pub i64_min : ℤ
i64_min = negsuc (2 ^ 63 - 1)

-- The values of an int64_t.
abbrev pub IsI64 : ℤ → Type 0
IsI64 a = (pos_part a < 2 ^ 63) × (neg_part a ≤ 2 ^ 63)

pub +ℤ_parts :
    (a b : ℤ)
    → pos_part (a +ℤ b) + neg_part a + neg_part b ≡ neg_part (a +ℤ b) + pos_part a + pos_part b
unfolding ◌+ℤ◌
+ℤ_parts a b = ground arith

pub -ℤ_parts :
    (a b : ℤ)
    → pos_part (a -ℤ b) + neg_part a + pos_part b ≡ neg_part (a -ℤ b) + pos_part a + neg_part b
unfolding ◌-ℤ◌
-ℤ_parts a b = ground arith

pub negate_parts : (a : ℤ) → (pos_part (negate a) ≡ neg_part a) × (neg_part (negate a) ≡ pos_part a)
unfolding negate
negate_parts (pos n) = ground arith
negate_parts (negsuc n) = ground arith

pub +ℤ_bound :
    (a b : ℤ)
    → (pos_part (a +ℤ b) ≤ pos_part a + pos_part b) × (neg_part (a +ℤ b) ≤ neg_part a + neg_part b)
unfolding ◌+ℤ◌
+ℤ_bound a b = ground arith

-- At most one part of an integer is not zero.
pub one_part : (a : ℤ) → pos_part a * neg_part a ≡ 0
one_part (pos n) = omega arith
one_part (negsuc n) = omega arith

pub eq_of_parts : (a b : ℤ) → pos_part a + neg_part b ≡ pos_part b + neg_part a → a ≡ b
eq_of_parts a b h = ground arith

pub pos-pos_part : (a : ℤ) → neg_part a ≡ 0 → a ≡ pos (pos_part a)
pos-pos_part (pos n) h = refl
pos-pos_part (negsuc n) h = absurd (omega arith)

pub ruleset int_laws = (arith, +ℤ_parts, -ℤ_parts, eq_of_parts)

div_zero : (n : ℕ) → n / 0 ≡ 0
div_zero n = omega arith

-- Division by a positive number divides the magnitude and keeps the sign.
pub quot-pos :
    (a : ℤ) (d : ℕ)
    → 0 < d
    → (pos_part (quot a (pos d)) ≡ pos_part a / d) × (neg_part (quot a (pos d)) ≡ neg_part a / d)
unfolding quot
quot-pos (pos n) d h = ground (arith, div_zero n)
quot-pos (negsuc n) d h = ground (arith, div_zero (suc n))

-- So does multiplication by one.
pub *ℤ-pos :
    (a : ℤ) (d : ℕ)
    → (pos_part (a *ℤ pos d) ≡ pos_part a * d) × (neg_part (a *ℤ pos d) ≡ neg_part a * d)
unfolding ◌*ℤ◌
*ℤ-pos (pos n) d = ground arith
*ℤ-pos (negsuc n) d = ground arith

rem-sub : (a b : ℤ) → rem a b ≡ a -ℤ quot a b *ℤ b
unfolding rem
rem-sub a b = refl

zero_div : (d : ℕ) → 0 / d ≡ 0
zero_div zero = refl
zero_div (suc d) = omega arith

parts_of_negative :
    (k : ℕ) (a : ℤ) → pos_part a + k ≡ neg_part a → (pos_part a ≡ 0) × (neg_part a ≡ k)
parts_of_negative k (pos n) h = omega arith
parts_of_negative k (negsuc n) h = omega arith

rem-positive : (n d : ℕ) → 0 < d → rem (pos n) (pos d) ≡ pos (n % d)
rem-positive n d h = rw (rem-sub (pos n) (pos d)) (
    eq_of_parts _ _ (
      omega (
        arith,
        quot-pos (pos n) d h,
        *ℤ-pos (quot (pos n) (pos d)) d,
        -ℤ_parts (pos n) (quot (pos n) (pos d) *ℤ pos d),
        div-add-mod n d,
        ap (λ (t : ℕ). t * d) (quot-pos (pos n) d h).0,
        ap (λ (t : ℕ). t * d) (quot-pos (pos n) d h).1,
        zero_div d,
      )))

rem-negative :
    (n d : ℕ)
    → 0 < d
    → (pos_part (rem (negsuc n) (pos d)) ≡ 0) × (neg_part (rem (negsuc n) (pos d)) ≡ suc n % d)
rem-negative n d h = rw (rem-sub (negsuc n) (pos d)) (
    parts_of_negative (suc n % d) _ (
      omega (
        arith,
        quot-pos (negsuc n) d h,
        *ℤ-pos (quot (negsuc n) (pos d)) d,
        -ℤ_parts (negsuc n) (quot (negsuc n) (pos d) *ℤ pos d),
        div-add-mod (suc n) d,
        ap (λ (t : ℕ). t * d) (quot-pos (negsuc n) d h).0,
        ap (λ (t : ℕ). t * d) (quot-pos (negsuc n) d h).1,
        zero_div d,
      )))

-- The quotient and the remainder make up the dividend, and the remainder is the smaller.
pub rem-pos :
    (a : ℤ) (d : ℕ)
    → 0 < d
    → (pos_part (rem a (pos d)) ≡ pos_part a % d) × (neg_part (rem a (pos d)) ≡ neg_part a % d)
rem-pos (pos n) d h = rw (rem-positive n d h) (omega arith)
rem-pos (negsuc n) d h = omega (arith, rem-negative n d h)
