-- ===== src/Base/Bits.antt =====
-- `|` at variables: fields that do not overlap are added.
use Prim.Native.Nat.{
  ℕ, zero, suc, ◌+◌, ◌*◌, ◌/◌, ◌^◌, ◌≤◌, ◌<◌, max, bit_or, digits, bit_or-bitwise,
}
use mathlib.Core.Path.{◌≡◌, ap, ◌∙◌}
use native.Mathlib.Nat.{pow-suc}
use native.Mathlib.Omega.{arith}

pub zero-bit_or : (b : ℕ) → bit_or 0 b ≡ b
zero-bit_or b = simp bit_or-bitwise

-- The digits of a number whose last `k` are zeros, joined with those of one that has only `k`.
-- `count` digits are enough for the first number.
digits-field :
    (count k q high low : ℕ)
    → high ≤ count
    → high ≡ q * 2 ^ k
    → low < 2 ^ k
    → digits (λ y. y) max count high low ≡ high + low
digits-field zero k q high low enough field fits = omega arith
digits-field (suc count) k q zero low enough field fits = omega arith
digits-field (suc count) zero q (suc h) low enough field fits =
    let half = digits-field count 0 (suc h / 2) (suc h / 2) (low / 2) (omega arith) (omega arith) in
    omega (arith, half (omega arith))
digits-field (suc count) (suc k) q (suc h) low enough field fits =
    let twice : 2 ^ suc k ≡ 2 ^ k * 2 = pow-suc 2 k in
    let split : q * 2 ^ suc k ≡ 2 * (q * 2 ^ k) = ap (λ (t : ℕ). q * t) twice ∙ omega arith in
    let half = digits-field count k q (suc h / 2) (low / 2) (omega arith) (omega arith) in
    omega (arith, half (omega arith))

-- `(q << k) | r` is a sum when `r` fits `k` bits.
pub bit_or_fields : (k q r : ℕ) → r < 2 ^ k → bit_or (q * 2 ^ k) r ≡ q * 2 ^ k + r
bit_or_fields k q r fits =
    simp bit_or-bitwise
      (digits-field (q * 2 ^ k) k q (q * 2 ^ k) r (omega arith) (omega arith) fits)
