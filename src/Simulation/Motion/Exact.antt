-- ===== src/Simulation/Motion/Exact.antt =====
-- cpp/src/simulation/world.cpp: the arithmetic of one axis against exact integers.
use tickline.Base.{
  ℕ, ◌+◌, ◌*◌, ◌^◌, ◌<◌, ◌≤◌, ◌≡◌, ◌⊎◌, inl, inr, true, Bool-cases, ok, err, overflow_error, arith,
}
use tickline.Base.Int.{
  ℤ, pos, negsuc, pos_part, neg_part, ◌+ℤ◌, ◌-ℤ◌, ◌*ℤ◌, quot, rem, quot-pos, rem-pos, *ℤ-pos,
  +ℤ_parts, +ℤ_bound, negate_parts, eq_of_parts, IsI64,
}
use tickline.Simulation.Motion.{
  microseconds_per_second, within_symmetric_limit, checked_add, scaled_displacement, integrate_axis,
  AxisIntegration, IsWithin,
}

pub within_symmetric_limit-IsWithin :
    (value limit : ℤ)
    → neg_part limit ≡ 0
    → within_symmetric_limit value limit ≡ true
    → IsWithin value limit
unfolding within_symmetric_limit
within_symmetric_limit-IsWithin (pos n) (pos m) z h = ground (arith, negate_parts (pos m))
within_symmetric_limit-IsWithin (negsuc n) (pos m) z h = ground (arith, negate_parts (pos m))
within_symmetric_limit-IsWithin v (negsuc m) z h = absurd (omega arith)

pub IsWithin-within_symmetric_limit :
    (value limit : ℤ)
    → neg_part limit ≡ 0
    → IsWithin value limit
    → within_symmetric_limit value limit ≡ true
unfolding within_symmetric_limit
IsWithin-within_symmetric_limit (pos n) (pos m) z h = ground (arith, negate_parts (pos m))
IsWithin-within_symmetric_limit (negsuc n) (pos m) z h = ground (arith, negate_parts (pos m))
IsWithin-within_symmetric_limit v (negsuc m) z h = absurd (omega arith)

-- For two int64_t values `checked_add` returns their exact sum when that fits an int64_t, and
-- throws overflow_error when it does not.
pub checked_add_exact :
    (left right : ℤ)
    → IsI64 left
    → IsI64 right
    → (IsI64 (left +ℤ right) × (checked_add left right ≡ ok (left +ℤ right)))
      ⊎ ((¬ IsI64 (left +ℤ right)) × (checked_add left right ≡ err overflow_error))
unfolding checked_add ◌+ℤ◌ ◌-ℤ◌
checked_add_exact (pos a) (pos b) h k = ground arith
checked_add_exact (pos a) (negsuc b) h k = ground arith
checked_add_exact (negsuc a) (pos b) h k = ground arith
checked_add_exact (negsuc a) (negsuc b) h k = ground arith

-- What a carry from the last tick may be: less than a millimetre, in millionths of one.
abbrev pub IsResidual : ℤ → Type 0
IsResidual r = (pos_part r < 1_000_000) × (neg_part r < 1_000_000)

module _ (v r limit : ℤ) (d : ℕ) where
  -- Under the bound that the constructor of World checks, neither the product nor the sum of
  -- `velocity * tick_duration + residual` leaves the int64_t range.
  pub displacement_fits :
      pos_part limit * d + 999_999 < 2 ^ 63
      → IsWithin v limit
      → IsResidual r
      → IsI64 (v *ℤ pos d) × IsI64 (scaled_displacement v r (pos d))
  displacement_fits safe hv hr =
      let p : pos_part v * d ≤ pos_part limit * d = grind arith in
      let n : neg_part v * d ≤ pos_part limit * d = grind arith in
      (omega (arith, *ℤ-pos v d), omega (arith, *ℤ-pos v d, +ℤ_bound (v *ℤ pos d) r))

-- An integer as the quotient and the remainder by the number of microseconds in a second.
pub quot-rem :
    (a : ℤ)
    → quot a microseconds_per_second *ℤ microseconds_per_second +ℤ rem a microseconds_per_second ≡ a
quot-rem a =
    let q = quot a microseconds_per_second in
    eq_of_parts _ _ (
      omega (
        arith,
        quot-pos a 1_000_000,
        rem-pos a 1_000_000,
        *ℤ-pos q 1_000_000,
        +ℤ_parts (q *ℤ microseconds_per_second) (rem a microseconds_per_second),
      ))

pub rem-IsResidual : (a : ℤ) → IsResidual (rem a microseconds_per_second)
rem-IsResidual a = omega (arith, rem-pos a 1_000_000)

quot-IsI64 : (a : ℤ) → IsI64 a → IsI64 (quot a microseconds_per_second)
quot-IsI64 a h = omega (arith, quot-pos a 1_000_000)

-- Moving by the whole millimetres and carrying the rest loses nothing.
move_exact :
    (p a : ℤ)
    → (p +ℤ quot a microseconds_per_second) *ℤ microseconds_per_second
        +ℤ rem a microseconds_per_second
      ≡ p *ℤ microseconds_per_second +ℤ a
move_exact p a =
    let M = microseconds_per_second in
    let q = quot a M in
    eq_of_parts _ _ (
      omega (
        arith,
        quot-pos a 1_000_000,
        rem-pos a 1_000_000,
        +ℤ_parts p q,
        *ℤ-pos (p +ℤ q) 1_000_000,
        *ℤ-pos p 1_000_000,
        +ℤ_parts ((p +ℤ q) *ℤ M) (rem a M),
        +ℤ_parts (p *ℤ M) a,
      ))

module _ (p v r max : ℤ) (d : ℕ) where
  pub integrate_axis_cases :
      neg_part max ≡ 0
      → IsI64 max
      → IsWithin p max
      → IsI64 (scaled_displacement v r (pos d))
      → ((s : AxisIntegration) × (integrate_axis p v r (pos d) max ≡ ok s)
          × (s.position *ℤ microseconds_per_second +ℤ s.residual
              ≡ p *ℤ microseconds_per_second +ℤ scaled_displacement v r (pos d))
          × IsWithin s.position max
          × IsResidual s.residual)
        ⊎ ((integrate_axis p v r (pos d) max ≡ err overflow_error)
            × (¬ IsWithin
                (p +ℤ quot (scaled_displacement v r (pos d)) microseconds_per_second)
                max))
  unfolding integrate_axis
  integrate_axis_cases z hm hp hd = elim (checked_add_exact p q (omega arith) (quot-IsI64 a hd)) [
    | inl (fits, e) ↦ elim (Bool-cases (within_symmetric_limit (p +ℤ q) max)) [
      | inl w ↦ inl (
        record { position = p +ℤ q; residual = rem a microseconds_per_second },
        rw (e, w),
        move_exact p a,
        within_symmetric_limit-IsWithin (p +ℤ q) max z w,
        rem-IsResidual a,
      )
      | inr w ↦ inr (rw (e, w), λ h. cc (IsWithin-within_symmetric_limit (p +ℤ q) max z h))
    ]
    | inr (out, e) ↦ inr (rw e, λ h. out (omega arith))
  ]
    where
      a : ℤ
      a = scaled_displacement v r (pos d)

      q : ℤ
      q = quot a microseconds_per_second

module _ (p v r max limit : ℤ) (d : ℕ) where
  -- One tick of one axis, where the position is within a limit that is not negative and fits an
  -- int64_t, the velocity is within a limit whose product with the duration leaves room for a carry
  -- below 2 ^ 63, as the constructor of World checks, and the old carry is below one millimetre. Neither
  -- the product nor the sum with the carry leaves the int64_t range. A result keeps the exact distance:
  -- the new position and carry, in millionths of a millimetre, are the old ones plus velocity times
  -- duration; the new position is within the limit and the carry below one millimetre. The only failure
  -- is overflow_error, and then the exact new position is outside the limit.
  pub integrate_axis_exact :
      neg_part max ≡ 0
      → IsI64 max
      → IsWithin p max
      → pos_part limit * d + 999_999 < 2 ^ 63
      → IsWithin v limit
      → IsResidual r
      → IsI64 (v *ℤ pos d)
        × IsI64 (v *ℤ pos d +ℤ r)
        × (((s : AxisIntegration) × (integrate_axis p v r (pos d) max ≡ ok s)
              × (s.position *ℤ microseconds_per_second +ℤ s.residual
                  ≡ p *ℤ microseconds_per_second +ℤ (v *ℤ pos d +ℤ r))
              × IsWithin s.position max
              × IsResidual s.residual)
            ⊎ ((integrate_axis p v r (pos d) max ≡ err overflow_error)
                × (¬ IsWithin (p +ℤ quot (v *ℤ pos d +ℤ r) microseconds_per_second) max)))
  integrate_axis_exact z hm hp safe hv hr =
      let (product, sum) = displacement_fits v r limit d safe hv hr in
      (product, sum, integrate_axis_cases p v r max d z hm hp sum)
