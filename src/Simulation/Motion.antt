-- ===== src/Simulation/Motion.antt =====
-- cpp/src/simulation/world.cpp: the arithmetic of one axis.
pub mod Exact
use tickline.Base.{
  ◌≤◌, Bool, not, ◌&&◌, Result, Exception, ok, overflow_error, ◌>>=◌, ◌>>◌, throw_if,
}
use tickline.Base.Int.{
  ℤ, pos, pos_part, neg_part, ◌+ℤ◌, ◌-ℤ◌, ◌*ℤ◌, negate, quot, rem, ltb_ℤ, leb_ℤ, i64_max, i64_min,
}

abbrev pub microseconds_per_second : ℤ
microseconds_per_second = pos 1_000_000

unfoldable pub within_symmetric_limit : ℤ → ℤ → Bool
within_symmetric_limit value limit = leb_ℤ (negate limit) value && leb_ℤ value limit

unfoldable pub checked_add : ℤ → ℤ → Result Exception ℤ
checked_add left right = do
  throw_if (ltb_ℤ (pos 0) right && ltb_ℤ (i64_max -ℤ right) left) overflow_error
  throw_if (ltb_ℤ right (pos 0) && ltb_ℤ left (i64_min -ℤ right)) overflow_error
  ok (left +ℤ right)

pub record AxisIntegration : Type 0 where
  pub position : ℤ
  pub residual : ℤ

abbrev pub scaled_displacement : ℤ → ℤ → ℤ → ℤ
scaled_displacement velocity residual tick_duration = velocity *ℤ tick_duration +ℤ residual

unfoldable pub integrate_axis : ℤ → ℤ → ℤ → ℤ → ℤ → Result Exception AxisIntegration
integrate_axis position velocity residual tick_duration max_abs_position = do
  let scaled = scaled_displacement velocity residual tick_duration
  next_position ← checked_add position (quot scaled microseconds_per_second)
  throw_if (not (within_symmetric_limit next_position max_abs_position)) overflow_error
  ok (record { position = next_position; residual = rem scaled microseconds_per_second })

-- What `within_symmetric_limit` tests: the magnitude is at most the limit.
abbrev pub IsWithin : ℤ → ℤ → Type 0
IsWithin value limit = (pos_part value ≤ pos_part limit) × (neg_part value ≤ pos_part limit)
