-- ===== src/Simulation/Units.antt =====
-- cpp/include/tickline/simulation/units.hpp. A unit is the int64_t that its class wraps.
use tickline.Base.{
  ℕ, ◌==◌, ◌||◌, ◌⊎◌, inl, inr, ◌≡◌, Result, Exception, ok, err, invalid_argument, overflow_error,
  ◌>>◌, throw_if, arith,
}
use native.Mathlib.Decide.{dec_le, dec_lt}
use tickline.Base.Int.{*ℤ-pos, ℤ, pos, negsuc, quot, ◌*ℤ◌, ltb_ℤ, i64_max, i64_min, IsI64}

abbrev pub Microseconds : Type 0
Microseconds = ℤ

abbrev pub Millimeters : Type 0
Millimeters = ℤ

abbrev pub MillimetersPerSecond : Type 0
MillimetersPerSecond = ℤ

abbrev pub EntityId : Type 0
EntityId = ℕ

pub record Position2 : Type 0 where
  pub x : Millimeters
  pub y : Millimeters

pub record Velocity2 : Type 0 where
  pub x : MillimetersPerSecond
  pub y : MillimetersPerSecond

abbrev scale : ℤ
scale = pos 1_000

unfoldable pub from_milliseconds : ℤ → Result Exception Microseconds
from_milliseconds milliseconds = do
  throw_if (ltb_ℤ (quot i64_max scale) milliseconds || ltb_ℤ milliseconds (quot i64_min scale))
      overflow_error
  ok (milliseconds *ℤ scale)

-- The constructor of EntityId.
unfoldable pub entity_id : ℕ → Result Exception EntityId
entity_id value = do throw_if (value == 0) invalid_argument; ok value

-- For an int64_t count of milliseconds the conversion returns the exact product by 1000 when that
-- fits an int64_t, and throws overflow_error when it does not.
pub from_milliseconds_exact :
    (ms : ℤ)
    → IsI64 ms
    → (IsI64 (ms *ℤ pos 1_000) × (from_milliseconds ms ≡ ok (ms *ℤ pos 1_000)))
      ⊎ ((¬ IsI64 (ms *ℤ pos 1_000)) × (from_milliseconds ms ≡ err overflow_error))
unfolding from_milliseconds quot
from_milliseconds_exact (pos n) h = elim (dec_le n 9_223_372_036_854_775) [
  | yes p ↦ inl (omega (arith, *ℤ-pos (pos n) 1_000), ground arith)
  | no p ↦ inr (λ t. omega (arith, *ℤ-pos (pos n) 1_000), ground arith)
]
from_milliseconds_exact (negsuc n) h = elim (dec_lt n 9_223_372_036_854_775) [
  | yes p ↦ inl (omega (arith, *ℤ-pos (negsuc n) 1_000), ground arith)
  | no p ↦ inr (λ t. omega (arith, *ℤ-pos (negsuc n) 1_000), ground arith)
]
