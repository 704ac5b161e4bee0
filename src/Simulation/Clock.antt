-- ===== src/Simulation/Clock.antt =====
-- cpp/include/tickline/simulation/tick_clock.hpp: the fixed-step clock.
use tickline.Base.{
  ℕ, ◌+◌, ◌==◌, Result, Exception, ok, invalid_argument, overflow_error, ◌>>◌, throw_if,
}
use tickline.Base.Int.{pos, ◌+ℤ◌, ◌-ℤ◌, ltb_ℤ, leb_ℤ, i64_max}
use tickline.Base.Words.{u64_max}
use tickline.Simulation.Units.{Microseconds}

pub record Tick : Type 0 where
  pub index : ℕ
  pub elapsed : Microseconds

pub record FixedStepClock : Type 0 where
  pub tick_duration : Microseconds
  pub tick_index : ℕ
  pub elapsed : Microseconds

unfoldable pub fixed_step_clock : Microseconds → Result Exception FixedStepClock
fixed_step_clock tick_duration = do
  throw_if (leb_ℤ tick_duration (pos 0)) invalid_argument
  ok (record { tick_duration = tick_duration; tick_index = 0; elapsed = pos 0 })

unfoldable pub current_tick : FixedStepClock → Tick
current_tick c = record { index = c.tick_index; elapsed = c.elapsed }

unfoldable pub advance : FixedStepClock → Result Exception (Tick × FixedStepClock)
unfolding current_tick
advance c = do
  throw_if (c.tick_index == u64_max) overflow_error
  throw_if (ltb_ℤ (i64_max -ℤ c.tick_duration) c.elapsed) overflow_error
  let next : FixedStepClock = record c {
    tick_index = c.tick_index + 1;
    elapsed = c.elapsed +ℤ c.tick_duration;
  }
  ok (current_tick next, next)
