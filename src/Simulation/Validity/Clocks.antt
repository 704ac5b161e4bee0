-- ===== src/Simulation/Validity/Clocks.antt =====
-- cpp/include/tickline/simulation/tick_clock.hpp: the clock against exact counts.
use tickline.Base.{
  ◌+◌, ◌*◌, ◌==◌, ◌≡◌, ap, ◌⊎◌, inl, inr, Bool-cases, true, false, ok, err, overflow_error, ==_iff,
  arith,
}
use tickline.Base.Int.{
  ℤ, pos, pos_part, neg_part, ◌+ℤ◌, ◌-ℤ◌, ltb_ℤ, leb_ℤ, i64_max, IsI64, +ℤ_parts, -ℤ_parts,
  eq_of_parts,
}
use tickline.Base.Words.{u64_max}
use tickline.Simulation.Clock.{FixedStepClock, fixed_step_clock, current_tick, advance}
use tickline.Simulation.Validity.{IsRunning}

pub fixed_step_clock-IsRunning :
    (d : ℤ) (c : FixedStepClock)
    → IsI64 d
    → fixed_step_clock d ≡ ok c
    → IsRunning c × (c.tick_duration ≡ d)
unfolding fixed_step_clock
fixed_step_clock-IsRunning d c h e = elim (Bool-cases (leb_ℤ d (pos 0))) [
  | inl b ↦ absurd (cc (e, b))
  | inr b ↦ ground arith
]

module _ (c : FixedStepClock) (v : IsRunning c) where
  now : (pos_part c.elapsed ≡ c.tick_index * pos_part c.tick_duration) × (neg_part c.elapsed ≡ 0)
  now = (ap pos_part v.exact, ap neg_part v.exact)

  stepped-exact : c.elapsed +ℤ c.tick_duration ≡ pos ((c.tick_index + 1) * pos_part c.tick_duration)
  stepped-exact = eq_of_parts _ _ (omega (arith, now, v.steps, +ℤ_parts c.elapsed c.tick_duration))

  room-fits :
      ltb_ℤ (i64_max -ℤ c.tick_duration) c.elapsed ≡ false → IsI64 (c.elapsed +ℤ c.tick_duration)
  room-fits l = rw stepped-exact (ground (arith, now, v.steps, -ℤ_parts i64_max c.tick_duration))

  full-overflows :
      ltb_ℤ (i64_max -ℤ c.tick_duration) c.elapsed ≡ true → ¬ IsI64 (c.elapsed +ℤ c.tick_duration)
  full-overflows l =
      rw stepped-exact (λ h. ground (arith, now, v.steps, -ℤ_parts i64_max c.tick_duration))

abbrev pub stepped : FixedStepClock → FixedStepClock
stepped c = record c { tick_index = c.tick_index + 1; elapsed = c.elapsed +ℤ c.tick_duration }

-- From a running clock `advance` either counts one tick and one exact duration and leaves the clock
-- running, or throws overflow_error because one of the two counts would not fit its type.
pub advance_exact :
    (c : FixedStepClock)
    → IsRunning c
    → ((advance c ≡ ok (current_tick (stepped c), stepped c)) × IsRunning (stepped c))
      ⊎ ((advance c ≡ err overflow_error)
          × ((c.tick_index ≡ u64_max) ⊎ (¬ IsI64 (c.elapsed +ℤ c.tick_duration))))
unfolding advance
advance_exact c v = elim (Bool-cases (c.tick_index == u64_max)) [
  | inl e ↦ inr (rw e, inl ((==_iff _ _).0 e))
  | inr e ↦ elim (Bool-cases (ltb_ℤ (i64_max -ℤ c.tick_duration) c.elapsed)) [
    | inl l ↦ inr (rw (e, l), inr (full-overflows c v l))
    | inr l ↦ inl (
      rw (e, l),
      record {
        steps = v.steps;
        duration_fits = v.duration_fits;
        index_fits = ground arith;
        exact = stepped-exact c v;
        elapsed_fits = room-fits c v l;
      },
    )
  ]
]
