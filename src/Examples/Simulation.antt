-- ===== src/Examples/Simulation.antt =====
-- Examples of the simulation.
use tickline.Base.{
  ◌+◌, ◌≡◌, refl, ◌⊎◌, some, [], ◌∷◌, length, ok, err, overflow_error, arith, ◌≢◌, ◌*◌,
}
use tickline.Base.Dict
use tickline.Base.Dict.{Dict}
use tickline.Base.Int.{pos, IsI64, ◌+ℤ◌, ◌*ℤ◌, quot}
use tickline.Base.Words.{Bytes, u64_max}
use tickline.Simulation.Clock.{current_tick}
use tickline.Simulation.Clock
use tickline.Simulation.Motion.{AxisIntegration, IsWithin, microseconds_per_second, integrate_axis}
use tickline.Simulation.Motion.Exact.{IsResidual, integrate_axis_exact}
use tickline.Simulation.Schedule.{sort_commands}
use tickline.Simulation.World.{World, StoredEntity, QueueCommandResult, queue_velocity, add_entity}
use tickline.Simulation.Advance.{apply_commands, advance}
use tickline.Simulation.Canonical.{encode_world_state}
use tickline.Simulation.Canonical.Laws.{encode_world_state_total}
use tickline.Simulation.Validity.{IsRunning, IsValid}
use tickline.Simulation.Validity.Adding.{world-IsValid, add_entity-IsValid}
use tickline.Simulation.Validity.Clocks.{stepped, advance_exact}
use tickline.Simulation.Validity.Queueing.{
  IsAdmissible, with_command, queue_velocity_cases, queue_velocity-IsValid,
}
use tickline.Simulation.Validity.Ticking.{HasMoved, Pointwise, SomeEscapes}
use tickline.Simulation.Validity.Applying.{last_due, obey, apply_commands-last_due}
use tickline.Simulation.Validity.Advancing.{ticked, advance_total}
use tickline.Examples.Data.{
  small_limits, fifty_ms, start, empty, empty-made, empty-IsValid, walker, peopled, peopled-IsValid,
  turn, waiting, waiting-IsValid,
}

queue_velocity_cases_example :
    (IsAdmissible peopled turn
      × (queue_velocity peopled turn ≡ ok (QueueCommandResult.accepted, with_command peopled turn)))
    ⊎ ((¬ IsAdmissible peopled turn)
        × ((r : QueueCommandResult) × (r ≢ QueueCommandResult.accepted)
            × (queue_velocity peopled turn ≡ ok (r, peopled))))
queue_velocity_cases_example = queue_velocity_cases peopled turn peopled-IsValid

queue_velocity-IsValid_example :
    (r : QueueCommandResult × World) × (queue_velocity waiting turn ≡ ok r) × IsValid r.1
queue_velocity-IsValid_example = queue_velocity-IsValid waiting turn waiting-IsValid

advance_total_example :
    (applied : Dict StoredEntity) × (apply_commands
        (waiting.clock.tick_index + 1)
        waiting.pending_commands
        waiting.entities
      ≡ ok applied)
    × (((moved : Dict StoredEntity) × Pointwise (HasMoved waiting.clock.tick_duration) applied moved
          × (advance waiting
              ≡ ok (Clock.current_tick (stepped waiting.clock), ticked waiting moved))
          × IsValid (ticked waiting moved))
        ⊎ ((advance waiting ≡ err overflow_error)
            × (((waiting.clock.tick_index ≡ u64_max)
                  ⊎ (¬ IsI64 (waiting.clock.elapsed +ℤ waiting.clock.tick_duration)))
                ⊎ SomeEscapes waiting.limits waiting.clock.tick_duration applied)))
advance_total_example = advance_total waiting waiting-IsValid

abbrev stored_walker : StoredEntity
stored_walker = record { state = walker; residual_x = pos 0; residual_y = pos 0 }

abbrev turned_walker : StoredEntity
turned_walker = record stored_walker {
  state = record walker { velocity = turn.velocity; last_sequence = 1 };
}

apply_commands-last_due_example :
    Dict.find 7 ((7, turned_walker) ∷ [])
    ≡ some (obey (last_due (waiting.clock.tick_index + 1) 7 waiting.pending_commands) stored_walker)
unfolding with_command Dict.find apply_commands Dict.update_at Dict.adjust Dict.contains
    sort_commands
apply_commands-last_due_example =
    apply_commands-last_due waiting 7 stored_walker ((7, turned_walker) ∷ []) waiting-IsValid refl
      refl

world-IsValid_example : IsValid empty
world-IsValid_example =
    world-IsValid fifty_ms small_limits empty (omega arith) (omega arith) (omega arith) empty-made

add_entity-IsValid_example : IsValid (add_entity peopled walker).1
add_entity-IsValid_example = add_entity-IsValid peopled peopled-IsValid walker

integrate_axis_exact_example :
    IsI64 (pos 30 *ℤ pos 50_000)
    × IsI64 (pos 30 *ℤ pos 50_000 +ℤ pos 5)
    × (((s : AxisIntegration) × (integrate_axis (pos 1) (pos 30) (pos 5) (pos 50_000) (pos 100)
            ≡ ok s)
          × (s.position *ℤ microseconds_per_second +ℤ s.residual
              ≡ pos 1 *ℤ microseconds_per_second +ℤ (pos 30 *ℤ pos 50_000 +ℤ pos 5))
          × IsWithin s.position (pos 100)
          × IsResidual s.residual)
        ⊎ ((integrate_axis (pos 1) (pos 30) (pos 5) (pos 50_000) (pos 100) ≡ err overflow_error)
            × (¬ IsWithin
                (pos 1 +ℤ quot (pos 30 *ℤ pos 50_000 +ℤ pos 5) microseconds_per_second)
                (pos 100))))
integrate_axis_exact_example =
    integrate_axis_exact (pos 1) (pos 30) (pos 5) (pos 100) (pos 40) 50_000 refl (omega arith)
      (omega arith) (omega arith) (omega arith) (omega arith)

advance_exact_example :
    ((Clock.advance start ≡ ok (Clock.current_tick (stepped start), stepped start))
      × IsRunning (stepped start))
    ⊎ ((Clock.advance start ≡ err overflow_error)
        × ((start.tick_index ≡ u64_max) ⊎ (¬ IsI64 (start.elapsed +ℤ start.tick_duration))))
advance_exact_example = advance_exact start empty-IsValid.running

encode_world_state_total_example :
    (bs : Bytes) × (encode_world_state peopled ≡ ok bs)
    × (length bs ≡ 64 + 80 * length peopled.entities + 40 * length peopled.pending_commands)
encode_world_state_total_example =
    encode_world_state_total peopled peopled-IsValid (omega arith) (omega arith)
