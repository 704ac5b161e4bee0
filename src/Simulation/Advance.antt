-- ===== src/Simulation/Advance.antt =====
-- cpp/src/simulation/world.cpp, World::advance: one tick. It works on copies of the clock and of the
-- entities, so that a tick that throws changes nothing.
use tickline.Base.{
  ℕ, ltb, ◌==◌, if◌then◌else◌, List, [], ◌∷◌, Result, Exception, ok, err, logic_error, ◌>>=◌,
}
use tickline.Base.Int.{ℤ}
use tickline.Base.Dict
use tickline.Base.Dict.{Dict}
use tickline.Simulation.Clock.{Tick}
use tickline.Simulation.Clock
use tickline.Simulation.Motion.{integrate_axis}
use tickline.Simulation.Schedule.{VelocityCommand}
use tickline.Simulation.World.{World, StoredEntity}

-- What a command does to the entity that it names.
unfoldable pub apply_command : VelocityCommand → StoredEntity → StoredEntity
apply_command c stored = record stored {
  state = record (stored.state) { velocity = c.velocity; last_sequence = c.sequence };
}

-- The loop over the queue: it stops at the first command that is due later.
unfoldable pub apply_commands :
    ℕ → List VelocityCommand → Dict StoredEntity → Result Exception (Dict StoredEntity)
unfolding apply_command
apply_commands next [] entities = ok entities
apply_commands next (c ∷ cs) entities =
    let rest = Dict.update_at c.entity_id (apply_command c) entities >>= apply_commands next cs in
    if ltb c.target_tick next
    then err logic_error
    else if ltb next c.target_tick
    then ok entities
    else rest

-- One entity's move over one tick.
unfoldable pub integrate_entity : ℤ → ℤ → StoredEntity → Result Exception StoredEntity
integrate_entity duration position_limit stored = do
  integrated_x ←
      integrate_axis state.position.x state.velocity.x stored.residual_x duration position_limit
  integrated_y ←
      integrate_axis state.position.y state.velocity.y stored.residual_y duration position_limit
  ok (record {
    state = record state {
      position = record { x = integrated_x.position; y = integrated_y.position };
    };
    residual_x = integrated_x.residual;
    residual_y = integrated_y.residual;
  })
  where
    open stored use {state}

unfoldable pub integrate_entities : ℤ → ℤ → Dict StoredEntity → Result Exception (Dict StoredEntity)
unfolding integrate_entity
integrate_entities duration position_limit [] = ok []
integrate_entities duration position_limit ((k, stored) ∷ entities) = do
  stored' ← integrate_entity duration position_limit stored
  rest ← integrate_entities duration position_limit entities
  ok ((k, stored') ∷ rest)

-- `std::remove_if` and `erase` of the commands that are due at this tick.
unfoldable pub remove_due : ℕ → List VelocityCommand → List VelocityCommand
remove_due next [] = []
remove_due next (c ∷ cs) =
    if c.target_tick == next then remove_due next cs else c ∷ remove_due next cs

unfoldable pub advance : World → Result Exception (Tick × World)
advance w = do
  (next_tick, next_clock) ← Clock.advance w.clock
  applied ← apply_commands next_tick.index w.pending_commands w.entities
  moved ← integrate_entities w.clock.tick_duration w.limits.max_abs_position applied
  ok (
    next_tick,
    record w {
      clock = next_clock;
      entities = moved;
      pending_commands = remove_due next_tick.index w.pending_commands;
    },
  )
