-- ===== src/Simulation/World.antt =====
-- cpp/include/tickline/simulation/world.hpp and cpp/src/simulation/world.cpp: the world, its
-- entities and its queue of commands. A method that changes the world returns the new one; a method
-- that throws returns none, since the source works on copies until nothing can fail.
use tickline.Base.{
  ℕ, ltb, leb, if◌then◌else◌, Bool, not, ◌&&◌, Option, List, [], ◌∷◌, ◌++◌, map, length, Result,
  Exception, ok, invalid_argument, ◌>>=◌, ◌>>◌, throw_if,
}
use tickline.Base.Int.{ℤ, pos, ◌-ℤ◌, quot, ltb_ℤ, leb_ℤ, i64_max}
use mathlib.Core.Option
use tickline.Base.Dict
use tickline.Base.Dict.{Dict}
use tickline.Simulation.Units.{
  Millimeters, MillimetersPerSecond, Microseconds, EntityId, Position2, Velocity2,
}
use tickline.Simulation.Clock.{Tick, FixedStepClock, fixed_step_clock}
use tickline.Simulation.Clock
use tickline.Simulation.Motion.{within_symmetric_limit, microseconds_per_second}
use tickline.Simulation.Schedule.{VelocityCommand, sort_commands}

pub record WorldLimits : Type 0 where
  pub max_abs_position : Millimeters
  pub max_abs_velocity : MillimetersPerSecond

abbrev pub default_limits : WorldLimits
default_limits = record { max_abs_position = pos 10_000_000_000; max_abs_velocity = pos 1_000_000 }

pub record EntityState : Type 0 where
  pub id : EntityId
  pub position : Position2
  pub velocity : Velocity2
  pub last_sequence : ℕ

pub record StoredEntity : Type 0 where
  pub state : EntityState
  pub residual_x : ℤ
  pub residual_y : ℤ

pub data AddEntityResult : Type 0 where
  added duplicate_id position_out_of_range velocity_out_of_range : AddEntityResult

pub data QueueCommandResult : Type 0 where
  accepted stale_tick unknown_entity sequence_not_increasing target_tick_regression
        velocity_out_of_range :
      QueueCommandResult

pub record World : Type 0 where
  pub clock : FixedStepClock
  pub limits : WorldLimits
  pub entities : Dict StoredEntity
  pub highest_sequence : Dict ℕ
  pub latest_target_tick : Dict ℕ
  pub pending_commands : List VelocityCommand

abbrev pub empty_world : FixedStepClock → WorldLimits → World
empty_world clock limits = record {
  clock = clock;
  limits = limits;
  entities = [];
  highest_sequence = [];
  latest_target_tick = [];
  pending_commands = [];
}

-- `(maximum - (microseconds_per_second - 1)) / duration`
abbrev pub safe_velocity_limit : Microseconds → ℤ
safe_velocity_limit duration = quot (i64_max -ℤ (microseconds_per_second -ℤ pos 1)) duration

-- The constructor's body, behind its member initialisers.
unfoldable pub check_limits : Microseconds → WorldLimits → FixedStepClock → Result Exception World
check_limits tick_duration limits clock = do
  throw_if (leb_ℤ limits.max_abs_position (pos 0)) invalid_argument
  throw_if (leb_ℤ limits.max_abs_velocity (pos 0)) invalid_argument
  throw_if (ltb_ℤ (safe_velocity_limit tick_duration) limits.max_abs_velocity) invalid_argument
  ok (empty_world clock limits)

unfoldable pub world : Microseconds → WorldLimits → Result Exception World
unfolding check_limits
world tick_duration limits = fixed_step_clock tick_duration >>= check_limits tick_duration limits

unfoldable pub current_tick : World → Tick
unfolding Clock.current_tick
current_tick w = Clock.current_tick w.clock

unfoldable pub position_is_valid : World → Position2 → Bool
position_is_valid w position =
    within_symmetric_limit position.x w.limits.max_abs_position
    && within_symmetric_limit position.y w.limits.max_abs_position

unfoldable pub velocity_is_valid : World → Velocity2 → Bool
velocity_is_valid w velocity =
    within_symmetric_limit velocity.x w.limits.max_abs_velocity
    && within_symmetric_limit velocity.y w.limits.max_abs_velocity

unfoldable pub add_entity : World → EntityState → AddEntityResult × World
unfolding current_tick
add_entity w entity =
    if Dict.contains entity.id w.entities
    then (duplicate_id, w)
    else if not (position_is_valid w entity.position)
    then (position_out_of_range, w)
    else if not (velocity_is_valid w entity.velocity)
    then (velocity_out_of_range, w)
    else (
      added,
      record w {
        entities = Dict.emplace entity.id stored w.entities;
        highest_sequence = Dict.emplace entity.id 0 w.highest_sequence;
        latest_target_tick = Dict.emplace entity.id (current_tick w).index w.latest_target_tick;
      },
    )
  where
    stored : StoredEntity
    stored = record {
      state = record entity { last_sequence = 0 };
      residual_x = pos 0;
      residual_y = pos 0;
    }

enqueue : World → VelocityCommand → Result Exception (QueueCommandResult × World)
enqueue w command = do
  highest ← Dict.update_at command.entity_id (λ _. command.sequence) w.highest_sequence
  latest ← Dict.update_at command.entity_id (λ _. command.target_tick) w.latest_target_tick
  ok (
    accepted,
    record w {
      highest_sequence = highest;
      latest_target_tick = latest;
      pending_commands = sort_commands (w.pending_commands ++ (command ∷ []));
    },
  )

unfoldable pub queue_velocity :
    World → VelocityCommand → Result Exception (QueueCommandResult × World)
unfolding current_tick enqueue
queue_velocity w command =
    if leb command.target_tick (current_tick w).index
    then ok (stale_tick, w)
    else if not (Dict.contains command.entity_id w.entities)
    then ok (unknown_entity, w)
    else do
      highest ← Dict.at command.entity_id w.highest_sequence
      if leb command.sequence highest then ok (sequence_not_increasing, w) else do
        latest ← Dict.at command.entity_id w.latest_target_tick
        if ltb command.target_tick latest
            then ok (target_tick_regression, w)
            else if not (velocity_is_valid w command.velocity)
            then ok (velocity_out_of_range, w)
            else enqueue w command

unfoldable pub entity : World → EntityId → Option EntityState
entity w entity_id = Option.map (λ stored. stored.state) (Dict.find entity_id w.entities)

unfoldable pub snapshot : World → List EntityState
snapshot w = map (λ (k, stored). stored.state) w.entities

unfoldable pub entity_count : World → ℕ
entity_count w = length w.entities

unfoldable pub pending_command_count : World → ℕ
pending_command_count w = length w.pending_commands
