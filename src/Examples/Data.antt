-- ===== src/Examples/Data.antt =====
-- The inputs that the examples share: a world with one entity, a session, and a command.
use tickline.Command.Evidence.Chain.{empty_log}
use tickline.Command.Pipeline.Outcome.{IsCountable}
use tickline.Base.{subst, [], ◌∷◌, ◌≡◌, refl, ok, arith}
use tickline.Base.Int.{pos, negsuc, quot, negate, ◌-ℤ◌}
use tickline.Simulation.Clock.{FixedStepClock, fixed_step_clock}
use tickline.Simulation.Motion.{within_symmetric_limit}
use tickline.Simulation.Units.{Microseconds}
use tickline.Simulation.Schedule.{VelocityCommand}
use tickline.Simulation.World.{
  WorldLimits, EntityState, World, empty_world, add_entity, world, AddEntityResult, added,
  position_is_valid, velocity_is_valid,
}
use tickline.Simulation.Validity.{IsValid}
use tickline.Simulation.Validity.Adding.{world-IsValid, add_entity-IsValid}
use tickline.Simulation.Validity.Queueing.{IsAdmissible, with_command, with_command-IsValid}
use tickline.Base.Dict
use tickline.Command.Envelope.{CommandEnvelope}
use tickline.Command.Validator.{default_policy}
use tickline.Command.Session.{CommandSession}
use tickline.Command.Session.Laws.{IsOpen}
use tickline.Protocol.Frames.{ProtocolLimits}
use tickline.Protocol.Codec.RoundTrip.{IsEnvelope}

abbrev pub small_limits : WorldLimits
small_limits = record { max_abs_position = pos 10_000; max_abs_velocity = pos 5_000 }

abbrev pub fifty_ms : Microseconds
fifty_ms = pos 50_000

abbrev pub start : FixedStepClock
start = record { tick_duration = fifty_ms; tick_index = 0; elapsed = pos 0 }

abbrev pub empty : World
empty = empty_world start small_limits

pub empty-made : world fifty_ms small_limits ≡ ok empty
unfolding world fixed_step_clock quot ◌-ℤ◌
empty-made = refl

pub empty-IsValid : IsValid empty
empty-IsValid =
    world-IsValid fifty_ms small_limits empty (omega arith) (omega arith) (omega arith) empty-made

abbrev pub walker : EntityState
walker = record {
  id = 7;
  position = record { x = pos 100; y = negsuc 99 };
  velocity = record { x = pos 10; y = pos 0 };
  last_sequence = 0;
}

-- The world with the walker in it.
abbrev pub peopled : World
peopled = record {
  clock = start;
  limits = small_limits;
  entities = (7, record { state = walker; residual_x = pos 0; residual_y = pos 0 }) ∷ [];
  highest_sequence = (7, 0) ∷ [];
  latest_target_tick = (7, 0) ∷ [];
  pending_commands = [];
}

add_entity-walker : add_entity empty walker ≡ (added, peopled)
unfolding add_entity Dict.contains position_is_valid velocity_is_valid within_symmetric_limit negate
    Dict.emplace
add_entity-walker = refl

pub peopled-IsValid : IsValid peopled
peopled-IsValid =
    subst (λ (r : AddEntityResult × World). IsValid r.1) add_entity-walker
      (add_entity-IsValid empty empty-IsValid walker)

abbrev pub envelope : CommandEnvelope
envelope = record {
  schema_version = 1;
  type = 1;
  client_id = 3;
  session_id = 4;
  sequence = 1;
  target_tick = 2;
  payload = record { entity_id = 7; velocity = record { x = negsuc 1_999; y = pos 2_000 } };
}

pub envelope-IsEnvelope : IsEnvelope envelope
envelope-IsEnvelope = record {
  schema_version = omega arith;
  type = omega arith;
  client_id = omega arith;
  session_id = omega arith;
  sequence = omega arith;
  target_tick = omega arith;
  entity_id = omega arith;
  velocity = omega arith;
}

abbrev pub opened : CommandSession
opened = record {
  client_id = 3;
  session_id = 4;
  policy = default_policy;
  highest_accepted_sequence = 0;
}

pub opened-IsOpen : IsOpen opened
opened-IsOpen = record {
  window = omega arith;
  velocity_limit = omega arith;
  client = omega arith;
  session = omega arith;
}

abbrev pub frames : ProtocolLimits
frames = record { maximum_frame_size = 4_096 }

abbrev pub turn : VelocityCommand
turn = record {
  target_tick = 1;
  entity_id = 7;
  sequence = 1;
  velocity = record { x = pos 0; y = pos 5_000 };
}

pub turn-IsAdmissible : IsAdmissible peopled turn
unfolding Dict.contains Dict.find
turn-IsAdmissible = record {
  ahead = omega arith;
  named = refl;
  newer = λ h e. ground arith;
  forward = λ t e. ground arith;
  allowed = omega arith;
}

-- The world with the turn in its queue.
abbrev pub waiting : World
waiting = with_command peopled turn

pub waiting-IsValid : IsValid waiting
waiting-IsValid = with_command-IsValid peopled turn peopled-IsValid turn-IsAdmissible

pub peopled-IsCountable : IsCountable 1_000 empty_log peopled
peopled-IsCountable = record {
  records = omega arith;
  room = λ e. omega arith;
  entities = omega arith;
  pending = omega arith;
}
