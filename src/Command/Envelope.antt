-- ===== src/Command/Envelope.antt =====
-- cpp/include/tickline/command/command_envelope.hpp: what a client sends.
use tickline.Base.{ℕ, ◌==◌, Bool, not}
use tickline.Simulation.Units.{EntityId, Velocity2}

abbrev pub command_schema_version : ℕ
command_schema_version = 1

-- An enumeration over uint16_t: a cast gives it any value of that type.
abbrev pub CommandType : Type 0
CommandType = ℕ

abbrev pub set_velocity : CommandType
set_velocity = 1

-- ClientId and SessionId wrap a uint64_t; zero is not valid.
abbrev pub ClientId : Type 0
ClientId = ℕ

abbrev pub SessionId : Type 0
SessionId = ℕ

abbrev pub valid : ℕ → Bool
valid value = not (value == 0)

pub record SetVelocityPayload : Type 0 where
  pub entity_id : EntityId
  pub velocity : Velocity2

pub record CommandEnvelope : Type 0 where
  pub schema_version : ℕ
  pub type : CommandType
  pub client_id : ClientId
  pub session_id : SessionId
  pub sequence : ℕ
  pub target_tick : ℕ
  pub payload : SetVelocityPayload
