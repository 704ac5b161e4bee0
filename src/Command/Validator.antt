-- ===== src/Command/Validator.antt =====
-- cpp/include/tickline/command/command_validator.hpp and cpp/src/command/command_validator.cpp: what
-- an envelope must be before a session looks at its sequence.
pub mod Laws
use tickline.Base.{
  ℕ, ◌-◌, ltb, leb, ◌==◌, not, ◌&&◌, Bool, if◌then◌else◌, Result, Exception, ok, invalid_argument,
  ◌>>=◌, ◌>>◌, throw_if,
}
use tickline.Base.Int.{ℤ, pos, leb_ℤ, negate}
use tickline.Simulation.Motion.{within_symmetric_limit}
use tickline.Simulation.Units.{Velocity2}
use tickline.Command.Envelope.{
  CommandEnvelope, ClientId, SessionId, valid, command_schema_version, set_velocity,
}

pub data CommandRejectionCode : Type 0 where
  none unsupported_schema_version unsupported_command_type invalid_client_id invalid_session_id
        client_identity_mismatch session_identity_mismatch sequence_zero stale_target_tick
        target_tick_too_far_future velocity_out_of_range duplicate_sequence sequence_regression
        unknown_entity entity_sequence_not_increasing target_tick_regression
        simulation_rejection_unknown :
      CommandRejectionCode

pub record CommandValidationPolicy : Type 0 where
  pub maximum_future_ticks : ℕ
  pub max_abs_velocity : ℤ

abbrev pub default_policy : CommandValidationPolicy
default_policy = record { maximum_future_ticks = 8; max_abs_velocity = pos 1_000_000 }

pub record CommandValidationContext : Type 0 where
  pub authenticated_client_id : ClientId
  pub active_session_id : SessionId
  pub current_tick : ℕ

-- The constructor, which keeps the policy.
unfoldable pub command_validator :
    CommandValidationPolicy → Result Exception CommandValidationPolicy
command_validator policy = do
  throw_if (policy.maximum_future_ticks == 0) invalid_argument
  throw_if (leb_ℤ policy.max_abs_velocity (pos 0)) invalid_argument
  ok policy

unfoldable pub velocity_is_valid : CommandValidationPolicy → Velocity2 → Bool
velocity_is_valid policy velocity =
    within_symmetric_limit velocity.x policy.max_abs_velocity
    && within_symmetric_limit velocity.y policy.max_abs_velocity

-- validate behind the checks of the context.
unfoldable pub check_command :
    CommandValidationPolicy → CommandEnvelope → CommandValidationContext → CommandRejectionCode
check_command policy command context =
    if not (command.schema_version == command_schema_version)
    then unsupported_schema_version
    else if not (command.type == set_velocity)
    then unsupported_command_type
    else if not (valid command.client_id)
    then invalid_client_id
    else if not (valid command.session_id)
    then invalid_session_id
    else if not (command.client_id == context.authenticated_client_id)
    then client_identity_mismatch
    else if not (command.session_id == context.active_session_id)
    then session_identity_mismatch
    else if command.sequence == 0
    then sequence_zero
    else if leb command.target_tick context.current_tick
    then stale_target_tick
    else if ltb policy.maximum_future_ticks (command.target_tick - context.current_tick)
    then target_tick_too_far_future
    else if not (velocity_is_valid policy command.payload.velocity)
    then velocity_out_of_range
    else none

unfoldable pub validate :
    CommandValidationPolicy
    → CommandEnvelope
    → CommandValidationContext
    → Result Exception CommandRejectionCode
unfolding check_command
validate policy command context = do
  throw_if (not (valid context.authenticated_client_id)) invalid_argument
  throw_if (not (valid context.active_session_id)) invalid_argument
  ok (check_command policy command context)
