-- ===== src/Command/Session.antt =====
-- cpp/include/tickline/command/command_session.hpp and cpp/src/command/command_session.cpp: one
-- client's session, which admits commands by its highest accepted sequence.
pub mod Laws
use tickline.Base.{
  ℕ, ltb, ◌==◌, not, Option, none, some, Bool, true, false, if◌then◌else◌, Result, Exception, ok,
  err, invalid_argument, ◌>>=◌, ◌>>◌, throw_if,
}
use tickline.Simulation.Schedule.{VelocityCommand}
use tickline.Command.Envelope.{CommandEnvelope, ClientId, SessionId, valid}
use tickline.Command.Validator.{
  CommandRejectionCode, CommandValidationPolicy, CommandValidationContext, command_validator,
  validate, duplicate_sequence, sequence_regression,
}

pub record CommandSession : Type 0 where
  pub client_id : ClientId
  pub session_id : SessionId
  pub policy : CommandValidationPolicy
  pub highest_accepted_sequence : ℕ

-- The constructor. `validator_` is made before the identifiers are looked at.
unfoldable pub command_session :
    ClientId → SessionId → CommandValidationPolicy → Result Exception CommandSession
unfolding command_validator
command_session client_id session_id policy = do
  validator ← command_validator policy
  throw_if (not (valid client_id)) invalid_argument
  throw_if (not (valid session_id)) invalid_argument
  ok (record {
    client_id = client_id;
    session_id = session_id;
    policy = validator;
    highest_accepted_sequence = 0;
  })

-- `code == CommandRejectionCode::none`
abbrev pub is_none : CommandRejectionCode → Bool
is_none CommandRejectionCode.none = true
is_none _ = false

abbrev pub has_value {ℓ} : {A : Type ℓ} → Option A → Bool
has_value none = false
has_value (some a) = true

pub record CommandAdmissionResult : Type 0 where
  pub code : CommandRejectionCode
  pub command : Option VelocityCommand

-- `a != b` on Booleans.
abbrev differ : Bool → Bool → Bool
differ true b = not b
differ false b = b

-- The private constructor.
abbrev command_admission_result :
    CommandRejectionCode → Option VelocityCommand → Result Exception CommandAdmissionResult
command_admission_result code command = do
  throw_if (differ (is_none code) (has_value command)) invalid_argument
  ok (record { code = code; command = command })

unfoldable pub accept : VelocityCommand → Result Exception CommandAdmissionResult
accept command = command_admission_result CommandRejectionCode.none (some command)

unfoldable pub reject : CommandRejectionCode → Result Exception CommandAdmissionResult
reject code = do throw_if (is_none code) invalid_argument; command_admission_result code none

unfoldable pub translate : CommandEnvelope → VelocityCommand
translate command = record {
  target_tick = command.target_tick;
  entity_id = command.payload.entity_id;
  sequence = command.sequence;
  velocity = command.payload.velocity;
}

-- The context that `evaluate` validates in.
abbrev pub context_of : CommandSession → ℕ → CommandValidationContext
context_of session tick = record {
  authenticated_client_id = session.client_id;
  active_session_id = session.session_id;
  current_tick = tick;
}

-- evaluate behind the validation.
unfoldable pub admit :
    CommandSession
    → CommandEnvelope
    → CommandRejectionCode
    → Result Exception CommandAdmissionResult
unfolding accept reject translate
admit session command validation =
    if not (is_none validation)
    then reject validation
    else if command.sequence == session.highest_accepted_sequence
    then reject duplicate_sequence
    else if ltb command.sequence session.highest_accepted_sequence
    then reject sequence_regression
    else accept (translate command)

unfoldable pub evaluate :
    CommandSession → CommandEnvelope → ℕ → Result Exception CommandAdmissionResult
unfolding admit
evaluate session command current_tick = do
  validation ← validate session.policy command (context_of session current_tick)
  admit session command validation

abbrev pub commit_accepted_sequence : ℕ → CommandSession → CommandSession
commit_accepted_sequence sequence session = record session { highest_accepted_sequence = sequence }
