-- ===== src/Command/Pipeline.antt =====
-- cpp/include/tickline/command/authoritative_command_pipeline.hpp and
-- cpp/src/command/authoritative_command_pipeline.cpp: a command goes through its session into the
-- world, and what was found goes into the evidence.
pub mod Outcome
pub mod Continuity
pub mod Recorded
use tickline.Base.{
  ℕ, ltb, not, Option, none, some, Bool, true, false, if◌then◌else◌, Result, Exception, ok, err,
  invalid_argument, overflow_error, logic_error, ◌>>=◌, ◌>>◌, throw_if, ◌==◌,
}
use tickline.Base.Words.{u64_max}
use tickline.Simulation.Clock.{Tick}
use tickline.Simulation.Schedule.{VelocityCommand}
use tickline.Simulation.World.{
  World, QueueCommandResult, queue_velocity, current_tick, pending_command_count,
}
use tickline.Simulation.Fingerprint.{StateFingerprint}
use tickline.Simulation.Canonical.{fingerprint_world_state}
use tickline.Command.Envelope.{CommandEnvelope}
use tickline.Command.Validator.{
  CommandRejectionCode, stale_target_tick, unknown_entity, entity_sequence_not_increasing,
  target_tick_regression, velocity_out_of_range,
}
use tickline.Command.Session.{
  CommandSession, CommandAdmissionResult, evaluate, commit_accepted_sequence, is_none,
}
use tickline.Command.Evidence.{CommandEvidenceEntry, CommandQueueOutcome, command_queue_outcome}
use tickline.Command.Evidence.Codec.{rejection_value}
use tickline.Command.Evidence.Chain.{CommandEvidenceLog, prepare_append, append}

unfoldable pub command_rejection_from_queue_result : QueueCommandResult → CommandRejectionCode
command_rejection_from_queue_result QueueCommandResult.accepted = CommandRejectionCode.none
command_rejection_from_queue_result QueueCommandResult.stale_tick = stale_target_tick
command_rejection_from_queue_result QueueCommandResult.unknown_entity = unknown_entity
command_rejection_from_queue_result QueueCommandResult.sequence_not_increasing =
    entity_sequence_not_increasing
command_rejection_from_queue_result QueueCommandResult.target_tick_regression =
    target_tick_regression
command_rejection_from_queue_result QueueCommandResult.velocity_out_of_range = velocity_out_of_range

pub record CommandSubmissionResult : Type 0 where
  pub code : CommandRejectionCode
  pub queue_result : Option QueueCommandResult

-- What the private constructor refuses.
abbrev inconsistent : CommandRejectionCode → Option QueueCommandResult → Bool
inconsistent code none = is_none code
inconsistent code (some queue_result) =
    not (rejection_value (command_rejection_from_queue_result queue_result) == rejection_value code)

abbrev command_submission_result :
    CommandRejectionCode → Option QueueCommandResult → Result Exception CommandSubmissionResult
command_submission_result code queue_result = do
  throw_if (inconsistent code queue_result) invalid_argument
  ok (record { code = code; queue_result = queue_result })

unfoldable pub reject : CommandRejectionCode → Result Exception CommandSubmissionResult
reject code = do throw_if (is_none code) invalid_argument; command_submission_result code none

unfoldable pub from_queue_result : QueueCommandResult → Result Exception CommandSubmissionResult
from_queue_result queue_result =
    command_submission_result (command_rejection_from_queue_result queue_result) (some queue_result)

abbrev pub accepted : CommandSubmissionResult → Bool
accepted result = is_none result.code

unfoldable pub checked_count : ℕ → Result Exception ℕ
checked_count value = do throw_if (ltb u64_max value) overflow_error; ok value

-- The three things that `submit` changes.
pub record Submitted : Type 0 where
  pub result : CommandSubmissionResult
  pub session : CommandSession
  pub world : World
  pub evidence : CommandEvidenceLog

-- What `submit` reads before it asks the session.
pub record Observed : Type 0 where
  pub tick : ℕ
  pub fingerprint : StateFingerprint
  pub session_sequence : ℕ
  pub pending : ℕ

abbrev pub evidence_entry :
    Observed
    → CommandEnvelope
    → CommandSession
    → ℕ
    → CommandRejectionCode
    → CommandQueueOutcome
    → CommandEvidenceEntry
evidence_entry before command session pending_after code outcome = record {
  world_fingerprint_before = before.fingerprint;
  observed_tick = before.tick;
  envelope = command;
  session_sequence_before = before.session_sequence;
  session_sequence_after = session.highest_accepted_sequence;
  pending_commands_before = before.pending;
  pending_commands_after = pending_after;
  rejection_code = code;
  queue_outcome = outcome;
}

-- `submit` from an admission that did not accept.
unfoldable pub submit_rejected :
    Observed
    → CommandSession
    → World
    → CommandEvidenceLog
    → CommandEnvelope
    → CommandRejectionCode
    → Result Exception Submitted
unfolding reject checked_count
submit_rejected before session w log command code = do
  result ← reject code
  pending_after ← checked_count (pending_command_count w)
  ok (record {
    result = result;
    session = session;
    world = w;
    evidence =
        append
          (evidence_entry before command session pending_after result.code
            CommandQueueOutcome.not_attempted)
          log;
  })

abbrev pub or_logic_error : Option VelocityCommand → Result Exception VelocityCommand
or_logic_error none = err logic_error
or_logic_error (some command) = ok command

-- `submit` from an admission that accepted.
unfoldable pub submit_admitted :
    Observed
    → CommandSession
    → World
    → CommandEvidenceLog
    → CommandEnvelope
    → Option VelocityCommand
    → Result Exception Submitted
unfolding from_queue_result checked_count command_queue_outcome
submit_admitted before session w log command admitted = do
  velocity_command ← or_logic_error admitted
  queued ← queue_velocity w velocity_command
  result ← from_queue_result queued.0
  let session' =
      if accepted result then commit_accepted_sequence command.sequence session else session
  pending_after ← checked_count (pending_command_count queued.1)
  ok (record {
    result = result;
    session = session';
    world = queued.1;
    evidence =
        append
          (evidence_entry before command session' pending_after result.code
            (command_queue_outcome queued.0))
          log;
  })

abbrev pub submit_from :
    Observed
    → CommandSession
    → World
    → CommandEvidenceLog
    → CommandEnvelope
    → CommandAdmissionResult
    → Result Exception Submitted
submit_from before session w log command admission =
    if not (is_none admission.code)
    then submit_rejected before session w log command admission.code
    else submit_admitted before session w log command admission.command

-- The pipeline's only state is its evidence.
unfoldable pub submit :
    ℕ → CommandEvidenceLog → CommandSession → World → CommandEnvelope → Result Exception Submitted
unfolding checked_count
submit max_size log session w command = do
  prepare_append max_size log
  let observed_tick = (current_tick w).index
  fingerprint ← fingerprint_world_state w
  pending ← checked_count (pending_command_count w)
  admission ← evaluate session command observed_tick
  submit_from
      (record {
        tick = observed_tick;
        fingerprint = fingerprint;
        session_sequence = session.highest_accepted_sequence;
        pending = pending;
      })
      session w log command admission
