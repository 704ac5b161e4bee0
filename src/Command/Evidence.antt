-- ===== src/Command/Evidence.antt =====
-- cpp/include/tickline/command/command_evidence.hpp: what is kept of every submission.
pub mod Codec
pub mod Decode
pub mod Chain
pub mod RoundTrip
use tickline.Base.{ℕ}
use tickline.Security.Sha256.{Sha256Digest}
use tickline.Simulation.Fingerprint.{StateFingerprint}
use tickline.Simulation.World.{QueueCommandResult}
use tickline.Command.Envelope.{CommandEnvelope}
use tickline.Command.Validator.{CommandRejectionCode}

abbrev pub command_evidence_schema_version : ℕ
command_evidence_schema_version = 2

abbrev pub command_evidence_encoded_size : ℕ
command_evidence_encoded_size = 160

pub data CommandQueueOutcome : Type 0 where
  not_attempted accepted stale_tick unknown_entity sequence_not_increasing target_tick_regression
        velocity_out_of_range unknown :
      CommandQueueOutcome

unfoldable pub command_queue_outcome : QueueCommandResult → CommandQueueOutcome
command_queue_outcome QueueCommandResult.accepted = accepted
command_queue_outcome QueueCommandResult.stale_tick = stale_tick
command_queue_outcome QueueCommandResult.unknown_entity = unknown_entity
command_queue_outcome QueueCommandResult.sequence_not_increasing = sequence_not_increasing
command_queue_outcome QueueCommandResult.target_tick_regression = target_tick_regression
command_queue_outcome QueueCommandResult.velocity_out_of_range = velocity_out_of_range

pub record CommandEvidenceEntry : Type 0 where
  pub world_fingerprint_before : StateFingerprint
  pub observed_tick : ℕ
  pub envelope : CommandEnvelope
  pub session_sequence_before : ℕ
  pub session_sequence_after : ℕ
  pub pending_commands_before : ℕ
  pub pending_commands_after : ℕ
  pub rejection_code : CommandRejectionCode
  pub queue_outcome : CommandQueueOutcome

pub record CommandEvidenceRecord : Type 0 where
  pub ordinal : ℕ
  pub previous_record_digest : Sha256Digest
  pub entry : CommandEvidenceEntry
