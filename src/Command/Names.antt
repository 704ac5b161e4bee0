-- ===== src/Command/Names.antt =====
-- The names of codes as text: command_rejection_code_name of
-- cpp/include/tickline/command/command_validator.hpp, command_queue_outcome_name of
-- command_evidence.hpp, command_evidence_replay_code_name of command_evidence_replay.hpp.
use tickline.Base.Text.{codes}
use tickline.Base.Words.{Bytes}
use tickline.Command.Validator.{CommandRejectionCode}
use tickline.Command.Evidence.{CommandQueueOutcome}
use tickline.Command.Replay.{CommandEvidenceReplayCode}

unfoldable pub command_rejection_code_name : CommandRejectionCode → Bytes
command_rejection_code_name CommandRejectionCode.none = codes "none"
command_rejection_code_name CommandRejectionCode.unsupported_schema_version =
    codes "unsupported_schema_version"
command_rejection_code_name CommandRejectionCode.unsupported_command_type =
    codes "unsupported_command_type"
command_rejection_code_name CommandRejectionCode.invalid_client_id = codes "invalid_client_id"
command_rejection_code_name CommandRejectionCode.invalid_session_id = codes "invalid_session_id"
command_rejection_code_name CommandRejectionCode.client_identity_mismatch =
    codes "client_identity_mismatch"
command_rejection_code_name CommandRejectionCode.session_identity_mismatch =
    codes "session_identity_mismatch"
command_rejection_code_name CommandRejectionCode.sequence_zero = codes "sequence_zero"
command_rejection_code_name CommandRejectionCode.stale_target_tick = codes "stale_target_tick"
command_rejection_code_name CommandRejectionCode.target_tick_too_far_future =
    codes "target_tick_too_far_future"
command_rejection_code_name CommandRejectionCode.velocity_out_of_range =
    codes "velocity_out_of_range"
command_rejection_code_name CommandRejectionCode.duplicate_sequence = codes "duplicate_sequence"
command_rejection_code_name CommandRejectionCode.sequence_regression = codes "sequence_regression"
command_rejection_code_name CommandRejectionCode.unknown_entity = codes "unknown_entity"
command_rejection_code_name CommandRejectionCode.entity_sequence_not_increasing =
    codes "entity_sequence_not_increasing"
command_rejection_code_name CommandRejectionCode.target_tick_regression =
    codes "target_tick_regression"
command_rejection_code_name CommandRejectionCode.simulation_rejection_unknown =
    codes "simulation_rejection_unknown"

unfoldable pub command_queue_outcome_name : CommandQueueOutcome → Bytes
command_queue_outcome_name CommandQueueOutcome.not_attempted = codes "not_attempted"
command_queue_outcome_name CommandQueueOutcome.accepted = codes "accepted"
command_queue_outcome_name CommandQueueOutcome.stale_tick = codes "stale_tick"
command_queue_outcome_name CommandQueueOutcome.unknown_entity = codes "unknown_entity"
command_queue_outcome_name CommandQueueOutcome.sequence_not_increasing =
    codes "sequence_not_increasing"
command_queue_outcome_name CommandQueueOutcome.target_tick_regression =
    codes "target_tick_regression"
command_queue_outcome_name CommandQueueOutcome.velocity_out_of_range = codes "velocity_out_of_range"
command_queue_outcome_name CommandQueueOutcome.unknown = codes "unknown"

unfoldable pub command_evidence_replay_code_name : CommandEvidenceReplayCode → Bytes
command_evidence_replay_code_name CommandEvidenceReplayCode.verified = codes "verified"
command_evidence_replay_code_name CommandEvidenceReplayCode.chain_verification_failed =
    codes "chain_verification_failed"
command_evidence_replay_code_name CommandEvidenceReplayCode.observed_tick_regression =
    codes "observed_tick_regression"
command_evidence_replay_code_name CommandEvidenceReplayCode.tick_advance_limit_exceeded =
    codes "tick_advance_limit_exceeded"
command_evidence_replay_code_name CommandEvidenceReplayCode.simulation_advance_failed =
    codes "simulation_advance_failed"
command_evidence_replay_code_name CommandEvidenceReplayCode.session_state_mismatch =
    codes "session_state_mismatch"
command_evidence_replay_code_name CommandEvidenceReplayCode.pending_command_count_mismatch =
    codes "pending_command_count_mismatch"
command_evidence_replay_code_name CommandEvidenceReplayCode.world_state_mismatch =
    codes "world_state_mismatch"
command_evidence_replay_code_name CommandEvidenceReplayCode.submission_record_mismatch =
    codes "submission_record_mismatch"
