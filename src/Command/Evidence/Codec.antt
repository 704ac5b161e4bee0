-- ===== src/Command/Evidence/Codec.antt =====
-- cpp/src/command/command_evidence.cpp: the 160 bytes of a record, and its digest.
use tickline.Base.{ℕ, suc, [], ◌∷◌, set, replicate}
use tickline.Base.Int.{ℤ}
use tickline.Base.Words.{Bytes, bytes_u16, bytes_u64, u64_of_i64}
use tickline.Security.Sha256.{Sha256Digest, sha256}
use tickline.Command.Validator.{CommandRejectionCode}
use tickline.Command.Evidence.{
  CommandQueueOutcome, CommandEvidenceRecord, command_evidence_schema_version,
  command_evidence_encoded_size,
}

-- The numbers of the enumerators.
unfoldable pub rejection_value : CommandRejectionCode → ℕ
rejection_value CommandRejectionCode.none = 0
rejection_value CommandRejectionCode.unsupported_schema_version = 1
rejection_value CommandRejectionCode.unsupported_command_type = 2
rejection_value CommandRejectionCode.invalid_client_id = 3
rejection_value CommandRejectionCode.invalid_session_id = 4
rejection_value CommandRejectionCode.client_identity_mismatch = 5
rejection_value CommandRejectionCode.session_identity_mismatch = 6
rejection_value CommandRejectionCode.sequence_zero = 7
rejection_value CommandRejectionCode.stale_target_tick = 8
rejection_value CommandRejectionCode.target_tick_too_far_future = 9
rejection_value CommandRejectionCode.velocity_out_of_range = 10
rejection_value CommandRejectionCode.duplicate_sequence = 11
rejection_value CommandRejectionCode.sequence_regression = 12
rejection_value CommandRejectionCode.unknown_entity = 13
rejection_value CommandRejectionCode.entity_sequence_not_increasing = 14
rejection_value CommandRejectionCode.target_tick_regression = 15
rejection_value CommandRejectionCode.simulation_rejection_unknown = 16

unfoldable pub outcome_value : CommandQueueOutcome → ℕ
outcome_value CommandQueueOutcome.not_attempted = 0
outcome_value CommandQueueOutcome.accepted = 1
outcome_value CommandQueueOutcome.stale_tick = 2
outcome_value CommandQueueOutcome.unknown_entity = 3
outcome_value CommandQueueOutcome.sequence_not_increasing = 4
outcome_value CommandQueueOutcome.target_tick_regression = 5
outcome_value CommandQueueOutcome.velocity_out_of_range = 6
outcome_value CommandQueueOutcome.unknown = 65_535

pub record EvidenceWriter : Type 0 where
  pub output : Bytes
  pub offset : ℕ

unfoldable pub append_byte : EvidenceWriter → ℕ → EvidenceWriter
append_byte writer value = record {
  output = set writer.output writer.offset value;
  offset = suc writer.offset;
}

-- Calls of append_byte in a row: append_u16 and append_u64 make them for the bytes of a number, most
-- significant first, append_digest for those of a digest.
unfoldable pub append_bytes : EvidenceWriter → Bytes → EvidenceWriter
append_bytes writer [] = writer
append_bytes writer (b ∷ bs) = append_bytes (append_byte writer b) bs

abbrev pub append_u16 : EvidenceWriter → ℕ → EvidenceWriter
append_u16 writer value = append_bytes writer (bytes_u16 value)

abbrev pub append_u64 : EvidenceWriter → ℕ → EvidenceWriter
append_u64 writer value = append_bytes writer (bytes_u64 value)

abbrev pub append_i64 : EvidenceWriter → ℤ → EvidenceWriter
append_i64 writer value = append_u64 writer (u64_of_i64 value)

abbrev pub append_digest : EvidenceWriter → Sha256Digest → EvidenceWriter
append_digest writer digest = append_bytes writer digest

abbrev pub evidence_magic : Bytes
evidence_magic = 0x54 ∷ 0x4c ∷ 0x43 ∷ 0x45 ∷ []

abbrev pub new_writer : EvidenceWriter
new_writer = record { output = replicate command_evidence_encoded_size 0; offset = 0 }

unfoldable pub encode_command_evidence : CommandEvidenceRecord → Bytes
unfolding append_bytes append_byte rejection_value outcome_value
encode_command_evidence r =
    let e = r.entry in
    let v = e.envelope in
    let w0 = append_bytes new_writer evidence_magic in
    let w1 = append_u16 w0 command_evidence_schema_version in
    let w2 = append_u16 w1 0 in
    let w3 = append_u64 w2 r.ordinal in
    let w4 = append_digest w3 r.previous_record_digest in
    let w5 = append_u64 w4 e.world_fingerprint_before in
    let w6 = append_u64 w5 e.observed_tick in
    let w7 = append_u16 w6 v.schema_version in
    let w8 = append_u16 w7 v.type in
    let w9 = append_u64 w8 v.client_id in
    let w10 = append_u64 w9 v.session_id in
    let w11 = append_u64 w10 v.sequence in
    let w12 = append_u64 w11 v.target_tick in
    let w13 = append_u64 w12 v.payload.entity_id in
    let w14 = append_i64 w13 v.payload.velocity.x in
    let w15 = append_i64 w14 v.payload.velocity.y in
    let w16 = append_u64 w15 e.session_sequence_before in
    let w17 = append_u64 w16 e.session_sequence_after in
    let w18 = append_u64 w17 e.pending_commands_before in
    let w19 = append_u64 w18 e.pending_commands_after in
    let w20 = append_u16 w19 (rejection_value e.rejection_code) in
    let w21 = append_u16 w20 (outcome_value e.queue_outcome) in w21.output

unfoldable pub digest_command_evidence : CommandEvidenceRecord → Sha256Digest
unfolding encode_command_evidence sha256
digest_command_evidence r = sha256 (encode_command_evidence r)
