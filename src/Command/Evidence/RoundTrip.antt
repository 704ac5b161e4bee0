-- ===== src/Command/Evidence/RoundTrip.antt =====
-- cpp/src/command/command_evidence.cpp: records through their bytes and back.
use tickline.Base.{
  ℕ, ◌+◌, ==_ne, ◌≡◌, refl, some, length, get_or, tabulate, tabulate-get_or, ok, arith, subst,
}
use tickline.Base.Words.{
  Bytes, IsU16, IsU64, u64_of_i64, join-bytes_u64, join_u16-bytes, i64_of_u64-u64_of_i64,
  u64_of_i64-IsU64,
}
use tickline.Command.Validator.{CommandRejectionCode}
use tickline.Command.Evidence.{CommandEvidenceRecord, CommandQueueOutcome}
use tickline.Command.Evidence.Codec.{encode_command_evidence, rejection_value, outcome_value}
use tickline.Command.Evidence.Decode.{
  decode_command_evidence, known_rejection_code, known_queue_outcome, validate_record_invariants,
}
use tickline.Protocol.Codec.RoundTrip.{IsEnvelope}

pub known-rejection_value :
    (code : CommandRejectionCode) → known_rejection_code (rejection_value code) ≡ some code
unfolding known_rejection_code rejection_value
known-rejection_value CommandRejectionCode.none = refl
known-rejection_value _ = refl

pub known-outcome_value :
    (outcome : CommandQueueOutcome) → known_queue_outcome (outcome_value outcome) ≡ some outcome
unfolding known_queue_outcome outcome_value
known-outcome_value CommandQueueOutcome.accepted = refl
known-outcome_value _ = refl

rejection_value-IsU16 : (code : CommandRejectionCode) → IsU16 (rejection_value code)
unfolding rejection_value
rejection_value-IsU16 CommandRejectionCode.none = omega arith
rejection_value-IsU16 _ = omega arith

outcome_value-IsU16 : (outcome : CommandQueueOutcome) → IsU16 (outcome_value outcome)
unfolding outcome_value
outcome_value-IsU16 CommandQueueOutcome.accepted = omega arith
outcome_value-IsU16 _ = omega arith

-- A record whose fields are in their ranges, and which passes the checks of the decoder.
pub record IsRecord (r : CommandEvidenceRecord) : Type 0 where
  pub ordinal : IsU64 r.ordinal
  pub digest : length r.previous_record_digest ≡ 32
  pub fingerprint : IsU64 r.entry.world_fingerprint_before
  pub tick : IsU64 r.entry.observed_tick
  pub envelope : IsEnvelope r.entry.envelope
  pub sequences : IsU64 r.entry.session_sequence_before × IsU64 r.entry.session_sequence_after
  pub pending : IsU64 r.entry.pending_commands_before × IsU64 r.entry.pending_commands_after
  pub consistent : validate_record_invariants r.entry ≡ ok tt

module _ (r : CommandEvidenceRecord) (v : IsRecord r) (d : ℕ → ℕ) where
  abbrev spelled : CommandEvidenceRecord
  spelled = record r { previous_record_digest = tabulate 32 d }

  decode-encode_spelled : decode_command_evidence (encode_command_evidence spelled) ≡ ok spelled
  unfolding decode_command_evidence encode_command_evidence
  decode-encode_spelled =
      let e = r.entry in
      let c = e.envelope in
      let x = u64_of_i64 c.payload.velocity.x in
      let y = u64_of_i64 c.payload.velocity.y in
      rw (
        join_u16-bytes (rejection_value e.rejection_code) (rejection_value-IsU16 e.rejection_code),
        known-rejection_value e.rejection_code,
        join_u16-bytes (outcome_value e.queue_outcome) (outcome_value-IsU16 e.queue_outcome),
        known-outcome_value e.queue_outcome,
        join-bytes_u64 c.payload.entity_id v.envelope.entity_id.1,
        ==_ne c.payload.entity_id 0 (λ z. omega (arith, v.envelope.entity_id)),
        join-bytes_u64 r.ordinal v.ordinal,
        join-bytes_u64 e.world_fingerprint_before v.fingerprint,
        join-bytes_u64 e.observed_tick v.tick,
        join_u16-bytes c.schema_version v.envelope.schema_version,
        join_u16-bytes c.type v.envelope.type,
        join-bytes_u64 c.client_id v.envelope.client_id,
        join-bytes_u64 c.session_id v.envelope.session_id,
        join-bytes_u64 c.sequence v.envelope.sequence,
        join-bytes_u64 c.target_tick v.envelope.target_tick,
        join-bytes_u64 x (u64_of_i64-IsU64 _ v.envelope.velocity.0),
        join-bytes_u64 y (u64_of_i64-IsU64 _ v.envelope.velocity.1),
        i64_of_u64-u64_of_i64 c.payload.velocity.x v.envelope.velocity.0,
        i64_of_u64-u64_of_i64 c.payload.velocity.y v.envelope.velocity.1,
        join-bytes_u64 e.session_sequence_before v.sequences.0,
        join-bytes_u64 e.session_sequence_after v.sequences.1,
        join-bytes_u64 e.pending_commands_before v.pending.0,
        join-bytes_u64 e.pending_commands_after v.pending.1,
        v.consistent,
      )

-- A record with fields in their ranges and a digest of 32 bytes, which passes the checks of the
-- decoder, is what its 160 bytes decode to.
pub decode-encode_command_evidence :
    (r : CommandEvidenceRecord)
    → IsRecord r
    → decode_command_evidence (encode_command_evidence r) ≡ ok r
decode-encode_command_evidence r v =
    let digest = r.previous_record_digest in
    subst
      (λ (bs : Bytes).
        decode_command_evidence (encode_command_evidence (record r { previous_record_digest = bs }))
        ≡ ok (record r { previous_record_digest = bs }))
      (tabulate-get_or 32 digest 0 v.digest)
      (decode-encode_spelled r v (λ i. get_or digest (0 + i) 0))
