-- ===== src/Command/Evidence/Decode.antt =====
-- cpp/src/command/command_evidence.cpp: a record from its bytes.
use tickline.Base.{
  ℕ, zero, suc, ◌+◌, ◌==◌, leb, not, ◌||◌, Bool, true, false, if◌then◌else◌, Option, none, some, [],
  ◌∷◌, length, get_or, Result, ok, err, ◌>>=◌, ◌>>◌, throw_if, bit_or,
}
use tickline.Base.Words.{Bytes, join_u16, i64_of_u64, u64_max, shl}
use tickline.Command.Validator.{CommandRejectionCode}
use tickline.Command.Session.{is_none}
use tickline.Command.Evidence.{
  CommandQueueOutcome, CommandEvidenceEntry, CommandEvidenceRecord, command_evidence_schema_version,
  command_evidence_encoded_size,
}
use tickline.Command.Evidence.Codec.{evidence_magic, rejection_value}

pub data CommandEvidenceDecodeErrorCode : Type 0 where
  invalid_size invalid_magic unsupported_schema_version nonzero_reserved_field invalid_entity_id
        unknown_rejection_code unknown_queue_outcome inconsistent_outcome
        inconsistent_state_transition :
      CommandEvidenceDecodeErrorCode

-- A cast to CommandRejectionCode and is_known_rejection_code: the codes are the numbers to 16.
unfoldable pub known_rejection_code : ℕ → Option CommandRejectionCode
known_rejection_code value =
    if value == 0
    then some CommandRejectionCode.none
    else if value == 1
    then some CommandRejectionCode.unsupported_schema_version
    else if value == 2
    then some CommandRejectionCode.unsupported_command_type
    else if value == 3
    then some CommandRejectionCode.invalid_client_id
    else if value == 4
    then some CommandRejectionCode.invalid_session_id
    else if value == 5
    then some CommandRejectionCode.client_identity_mismatch
    else if value == 6
    then some CommandRejectionCode.session_identity_mismatch
    else if value == 7
    then some CommandRejectionCode.sequence_zero
    else if value == 8
    then some CommandRejectionCode.stale_target_tick
    else if value == 9
    then some CommandRejectionCode.target_tick_too_far_future
    else if value == 10
    then some CommandRejectionCode.velocity_out_of_range
    else if value == 11
    then some CommandRejectionCode.duplicate_sequence
    else if value == 12
    then some CommandRejectionCode.sequence_regression
    else if value == 13
    then some CommandRejectionCode.unknown_entity
    else if value == 14
    then some CommandRejectionCode.entity_sequence_not_increasing
    else if value == 15
    then some CommandRejectionCode.target_tick_regression
    else if value == 16
    then some CommandRejectionCode.simulation_rejection_unknown
    else none

-- A cast to CommandQueueOutcome and is_known_queue_outcome.
unfoldable pub known_queue_outcome : ℕ → Option CommandQueueOutcome
known_queue_outcome value =
    if value == 0
    then some CommandQueueOutcome.not_attempted
    else if value == 1
    then some CommandQueueOutcome.accepted
    else if value == 2
    then some CommandQueueOutcome.stale_tick
    else if value == 3
    then some CommandQueueOutcome.unknown_entity
    else if value == 4
    then some CommandQueueOutcome.sequence_not_increasing
    else if value == 5
    then some CommandQueueOutcome.target_tick_regression
    else if value == 6
    then some CommandQueueOutcome.velocity_out_of_range
    else if value == 65_535
    then some CommandQueueOutcome.unknown
    else none

unfoldable pub expected_rejection_code : CommandQueueOutcome → Option CommandRejectionCode
expected_rejection_code CommandQueueOutcome.not_attempted = none
expected_rejection_code CommandQueueOutcome.accepted = some CommandRejectionCode.none
expected_rejection_code CommandQueueOutcome.stale_tick = some CommandRejectionCode.stale_target_tick
expected_rejection_code CommandQueueOutcome.unknown_entity =
    some CommandRejectionCode.unknown_entity
expected_rejection_code CommandQueueOutcome.sequence_not_increasing =
    some CommandRejectionCode.entity_sequence_not_increasing
expected_rejection_code CommandQueueOutcome.target_tick_regression =
    some CommandRejectionCode.target_tick_regression
expected_rejection_code CommandQueueOutcome.velocity_out_of_range =
    some CommandRejectionCode.velocity_out_of_range
expected_rejection_code CommandQueueOutcome.unknown =
    some CommandRejectionCode.simulation_rejection_unknown

-- validate_record_invariants of a record whose rejection code is `none`.
abbrev check_accepted : CommandEvidenceEntry → Result CommandEvidenceDecodeErrorCode (Unit {0})
check_accepted e = do
  throw_if
      (not (e.session_sequence_after == e.envelope.sequence)
        || leb e.session_sequence_after e.session_sequence_before)
      inconsistent_state_transition
  throw_if (e.pending_commands_before == u64_max) inconsistent_state_transition
  throw_if (not (e.pending_commands_after == e.pending_commands_before + 1))
      inconsistent_state_transition

-- The same where it is another one.
abbrev check_rejected : CommandEvidenceEntry → Result CommandEvidenceDecodeErrorCode (Unit {0})
check_rejected e =
    throw_if
      (not (e.session_sequence_after == e.session_sequence_before)
        || not (e.pending_commands_after == e.pending_commands_before))
      inconsistent_state_transition

abbrev is_accepted : CommandQueueOutcome → Bool
is_accepted CommandQueueOutcome.accepted = true
is_accepted _ = false

-- `a != b` on Booleans.
abbrev differ : Bool → Bool → Bool
differ true b = not b
differ false b = b

-- `expected.has_value() && expected.value() != code`
abbrev unexpected : Option CommandRejectionCode → CommandRejectionCode → Bool
unexpected none code = false
unexpected (some expected) code = not (rejection_value expected == rejection_value code)

unfoldable pub validate_record_invariants :
    CommandEvidenceEntry → Result CommandEvidenceDecodeErrorCode (Unit {0})
unfolding expected_rejection_code
validate_record_invariants e = do
  throw_if (differ (is_none e.rejection_code) (is_accepted e.queue_outcome)) inconsistent_outcome
  throw_if (unexpected (expected_rejection_code e.queue_outcome) e.rejection_code)
      inconsistent_outcome
  if is_none e.rejection_code then check_accepted e else check_rejected e

-- An EvidenceReader: the input, and the offset in it.
abbrev Reader : Type 0
Reader = Bytes × ℕ

abbrev read_byte : Reader → ℕ × Reader
read_byte (input, offset) = (get_or input offset 0, (input, suc offset))

abbrev read_u16 : Reader → ℕ × Reader
read_u16 r =
    let (first, r1) = read_byte r in let (second, r2) = read_byte r1 in (join_u16 first second, r2)

-- The loop of read_u64 with `rounds` bytes to go.
unfoldable pub read_u64_loop : ℕ → ℕ → Reader → ℕ × Reader
read_u64_loop zero value r = (value, r)
read_u64_loop (suc rounds) value r =
    let (byte, r1) = read_byte r in read_u64_loop rounds (bit_or (shl 64 value 8) byte) r1

abbrev read_u64 : Reader → ℕ × Reader
read_u64 r = read_u64_loop 8 0 r

-- The loop of read_digest with `rounds` bytes to go.
unfoldable pub read_digest_loop : ℕ → Reader → Bytes × Reader
read_digest_loop zero r = ([], r)
read_digest_loop (suc rounds) r =
    let (byte, r1) = read_byte r in let (rest, r2) = read_digest_loop rounds r1 in (byte ∷ rest, r2)

-- The loop over the magic.
unfoldable pub check_magic : Bytes → Reader → Result CommandEvidenceDecodeErrorCode Reader
check_magic [] r = ok r
check_magic (expected ∷ rest) r = do
  let (byte, r1) = read_byte r
  throw_if (not (byte == expected)) invalid_magic
  check_magic rest r1

-- `std::optional` with a value, or the error.
abbrev known_or {ℓ} :
    {A : Type ℓ}
    → CommandEvidenceDecodeErrorCode
    → Option A
    → Result CommandEvidenceDecodeErrorCode A
known_or code none = err code
known_or code (some a) = ok a

unfoldable pub decode_command_evidence :
    Bytes → Result CommandEvidenceDecodeErrorCode CommandEvidenceRecord
unfolding check_magic read_u64_loop read_digest_loop known_rejection_code known_queue_outcome
    validate_record_invariants
decode_command_evidence encoded = do
  throw_if (not (length encoded == command_evidence_encoded_size)) invalid_size
  r0 ← check_magic evidence_magic (encoded, 0)
  let (schema_version, r1) = read_u16 r0
  throw_if (not (schema_version == command_evidence_schema_version)) unsupported_schema_version
  let (reserved, r2) = read_u16 r1
  throw_if (not (reserved == 0)) nonzero_reserved_field
  let (ordinal, r3) = read_u64 r2
  let (previous_digest, r4) = read_digest_loop 32 r3
  let (world_fingerprint, r5) = read_u64 r4
  let (observed_tick, r6) = read_u64 r5
  let (envelope_schema, r7) = read_u16 r6
  let (command_type, r8) = read_u16 r7
  let (client_id, r9) = read_u64 r8
  let (session_id, r10) = read_u64 r9
  let (sequence, r11) = read_u64 r10
  let (target_tick, r12) = read_u64 r11
  let (entity_id_value, r13) = read_u64 r12
  let (velocity_x, r14) = read_u64 r13
  let (velocity_y, r15) = read_u64 r14
  let (session_sequence_before, r16) = read_u64 r15
  let (session_sequence_after, r17) = read_u64 r16
  let (pending_commands_before, r18) = read_u64 r17
  let (pending_commands_after, r19) = read_u64 r18
  let (rejection_number, r20) = read_u16 r19
  rejection_code ← known_or unknown_rejection_code (known_rejection_code rejection_number)
  let (outcome_number, r21) = read_u16 r20
  queue_outcome ← known_or unknown_queue_outcome (known_queue_outcome outcome_number)
  throw_if (entity_id_value == 0) invalid_entity_id
  let entry : CommandEvidenceEntry = record {
    world_fingerprint_before = world_fingerprint;
    observed_tick = observed_tick;
    envelope = record {
      schema_version = envelope_schema;
      type = command_type;
      client_id = client_id;
      session_id = session_id;
      sequence = sequence;
      target_tick = target_tick;
      payload = record {
        entity_id = entity_id_value;
        velocity = record { x = i64_of_u64 velocity_x; y = i64_of_u64 velocity_y };
      };
    };
    session_sequence_before = session_sequence_before;
    session_sequence_after = session_sequence_after;
    pending_commands_before = pending_commands_before;
    pending_commands_after = pending_commands_after;
    rejection_code = rejection_code;
    queue_outcome = queue_outcome;
  }
  validate_record_invariants entry
  ok (record { ordinal = ordinal; previous_record_digest = previous_digest; entry = entry })
