-- ===== src/Storage/Rows.antt =====
-- cpp/src/storage/investigation_store.cpp: what an import and a replay result write, the aggregates of
-- the sessions and the values of each row.
use tickline.Base.{
  ℕ, ◌+◌, ◌%◌, ◌^◌, ltb, ◌==◌, ◌&&◌, ◌||◌, if◌then◌else◌, Bool, Option, none, some, List, [], ◌∷◌,
  Result, ok, err,
}
use tickline.Base.Int.{ℤ, pos}
use tickline.Command.Session.{is_none}
use tickline.Command.Evidence.{CommandEvidenceRecord}
use tickline.Command.Evidence.Codec.{
  encode_command_evidence, digest_command_evidence, rejection_value, outcome_value,
}
use tickline.Command.Replay.{CommandEvidenceReplayCode, CommandEvidenceReplayResult}
use tickline.Storage.Store.{StoreException}
use tickline.Storage.Bundle.{SessionKey, same_key}
use tickline.Storage.Sqlite.{Value, null, integer, blob, u64}

pub record SessionAggregate : Type 0 where
  pub first_ordinal : ℕ
  pub last_ordinal : ℕ
  pub first_observed_tick : ℕ
  pub last_observed_tick : ℕ
  pub accepted_count : ℕ
  pub rejected_count : ℕ

abbrev pub key_of : CommandEvidenceRecord → SessionKey
key_of r = (r.entry.envelope.client_id, r.entry.envelope.session_id)

-- The order of std::pair.
abbrev pub less_key : SessionKey → SessionKey → Bool
less_key (a, b) (c, d) = ltb a c || (a == c && ltb b d)

-- The aggregate that try_emplace puts under a new key.
abbrev pub new_aggregate : CommandEvidenceRecord → SessionAggregate
new_aggregate r = record {
  first_ordinal = r.ordinal;
  last_ordinal = r.ordinal;
  first_observed_tick = r.entry.observed_tick;
  last_observed_tick = r.entry.observed_tick;
  accepted_count = 0;
  rejected_count = 0;
}

abbrev pub extended : CommandEvidenceRecord → SessionAggregate → SessionAggregate
extended r aggregate = record aggregate {
  last_ordinal = r.ordinal;
  last_observed_tick = r.entry.observed_tick;
}

-- The counts have 64 bits.
unfoldable pub counted : CommandEvidenceRecord → SessionAggregate → SessionAggregate
counted r aggregate =
    if is_none r.entry.rejection_code
    then record aggregate { accepted_count = (aggregate.accepted_count + 1) % 2 ^ 64 }
    else record aggregate { rejected_count = (aggregate.rejected_count + 1) % 2 ^ 64 }

-- A std::map in the order of its keys.
abbrev pub Aggregates : Type 0
Aggregates = List (SessionKey × SessionAggregate)

-- What a round of the loop does to session_aggregates.
unfoldable pub aggregate : CommandEvidenceRecord → Aggregates → Aggregates
unfolding counted
aggregate r [] = (key_of r, counted r (new_aggregate r)) ∷ []
aggregate r ((k, g) ∷ gs) =
    if same_key k (key_of r)
    then (k, counted r (extended r g)) ∷ gs
    else if less_key (key_of r) k
    then (key_of r, counted r (new_aggregate r)) ∷ (k, g) ∷ gs
    else (k, g) ∷ aggregate r gs

unfoldable pub record_values : ℤ → CommandEvidenceRecord → List Value
record_values archive_id r =
    let e = r.entry in
    let v = e.envelope in
    integer archive_id
    ∷ u64 r.ordinal
    ∷ blob (digest_command_evidence r)
    ∷ blob r.previous_record_digest
    ∷ u64 e.world_fingerprint_before
    ∷ u64 e.observed_tick
    ∷ integer (pos v.schema_version)
    ∷ integer (pos v.type)
    ∷ u64 v.client_id
    ∷ u64 v.session_id
    ∷ u64 v.sequence
    ∷ u64 v.target_tick
    ∷ u64 v.payload.entity_id
    ∷ integer v.payload.velocity.x
    ∷ integer v.payload.velocity.y
    ∷ u64 e.session_sequence_before
    ∷ u64 e.session_sequence_after
    ∷ u64 e.pending_commands_before
    ∷ u64 e.pending_commands_after
    ∷ integer (pos (rejection_value e.rejection_code))
    ∷ integer (pos (outcome_value e.queue_outcome))
    ∷ blob (encode_command_evidence r)
    ∷ []

unfoldable pub session_values : ℤ → SessionKey → SessionAggregate → ℤ → ℤ → List Value
session_values archive_id (client_id, session_id) g accepted rejected =
    integer archive_id
    ∷ u64 client_id
    ∷ u64 session_id
    ∷ u64 g.first_ordinal
    ∷ u64 g.last_ordinal
    ∷ u64 g.first_observed_tick
    ∷ u64 g.last_observed_tick
    ∷ integer accepted
    ∷ integer rejected
    ∷ []

abbrev pub both : Result StoreException ℤ → Result StoreException ℤ → Result StoreException (ℤ × ℤ)
both (err e) _ = err e
both (ok a) (err e) = err e
both (ok a) (ok b) = ok (a, b)

-- The numbers of the enumerators.
unfoldable pub replay_code_value : CommandEvidenceReplayCode → ℕ
replay_code_value CommandEvidenceReplayCode.verified = 0
replay_code_value CommandEvidenceReplayCode.chain_verification_failed = 1
replay_code_value CommandEvidenceReplayCode.observed_tick_regression = 2
replay_code_value CommandEvidenceReplayCode.tick_advance_limit_exceeded = 3
replay_code_value CommandEvidenceReplayCode.simulation_advance_failed = 4
replay_code_value CommandEvidenceReplayCode.session_state_mismatch = 5
replay_code_value CommandEvidenceReplayCode.pending_command_count_mismatch = 6
replay_code_value CommandEvidenceReplayCode.world_state_mismatch = 7
replay_code_value CommandEvidenceReplayCode.submission_record_mismatch = 8

abbrev pub u64_or_null : Option ℕ → Value
u64_or_null none = null
u64_or_null (some value) = u64 value

-- The columns of replay_results behind the archive's identifier.
unfoldable pub replay_values : CommandEvidenceReplayResult → ℤ → List Value
unfolding replay_code_value
replay_values result processed =
    integer (pos (replay_code_value result.code))
    ∷ integer processed
    ∷ u64_or_null result.failed_ordinal
    ∷ u64 result.performed_tick_advances
    ∷ u64 result.final_tick
    ∷ u64 result.final_session_sequence
    ∷ u64 result.final_pending_command_count
    ∷ u64 result.final_world_fingerprint
    ∷ blob result.replayed_head_digest
    ∷ []
