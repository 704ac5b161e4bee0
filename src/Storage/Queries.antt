-- ===== src/Storage/Queries.antt =====
-- cpp/src/storage/investigation_store.cpp: the queries of InvestigationStore::Impl, on a database. The
-- record of them is the store that the exporter reads.
use tickline.Base.{
  ℕ, ltb, ◌==◌, not, ◌||◌, if◌then◌else◌, Bool, true, false, Option, none, some, List, [], ◌∷◌,
  ◌++◌, Result, ok, err, ◌>>=◌, ◌>>◌, throw_if,
}
use tickline.Base.Int.{ℤ, pos, leb_ℤ}
use tickline.Base.Words.{Bytes}
use tickline.Command.Evidence.Chain.{same_bytes}
use tickline.Security.Sha256.{Sha256Digest}
use tickline.Command.Evidence.Codec.{digest_command_evidence, rejection_value, outcome_value}
use tickline.Command.Evidence.Decode.{CommandEvidenceDecodeErrorCode, decode_command_evidence}
use tickline.Command.Evidence.{CommandEvidenceRecord}
use tickline.Command.Replay.{
  CommandEvidenceReplayCode, CommandEvidenceReplayResult, verified, chain_verification_failed,
  observed_tick_regression, tick_advance_limit_exceeded, simulation_advance_failed,
  session_state_mismatch, pending_command_count_mismatch, world_state_mismatch,
  submission_record_mismatch,
}
use tickline.Storage.Store.{
  InvestigationStoreErrorCode, StoreException, store_error, record_error, sqlite_failure,
  invalid_argument, EvidenceArchiveSummary, EvidenceSessionSummary, EvidenceQuery,
  StoredEvidenceRecord, InvestigationStore,
}
use tickline.Storage.Sqlite.{
  Sqlite, Value, Sql, EvidenceCondition, integer, blob, u64, select_existing, archive_exists,
  select_archives, select_evidence, select_sessions, select_version, select_replay_result,
  count_archives, count_evidence, client_id_is, session_id_is, rejection_code_is, queue_outcome_is,
  observed_tick_from, observed_tick_to, ordinal_above, column, column_u64, column_digest,
  column_size, checked_int64, first_row, each_row,
}

abbrev is_row : Option (List Value) → Bool
is_row none = false
is_row (some _) = true

abbrev pub is_positive : ℤ → Bool
is_positive archive_id = not (leb_ℤ archive_id (pos 0))

unfoldable pub validate_limit : ℕ → Result StoreException (Unit {0})
validate_limit limit = throw_if ((limit == 0) || ltb 1000 limit) (store_error invalid_argument)

abbrev cursor_values : Option ℤ → List Value
cursor_values none = []
cursor_values (some cursor) = integer cursor ∷ []

abbrev is_cursor : Option ℤ → Bool
is_cursor none = false
is_cursor (some _) = true

abbrev is_bad_cursor : Option ℤ → Bool
is_bad_cursor none = false
is_bad_cursor (some cursor) = not (is_positive cursor)

-- A filter of a query: the condition in the SQL text and the value for its `?`.
abbrev pub Filter : Type 0
Filter = EvidenceCondition × Value

abbrev filter {ℓ} : {A : Type ℓ} → EvidenceCondition → (A → Value) → Option A → List Filter
filter condition value none = []
filter condition value (some a) = (condition, value a) ∷ []

unfoldable pub filters : EvidenceQuery → List Filter
filters q =
    filter client_id_is u64 q.client_id
    ++ (filter session_id_is u64 q.session_id
        ++ (filter rejection_code_is (λ code. integer (pos (rejection_value code))) q.rejection_code
            ++ (filter queue_outcome_is (λ outcome. integer (pos (outcome_value outcome)))
                  q.queue_outcome
                ++ (filter observed_tick_from u64 q.minimum_observed_tick
                    ++ (filter observed_tick_to u64 q.maximum_observed_tick
                        ++ filter ordinal_above u64 q.after_ordinal)))))

abbrev conditions : List Filter → List EvidenceCondition
conditions [] = []
conditions ((condition, _) ∷ fs) = condition ∷ conditions fs

abbrev filter_values : List Filter → List Value
filter_values [] = []
filter_values ((_, value) ∷ fs) = value ∷ filter_values fs

abbrev is_empty_range : Option ℕ → Option ℕ → Bool
is_empty_range none _ = false
is_empty_range (some _) none = false
is_empty_range (some least) (some most) = ltb most least

abbrev or_record_error :
    Result CommandEvidenceDecodeErrorCode CommandEvidenceRecord
    → Result StoreException CommandEvidenceRecord
or_record_error (ok r) = ok r
or_record_error (err code) = err (record_error code)

abbrev or_empty : Option Bytes → Bytes
or_empty none = []
or_empty (some bs) = bs

module _ (Q : Sqlite) where
  unfoldable pub read_archive : List Value → Result StoreException EvidenceArchiveSummary
  read_archive r = do
    record_count ← column_size Q 3 r
    archive_digest ← column_digest Q 4 r
    trusted_head ← column_digest Q 5 r
    chain_head ← column_digest Q 6 r
    ok (record {
      archive_id = Q.column_int64 (column 0 r);
      source = Q.column_text (column 1 r);
      imported_at_utc = Q.column_text (column 2 r);
      record_count = record_count;
      archive_digest = archive_digest;
      trusted_head = trusted_head;
      chain_head = chain_head;
    })

  unfoldable pub list_archives :
      Q.Database → ℕ → Option ℤ → Result StoreException (List EvidenceArchiveSummary)
  unfolding validate_limit
  list_archives d limit before_archive_id = do
    validate_limit limit
    throw_if (is_bad_cursor before_archive_id) (store_error invalid_argument)
    bound ← checked_int64 limit
    each_row Q (select_archives (is_cursor before_archive_id))
        (cursor_values before_archive_id ++ (integer bound ∷ [])) read_archive d

  unfoldable pub read_evidence : ℤ → List Value → Result StoreException StoredEvidenceRecord
  read_evidence archive_id r = do
    stored_digest ← column_digest Q 0 r
    evidence ← or_record_error (decode_command_evidence (or_empty (Q.column_blob (column 1 r))))
    throw_if (not (same_bytes (digest_command_evidence evidence) stored_digest))
        (store_error sqlite_failure)
    ok (record { archive_id = archive_id; record_digest = stored_digest; evidence = evidence })

  unfoldable pub query_evidence :
      Q.Database → ℤ → EvidenceQuery → Result StoreException (List StoredEvidenceRecord)
  query_evidence d archive_id q = do
    throw_if (not (is_positive archive_id)) (store_error invalid_argument)
    validate_limit q.limit
    throw_if (is_empty_range q.minimum_observed_tick q.maximum_observed_tick)
        (store_error invalid_argument)
    bound ← checked_int64 q.limit
    each_row Q (select_evidence (conditions (filters q)))
        (integer archive_id ∷ (filter_values (filters q) ++ (integer bound ∷ [])))
        (read_evidence archive_id) d

  unfoldable pub read_session : List Value → Result StoreException EvidenceSessionSummary
  read_session r = do
    client_id ← column_u64 Q 0 r
    session_id ← column_u64 Q 1 r
    first_ordinal ← column_u64 Q 2 r
    last_ordinal ← column_u64 Q 3 r
    first_observed_tick ← column_u64 Q 4 r
    last_observed_tick ← column_u64 Q 5 r
    accepted_count ← column_size Q 6 r
    rejected_count ← column_size Q 7 r
    ok (record {
      client_id = client_id;
      session_id = session_id;
      first_ordinal = first_ordinal;
      last_ordinal = last_ordinal;
      first_observed_tick = first_observed_tick;
      last_observed_tick = last_observed_tick;
      accepted_count = accepted_count;
      rejected_count = rejected_count;
    })

  unfoldable pub list_sessions :
      Q.Database → ℤ → Result StoreException (List EvidenceSessionSummary)
  list_sessions d archive_id = do
    throw_if (not (is_positive archive_id)) (store_error invalid_argument)
    each_row Q select_sessions (integer archive_id ∷ []) read_session d

  -- `unnamed` is what the cast to the enumeration gives for a number that is not one of 0 to 8.
  module _ (unnamed : ℤ → CommandEvidenceReplayCode) where
    abbrev pub replay_code_of : ℤ → CommandEvidenceReplayCode
    replay_code_of (ℤ.negsuc n) = unnamed (ℤ.negsuc n)
    replay_code_of (pos n) =
        if n == 0
        then verified
        else if n == 1
        then chain_verification_failed
        else if n == 2
        then observed_tick_regression
        else if n == 3
        then tick_advance_limit_exceeded
        else if n == 4
        then simulation_advance_failed
        else if n == 5
        then session_state_mismatch
        else if n == 6
        then pending_command_count_mismatch
        else if n == 7
        then world_state_mismatch
        else if n == 8
        then submission_record_mismatch
        else unnamed (pos n)

    unfoldable pub read_failed_ordinal : List Value → Result StoreException (Option ℕ)
    read_failed_ordinal r =
        if Q.column_is_null (column 2 r)
        then ok none
        else (do ordinal ← column_u64 Q 2 r; ok (some ordinal))

    -- A uint64_t is a size_t, so that checked_size_u64 throws nothing.
    unfoldable pub read_replay : List Value → Result StoreException CommandEvidenceReplayResult
    unfolding read_failed_ordinal
    read_replay r = do
      failed_ordinal ← read_failed_ordinal r
      processed_records ← column_size Q 1 r
      performed_tick_advances ← column_u64 Q 3 r
      final_tick ← column_u64 Q 4 r
      final_session_sequence ← column_u64 Q 5 r
      final_pending_command_count ← column_u64 Q 6 r
      final_world_fingerprint ← column_u64 Q 7 r
      replayed_head_digest ← column_digest Q 8 r
      ok (record {
        code = replay_code_of (Q.column_int (column 0 r));
        processed_records = processed_records;
        failed_ordinal = failed_ordinal;
        performed_tick_advances = performed_tick_advances;
        final_tick = final_tick;
        final_session_sequence = final_session_sequence;
        final_pending_command_count = final_pending_command_count;
        final_world_fingerprint = final_world_fingerprint;
        replayed_head_digest = replayed_head_digest;
      })

    abbrev pub read_if_found :
        Option (List Value) → Result StoreException (Option CommandEvidenceReplayResult)
    read_if_found none = ok none
    read_if_found (some r) = do result ← read_replay r; ok (some result)

    unfoldable pub replay_result :
        Q.Database → ℤ → Result StoreException (Option CommandEvidenceReplayResult)
    unfolding read_replay
    replay_result d archive_id = do
      throw_if (not (is_positive archive_id)) (store_error invalid_argument)
      found ← first_row Q select_replay_result (integer archive_id ∷ []) d
      read_if_found found

    -- The queries on a database, for the exporter.
    abbrev pub store_of : Q.Database → InvestigationStore
    unfolding list_archives query_evidence list_sessions replay_result
    store_of d = record {
      list_archives = list_archives d;
      query_evidence = query_evidence d;
      list_sessions = list_sessions d;
      replay_result = replay_result d;
    }

  unfoldable pub read_count : Option (List Value) → Result StoreException ℕ
  read_count none = err (store_error sqlite_failure)
  read_count (some r) = column_size Q 0 r

  unfoldable pub count_rows : Sql → Q.Database → Result StoreException ℕ
  unfolding read_count
  count_rows sql d = do found ← first_row Q sql [] d; read_count found

  abbrev pub archive_count : Q.Database → Result StoreException ℕ
  unfolding count_rows
  archive_count = count_rows count_archives

  abbrev pub evidence_record_count : Q.Database → Result StoreException ℕ
  unfolding count_rows
  evidence_record_count = count_rows count_evidence

  abbrev version_of : InvestigationStoreErrorCode → Option (List Value) → Result StoreException ℤ
  version_of code none = err (store_error code)
  version_of code (some r) = ok (Q.column_int (column 0 r))

  unfoldable pub read_version : InvestigationStoreErrorCode → Q.Database → Result StoreException ℤ
  read_version code d = do found ← first_row Q select_version [] d; version_of code found

  abbrev pub schema_version : Q.Database → Result StoreException ℤ
  unfolding read_version
  schema_version = read_version sqlite_failure

  abbrev or_sqlite_failure : Option (List Value) → Result StoreException (List Value)
  or_sqlite_failure none = err (store_error sqlite_failure)
  or_sqlite_failure (some r) = ok r

  -- The archive that was imported before under a digest, which has to have the same count and head.
  unfoldable pub existing_archive :
      Sha256Digest → ℕ → Sha256Digest → Q.Database → Result StoreException ℤ
  existing_archive archive_digest record_count head_digest d = do
    found ← first_row Q select_existing (blob archive_digest ∷ []) d
    r ← or_sqlite_failure found
    existing_count ← column_size Q 1 r
    existing_head ← column_digest Q 2 r
    throw_if (not (existing_count == record_count) || not (same_bytes existing_head head_digest))
        (store_error sqlite_failure)
    ok (Q.column_int64 (column 0 r))

  unfoldable pub archive_is_there : ℤ → Q.Database → Result StoreException Bool
  archive_is_there archive_id d = do
    found ← first_row Q archive_exists (integer archive_id ∷ []) d
    ok (is_row found)
