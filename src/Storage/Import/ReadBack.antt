-- ===== src/Storage/Import/ReadBack.antt =====
-- cpp/src/storage/investigation_store.cpp: a replay result that was recorded is read back.
use tickline.Base.{
  ℕ, ◌+◌, ◌^◌, ◌<◌, ◌-◌, le→ltb, ◌≡◌, refl, not, Bool, true, false, Option, none, some, List, [],
  ◌∷◌, length, Result, ok, err, arith,
}
use tickline.Base.Int.{ℤ, pos}
use tickline.Base.Words.{Bytes, IsU64, bytes_u64, join-bytes_u64, u64_max}
use tickline.Command.Replay.{CommandEvidenceReplayCode, CommandEvidenceReplayResult}
use tickline.Storage.Store.{StoreException, store_error, sqlite_failure, invalid_argument}
use tickline.Storage.Sqlite.{
  Sqlite, Step, failed, done, row, Value, null, integer, blob, u64, decode_u64, decode_digest,
  checked_size, checked_int64, begin_immediate, commit, upsert_replay_result, select_replay_result,
  first_row,
}
use tickline.Storage.Sqlite.Actions.{
  continue, ◌>>=◌, query, throw_when, is_failed, is_done, or_fail, prepare, step_done, execute_sql,
  transaction, in_transaction, end_transaction, commit_or_roll_back,
}
use tickline.Storage.Queries.{
  is_positive, replay_code_of, read_failed_ordinal, read_replay, replay_result, archive_is_there,
}
use tickline.Storage.Rows.{replay_code_value, u64_or_null, replay_values}
use tickline.Storage.Import.{
  upsert_replay, write_replay_result, write_if_there, record_replay_result,
}

-- Columns of SQLite: a value is read back as it was bound.
pub record HasColumns (Q : Sqlite) : Type 0 where
  pub int64 : (z : ℤ) → Q.column_int64 (integer z) ≡ z
  pub int : (n : ℕ) → n < 2 ^ 31 → Q.column_int (integer (pos n)) ≡ pos n
  pub null_is_null : Q.column_is_null null ≡ true
  pub blob_is_not_null : (bs : Bytes) → Q.column_is_null (blob bs) ≡ false
  pub blob_of : (bs : Bytes) → 0 < length bs → Q.column_blob (blob bs) ≡ some bs

-- The table of replay results: what was upserted and committed is the row of its archive.
pub record HasReplayTable (Q : Sqlite) : Type 0 where
  pub upserted :
      (archive_id : ℤ) (values : List Value) (d : Q.Database)
      → let written = Q.step upsert_replay_result (integer archive_id ∷ values) d in
        let committed = Q.step commit [] written.1 in
        is_done written.0 ≡ true
        → is_failed committed.0 ≡ false
        → (Q.prepares select_replay_result committed.1 ≡ true)
          × ((Q.rows select_replay_result (integer archive_id ∷ []) committed.1).0 ≡ values ∷ [])

-- A result whose numbers fit their types.
pub record IsStorable (r : CommandEvidenceReplayResult) : Type 0 where
  pub processed : r.processed_records < 2 ^ 63
  pub ordinal : (n : ℕ) → r.failed_ordinal ≡ some n → IsU64 n
  pub advances : IsU64 r.performed_tick_advances
  pub tick : IsU64 r.final_tick
  pub sequence : IsU64 r.final_session_sequence
  pub pending : IsU64 r.final_pending_command_count
  pub fingerprint : IsU64 r.final_world_fingerprint
  pub head : length r.replayed_head_digest ≡ 32

checked_int64_small : (n : ℕ) → n < 2 ^ 63 → checked_int64 n ≡ ok (pos n)
unfolding checked_int64
checked_int64_small n h = rw (le→ltb (2 ^ 63 - 1 + 0) (n + 0) (omega (arith, h))) refl

module _ (Q : Sqlite) (H : HasColumns Q) where
  decode_u64-column : (v : ℕ) → IsU64 v → decode_u64 (Q.column_blob (u64 v)) ≡ ok v
  unfolding decode_u64
  decode_u64-column v h = rw (H.blob_of (bytes_u64 v) (omega arith), join-bytes_u64 v h) refl

  decode_digest-column :
      (bs : Bytes) → length bs ≡ 32 → decode_digest (Q.column_blob (blob bs)) ≡ ok bs
  unfolding decode_digest
  decode_digest-column bs h = rw (H.blob_of bs (omega (arith, h)), h) refl

  checked_size-column :
      (n : ℕ) → n < 2 ^ 63 → checked_size (Q.column_int64 (integer (pos n))) ≡ ok n
  unfolding checked_size
  checked_size-column n h = rw (H.int64 (pos n), le→ltb u64_max n (omega (arith, h))) refl

  module _ (unnamed : ℤ → CommandEvidenceReplayCode) where
    replay_code_of-replay_code_value :
        (c : CommandEvidenceReplayCode)
        → replay_code_of Q unnamed (Q.column_int (integer (pos (replay_code_value c)))) ≡ c
    unfolding replay_code_value
    replay_code_of-replay_code_value CommandEvidenceReplayCode.verified =
        rw (H.int 0 (omega arith)) refl
    replay_code_of-replay_code_value CommandEvidenceReplayCode.chain_verification_failed =
        rw (H.int 1 (omega arith)) refl
    replay_code_of-replay_code_value CommandEvidenceReplayCode.observed_tick_regression =
        rw (H.int 2 (omega arith)) refl
    replay_code_of-replay_code_value CommandEvidenceReplayCode.tick_advance_limit_exceeded =
        rw (H.int 3 (omega arith)) refl
    replay_code_of-replay_code_value CommandEvidenceReplayCode.simulation_advance_failed =
        rw (H.int 4 (omega arith)) refl
    replay_code_of-replay_code_value CommandEvidenceReplayCode.session_state_mismatch =
        rw (H.int 5 (omega arith)) refl
    replay_code_of-replay_code_value CommandEvidenceReplayCode.pending_command_count_mismatch =
        rw (H.int 6 (omega arith)) refl
    replay_code_of-replay_code_value CommandEvidenceReplayCode.world_state_mismatch =
        rw (H.int 7 (omega arith)) refl
    replay_code_of-replay_code_value CommandEvidenceReplayCode.submission_record_mismatch =
        rw (H.int 8 (omega arith)) refl

    failed_ordinal-column :
        (o : Option ℕ) (a b : Value) (vs : List Value)
        → ((n : ℕ) → o ≡ some n → IsU64 n)
        → read_failed_ordinal Q unnamed (a ∷ b ∷ u64_or_null o ∷ vs) ≡ ok o
    unfolding read_failed_ordinal
    failed_ordinal-column none a b vs h = rw H.null_is_null refl
    failed_ordinal-column (some n) a b vs h =
        rw (H.blob_is_not_null (bytes_u64 n), decode_u64-column n (h n refl)) refl

    pub read_replay-replay_values :
        (r : CommandEvidenceReplayResult)
        → IsStorable r
        → read_replay Q unnamed (replay_values r (pos r.processed_records)) ≡ ok r
    unfolding read_replay replay_values
    read_replay-replay_values r s =
        rw
          (
            failed_ordinal-column r.failed_ordinal _ _ _ s.ordinal,
            checked_size-column r.processed_records s.processed,
            decode_u64-column r.performed_tick_advances s.advances,
            decode_u64-column r.final_tick s.tick,
            decode_u64-column r.final_session_sequence s.sequence,
            decode_u64-column r.final_pending_command_count s.pending,
            decode_u64-column r.final_world_fingerprint s.fingerprint,
            decode_digest-column r.replayed_head_digest s.head,
            replay_code_of-replay_code_value r.code,
          )
          refl

    -- A call that returned has left a database from which the result is read.
    abbrev pub IsReadBack :
        ℤ → CommandEvidenceReplayResult → Result StoreException (Unit {0}) × Q.Database → Type 0
    IsReadBack archive_id r (ok _, d) = replay_result Q unnamed d archive_id ≡ ok (some r)
    IsReadBack archive_id r (err _, d) = Unit

    module _ (K : HasReplayTable Q) (archive_id : ℤ) (r : CommandEvidenceReplayResult) where
      selected :
          (d : Q.Database)
          → is_positive archive_id ≡ true
          → IsStorable r
          → Q.prepares select_replay_result d ≡ true
          → (Q.rows select_replay_result (integer archive_id ∷ []) d).0
            ≡ replay_values r (pos r.processed_records) ∷ []
          → replay_result Q unnamed d archive_id ≡ ok (some r)
      unfolding replay_result first_row
      selected d p s e1 e2 = rw (p, e1, e2, read_replay-replay_values r s) refl

      committed-IsReadBack :
          (s : Step) (d : Q.Database)
          → (is_failed s ≡ false → replay_result Q unnamed d archive_id ≡ ok (some r))
          → IsReadBack archive_id r
              (commit_or_roll_back Q tt (or_fail Q sqlite_failure (not (is_failed s)) d))
      committed-IsReadBack failed d k = tt
      committed-IsReadBack done d k = k refl
      committed-IsReadBack (row v) d k = k refl

      written-IsReadBack :
          (s : Step) (d : Q.Database)
          → (is_done s ≡ true → IsReadBack archive_id r (end_transaction Q (ok tt, d)))
          → IsReadBack archive_id r (end_transaction Q (or_fail Q sqlite_failure (is_done s) d))
      written-IsReadBack failed d k = tt
      written-IsReadBack done d k = k refl
      written-IsReadBack (row v) d k = tt

      upserted-IsReadBack :
          (d : Q.Database)
          → is_positive archive_id ≡ true
          → IsStorable r
          → IsReadBack archive_id r
              (end_transaction Q (upsert_replay Q archive_id r (pos r.processed_records) d))
      unfolding step_done execute_sql
      upserted-IsReadBack d p s =
          let written =
            Q.step upsert_replay_result
              (integer archive_id ∷ replay_values r (pos r.processed_records)) d in
          let committed = Q.step commit [] written.1 in
          written-IsReadBack written.0 written.1 (λ e1.
            committed-IsReadBack committed.0 committed.1 (λ e2.
              let (h1, h2) =
                K.upserted archive_id (replay_values r (pos r.processed_records)) d e1 e2 in
              selected committed.1 p s h1 h2))

      prepared-IsReadBack :
          (b : Bool) (d : Q.Database)
          → is_positive archive_id ≡ true
          → IsStorable r
          → IsReadBack archive_id r (
              end_transaction Q (
                continue
                  (λ _.
                    query (λ _. checked_int64 r.processed_records) >>= upsert_replay Q archive_id r)
                  (or_fail Q sqlite_failure b d)))
      prepared-IsReadBack false d p s = tt
      prepared-IsReadBack true d p s =
          rw (checked_int64_small r.processed_records s.processed) (upserted-IsReadBack d p s)

      begun-IsReadBack :
          (s : Step) (d : Q.Database)
          → is_positive archive_id ≡ true
          → IsStorable r
          → IsReadBack archive_id r (
              in_transaction Q
                (write_replay_result Q archive_id r)
                (or_fail Q sqlite_failure (not (is_failed s)) d))
      unfolding write_replay_result prepare
      begun-IsReadBack failed d p s = tt
      begun-IsReadBack done d p s = prepared-IsReadBack (Q.prepares upsert_replay_result d) d p s
      begun-IsReadBack (row v) d p s = prepared-IsReadBack (Q.prepares upsert_replay_result d) d p s

      if_there-IsReadBack :
          (there : Result StoreException Bool) (d : Q.Database)
          → is_positive archive_id ≡ true
          → IsStorable r
          → IsReadBack archive_id r (continue (write_if_there Q archive_id r) (there, d))
      unfolding transaction execute_sql
      if_there-IsReadBack (err e) d p s = tt
      if_there-IsReadBack (ok false) d p s = tt
      if_there-IsReadBack (ok true) d p s =
          begun-IsReadBack (Q.step begin_immediate [] d).0 (Q.step begin_immediate [] d).1 p s

      positive-IsReadBack :
          (b : Bool) (d : Q.Database)
          → is_positive archive_id ≡ b
          → IsStorable r
          → IsReadBack archive_id r (
              continue
                (λ _. query (archive_is_there Q archive_id) >>= write_if_there Q archive_id r)
                (throw_when (not b) (store_error invalid_argument) d))
      positive-IsReadBack false d p s = tt
      positive-IsReadBack true d p s = if_there-IsReadBack (archive_is_there Q archive_id d) d p s

      -- Where SQLite reads columns back as they were bound and finds the row that was upserted and
      -- committed, replay_result reads a result whose numbers fit their types, for its archive, from the
      -- database that record_replay_result left when it returned.
      pub record_replay_result-IsReadBack :
          (d : Q.Database)
          → IsStorable r
          → IsReadBack archive_id r (record_replay_result Q archive_id r d)
      unfolding record_replay_result
      record_replay_result-IsReadBack d s = positive-IsReadBack (is_positive archive_id) d refl s
