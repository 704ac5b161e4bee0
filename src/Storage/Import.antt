-- ===== src/Storage/Import.antt =====
-- cpp/src/storage/investigation_store.cpp: the operations of InvestigationStore::Impl that change the
-- database: migrate, import_archive and record_replay_result.
pub mod Atomic
pub mod Stored
pub mod ReadBack
pub mod Sessions
use tickline.Base.{
  ℕ, ◌+◌, ◌%◌, ◌^◌, ltb, ◌==◌, not, ◌&&◌, ◌||◌, if◌then◌else◌, Bool, true, false, Option, none,
  some, List, [], ◌∷◌, length, Result, ok, err,
}
use tickline.Base.Int.{ℤ, pos, ltb_ℤ}
use tickline.Base.Words.{Bytes}
use tickline.Security.Sha256.{Sha256Digest, sha256}
use tickline.Command.Validator.{CommandRejectionCode}
use tickline.Command.Evidence.{CommandEvidenceRecord, command_evidence_schema_version}
use tickline.Command.Evidence.Codec.{
  encode_command_evidence, digest_command_evidence, rejection_value, outcome_value,
}
use tickline.Command.Evidence.Chain.{same_bytes}
use tickline.Command.Archive.{
  ArchiveException, archive_error, CommandEvidenceArchive, command_evidence_archive_schema_version,
}
use tickline.Command.Archive.Decode.{decode_command_evidence_archive}
use tickline.Command.Replay.{CommandEvidenceReplayCode, CommandEvidenceReplayResult}
use tickline.Storage.Store.{
  StoreException, store_error, standard_error, sqlite_failure, invalid_argument, migration_failed,
  archive_verification_failed, archive_not_found, EvidenceArchiveImportResult,
}
use tickline.Storage.Bundle.{SessionKey, same_key, record_was_accepted}
use tickline.Storage.Sqlite.{
  Sqlite, Value, null, integer, text, blob, u64, create_ledger, create_schema, insert_migration,
  select_version, insert_archive, select_existing, insert_record, insert_session, archive_exists,
  upsert_replay_result, column, column_size, column_digest, checked_int64, first_row,
}
use tickline.Storage.Sqlite.Actions.{
  Action, ◌>>=◌, ◌>>◌, return, throw, throw_when, query, execute_sql, prepare, step_done,
  transaction,
}
use tickline.Storage.Queries.{is_positive, read_version, existing_archive, archive_is_there}
use tickline.Storage.Rows.{
  Aggregates, SessionAggregate, aggregate, both, record_values, replay_values, session_values,
}

abbrev pub investigation_schema_version : ℕ
investigation_schema_version = 1

abbrev pub or_verification_failed :
    Result ArchiveException CommandEvidenceArchive → Result StoreException CommandEvidenceArchive
or_verification_failed (ok a) = ok a
or_verification_failed (err (archive_error _)) = err (store_error archive_verification_failed)
or_verification_failed (err (ArchiveException.record_error _)) =
    err (store_error archive_verification_failed)
or_verification_failed (err (ArchiveException.standard e)) = err (standard_error e)

abbrev pub is_empty : Bytes → Bool
is_empty [] = true
is_empty (_ ∷ _) = false

abbrev pub is_one : ℤ → Bool
is_one (ℤ.negsuc _) = false
is_one (pos n) = n == 1

abbrev pub is_zero : ℤ → Bool
is_zero (ℤ.negsuc _) = false
is_zero (pos n) = n == 0

-- The handler of migrate.
abbrev pub or_migration_failed : Result StoreException (Unit {0}) → Result StoreException (Unit {0})
or_migration_failed (ok _) = ok tt
or_migration_failed (err (store_error _)) = err (store_error migration_failed)
or_migration_failed (err (StoreException.record_error code)) =
    err (StoreException.record_error code)
or_migration_failed (err (standard_error e)) = err (standard_error e)

-- The counts of an aggregate as SQLite's integers.
abbrev pub counts_of : SessionAggregate → Result StoreException (ℤ × ℤ)
counts_of g = both (checked_int64 g.accepted_count) (checked_int64 g.rejected_count)

module _ (Q : Sqlite) where
  -- The loop over the records, with the aggregates so far.
  unfoldable pub insert_records :
      ℤ → List CommandEvidenceRecord → Aggregates → Action Q.Database Aggregates
  insert_records archive_id [] gs = return gs
  insert_records archive_id (r ∷ rs) gs =
      step_done Q insert_record (record_values archive_id r)
      >> insert_records archive_id rs (aggregate r gs)

  abbrev pub insert_session_row :
      ℤ → SessionKey → SessionAggregate → ℤ × ℤ → Action Q.Database (Unit {0})
  insert_session_row archive_id k g (accepted, rejected) =
      step_done Q insert_session (session_values archive_id k g accepted rejected)

  -- The loop over the aggregates.
  unfoldable pub insert_sessions : ℤ → Aggregates → Action Q.Database (Unit {0})
  insert_sessions archive_id [] = return tt
  insert_sessions archive_id ((k, g) ∷ gs) =
      query (λ _. counts_of g)
      >>= insert_session_row archive_id k g
      >> insert_sessions archive_id gs

  unfoldable pub insert_aggregates : ℤ → Aggregates → Action Q.Database (Unit {0})
  insert_aggregates archive_id gs = prepare Q insert_session >> insert_sessions archive_id gs

  unfoldable pub insert_all : List CommandEvidenceRecord → ℤ → Action Q.Database (Unit {0})
  insert_all rs archive_id =
      prepare Q insert_record >> (insert_records archive_id rs [] >>= insert_aggregates archive_id)

  module _ (digest : Sha256Digest) (archive : CommandEvidenceArchive) where
    abbrev pub import_result : ℤ → Bool → EvidenceArchiveImportResult
    import_result archive_id inserted = record {
      archive_id = archive_id;
      inserted = inserted;
      record_count = length archive.records;
      archive_digest = digest;
      chain_head = archive.head_digest;
    }

    abbrev pub import_new : ℤ → Action Q.Database EvidenceArchiveImportResult
    import_new archive_id =
        insert_all archive.records archive_id >> return (import_result archive_id true)

    abbrev pub import_old : ℤ → Action Q.Database EvidenceArchiveImportResult
    import_old archive_id = return (import_result archive_id false)

    -- What follows the insertion of the archive, by whether it changed a row.
    unfoldable pub import_contents : Bool → Action Q.Database EvidenceArchiveImportResult
    import_contents false =
        query (existing_archive Q digest (length archive.records) archive.head_digest)
        >>= import_old
    import_contents true = query (λ d. ok (Q.last_insert_rowid d)) >>= import_new

    abbrev pub archive_values : Sha256Digest → Bytes → ℤ → List Value
    archive_values trusted_head source record_count =
        blob digest
        ∷ blob trusted_head
        ∷ blob archive.head_digest
        ∷ integer (pos command_evidence_archive_schema_version)
        ∷ integer (pos command_evidence_schema_version)
        ∷ integer record_count
        ∷ text source
        ∷ []

    -- The source has fewer than 2 ^ 31 bytes.
    unfoldable pub insert_counted :
        Sha256Digest → Bytes → ℤ → Action Q.Database EvidenceArchiveImportResult
    insert_counted trusted_head source record_count =
        step_done Q insert_archive (archive_values trusted_head source record_count)
        >> (query (λ d. ok (is_one (Q.changes d))) >>= import_contents)

    -- What is done inside of the transaction.
    unfoldable pub import_verified :
        Sha256Digest → Bytes → Action Q.Database EvidenceArchiveImportResult
    import_verified trusted_head source =
        prepare Q insert_archive
        >> (query (λ _. checked_int64 (length archive.records))
            >>= insert_counted trusted_head source)

  abbrev pub import_decoded :
      Bytes
      → Sha256Digest
      → Bytes
      → CommandEvidenceArchive
      → Action Q.Database EvidenceArchiveImportResult
  import_decoded encoded trusted_head source archive =
      transaction Q (import_verified (sha256 encoded) archive trusted_head source)

  unfoldable pub import_archive :
      Bytes → Sha256Digest → Bytes → Action Q.Database EvidenceArchiveImportResult
  import_archive encoded trusted_head source = do
    throw_when (is_empty encoded) (store_error invalid_argument)
    throw_when (is_empty source) (store_error invalid_argument)
    query (λ _. or_verification_failed (decode_command_evidence_archive encoded trusted_head))
        >>= import_decoded encoded trusted_head source

  abbrev pub upsert_replay : ℤ → CommandEvidenceReplayResult → ℤ → Action Q.Database (Unit {0})
  upsert_replay archive_id result processed =
      step_done Q upsert_replay_result (integer archive_id ∷ replay_values result processed)

  unfoldable pub write_replay_result :
      ℤ → CommandEvidenceReplayResult → Action Q.Database (Unit {0})
  write_replay_result archive_id result =
      prepare Q upsert_replay_result
      >> (query (λ _. checked_int64 result.processed_records) >>= upsert_replay archive_id result)

  abbrev pub write_if_there : ℤ → CommandEvidenceReplayResult → Bool → Action Q.Database (Unit {0})
  write_if_there archive_id result false = throw (store_error archive_not_found)
  write_if_there archive_id result true = transaction Q (write_replay_result archive_id result)

  -- A size_t is a uint64_t, so that the count of pending commands is always in range.
  unfoldable pub record_replay_result :
      ℤ → CommandEvidenceReplayResult → Action Q.Database (Unit {0})
  record_replay_result archive_id result = do
    throw_when (not (is_positive archive_id)) (store_error invalid_argument)
    query (archive_is_there Q archive_id) >>= write_if_there archive_id result

  abbrev pub apply_schema : Bool → Action Q.Database (Unit {0})
  apply_schema false = return tt
  apply_schema true = do
    execute_sql Q create_schema migration_failed
    prepare Q insert_migration
    step_done Q insert_migration (integer (pos investigation_schema_version) ∷ [])

  abbrev pub migrate_from : ℤ → Action Q.Database (Unit {0})
  migrate_from version =
      throw_when (ltb_ℤ (pos investigation_schema_version) version) (store_error migration_failed)
      >> apply_schema (is_zero version)

  unfoldable pub migrate_schema : Action Q.Database (Unit {0})
  migrate_schema =
      execute_sql Q create_ledger migration_failed
      >> (query (read_version Q migration_failed) >>= migrate_from)

  abbrev pub caught :
      Result StoreException (Unit {0}) × Q.Database → Result StoreException (Unit {0}) × Q.Database
  caught (r, d) = (or_migration_failed r, d)

  unfoldable pub migrate : Action Q.Database (Unit {0})
  migrate d = caught (transaction Q migrate_schema d)
