-- ===== src/Storage/Import/Stored.antt =====
-- cpp/src/storage/investigation_store.cpp: an import, a replay result and a migration are atomic, and
-- what was imported had been verified.
use tickline.Base.{◌≡◌, refl, not, Bool, true, false, List, [], ◌∷◌, length, Result, ok, err}
use tickline.Base.Int.{ℤ, pos, ltb_ℤ}
use tickline.Base.Words.{Bytes}
use tickline.Security.Sha256.{Sha256Digest, sha256}
use tickline.Command.Evidence.{CommandEvidenceRecord}
use tickline.Command.Archive.{ArchiveException, archive_error, CommandEvidenceArchive}
use tickline.Command.Archive.Decode.{decode_command_evidence_archive}
use tickline.Command.Archive.Trust.{IsTrusted, decode_command_evidence_archive-IsTrusted}
use tickline.Command.Replay.{CommandEvidenceReplayResult}
use tickline.Storage.Store.{
  StoreException, store_error, migration_failed, invalid_argument, EvidenceArchiveImportResult,
}
use tickline.Storage.Sqlite.{
  Sqlite, insert_archive, insert_record, insert_session, insert_migration, create_ledger,
  create_schema, upsert_replay_result, integer, checked_int64,
}
use tickline.Storage.Sqlite.Actions.{
  Action, ◌>>=◌, ◌>>◌, return, query, throw_when, continue, prepare, step_done, execute_sql,
}
use tickline.Storage.Queries.{is_positive, existing_archive, archive_is_there, read_version}
use tickline.Storage.Rows.{Aggregates, aggregate, record_values}
use tickline.Storage.Import.{
  insert_records, insert_sessions, insert_aggregates, insert_all, counts_of, insert_session_row,
  import_new, import_old, insert_counted, import_decoded, upsert_replay, write_if_there,
  migrate_from, import_result, import_contents, archive_values, import_verified, import_archive,
  is_one, or_verification_failed, write_replay_result, record_replay_result, apply_schema, is_zero,
  investigation_schema_version, migrate_schema, migrate, caught,
}
use tickline.Storage.Import.Atomic.{
  IsTransactional, Anything, Keeps, IsAtomic, bind-Keeps, then-Keeps, query-Keeps, throw_when-Keeps,
  prepare-Keeps, step_done-Keeps, execute_sql-Keeps, transaction-IsAtomic,
}

-- What an import reports of an archive.
pub record IsResultOf (whole : Sha256Digest) (archive : CommandEvidenceArchive)
    (r : EvidenceArchiveImportResult) : Type 0 where
  pub count : r.record_count ≡ length archive.records
  pub digest : r.archive_digest ≡ whole
  pub head : r.chain_head ≡ archive.head_digest

module _ (Q : Sqlite) (T : IsTransactional Q) where
  insert_records-Keeps :
      (archive_id : ℤ) (rs : List CommandEvidenceRecord) (gs : Aggregates)
      → Keeps Q T Anything (insert_records Q archive_id rs gs)
  unfolding insert_records
  insert_records-Keeps archive_id [] gs = (λ d0 d w. (tt, w))
  insert_records-Keeps archive_id (r ∷ rs) gs =
      then-Keeps Q T Anything (step_done Q insert_record (record_values archive_id r))
        (insert_records Q archive_id rs (aggregate r gs)) (step_done-Keeps Q T insert_record _ refl)
        (insert_records-Keeps archive_id rs (aggregate r gs))

  insert_sessions-Keeps :
      (archive_id : ℤ) (gs : Aggregates) → Keeps Q T Anything (insert_sessions Q archive_id gs)
  unfolding insert_sessions
  insert_sessions-Keeps archive_id [] = (λ d0 d w. (tt, w))
  insert_sessions-Keeps archive_id ((k, g) ∷ gs) =
      then-Keeps Q T Anything (query (λ _. counts_of g) >>= insert_session_row Q archive_id k g)
        (insert_sessions Q archive_id gs)
        (bind-Keeps Q T Anything Anything (query (λ _. counts_of g))
          (insert_session_row Q archive_id k g) (query-Keeps Q T (λ _. counts_of g))
          (λ counts _. step_done-Keeps Q T insert_session _ refl))
        (insert_sessions-Keeps archive_id gs)

  insert_all-Keeps :
      (rs : List CommandEvidenceRecord) (archive_id : ℤ)
      → Keeps Q T Anything (insert_all Q rs archive_id)
  unfolding insert_all insert_aggregates
  insert_all-Keeps rs archive_id =
      then-Keeps Q T Anything (prepare Q insert_record)
        (insert_records Q archive_id rs [] >>= insert_aggregates Q archive_id)
        (prepare-Keeps Q T insert_record)
        (bind-Keeps Q T Anything Anything (insert_records Q archive_id rs [])
          (insert_aggregates Q archive_id) (insert_records-Keeps archive_id rs [])
          (λ gs _.
            then-Keeps Q T Anything (prepare Q insert_session) (insert_sessions Q archive_id gs)
              (prepare-Keeps Q T insert_session) (insert_sessions-Keeps archive_id gs)))

  module _ (digest : Sha256Digest) (archive : CommandEvidenceArchive) where
    import_contents-Keeps :
        (inserted : Bool)
        → Keeps Q T (IsResultOf digest archive) (import_contents Q digest archive inserted)
    unfolding import_contents
    import_contents-Keeps false =
        bind-Keeps Q T Anything (IsResultOf digest archive)
          (query (existing_archive Q digest (length archive.records) archive.head_digest))
          (import_old Q digest archive) (query-Keeps Q T _)
          (λ archive_id _ d0 d w. (record { count = refl; digest = refl; head = refl }, w))
    import_contents-Keeps true =
        bind-Keeps Q T Anything (IsResultOf digest archive)
          (query (λ d. ok (Q.last_insert_rowid d))) (import_new Q digest archive)
          (query-Keeps Q T (λ d. ok (Q.last_insert_rowid d)))
          (λ archive_id _.
            then-Keeps Q T (IsResultOf digest archive) (insert_all Q archive.records archive_id)
              (return (import_result Q digest archive archive_id true))
              (insert_all-Keeps archive.records archive_id)
              (λ d0 d w. (record { count = refl; digest = refl; head = refl }, w)))

    insert_counted-Keeps :
        (trusted_head : Sha256Digest) (source : Bytes) (count : ℤ)
        → Keeps Q T
            (IsResultOf digest archive)
            (insert_counted Q digest archive trusted_head source count)
    unfolding insert_counted
    insert_counted-Keeps trusted_head source count =
        then-Keeps Q T (IsResultOf digest archive)
          (step_done Q insert_archive (archive_values Q digest archive trusted_head source count))
          (query (λ d. ok (is_one (Q.changes d))) >>= import_contents Q digest archive)
          (step_done-Keeps Q T insert_archive _ refl)
          (bind-Keeps Q T Anything (IsResultOf digest archive)
            (query (λ d. ok (is_one (Q.changes d)))) (import_contents Q digest archive)
            (query-Keeps Q T (λ d. ok (is_one (Q.changes d))))
            (λ inserted _. import_contents-Keeps inserted))

    import_verified-Keeps :
        (trusted_head : Sha256Digest) (source : Bytes)
        → Keeps Q T
            (IsResultOf digest archive)
            (import_verified Q digest archive trusted_head source)
    unfolding import_verified
    import_verified-Keeps trusted_head source =
        then-Keeps Q T (IsResultOf digest archive) (prepare Q insert_archive)
          (query (λ _. checked_int64 (length archive.records))
            >>= insert_counted Q digest archive trusted_head source)
          (prepare-Keeps Q T insert_archive)
          (bind-Keeps Q T Anything (IsResultOf digest archive)
            (query (λ _. checked_int64 (length archive.records)))
            (insert_counted Q digest archive trusted_head source)
            (query-Keeps Q T (λ _. checked_int64 (length archive.records)))
            (λ count _. insert_counted-Keeps trusted_head source count))

  -- What an import comes to: its archive decodes under the trusted head and what is reported is of that
  -- archive, or it throws.
  abbrev pub IsImportOf : Bytes → Sha256Digest → EvidenceArchiveImportResult → Type 0
  IsImportOf encoded trusted_head r =
      (archive : CommandEvidenceArchive) × IsTrusted encoded trusted_head archive
      × IsResultOf (sha256 encoded) archive r

  weakened-IsAtomic {ℓ} :
      {A : Type ℓ} (P R : A → Type 0) (d : Q.Database) (x : Result StoreException A × Q.Database)
      → ((a : A) → P a → R a)
      → IsAtomic Q T P d x
      → IsAtomic Q T R d x
  weakened-IsAtomic P R d (ok a, d') k (p, c) = (k a p, c)
  weakened-IsAtomic P R d (err e, d') k u = u

  decoded-IsAtomic :
      (encoded : Bytes) (trusted_head : Sha256Digest) (source : Bytes) (d : Q.Database)
      (r : Result ArchiveException CommandEvidenceArchive)
      → decode_command_evidence_archive encoded trusted_head ≡ r
      → IsAtomic Q T
          (IsImportOf encoded trusted_head)
          d
          (continue (import_decoded Q encoded trusted_head source) (or_verification_failed r, d))
  decoded-IsAtomic encoded trusted_head source d (ok a) e =
      weakened-IsAtomic (IsResultOf (sha256 encoded) a) (IsImportOf encoded trusted_head) d _
        (λ r h. (a, decode_command_evidence_archive-IsTrusted encoded trusted_head a e, h))
        (transaction-IsAtomic Q T _ _ (import_verified-Keeps (sha256 encoded) a trusted_head source)
          d)
  decoded-IsAtomic encoded trusted_head source d (err (archive_error c)) e = refl
  decoded-IsAtomic encoded trusted_head source d (err (ArchiveException.record_error c)) e = refl
  decoded-IsAtomic encoded trusted_head source d (err (ArchiveException.standard c)) e = refl

  -- Where a rollback undoes a transaction, an import that throws leaves the database as it was. One that
  -- returns has committed one transaction that began there, its archive decodes under the trusted head
  -- with a verified chain, and it reports the count of the records, the digest of the bytes and the head.
  pub import_archive-IsAtomic :
      (encoded : Bytes) (trusted_head : Sha256Digest) (source : Bytes) (d : Q.Database)
      → IsAtomic Q T
          (IsImportOf encoded trusted_head)
          d
          (import_archive Q encoded trusted_head source d)
  unfolding import_archive
  import_archive-IsAtomic [] trusted_head source d = refl
  import_archive-IsAtomic (b ∷ bs) trusted_head [] d = refl
  import_archive-IsAtomic (b ∷ bs) trusted_head (c ∷ cs) d =
      decoded-IsAtomic (b ∷ bs) trusted_head (c ∷ cs) d _ refl

  write_replay_result-Keeps :
      (archive_id : ℤ) (result : CommandEvidenceReplayResult)
      → Keeps Q T Anything (write_replay_result Q archive_id result)
  unfolding write_replay_result
  write_replay_result-Keeps archive_id result =
      then-Keeps Q T Anything (prepare Q upsert_replay_result)
        (query (λ _. checked_int64 result.processed_records) >>= upsert_replay Q archive_id result)
        (prepare-Keeps Q T upsert_replay_result)
        (bind-Keeps Q T Anything Anything (query (λ _. checked_int64 result.processed_records))
          (upsert_replay Q archive_id result)
          (query-Keeps Q T (λ _. checked_int64 result.processed_records))
          (λ processed _. step_done-Keeps Q T upsert_replay_result _ refl))

  -- What throws has changed nothing.
  abbrev pub IsUnchanged {ℓ} :
      {A : Type ℓ} → Q.Database → Result StoreException A × Q.Database → Type 0
  IsUnchanged d0 (ok _, d) = Unit
  IsUnchanged d0 (err _, d) = d ≡ d0

  atomic-IsUnchanged {ℓ} :
      {A : Type ℓ} (P : A → Type 0) (d : Q.Database) (x : Result StoreException A × Q.Database)
      → IsAtomic Q T P d x
      → IsUnchanged d x
  atomic-IsUnchanged P d (ok a, d') h = tt
  atomic-IsUnchanged P d (err e, d') u = u

  if_there-IsUnchanged :
      (archive_id : ℤ) (result : CommandEvidenceReplayResult) (d : Q.Database)
      (there : Result StoreException Bool)
      → IsUnchanged d (continue (write_if_there Q archive_id result) (there, d))
  if_there-IsUnchanged archive_id result d (err e) = refl
  if_there-IsUnchanged archive_id result d (ok false) = refl
  if_there-IsUnchanged archive_id result d (ok true) =
      atomic-IsUnchanged Anything d _
        (transaction-IsAtomic Q T Anything _ (write_replay_result-Keeps archive_id result) d)

  refused-IsUnchanged {ℓ} :
      {A : Type ℓ} (b : Bool) (e : StoreException) (m : Action Q.Database A) (d : Q.Database)
      → IsUnchanged d (m d)
      → IsUnchanged d ((throw_when b e >> m) d)
  refused-IsUnchanged true e m d h = refl
  refused-IsUnchanged false e m d h = h

  pub record_replay_result-IsUnchanged :
      (archive_id : ℤ) (result : CommandEvidenceReplayResult) (d : Q.Database)
      → IsUnchanged d (record_replay_result Q archive_id result d)
  unfolding record_replay_result
  record_replay_result-IsUnchanged archive_id result d =
      refused-IsUnchanged (not (is_positive archive_id)) (store_error invalid_argument)
        (query (archive_is_there Q archive_id) >>= write_if_there Q archive_id result) d
        (if_there-IsUnchanged archive_id result d (archive_is_there Q archive_id d))

  apply_schema-Keeps : (is_new : Bool) → Keeps Q T Anything (apply_schema Q is_new)
  apply_schema-Keeps false = λ d0 d w. (tt, w)
  apply_schema-Keeps true =
      then-Keeps Q T Anything (execute_sql Q create_schema migration_failed)
        (prepare Q insert_migration
          >> step_done Q insert_migration (integer (pos investigation_schema_version) ∷ []))
        (execute_sql-Keeps Q T create_schema migration_failed refl)
        (then-Keeps Q T Anything (prepare Q insert_migration)
          (step_done Q insert_migration (integer (pos investigation_schema_version) ∷ []))
          (prepare-Keeps Q T insert_migration) (step_done-Keeps Q T insert_migration _ refl))

  migrate_schema-Keeps : Keeps Q T Anything (migrate_schema Q)
  unfolding migrate_schema
  migrate_schema-Keeps =
      then-Keeps Q T Anything (execute_sql Q create_ledger migration_failed)
        (query (read_version Q migration_failed) >>= migrate_from Q)
        (execute_sql-Keeps Q T create_ledger migration_failed refl)
        (bind-Keeps Q T Anything Anything (query (read_version Q migration_failed)) (migrate_from Q)
          (query-Keeps Q T (read_version Q migration_failed))
          (λ version _.
            then-Keeps Q T Anything
              (throw_when (ltb_ℤ (pos investigation_schema_version) version)
                (store_error migration_failed))
              (apply_schema Q (is_zero version)) (throw_when-Keeps Q T _ _)
              (apply_schema-Keeps (is_zero version))))

  caught-IsUnchanged :
      (d : Q.Database) (x : Result StoreException (Unit {0}) × Q.Database)
      → IsUnchanged d x
      → IsUnchanged d (caught Q x)
  caught-IsUnchanged d (ok u, d') h = tt
  caught-IsUnchanged d (err (store_error c), d') h = h
  caught-IsUnchanged d (err (StoreException.record_error c), d') h = h
  caught-IsUnchanged d (err (StoreException.standard_error c), d') h = h

  pub migrate-IsUnchanged : (d : Q.Database) → IsUnchanged d (migrate Q d)
  unfolding migrate
  migrate-IsUnchanged d = caught-IsUnchanged d _ (
      atomic-IsUnchanged Anything d _
        (transaction-IsAtomic Q T Anything (migrate_schema Q) migrate_schema-Keeps d))
