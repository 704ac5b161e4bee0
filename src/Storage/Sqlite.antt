-- ===== src/Storage/Sqlite.antt =====
-- What cpp/src/storage/investigation_store.cpp uses of SQLite, as a parameter, and how a Statement of
-- its reads rows and columns.
pub mod Actions
use tickline.Base.{
  ℕ, zero, suc, ◌+◌, ltb, ◌==◌, not, ◌||◌, if◌then◌else◌, Bool, true, false, Option, none, some,
  List, [], ◌∷◌, length, Result, ok, err, ◌>>=◌,
}
use tickline.Base.Int.{ℤ, pos, i64_max, ltb_ℤ}
use tickline.Base.Words.{Bytes, bytes_u64, join, u64_max}
use tickline.Security.Sha256.{Sha256Digest}
use tickline.Storage.Store.{
  InvestigationStoreErrorCode, StoreException, store_error, sqlite_failure, invalid_argument,
}

-- A condition of the query for evidence, with its `?` in the place of its value.
pub data EvidenceCondition : Type 0 where
  client_id_is session_id_is rejection_code_is queue_outcome_is observed_tick_from observed_tick_to
        ordinal_above :
      EvidenceCondition

-- The SQL texts of the file, by what they do. Two of them are put together from pieces.
pub data Sql : Type 0 where
  begin_immediate commit rollback create_ledger create_schema insert_migration select_version
        insert_archive select_existing insert_record insert_session archive_exists
        upsert_replay_result select_sessions select_replay_result count_archives count_evidence :
      Sql
  select_archives : Bool → Sql
  select_evidence : List EvidenceCondition → Sql

-- What is bound to a `?`, and what stands in a column.
pub data Value : Type 0 where
  null : Value
  integer : ℤ → Value
  text : Bytes → Value
  blob : Bytes → Value

-- What the first sqlite3_step of a statement with its bindings comes to. A binding that fails is a
-- failure of the step.
pub data Step : Type 0 where
  failed done : Step
  row : List Value → Step

-- The library. `step` may change the database; `rows` are all the rows of a query that the program
-- steps through, and whether a failure came behind them. A column is read with SQLite's conversions.
pub record Sqlite : Type 1 where
  pub Database : Type 0
  pub prepares : Sql → Database → Bool
  pub step : Sql → List Value → Database → Step × Database
  pub rows : Sql → List Value → Database → List (List Value) × Bool
  pub last_insert_rowid : Database → ℤ
  pub changes : Database → ℤ
  pub column_int64 : Value → ℤ
  pub column_int : Value → ℤ
  pub column_is_null : Value → Bool
  pub column_text : Value → Bytes
  pub column_blob : Value → Option Bytes

unfoldable pub decode_u64 : Option Bytes → Result StoreException ℕ
decode_u64 none = err (store_error sqlite_failure)
decode_u64 (some bytes) =
    if not (length bytes == 8) then err (store_error sqlite_failure) else ok (join 0 bytes)

unfoldable pub decode_digest : Option Bytes → Result StoreException Sha256Digest
decode_digest none = err (store_error sqlite_failure)
decode_digest (some bytes) =
    if not (length bytes == 32) then err (store_error sqlite_failure) else ok bytes

unfoldable pub checked_int64 : ℕ → Result StoreException ℤ
checked_int64 value =
    if ltb_ℤ i64_max (pos value) then err (store_error invalid_argument) else ok (pos value)

-- A signed value is below zero, or a count of 63 bits.
unfoldable pub checked_size : ℤ → Result StoreException ℕ
checked_size (ℤ.negsuc _) = err (store_error sqlite_failure)
checked_size (pos value) = if ltb u64_max value then err (store_error sqlite_failure) else ok value

abbrev pub column : ℕ → List Value → Value
column i [] = null
column zero (v ∷ vs) = v
column (suc i) (v ∷ vs) = column i vs

-- Statement::bind_u64 and Statement::bind_digest
abbrev pub u64 : ℕ → Value
u64 value = blob (bytes_u64 value)

module _ (Q : Sqlite) where
  -- A Statement of which one row is read by step_row.
  abbrev first_of : List (List Value) × Bool → Result StoreException (Option (List Value))
  first_of (r ∷ _, _) = ok (some r)
  first_of ([], true) = err (store_error sqlite_failure)
  first_of ([], false) = ok none

  unfoldable pub first_row :
      Sql → List Value → Q.Database → Result StoreException (Option (List Value))
  first_row sql values d =
      if Q.prepares sql d then first_of (Q.rows sql values d) else err (store_error sqlite_failure)

  -- A Statement of which each row is read, in a loop of step_row.
  unfoldable pub read_rows {ℓ} :
      {A : Type ℓ}
      → (List Value → Result StoreException A)
      → List (List Value)
      → Bool
      → Result StoreException (List A)
  read_rows read [] true = err (store_error sqlite_failure)
  read_rows read [] false = ok []
  read_rows read (r ∷ rs) failure = do
    entry ← read r
    entries ← read_rows read rs failure
    ok (entry ∷ entries)

  unfoldable pub each_row {ℓ} :
      {A : Type ℓ}
      → Sql
      → List Value
      → (List Value → Result StoreException A)
      → Q.Database
      → Result StoreException (List A)
  unfolding read_rows
  each_row sql values read d =
      if Q.prepares sql d
      then read_rows read (Q.rows sql values d).0 (Q.rows sql values d).1
      else err (store_error sqlite_failure)

  -- Statement::column_u64 and Statement::column_digest
  abbrev pub column_u64 : ℕ → List Value → Result StoreException ℕ
  column_u64 i r = decode_u64 (Q.column_blob (column i r))

  abbrev pub column_digest : ℕ → List Value → Result StoreException Sha256Digest
  column_digest i r = decode_digest (Q.column_blob (column i r))

  abbrev pub column_size : ℕ → List Value → Result StoreException ℕ
  column_size i r = checked_size (Q.column_int64 (column i r))
