-- ===== src/Storage/Sqlite/Actions.antt =====
-- cpp/src/storage/investigation_store.cpp: what changes the database, as actions that may throw:
-- execute_sql, Statement::step_done and Transaction.
use tickline.Base.{not, Bool, true, false, List, [], Result, ok, err}
use tickline.Storage.Store.{
  InvestigationStoreErrorCode, StoreException, store_error, sqlite_failure,
}
use tickline.Storage.Sqlite.{
  Value, Sql, Step, failed, done, row, Sqlite, begin_immediate, commit, rollback,
}

-- An operation on a database that may throw.
abbrev pub Action {ℓ} : Type 0 → Type ℓ → Type ℓ
Action D A = D → Result StoreException A × D

abbrev pub continue {ℓ κ} :
    {D : Type 0} {A : Type ℓ} {B : Type κ}
    → (A → Action D B)
    → Result StoreException A × D
    → Result StoreException B × D
continue f (ok a, d) = f a d
continue f (err e, d) = (err e, d)

infixl 5 ◌>>=◌ ◌>>◌
abbrev pub ◌>>=◌ {ℓ κ} :
    {D : Type 0} {A : Type ℓ} {B : Type κ} → Action D A → (A → Action D B) → Action D B
(m >>= f) d = continue f (m d)

abbrev pub ◌>>◌ {ℓ} : {D : Type 0} {B : Type ℓ} → Action D (Unit {0}) → Action D B → Action D B
(m >> k) d = continue (λ _. k) (m d)

abbrev pub return {ℓ} : {D : Type 0} {A : Type ℓ} → A → Action D A
return a d = (ok a, d)

abbrev pub throw {ℓ} : {D : Type 0} {A : Type ℓ} → StoreException → Action D A
throw e d = (err e, d)

abbrev pub throw_when : {D : Type 0} → Bool → StoreException → Action D (Unit {0})
throw_when true e d = (err e, d)
throw_when false e d = (ok tt, d)

-- What is read from the database, or computed without it.
abbrev pub query {ℓ} : {D : Type 0} {A : Type ℓ} → (D → Result StoreException A) → Action D A
query f d = (f d, d)

abbrev pub is_failed : Step → Bool
is_failed failed = true
is_failed done = false
is_failed (row _) = false

abbrev pub is_done : Step → Bool
is_done failed = false
is_done done = true
is_done (row _) = false

module _ (Q : Sqlite) where
  abbrev pub or_fail :
      InvestigationStoreErrorCode
      → Bool
      → Q.Database
      → Result StoreException (Unit {0}) × Q.Database
  or_fail code true d = (ok tt, d)
  or_fail code false d = (err (store_error code), d)

  unfoldable pub execute_sql : Sql → InvestigationStoreErrorCode → Action Q.Database (Unit {0})
  execute_sql sql code d = or_fail code (not (is_failed (Q.step sql [] d).0)) (Q.step sql [] d).1

  -- The constructor of Statement.
  unfoldable pub prepare : Sql → Action Q.Database (Unit {0})
  prepare sql d = or_fail sqlite_failure (Q.prepares sql d) d

  -- Statement::step_done, with the bindings.
  unfoldable pub step_done : Sql → List Value → Action Q.Database (Unit {0})
  step_done sql values d =
      or_fail sqlite_failure (is_done (Q.step sql values d).0) (Q.step sql values d).1

  -- The destructor of a Transaction that did not commit.
  abbrev rolled_back {ℓ} :
      {A : Type ℓ} → StoreException → Q.Database → Result StoreException A × Q.Database
  rolled_back e d = (err e, (Q.step rollback [] d).1)

  abbrev pub commit_or_roll_back {ℓ} :
      {A : Type ℓ}
      → A
      → Result StoreException (Unit {0}) × Q.Database
      → Result StoreException A × Q.Database
  commit_or_roll_back a (ok _, d) = (ok a, d)
  commit_or_roll_back a (err e, d) = rolled_back e d

  abbrev pub end_transaction {ℓ} :
      {A : Type ℓ} → Result StoreException A × Q.Database → Result StoreException A × Q.Database
  end_transaction (ok a, d) = commit_or_roll_back a (execute_sql commit sqlite_failure d)
  end_transaction (err e, d) = rolled_back e d

  abbrev pub in_transaction {ℓ} :
      {A : Type ℓ}
      → Action Q.Database A
      → Result StoreException (Unit {0}) × Q.Database
      → Result StoreException A × Q.Database
  in_transaction body (ok _, d) = end_transaction (body d)
  in_transaction body (err e, d) = (err e, d)

  -- A Transaction: BEGIN IMMEDIATE, the body, COMMIT; what throws in between is rolled back.
  unfoldable pub transaction {ℓ} : {A : Type ℓ} → Action Q.Database A → Action Q.Database A
  unfolding execute_sql
  transaction body d = in_transaction body (execute_sql begin_immediate sqlite_failure d)
