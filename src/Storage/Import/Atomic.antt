-- ===== src/Storage/Import/Atomic.antt =====
-- cpp/src/storage/investigation_store.cpp: what fails is rolled back as a whole.
use tickline.Base.{◌≡◌, refl, ap, subst, not, Bool, true, false, List, [], Result, ok, err}
use tickline.Storage.Store.{InvestigationStoreErrorCode, StoreException, sqlite_failure}
use tickline.Storage.Sqlite.{
  Sqlite, Sql, Value, begin_immediate, commit, rollback, Step, failed, done, row,
}
use tickline.Storage.Sqlite.Actions.{
  Action, ◌>>=◌, ◌>>◌, continue, query, throw_when, is_failed, is_done, or_fail, execute_sql,
  prepare, step_done, transaction, commit_or_roll_back, end_transaction, in_transaction,
}

-- BEGIN, COMMIT and ROLLBACK.
abbrev pub is_control : Sql → Bool
is_control begin_immediate = true
is_control commit = true
is_control rollback = true
is_control _ = false

-- Transactions of SQLite. `Within d0 d` says that d is a database in a transaction that began at d0.
pub record IsTransactional (Q : Sqlite) : Type 1 where
  pub Within : Q.Database → Q.Database → Type 0
  pub not_begun :
      (d : Q.Database)
      → is_failed (Q.step begin_immediate [] d).0 ≡ true
      → (Q.step begin_immediate [] d).1 ≡ d
  pub begun :
      (d : Q.Database)
      → is_failed (Q.step begin_immediate [] d).0 ≡ false
      → Within d (Q.step begin_immediate [] d).1
  pub kept :
      (d0 d : Q.Database) (sql : Sql) (values : List Value)
      → Within d0 d
      → is_control sql ≡ false
      → is_failed (Q.step sql values d).0 ≡ false
      → Within d0 (Q.step sql values d).1
  pub undone : (d0 d : Q.Database) → Within d0 d → (Q.step rollback [] d).1 ≡ d0
  pub undone_after_write :
      (d0 d : Q.Database) (sql : Sql) (values : List Value)
      → Within d0 d
      → is_control sql ≡ false
      → is_failed (Q.step sql values d).0 ≡ true
      → (Q.step rollback [] (Q.step sql values d).1).1 ≡ d0
  pub undone_after_commit :
      (d0 d : Q.Database)
      → Within d0 d
      → is_failed (Q.step commit [] d).0 ≡ true
      → (Q.step rollback [] (Q.step commit [] d).1).1 ≡ d0

abbrev pub Anything {ℓ} : {A : Type ℓ} → A → Type 0
Anything _ = Unit

module _ (Q : Sqlite) (T : IsTransactional Q) where
  -- The result satisfies P inside of the transaction, or a rollback undoes what was done.
  abbrev pub IsUndoable {ℓ} :
      {A : Type ℓ} → (A → Type 0) → Q.Database → Result StoreException A × Q.Database → Type 0
  IsUndoable P d0 (ok a, d) = P a × T.Within d0 d
  IsUndoable P d0 (err _, d) = (Q.step rollback [] d).1 ≡ d0

  abbrev pub Keeps {ℓ} : {A : Type ℓ} → (A → Type 0) → Action Q.Database A → Type 0
  Keeps P m = (d0 d : Q.Database) → T.Within d0 d → IsUndoable P d0 (m d)

  continue-IsUndoable {ℓ κ} :
      {A : Type ℓ} {B : Type κ} (P : A → Type 0) (R : B → Type 0) (f : A → Action Q.Database B)
      (d0 : Q.Database) (x : Result StoreException A × Q.Database)
      → ((a : A) → P a → Keeps R (f a))
      → IsUndoable P d0 x
      → IsUndoable R d0 (continue f x)
  continue-IsUndoable P R f d0 (ok a, d) k (p, w) = k a p d0 d w
  continue-IsUndoable P R f d0 (err e, d) k u = u

  pub bind-Keeps {ℓ κ} :
      {A : Type ℓ} {B : Type κ} (P : A → Type 0) (R : B → Type 0) (m : Action Q.Database A)
      (f : A → Action Q.Database B)
      → Keeps P m
      → ((a : A) → P a → Keeps R (f a))
      → Keeps R (m >>= f)
  bind-Keeps P R m f h k d0 d w = continue-IsUndoable P R f d0 (m d) k (h d0 d w)

  pub then-Keeps {ℓ} :
      {B : Type ℓ} (R : B → Type 0) (m : Action Q.Database (Unit {0})) (n : Action Q.Database B)
      → Keeps Anything m
      → Keeps R n
      → Keeps R (m >> n)
  then-Keeps R m n h k d0 d w =
      continue-IsUndoable Anything R (λ _. n) d0 (m d) (λ _ _. k) (h d0 d w)

  result-IsUndoable {ℓ} :
      {A : Type ℓ} (r : Result StoreException A) (d0 d : Q.Database)
      → T.Within d0 d
      → IsUndoable Anything d0 (r, d)
  result-IsUndoable (ok a) d0 d w = (tt, w)
  result-IsUndoable (err e) d0 d w = T.undone d0 d w

  pub query-Keeps {ℓ} :
      {A : Type ℓ} (f : Q.Database → Result StoreException A) → Keeps Anything (query f)
  query-Keeps f d0 d w = result-IsUndoable (f d) d0 d w

  pub throw_when-Keeps : (b : Bool) (e : StoreException) → Keeps Anything (throw_when b e)
  throw_when-Keeps true e d0 d w = T.undone d0 d w
  throw_when-Keeps false e d0 d w = (tt, w)

  or_fail-IsUndoable :
      (code : InvestigationStoreErrorCode) (b : Bool) (d0 d : Q.Database)
      → (b ≡ true → T.Within d0 d)
      → (b ≡ false → (Q.step rollback [] d).1 ≡ d0)
      → IsUndoable Anything d0 (or_fail Q code b d)
  or_fail-IsUndoable code true d0 d w u = (tt, w refl)
  or_fail-IsUndoable code false d0 d w u = u refl

  pub prepare-Keeps : (sql : Sql) → Keeps Anything (prepare Q sql)
  unfolding prepare
  prepare-Keeps sql d0 d w =
      or_fail-IsUndoable sqlite_failure (Q.prepares sql d) d0 d (λ _. w) (λ _. T.undone d0 d w)

  executed-IsUndoable :
      (code : InvestigationStoreErrorCode) (s : Step) (d0 d : Q.Database)
      → (is_failed s ≡ false → T.Within d0 d)
      → (is_failed s ≡ true → (Q.step rollback [] d).1 ≡ d0)
      → IsUndoable Anything d0 (or_fail Q code (not (is_failed s)) d)
  executed-IsUndoable code failed d0 d w u = u refl
  executed-IsUndoable code done d0 d w u = (tt, w refl)
  executed-IsUndoable code (row r) d0 d w u = (tt, w refl)

  done-IsUndoable :
      (s : Step) (d0 d : Q.Database)
      → (is_failed s ≡ false → T.Within d0 d)
      → (is_failed s ≡ true → (Q.step rollback [] d).1 ≡ d0)
      → IsUndoable Anything d0 (or_fail Q sqlite_failure (is_done s) d)
  done-IsUndoable failed d0 d w u = u refl
  done-IsUndoable done d0 d w u = (tt, w refl)
  done-IsUndoable (row r) d0 d w u = T.undone d0 d (w refl)

  pub execute_sql-Keeps :
      (sql : Sql) (code : InvestigationStoreErrorCode)
      → is_control sql ≡ false
      → Keeps Anything (execute_sql Q sql code)
  unfolding execute_sql
  execute_sql-Keeps sql code o d0 d w =
      executed-IsUndoable code (Q.step sql [] d).0 d0 (Q.step sql [] d).1 (T.kept d0 d sql [] w o)
        (T.undone_after_write d0 d sql [] w o)

  pub step_done-Keeps :
      (sql : Sql) (values : List Value)
      → is_control sql ≡ false
      → Keeps Anything (step_done Q sql values)
  unfolding step_done
  step_done-Keeps sql values o d0 d w =
      done-IsUndoable (Q.step sql values d).0 d0 (Q.step sql values d).1
        (T.kept d0 d sql values w o) (T.undone_after_write d0 d sql values w o)

  -- A transaction that throws leaves the database as it was. One that returns has committed what its
  -- body made of the database.
  abbrev pub IsAtomic {ℓ} :
      {A : Type ℓ} → (A → Type 0) → Q.Database → Result StoreException A × Q.Database → Type 0
  IsAtomic P d0 (ok a, d) =
      P a
      × ((d1 : Q.Database) × T.Within d0 d1
          × (is_failed (Q.step commit [] d1).0 ≡ false)
          × ((Q.step commit [] d1).1 ≡ d))
  IsAtomic P d0 (err _, d) = d ≡ d0

  committed-IsAtomic {ℓ} :
      {A : Type ℓ} (P : A → Type 0) (a : A) (s : Step) (d0 d1 d : Q.Database)
      → (Q.step commit [] d1) ≡ (s, d)
      → P a
      → T.Within d0 d1
      → IsAtomic P d0 (commit_or_roll_back Q a (or_fail Q sqlite_failure (not (is_failed s)) d))
  committed-IsAtomic P a failed d0 d1 d e p w =
      subst (λ x. (Q.step rollback [] x.1).1 ≡ d0) e
        (T.undone_after_commit d0 d1 w (ap (λ x. is_failed x.0) e))
  committed-IsAtomic P a done d0 d1 d e p w =
      (p, (d1, w, ap (λ x. is_failed x.0) e, ap (λ x. x.1) e))
  committed-IsAtomic P a (row r) d0 d1 d e p w =
      (p, (d1, w, ap (λ x. is_failed x.0) e, ap (λ x. x.1) e))

  ended-IsAtomic {ℓ} :
      {A : Type ℓ} (P : A → Type 0) (d0 : Q.Database) (x : Result StoreException A × Q.Database)
      → IsUndoable P d0 x
      → IsAtomic P d0 (end_transaction Q x)
  unfolding execute_sql
  ended-IsAtomic P d0 (ok a, d) (p, w) =
      committed-IsAtomic P a (Q.step commit [] d).0 d0 d (Q.step commit [] d).1 refl p w
  ended-IsAtomic P d0 (err e, d) u = u

  begun-IsAtomic {ℓ} :
      {A : Type ℓ} (P : A → Type 0) (m : Action Q.Database A) (s : Step) (d0 d : Q.Database)
      → Keeps P m
      → (is_failed s ≡ true → d ≡ d0)
      → (is_failed s ≡ false → T.Within d0 d)
      → IsAtomic P d0 (in_transaction Q m (or_fail Q sqlite_failure (not (is_failed s)) d))
  begun-IsAtomic P m failed d0 d k n w = n refl
  begun-IsAtomic P m done d0 d k n w = ended-IsAtomic P d0 (m d) (k d0 d (w refl))
  begun-IsAtomic P m (row r) d0 d k n w = ended-IsAtomic P d0 (m d) (k d0 d (w refl))

  pub transaction-IsAtomic {ℓ} :
      {A : Type ℓ} (P : A → Type 0) (m : Action Q.Database A)
      → Keeps P m
      → (d : Q.Database) → IsAtomic P d (transaction Q m d)
  unfolding transaction execute_sql
  transaction-IsAtomic P m k d =
      begun-IsAtomic P m (Q.step begin_immediate [] d).0 d (Q.step begin_immediate [] d).1 k
        (T.not_begun d) (T.begun d)
