-- ===== src/Examples/Database.antt =====
-- Examples of a database, a journal of what was written with or without a transaction.
use tickline.Base.{
  ◌≡◌, refl, ap, sym, subst, ◌∙◌, Bool, true, false, Option, none, some, List, [], ◌∷◌, length,
  arith,
}
use tickline.Base.Int.{ℤ, pos}
use tickline.Base.Text.{codes}
use tickline.Base.Words.{Bytes}
use tickline.Command.Replay.{CommandEvidenceReplayCode}
use tickline.Storage.Sqlite.{
  Sqlite, Sql, Step, failed, done, Value, integer, text, blob, null, begin_immediate, commit,
  rollback, archive_exists, select_replay_result, upsert_replay_result,
}
use tickline.Storage.Sqlite.Actions.{is_failed, is_done}
use tickline.Storage.Import.{insert_records, import_archive, record_replay_result}
use tickline.Storage.Import.Atomic.{IsTransactional, is_control, IsAtomic}
use tickline.Storage.Import.Sessions.{IsCounted, insert_records-IsCounted}
use tickline.Storage.Import.Stored.{IsImportOf, import_archive-IsAtomic}
use tickline.Storage.Import.ReadBack.{
  HasColumns, HasReplayTable, IsStorable, IsReadBack, record_replay_result-IsReadBack,
}
use tickline.Security.Sha256.{Sha256Digest}
use tickline.Security.Sha256.Padding.{length-sha256}
use tickline.Command.Evidence.Codec.{digest_command_evidence, encode_command_evidence}
use tickline.Command.Archive.Layout.{archive_bytes}
use tickline.Command.Replay.{CommandEvidenceReplayResult}
use tickline.Examples.Command.{only_record}

abbrev head : Sha256Digest
head = digest_command_evidence only_record

abbrev replayed : CommandEvidenceReplayResult
replayed = record {
  code = CommandEvidenceReplayCode.verified;
  processed_records = 1;
  failed_ordinal = none;
  performed_tick_advances = 0;
  final_tick = 0;
  final_session_sequence = 1;
  final_pending_command_count = 1;
  final_world_fingerprint = 12;
  replayed_head_digest = head;
}

abbrev Journal : Type 0
Journal = List (Sql × List Value)

data Toy : Type 0 where
  idle : Journal → Toy
  active : Journal → Journal → Toy

abbrev journal : Toy → Journal
journal (idle s) = s
journal (active s t) = t

abbrev write : Sql × List Value → Toy → Toy
write e (idle s) = idle (e ∷ s)
write e (active s t) = active s (e ∷ t)

abbrev begin_toy : Toy → Step × Toy
begin_toy (idle s) = (done, active s s)
begin_toy (active s t) = (failed, active s t)

abbrev commit_toy : Toy → Step × Toy
commit_toy (idle s) = (failed, idle s)
commit_toy (active s t) = (done, idle t)

abbrev roll_back_toy : Toy → Step × Toy
roll_back_toy (idle s) = (failed, idle s)
roll_back_toy (active s t) = (done, idle s)

abbrev step_toy : Sql → List Value → Toy → Step × Toy
step_toy begin_immediate values d = begin_toy d
step_toy commit values d = commit_toy d
step_toy rollback values d = roll_back_toy d
step_toy sql values d = (done, write (sql, values) d)

abbrev without_key : List Value → List (List Value)
without_key [] = []
without_key (_ ∷ values) = values ∷ []

-- The table holds one replay result, the last one.
abbrev last_upserted : Journal → List (List Value)
last_upserted [] = []
last_upserted ((upsert_replay_result, values) ∷ s) = without_key values
last_upserted ((_, _) ∷ s) = last_upserted s

abbrev rows_toy : Sql → List Value → Toy → List (List Value) × Bool
rows_toy archive_exists values d = ((integer (pos 1) ∷ []) ∷ [], false)
rows_toy select_replay_result values d = (last_upserted (journal d), false)
rows_toy _ values d = ([], false)

abbrev int64_toy : Value → ℤ
int64_toy (integer z) = z
int64_toy _ = pos 0

abbrev is_null_toy : Value → Bool
is_null_toy null = true
is_null_toy _ = false

abbrev text_toy : Value → Bytes
text_toy (text bs) = bs
text_toy _ = []

abbrev blob_toy : Value → Option Bytes
blob_toy (blob bs) = some bs
blob_toy _ = none

abbrev sqlite : Sqlite
sqlite = record {
  Database = Toy;
  prepares = λ _ _. true;
  step = step_toy;
  rows = rows_toy;
  last_insert_rowid = λ d. pos (length (journal d));
  changes = λ _. pos 1;
  column_int64 = int64_toy;
  column_int = int64_toy;
  column_is_null = is_null_toy;
  column_text = text_toy;
  column_blob = blob_toy;
}

abbrev Within : Toy → Toy → Type 0
Within (idle s) (active s0 t) = s ≡ s0
Within _ _ = ⊥

toy_not_begun :
    (d : Toy)
    → is_failed (step_toy begin_immediate [] d).0 ≡ true
    → (step_toy begin_immediate [] d).1 ≡ d
toy_not_begun (idle s) e = cc
toy_not_begun (active s t) e = refl

toy_begun :
    (d : Toy)
    → is_failed (step_toy begin_immediate [] d).0 ≡ false
    → Within d (step_toy begin_immediate [] d).1
toy_begun (idle s) e = refl
toy_begun (active s t) e = cc

toy_undone : (d0 d : Toy) → Within d0 d → (step_toy rollback [] d).1 ≡ d0
toy_undone (idle s) (active s0 t) w = ap idle (sym w)
toy_undone (idle s) (idle t) w = elim w [ ]
toy_undone (active s t) d w = elim w [ ]

step_of_write :
    (sql : Sql) (values : List Value) (d : Toy)
    → is_control sql ≡ false
    → step_toy sql values d ≡ (done, write (sql, values) d)
step_of_write begin_immediate values d o = cc
step_of_write commit values d o = cc
step_of_write rollback values d o = cc
step_of_write sql values d o = refl

toy_written : (e : Sql × List Value) (d0 d : Toy) → Within d0 d → Within d0 (write e d)
toy_written e (idle s) (active s0 t) w = w
toy_written e (idle s) (idle t) w = elim w [ ]
toy_written e (active s t) d w = elim w [ ]

toy_kept :
    (d0 d : Toy) (sql : Sql) (values : List Value)
    → Within d0 d
    → is_control sql ≡ false
    → is_failed (step_toy sql values d).0 ≡ false
    → Within d0 (step_toy sql values d).1
toy_kept d0 d sql values w o e =
    subst (λ x. Within d0 x.1) (sym (step_of_write sql values d o))
      (toy_written (sql, values) d0 d w)

absurd : true ≡ false → ⊥
absurd e = cc

toy_undone_after_write :
    (d0 d : Toy) (sql : Sql) (values : List Value)
    → Within d0 d
    → is_control sql ≡ false
    → is_failed (step_toy sql values d).0 ≡ true
    → (step_toy rollback [] (step_toy sql values d).1).1 ≡ d0
toy_undone_after_write d0 d sql values w o e =
    elim (absurd (sym e ∙ ap (λ x. is_failed x.0) (step_of_write sql values d o))) [ ]

toy_undone_after_commit :
    (d0 d : Toy)
    → Within d0 d
    → is_failed (step_toy commit [] d).0 ≡ true
    → (step_toy rollback [] (step_toy commit [] d).1).1 ≡ d0
toy_undone_after_commit (idle s) (active s0 t) w e = cc
toy_undone_after_commit (idle s) (idle t) w e = elim w [ ]
toy_undone_after_commit (active s t) d w e = elim w [ ]

sqlite-IsTransactional : IsTransactional sqlite
sqlite-IsTransactional = record {
  Within = Within;
  not_begun = toy_not_begun;
  begun = toy_begun;
  kept = toy_kept;
  undone = toy_undone;
  undone_after_write = toy_undone_after_write;
  undone_after_commit = toy_undone_after_commit;
}

sqlite-HasColumns : HasColumns sqlite
sqlite-HasColumns = record {
  int64 = λ z. refl;
  int = λ n h. refl;
  null_is_null = refl;
  blob_is_not_null = λ bs. refl;
  blob_of = λ bs h. refl;
}

toy_upserted :
    (archive_id : ℤ) (values : List Value) (d : Toy)
    → let written = step_toy upsert_replay_result (integer archive_id ∷ values) d in
      let committed = step_toy commit [] written.1 in
      is_done written.0 ≡ true
      → is_failed committed.0 ≡ false
      → (true ≡ true)
        × ((rows_toy select_replay_result (integer archive_id ∷ []) committed.1).0 ≡ values ∷ [])
toy_upserted archive_id values (idle s) e1 e2 = cc
toy_upserted archive_id values (active s t) e1 e2 = (refl, refl)

sqlite-HasReplayTable : HasReplayTable sqlite
sqlite-HasReplayTable = record { upserted = toy_upserted }

import_archive-IsAtomic_example :
    IsAtomic sqlite sqlite-IsTransactional
      (IsImportOf sqlite sqlite-IsTransactional (archive_bytes (only_record ∷ []) head) head)
      (idle [])
      (import_archive sqlite
        (archive_bytes (only_record ∷ []) head)
        head
        (codes "upload")
        (idle []))
import_archive-IsAtomic_example =
    import_archive-IsAtomic sqlite sqlite-IsTransactional (archive_bytes (only_record ∷ []) head)
      head (codes "upload") (idle [])

length-head : length head ≡ 32
unfolding digest_command_evidence
length-head = length-sha256 (encode_command_evidence only_record)

replayed-IsStorable : IsStorable replayed
replayed-IsStorable = record {
  processed = omega arith;
  ordinal = λ n e. cc;
  advances = omega arith;
  tick = omega arith;
  sequence = omega arith;
  pending = omega arith;
  fingerprint = omega arith;
  head = length-head;
}

record_replay_result-IsReadBack_example :
    IsReadBack sqlite sqlite-HasColumns
      (λ _. CommandEvidenceReplayCode.verified)
      (pos 1)
      replayed
      (record_replay_result sqlite (pos 1) replayed (idle []))
record_replay_result-IsReadBack_example =
    record_replay_result-IsReadBack sqlite sqlite-HasColumns
      (λ _. CommandEvidenceReplayCode.verified) sqlite-HasReplayTable (pos 1) replayed (idle [])
      replayed-IsStorable

insert_records-IsCounted_example :
    IsCounted 0 0 (only_record ∷ []) (insert_records sqlite (pos 1) (only_record ∷ []) [] (idle []))
insert_records-IsCounted_example =
    insert_records-IsCounted sqlite (pos 1) (only_record ∷ []) (idle []) (omega arith)
