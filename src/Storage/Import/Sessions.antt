-- ===== src/Storage/Import/Sessions.antt =====
-- cpp/src/storage/investigation_store.cpp: the session summaries of an import count its records.
use tickline.Base.{
  ℕ, ◌+◌, ◌%◌, ◌^◌, ◌<◌, ◌≡◌, if◌then◌else◌, Bool, true, false, List, [], ◌∷◌, length, Result, ok,
  err, arith,
}
use tickline.Base.Int.{ℤ}
use tickline.Command.Session.{is_none}
use tickline.Command.Evidence.{CommandEvidenceRecord}
use tickline.Storage.Store.{StoreException, sqlite_failure}
use tickline.Storage.Bundle.{same_key}
use tickline.Storage.Sqlite.{Sqlite}
use tickline.Storage.Sqlite.Actions.{continue, or_fail, step_done}
use tickline.Storage.Rows.{
  SessionAggregate, Aggregates, key_of, less_key, new_aggregate, extended, counted, aggregate,
}
use tickline.Storage.Import.{insert_records}

abbrev pub one_if : Bool → ℕ
one_if true = 1
one_if false = 0

abbrev pub accepted_in : List CommandEvidenceRecord → ℕ
accepted_in [] = 0
accepted_in (r ∷ rs) = one_if (is_none r.entry.rejection_code) + accepted_in rs

abbrev pub accepted_total : Aggregates → ℕ
accepted_total [] = 0
accepted_total ((k, g) ∷ gs) = g.accepted_count + accepted_total gs

abbrev pub rejected_total : Aggregates → ℕ
rejected_total [] = 0
rejected_total ((k, g) ∷ gs) = g.rejected_count + rejected_total gs

-- One record more is counted.
pub record IsCountedUp (accepted : Bool) (a b a' b' : ℕ) : Type 0 where
  pub accepted_more : a' ≡ one_if accepted + a
  pub total_more : a' + b' ≡ a + b + 1

counted_either :
    (accepted : Bool) (g : SessionAggregate)
    → g.accepted_count + g.rejected_count + 1 < 2 ^ 64
    → let g' =
        if accepted
        then record g { accepted_count = (g.accepted_count + 1) % 2 ^ 64 }
        else record g { rejected_count = (g.rejected_count + 1) % 2 ^ 64 } in
      IsCountedUp accepted g.accepted_count g.rejected_count g'.accepted_count g'.rejected_count
counted_either true g h = record { accepted_more = omega (arith, h); total_more = omega (arith, h) }
counted_either false g h = record { accepted_more = omega arith; total_more = omega (arith, h) }

abbrev IsOneMore : CommandEvidenceRecord → Aggregates → Aggregates → Type 0
IsOneMore r gs gs' =
    IsCountedUp (is_none r.entry.rejection_code) (accepted_total gs) (rejected_total gs)
      (accepted_total gs') (rejected_total gs')

in_place :
    (accepted : Bool) (a b c d a' b' : ℕ)
    → IsCountedUp accepted a b a' b'
    → IsCountedUp accepted (a + c) (b + d) (a' + c) (b' + d)
in_place accepted a b c d a' b' m = record {
  accepted_more = omega (arith, m.accepted_more);
  total_more = omega (arith, m.total_more);
}

in_front :
    (accepted : Bool) (c d a' b' : ℕ)
    → IsCountedUp accepted 0 0 a' b'
    → IsCountedUp accepted c d (a' + c) (b' + d)
in_front accepted c d a' b' m = record {
  accepted_more = omega (arith, m.accepted_more);
  total_more = omega (arith, m.total_more);
}

behind :
    (accepted : Bool) (a b c d a' b' : ℕ)
    → IsCountedUp accepted a b a' b'
    → IsCountedUp accepted (c + a) (d + b) (c + a') (d + b')
behind accepted a b c d a' b' m = record {
  accepted_more = omega (arith, m.accepted_more);
  total_more = omega (arith, m.total_more);
}

one_of_three {ℓ} :
    {A : Type ℓ} (P : A → Type 0) (b c : Bool) (x y z : A)
    → P x
    → P y
    → P z
    → P (if b then x else if c then y else z)
one_of_three P true c x y z p q s = p
one_of_three P false true x y z p q s = q
one_of_three P false false x y z p q s = s

aggregate-IsOneMore :
    (r : CommandEvidenceRecord) (gs : Aggregates)
    → accepted_total gs + rejected_total gs + 1 < 2 ^ 64
    → IsOneMore r gs (aggregate r gs)
unfolding aggregate counted
aggregate-IsOneMore r [] h =
    in_front (is_none r.entry.rejection_code) 0 0 _ _
      (counted_either (is_none r.entry.rejection_code) (new_aggregate r) (omega arith))
aggregate-IsOneMore r ((k, g) ∷ gs) h =
    one_of_three (IsOneMore r ((k, g) ∷ gs)) (same_key k (key_of r)) (less_key (key_of r) k)
      ((k, counted r (extended r g)) ∷ gs) ((key_of r, counted r (new_aggregate r)) ∷ (k, g) ∷ gs)
      ((k, g) ∷ aggregate r gs)
      (in_place (is_none r.entry.rejection_code) g.accepted_count g.rejected_count
        (accepted_total gs) (rejected_total gs) _ _
        (counted_either (is_none r.entry.rejection_code) (extended r g) (omega (arith, h))))
      (in_front (is_none r.entry.rejection_code) (accepted_total ((k, g) ∷ gs))
        (rejected_total ((k, g) ∷ gs)) _ _
        (counted_either (is_none r.entry.rejection_code) (new_aggregate r) (omega arith)))
      (behind (is_none r.entry.rejection_code) (accepted_total gs) (rejected_total gs)
        g.accepted_count g.rejected_count _ _ (aggregate-IsOneMore r gs (omega (arith, h))))

-- An outcome whose aggregates count the records, each as accepted or as rejected.
abbrev pub IsCounted {ℓ} :
    {D : Type ℓ}
    → ℕ
    → ℕ
    → List CommandEvidenceRecord
    → Result StoreException Aggregates × D
    → Type 0
IsCounted a b rs (ok gs, _) =
    (accepted_total gs ≡ a + accepted_in rs)
    × (accepted_total gs + rejected_total gs ≡ a + b + length rs)
IsCounted a b rs (err _, _) = Unit

counted_before :
    {D : Type 0} (r : CommandEvidenceRecord) (rs : List CommandEvidenceRecord) (a b a' b' : ℕ)
    (x : Result StoreException Aggregates × D)
    → IsCountedUp (is_none r.entry.rejection_code) a b a' b'
    → IsCounted a' b' rs x
    → IsCounted a b (r ∷ rs) x
counted_before r rs a b a' b' (ok gs, d) m (h1, h2) =
    (omega (arith, m.accepted_more, h1), omega (arith, m.total_more, h2))
counted_before r rs a b a' b' (err e, d) m h = tt

module _ (Q : Sqlite) where
  stepped-IsCounted :
      (b : Bool) (a c : ℕ) (rs : List CommandEvidenceRecord) (d : Q.Database)
      (next : Q.Database → Result StoreException Aggregates × Q.Database)
      → ((d' : Q.Database) → IsCounted a c rs (next d'))
      → IsCounted a c rs (continue (λ _. next) (or_fail Q sqlite_failure b d))
  stepped-IsCounted true a c rs d next h = h d
  stepped-IsCounted false a c rs d next h = tt

  insert_records_totals :
      (archive_id : ℤ) (rs : List CommandEvidenceRecord) (gs : Aggregates) (d : Q.Database)
      → accepted_total gs + rejected_total gs + length rs < 2 ^ 64
      → IsCounted (accepted_total gs) (rejected_total gs) rs (insert_records Q archive_id rs gs d)
  unfolding insert_records step_done
  insert_records_totals archive_id [] gs d h = (omega arith, omega arith)
  insert_records_totals archive_id (r ∷ rs) gs d h =
      let m = aggregate-IsOneMore r gs (omega (arith, h)) in
      stepped-IsCounted _ (accepted_total gs) (rejected_total gs) (r ∷ rs) _
        (insert_records Q archive_id rs (aggregate r gs))
        (λ d'. counted_before r rs (accepted_total gs) (rejected_total gs) _ _ _ m (
          insert_records_totals archive_id rs (aggregate r gs) d' (omega (arith, h, m.total_more))))

  -- The session summaries of fewer than 2 ^ 64 records, where all could be inserted, have as many
  -- accepted commands in total as there are records without a rejection code, and as many accepted and
  -- rejected ones as there are records.
  pub insert_records-IsCounted :
      (archive_id : ℤ) (rs : List CommandEvidenceRecord) (d : Q.Database)
      → length rs < 2 ^ 64
      → IsCounted 0 0 rs (insert_records Q archive_id rs [] d)
  insert_records-IsCounted archive_id rs d h =
      insert_records_totals archive_id rs [] d (omega (arith, h))
