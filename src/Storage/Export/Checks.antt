-- ===== src/Storage/Export/Checks.antt =====
-- cpp/src/storage/investigation_bundle_exporter.cpp: which bundles are exported.
use tickline.Base.{
  ℕ, ◌+◌, ◌%◌, ◌^◌, ◌≤◌, ltb, ltb→le, ◌==◌, ==_iff, not, ◌||◌, if◌then◌else◌, Bool, true, false,
  Option, none, some, ◌≡◌, refl, ap, sym, ◌∙◌, subst, List, [], ◌∷◌, length, All, Result, ok,
  ok-injective, first_step, bind_ok, throw_if-eq-ok, ◌>>◌, arith,
}
use tickline.Base.Int.{ℤ, pos, leb_ℤ}
use tickline.Base.Words.{Bytes}
use tickline.Security.Sha256.{Sha256Digest}
use tickline.Command.Evidence.Chain.{same_bytes}
use tickline.Command.Evidence.Chain.Growth.{same_bytes-eq}
use tickline.Command.Replay.{CommandEvidenceReplayResult}
use tickline.Storage.Store.{
  EvidenceArchiveSummary, EvidenceSessionSummary, StoredEvidenceRecord, InvestigationStore,
}
use tickline.Storage.Bundle.{
  ExportException, int_max, require_json_integer, or_query_error, find_archive, load_all_evidence,
  record_was_accepted, SessionKey, Projections, SessionProjection, find_projection, is_found, Scan,
  scan_evidence, scan_sessions,
}
use tickline.Storage.Export.Sessions.{
  records_of, projection_of, projected_by, find_projection-projected_by,
}
use tickline.Storage.Export.{
  Bundle, initial_head_of, first_scan, or_missing, check_bundle, check_evidence, check_sessions,
  render, render_sessions, or_out_of_range, export_investigation_bundle_json,
}

not-true : (b : Bool) → not b ≡ false → b ≡ true
not-true true e = refl
not-true false e = cc

neither : (a b : Bool) → (a || b) ≡ false → (a ≡ false) × (b ≡ false)
neither true b e = cc
neither false b e = (refl, e)

require_json_integer-then {ℓ} :
    {A : Type ℓ} (n : ℕ) (m : Result ExportException A) {a : A}
    → (require_json_integer n >> m) ≡ ok a
    → (n ≤ int_max) × (m ≡ ok a)
unfolding require_json_integer
require_json_integer-then n m e =
    let (t, e') = throw_if-eq-ok (ltb int_max n) _ _ e in (ltb→le int_max n t, e')

-- Each record names the digest of the one before it.
abbrev pub Linked : Sha256Digest → List StoredEvidenceRecord → Sha256Digest → Type 0
Linked previous [] last = previous ≡ last
Linked previous (x ∷ xs) last =
    (x.evidence.previous_record_digest ≡ previous) × Linked x.record_digest xs last

-- How many records were accepted, and how many were not.
abbrev pub accepted_in : List StoredEvidenceRecord → ℕ
accepted_in [] = 0
accepted_in (x ∷ xs) = if record_was_accepted x.evidence then accepted_in xs + 1 else accepted_in xs

abbrev pub rejected_in : List StoredEvidenceRecord → ℕ
rejected_in [] = 0
rejected_in (x ∷ xs) = if record_was_accepted x.evidence then rejected_in xs else rejected_in xs + 1

-- The totals of the session summaries.
abbrev pub accepted_total : List EvidenceSessionSummary → ℕ
accepted_total [] = 0
accepted_total (x ∷ xs) = x.accepted_count + accepted_total xs

abbrev pub rejected_total : List EvidenceSessionSummary → ℕ
rejected_total [] = 0
rejected_total (x ∷ xs) = x.rejected_count + rejected_total xs

pub record IsScanned (evidence : List StoredEvidenceRecord) (s s' : Scan) : Type 0 where
  pub linked : Linked s.expected_digest evidence s'.expected_digest
  pub accepted : s'.accepted_count ≡ s.accepted_count + accepted_in evidence
  pub rejected : s'.rejected_count ≡ s.rejected_count + rejected_in evidence
  pub ordinals : All (λ x. x.evidence.ordinal ≤ int_max) evidence
  pub projected : s'.projections ≡ projected_by evidence s.projections

scan_evidence-IsScanned :
    (evidence : List StoredEvidenceRecord) (s s' : Scan)
    → scan_evidence evidence s ≡ ok s'
    → IsScanned evidence s s'
unfolding scan_evidence
scan_evidence-IsScanned [] s s' e =
    let same = ok-injective e in
    record {
      linked = ap (λ (x : Scan). x.expected_digest) same;
      accepted = omega (arith, ap (λ (x : Scan). x.accepted_count) same);
      rejected = omega (arith, ap (λ (x : Scan). x.rejected_count) same);
      ordinals = tt;
      projected = sym (ap (λ (x : Scan). x.projections) same);
    }
scan_evidence-IsScanned (x ∷ xs) s s' e =
    let (small, e1) = require_json_integer-then x.evidence.ordinal _ e in
    let (t, e2) =
      throw_if-eq-ok (not (same_bytes x.evidence.previous_record_digest s.expected_digest)) _ _
        e1 in
    let h = scan_evidence-IsScanned xs _ s' e2 in
    record {
      linked = (same_bytes-eq _ _ (not-true _ t), h.linked);
      accepted = ground (arith, h.accepted);
      rejected = ground (arith, h.rejected);
      ordinals = (small, h.ordinals);
      projected = h.projected;
    }

abbrev pub HasProjection : Projections → EvidenceSessionSummary → Type 0
HasProjection projections session =
    is_found (find_projection (session.client_id, session.session_id) projections) ≡ true

-- The session of a summary has records.
abbrev pub HasRecords : List StoredEvidenceRecord → EvidenceSessionSummary → Type 0
HasRecords evidence session =
    (x : StoredEvidenceRecord) × (xs : List StoredEvidenceRecord) × (records_of
        (session.client_id, session.session_id) evidence
      ≡ x ∷ xs)

abbrev pub HasIntegers : EvidenceSessionSummary → Type 0
HasIntegers session = (session.accepted_count ≤ int_max) × (session.rejected_count ≤ int_max)

found_of_records :
    (xs : List StoredEvidenceRecord)
    → is_found (projection_of xs) ≡ true
    → (y : StoredEvidenceRecord) × (ys : List StoredEvidenceRecord) × (xs ≡ y ∷ ys)
found_of_records [] e = cc
found_of_records (y ∷ ys) e = (y, ys, refl)

projected-HasRecords :
    (evidence : List StoredEvidenceRecord) (projections : Projections)
    (sessions : List EvidenceSessionSummary)
    → ((key : SessionKey)
        → find_projection key projections ≡ projection_of (records_of key evidence))
    → All (HasProjection projections) sessions
    → All (HasRecords evidence) sessions
projected-HasRecords evidence projections [] h a = tt
projected-HasRecords evidence projections (x ∷ xs) h (found, a) = (
  found_of_records (records_of (x.client_id, x.session_id) evidence)
      (ap is_found (sym (h (x.client_id, x.session_id))) ∙ found),
  projected-HasRecords evidence projections xs h a,
)

scan_sessions-eq-ok :
    (projections : Projections) (sessions : List EvidenceSessionSummary) (a r : ℕ) (totals : ℕ × ℕ)
    → scan_sessions projections sessions a r ≡ ok totals
    → All (HasProjection projections) sessions
      × All HasIntegers sessions
      × (totals.0 % 2 ^ 64 ≡ (a + accepted_total sessions) % 2 ^ 64)
      × (totals.1 % 2 ^ 64 ≡ (r + rejected_total sessions) % 2 ^ 64)
unfolding scan_sessions
scan_sessions-eq-ok projections [] a r totals e =
    let same = ok-injective e in
    (
      tt,
      tt,
      omega (arith, ap (λ (t : ℕ × ℕ). t.0) same),
      omega (arith, ap (λ (t : ℕ × ℕ). t.1) same),
    )
scan_sessions-eq-ok projections (x ∷ xs) a r totals e =
    let (t, e1) =
      throw_if-eq-ok (not (is_found (find_projection (x.client_id, x.session_id) projections))) _ _
        e in
    let (ia, e2) = require_json_integer-then x.accepted_count _ e1 in
    let (ir, e3) = require_json_integer-then x.rejected_count _ e2 in
    let (h, hi, ha, hr) = scan_sessions-eq-ok projections xs _ _ totals e3 in
    ((not-true _ t, h), ((ia, ir), hi), omega (arith, ha), omega (arith, hr))

-- What the checks have made sure of.
pub record IsChecked (b : Bundle) : Type 0 where
  pub counted : length b.evidence ≡ b.archive.record_count
  pub first : b.initial_head ≡ initial_head_of b.evidence
  pub linked : Linked b.initial_head b.evidence b.archive.chain_head
  pub trusted : b.archive.trusted_head ≡ b.archive.chain_head
  pub accepted : b.accepted_count ≡ accepted_in b.evidence
  pub rejected : b.rejected_count ≡ rejected_in b.evidence
  pub accepted_sessions : accepted_total b.sessions % 2 ^ 64 ≡ b.accepted_count
  pub rejected_sessions : rejected_total b.sessions % 2 ^ 64 ≡ b.rejected_count
  pub sessions_counted : length b.sessions ≡ length b.projections
  pub projections :
      (key : SessionKey)
      → find_projection key b.projections ≡ projection_of (records_of key b.evidence)
  pub projected : All (HasProjection b.projections) b.sessions
  pub recorded : All (HasRecords b.evidence) b.sessions
  pub session_integers : All HasIntegers b.sessions
  pub integers :
      All (λ x. x.evidence.ordinal ≤ int_max) b.evidence
      × (b.accepted_count ≤ int_max)
      × (b.rejected_count ≤ int_max)

made-IsChecked :
    (archive : EvidenceArchiveSummary) (replay : CommandEvidenceReplayResult)
    (evidence : List StoredEvidenceRecord) (sessions : List EvidenceSessionSummary) (scan : Scan)
    (totals : ℕ × ℕ)
    → length evidence ≡ archive.record_count
    → IsScanned evidence (first_scan evidence) scan
    → scan.expected_digest ≡ archive.chain_head
    → archive.trusted_head ≡ archive.chain_head
    → length sessions ≡ length scan.projections
    → scan_sessions scan.projections sessions 0 0 ≡ ok totals
    → totals.0 ≡ scan.accepted_count
    → totals.1 ≡ scan.rejected_count
    → scan.accepted_count ≤ int_max
    → scan.rejected_count ≤ int_max
    → IsChecked (record {
      archive = archive;
      replay = replay;
      initial_head = initial_head_of evidence;
      evidence = evidence;
      sessions = sessions;
      projections = scan.projections;
      accepted_count = scan.accepted_count;
      rejected_count = scan.rejected_count;
    })
made-IsChecked archive replay evidence sessions scan totals count h last trusted n es ea er ia ir =
    let (found, small, a, r) = scan_sessions-eq-ok scan.projections sessions 0 0 totals es in
    let projected : (key : SessionKey)
        → find_projection key scan.projections ≡ projection_of (records_of key evidence) =
      λ key. ap (find_projection key) h.projected ∙ find_projection-projected_by key evidence in
    record {
      counted = count;
      first = refl;
      linked = subst (Linked (initial_head_of evidence) evidence) last h.linked;
      trusted = trusted;
      accepted = omega (arith, h.accepted);
      rejected = omega (arith, h.rejected);
      accepted_sessions = omega arith;
      rejected_sessions = omega arith;
      sessions_counted = n;
      projections = projected;
      projected = found;
      recorded = projected-HasRecords evidence scan.projections sessions projected found;
      session_integers = small;
      integers = (h.ordinals, ia, ir);
    }

check_sessions-IsChecked :
    (archive : EvidenceArchiveSummary) (replay : CommandEvidenceReplayResult)
    (evidence : List StoredEvidenceRecord) (scan : Scan) (sessions : List EvidenceSessionSummary)
    (b : Bundle)
    → length evidence ≡ archive.record_count
    → IsScanned evidence (first_scan evidence) scan
    → scan.expected_digest ≡ archive.chain_head
    → archive.trusted_head ≡ archive.chain_head
    → check_sessions archive replay evidence scan sessions ≡ ok b
    → IsChecked b
unfolding check_sessions
check_sessions-IsChecked archive replay evidence scan sessions b count h last trusted e =
    let (t1, e1) = throw_if-eq-ok (not (length sessions == length scan.projections)) _ _ e in
    let (totals, et, e2) = first_step (scan_sessions scan.projections sessions 0 0) _ e1 in
    let (t3, e3) =
      throw_if-eq-ok
        (not (totals.0 == scan.accepted_count) || not (totals.1 == scan.rejected_count)) _ _ e2 in
    let (ia, e4) = require_json_integer-then scan.accepted_count _ e3 in
    let (ir, e5) = require_json_integer-then scan.rejected_count _ e4 in
    let (a, r) = neither _ _ t3 in
    subst IsChecked (ok-injective e5) (
      made-IsChecked archive replay evidence sessions scan totals count h last trusted
        ((==_iff _ _).0 (not-true _ t1)) et ((==_iff _ _).0 (not-true _ a))
        ((==_iff _ _).0 (not-true _ r)) ia ir)

check_evidence-IsChecked :
    (store : InvestigationStore) (archive : EvidenceArchiveSummary)
    (replay : CommandEvidenceReplayResult) (archive_id : ℤ) (evidence : List StoredEvidenceRecord)
    (b : Bundle)
    → check_evidence store archive replay archive_id evidence ≡ ok b
    → IsChecked b
unfolding check_evidence
check_evidence-IsChecked store archive replay archive_id evidence b e =
    let (t1, e1) = throw_if-eq-ok (not (length evidence == archive.record_count)) _ _ e in
    let (scan, es, e2) = first_step (scan_evidence evidence (first_scan evidence)) _ e1 in
    let (t3, e3) =
      throw_if-eq-ok
        (not (same_bytes scan.expected_digest archive.chain_head)
          || not (same_bytes archive.trusted_head archive.chain_head))
        _ _ e2 in
    let (sessions, _, e4) = first_step (or_query_error (store.list_sessions archive_id)) _ e3 in
    let (last, trusted) = neither _ _ t3 in
    check_sessions-IsChecked archive replay evidence scan sessions b
      ((==_iff _ _).0 (not-true _ t1))
      (scan_evidence-IsScanned evidence (first_scan evidence) scan es)
      (same_bytes-eq _ _ (not-true _ last)) (same_bytes-eq _ _ (not-true _ trusted)) e4

check_bundle-IsChecked :
    (store : InvestigationStore) (rounds : ℕ) (archive_id : ℤ) (b : Bundle)
    → check_bundle store rounds archive_id ≡ ok b
    → IsChecked b
unfolding check_bundle
check_bundle-IsChecked store rounds archive_id b e =
    let (_, e1) = throw_if-eq-ok (leb_ℤ archive_id (pos 0)) _ _ e in
    let (archive, _, e2) = first_step (find_archive store archive_id rounds none) _ e1 in
    let (found, _, e3) = first_step (or_query_error (store.replay_result archive_id)) _ e2 in
    let (replay, _, e4) = first_step (or_missing found) _ e3 in
    let (evidence, _, e5) =
      first_step
        (load_all_evidence store archive_id rounds (record { records = []; after_ordinal = none }))
        _ e4 in
    check_evidence-IsChecked store archive replay archive_id evidence b e5

or_out_of_range_total :
    (o : Option SessionProjection)
    → is_found o ≡ true
    → (p : SessionProjection) × (or_out_of_range o ≡ ok p)
or_out_of_range_total none h = cc
or_out_of_range_total (some p) h = (p, refl)

render_sessions_total :
    (projections : Projections) (sessions : List EvidenceSessionSummary) (output : Bytes)
    → All (HasProjection projections) sessions
    → (text : Bytes) × (render_sessions projections sessions output ≡ ok text)
unfolding render_sessions
render_sessions_total projections [] output h = (output, refl)
render_sessions_total projections (x ∷ xs) output (found, h) =
    let (p, e) =
      or_out_of_range_total (find_projection (x.client_id, x.session_id) projections) found in
    rw e (render_sessions_total projections xs _ h)

render_total : (b : Bundle) → IsChecked b → (text : Bytes) × (render b ≡ ok text)
unfolding render
render_total b h =
    let (text, e) = render_sessions_total b.projections b.sessions _ h.projected in
    (_, bind_ok (render_sessions b.projections b.sessions _) _ text e refl)

-- An export that returns has a bundle behind it whose text it is, and what the bundle says is true
-- of its evidence: the count is the archive's, each record names the digest of the one before it
-- from the first head to the archive's head, which is the trusted one, the accepted and the rejected
-- records are counted, and the session summaries have the same totals modulo 2 ^ 64. What the bundle
-- holds for a session, its last sequence and its first and last target ticks, are those of the records
-- with its client and session identifiers, there are as many summaries as it holds sessions, and the
-- session of each summary has records. The ordinals of the records, the counts of each summary and the
-- two totals fit a 32-bit signed integer. A bundle that passed the checks is always exported.
pub export_investigation_bundle_json-IsChecked :
    (store : InvestigationStore) (rounds : ℕ) (archive_id : ℤ)
    → ((b : Bundle)
        → check_bundle store rounds archive_id ≡ ok b
        → (text : Bytes) × (export_investigation_bundle_json store rounds archive_id ≡ ok text))
      × ((text : Bytes)
          → export_investigation_bundle_json store rounds archive_id ≡ ok text
          → (b : Bundle) × (check_bundle store rounds archive_id ≡ ok b)
            × IsChecked b
            × (render b ≡ ok text))
unfolding export_investigation_bundle_json
export_investigation_bundle_json-IsChecked store rounds archive_id = (
  λ b e.
      let (text, r) = render_total b (check_bundle-IsChecked store rounds archive_id b e) in
      (text, rw e r),
  λ text e.
      let (b, eb, er) = first_step (check_bundle store rounds archive_id) render e in
      (b, eb, check_bundle-IsChecked store rounds archive_id b eb, er),
)
