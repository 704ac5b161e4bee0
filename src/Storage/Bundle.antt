-- ===== src/Storage/Bundle.antt =====
-- cpp/src/storage/investigation_bundle_exporter.cpp: what a bundle is made of, and the checks of it.
pub mod Pages
use tickline.Base.{
  ℕ, zero, suc, ◌+◌, ◌%◌, ◌^◌, ltb, leb, ◌==◌, ◌&&◌, ◌||◌, not, if◌then◌else◌, Bool, true, false,
  Option, none, some, List, [], ◌∷◌, ◌++◌, length, Result, Exception, ok, err, ◌>>=◌, ◌>>◌,
  throw_if,
}
use tickline.Base.Int.{ℤ, pos, leb_ℤ}
use tickline.Security.Sha256.{Sha256Digest, zero_digest}
use tickline.Command.Envelope.{ClientId, SessionId}
use tickline.Command.Session.{is_none}
use tickline.Command.Evidence.{CommandEvidenceRecord, CommandQueueOutcome}
use tickline.Command.Evidence.Codec.{outcome_value}
use tickline.Command.Evidence.Chain.{same_bytes}
use tickline.Command.Replay.{CommandEvidenceReplayResult}
use tickline.Command.Replay.Same.{same_integer}
use tickline.Storage.Store.{
  StoreException, EvidenceArchiveSummary, EvidenceSessionSummary, EvidenceQuery,
  StoredEvidenceRecord, InvestigationStore,
}

pub data InvestigationBundleExportErrorCode : Type 0 where
  invalid_archive_id archive_not_found replay_result_missing evidence_count_mismatch
        evidence_chain_mismatch session_summary_mismatch json_integer_out_of_range :
      InvestigationBundleExportErrorCode

-- What an export throws: its own error, that of a query, or a standard exception. `out_of_rounds` is the model's: the
-- bound on the rounds of a `while (true)` was reached.
pub data ExportException : Type 0 where
  export_error : InvestigationBundleExportErrorCode → ExportException
  query_error : StoreException → ExportException
  standard : Exception → ExportException
  out_of_rounds : ExportException

abbrev pub or_query_error {ℓ} : {A : Type ℓ} → Result StoreException A → Result ExportException A
or_query_error (ok a) = ok a
or_query_error (err e) = err (query_error e)

-- std::numeric_limits<int>::max()
abbrev pub int_max : ℕ
int_max = 2_147_483_647

unfoldable pub require_json_integer : ℕ → Result ExportException (Unit {0})
require_json_integer value = throw_if (ltb int_max value) (export_error json_integer_out_of_range)

-- The loop over a page.
unfoldable pub find_in_page : ℤ → List EvidenceArchiveSummary → Option EvidenceArchiveSummary
find_in_page archive_id [] = none
find_in_page archive_id (archive ∷ page) =
    if same_integer archive.archive_id archive_id
    then some archive
    else find_in_page archive_id page

-- `page.back()` of a page that is not empty.
abbrev pub back {ℓ} : {A : Type ℓ} → A → List A → A
back a [] = a
back a (b ∷ bs) = back b bs

abbrev pub found_or :
    Option EvidenceArchiveSummary
    → Result ExportException EvidenceArchiveSummary
    → Result ExportException EvidenceArchiveSummary
found_or (some archive) rest = ok archive
found_or none rest = rest

-- A round on a page: the search goes on from its last archive.
abbrev pub search_page :
    ℤ
    → (Option ℤ → Result ExportException EvidenceArchiveSummary)
    → List EvidenceArchiveSummary
    → Result ExportException EvidenceArchiveSummary
search_page archive_id continue [] = err (export_error archive_not_found)
search_page archive_id continue (archive ∷ page) =
    found_or (find_in_page archive_id (archive ∷ page))
      (continue (some ((back archive page).archive_id)))

-- The loop over the pages, by at most `rounds` of them.
unfoldable pub find_archive :
    InvestigationStore → ℤ → ℕ → Option ℤ → Result ExportException EvidenceArchiveSummary
unfolding find_in_page
find_archive store archive_id zero before_archive_id = err out_of_rounds
find_archive store archive_id (suc rounds) before_archive_id =
    or_query_error (store.list_archives 100 before_archive_id)
    >>= search_page archive_id (find_archive store archive_id rounds)

abbrev pub page_size : ℕ
page_size = 100

abbrev pub evidence_query : Option ℕ → EvidenceQuery
evidence_query after_ordinal = record {
  client_id = none;
  session_id = none;
  rejection_code = none;
  queue_outcome = none;
  minimum_observed_tick = none;
  maximum_observed_tick = none;
  after_ordinal = after_ordinal;
  limit = page_size;
}

-- The records so far, and the ordinal of the last of them.
pub record Loaded : Type 0 where
  pub records : List StoredEvidenceRecord
  pub after_ordinal : Option ℕ

-- `!records.empty() && ordinal <= records.back().record.ordinal`, where `after_ordinal` is the ordinal
-- of the last record.
abbrev pub not_increasing : Option ℕ → ℕ → Bool
not_increasing none ordinal = false
not_increasing (some last) ordinal = leb ordinal last

-- The loop over a page.
unfoldable pub load_page : List StoredEvidenceRecord → Loaded → Result ExportException Loaded
load_page [] l = ok l
load_page (stored ∷ page) l = do
  throw_if (not_increasing l.after_ordinal stored.evidence.ordinal)
      (export_error evidence_chain_mismatch)
  load_page page (record {
    records = l.records ++ (stored ∷ []);
    after_ordinal = some (stored.evidence.ordinal);
  })

-- The loop over the pages, by at most `rounds` of them: it ends at a page that is empty or short.
abbrev pub after_page :
    (Loaded → Result ExportException (List StoredEvidenceRecord))
    → Loaded
    → List StoredEvidenceRecord
    → Result ExportException (List StoredEvidenceRecord)
after_page continue l [] = ok l.records
after_page continue l (stored ∷ page) = do
  l' ← load_page (stored ∷ page) l
  if ltb (length (stored ∷ page)) page_size then ok l'.records else continue l'

unfoldable pub load_all_evidence :
    InvestigationStore → ℤ → ℕ → Loaded → Result ExportException (List StoredEvidenceRecord)
unfolding load_page
load_all_evidence store archive_id zero l = err out_of_rounds
load_all_evidence store archive_id (suc rounds) l =
    or_query_error (store.query_evidence archive_id (evidence_query l.after_ordinal))
    >>= after_page (load_all_evidence store archive_id rounds) l

unfoldable pub record_was_accepted : CommandEvidenceRecord → Bool
unfolding outcome_value
record_was_accepted r =
    is_none r.entry.rejection_code
    && (outcome_value r.entry.queue_outcome == outcome_value CommandQueueOutcome.accepted)

abbrev pub SessionKey : Type 0
SessionKey = ClientId × SessionId

pub record SessionProjection : Type 0 where
  pub last_committed_sequence : ℕ
  pub first_target_tick : ℕ
  pub last_target_tick : ℕ

-- A std::map by keys of two numbers. Its order is not looked at.
abbrev pub Projections : Type 0
Projections = List (SessionKey × SessionProjection)

abbrev pub same_key : SessionKey → SessionKey → Bool
same_key (a, b) (c, d) = a == c && b == d

unfoldable pub find_projection : SessionKey → Projections → Option SessionProjection
find_projection key [] = none
find_projection key ((k, p) ∷ ps) = if same_key k key then some p else find_projection key ps

-- `projections[key]`, and the writes of a round through it. A projection that was not there is
-- initialized by its first record.
unfoldable pub project : CommandEvidenceRecord → Projections → Projections
project r [] =
    (
      (r.entry.envelope.client_id, r.entry.envelope.session_id),
      record {
        last_committed_sequence = r.entry.session_sequence_after;
        first_target_tick = r.entry.envelope.target_tick;
        last_target_tick = r.entry.envelope.target_tick;
      },
    )
    ∷ []
project r ((k, p) ∷ ps) =
    if same_key k (r.entry.envelope.client_id, r.entry.envelope.session_id)
    then (
      k,
      record p {
        last_committed_sequence = r.entry.session_sequence_after;
        last_target_tick = r.entry.envelope.target_tick;
      },
    )
      ∷ ps
    else (k, p) ∷ project r ps

-- The variables of the loop over the evidence.
pub record Scan : Type 0 where
  pub expected_digest : Sha256Digest
  pub projections : Projections
  pub accepted_count : ℕ
  pub rejected_count : ℕ

-- The loop over the evidence. The two counts are of records of a vector, which 64 bits count.
unfoldable pub scan_evidence : List StoredEvidenceRecord → Scan → Result ExportException Scan
unfolding require_json_integer project record_was_accepted
scan_evidence [] s = ok s
scan_evidence (stored ∷ evidence) s = do
  require_json_integer stored.evidence.ordinal
  throw_if (not (same_bytes stored.evidence.previous_record_digest s.expected_digest))
      (export_error evidence_chain_mismatch)
  scan_evidence evidence (record {
    expected_digest = stored.record_digest;
    projections = project stored.evidence s.projections;
    accepted_count =
        if record_was_accepted stored.evidence then s.accepted_count + 1 else s.accepted_count;
    rejected_count =
        if record_was_accepted stored.evidence then s.rejected_count else s.rejected_count + 1;
  })

abbrev pub is_found : Option SessionProjection → Bool
is_found none = false
is_found (some _) = true

-- The loop over the session summaries, with the totals so far. The sums wrap on 64 bits.
unfoldable pub scan_sessions :
    Projections → List EvidenceSessionSummary → ℕ → ℕ → Result ExportException (ℕ × ℕ)
unfolding require_json_integer find_projection
scan_sessions projections [] accepted rejected = ok (accepted, rejected)
scan_sessions projections (session ∷ sessions) accepted rejected = do
  throw_if (not (is_found (find_projection (session.client_id, session.session_id) projections)))
      (export_error session_summary_mismatch)
  require_json_integer session.accepted_count
  require_json_integer session.rejected_count
  scan_sessions projections sessions ((accepted + session.accepted_count) % 2 ^ 64)
      ((rejected + session.rejected_count) % 2 ^ 64)
