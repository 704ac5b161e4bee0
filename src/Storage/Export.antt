-- ===== src/Storage/Export.antt =====
-- cpp/src/storage/investigation_bundle_exporter.cpp, export_investigation_bundle_json.
pub mod Checks
pub mod Sessions
use tickline.Base.{
  ℕ, ◌==◌, ◌&&◌, ◌||◌, not, if◌then◌else◌, Bool, true, false, Option, none, some, List, [], ◌∷◌,
  ◌++◌, length, Result, ok, err, out_of_range, ◌>>=◌, ◌>>◌, throw_if,
}
use tickline.Base.Int.{ℤ, pos, leb_ℤ}
use tickline.Base.Text.{codes, to_string}
use tickline.Base.Words.{Bytes}
use tickline.Security.Sha256.{Sha256Digest, zero_digest}
use tickline.Security.Sha256.Hex.{to_hex}
use tickline.Command.Envelope.{CommandType, set_velocity}
use tickline.Command.Session.{is_none}
use tickline.Command.Evidence.{CommandEvidenceRecord, CommandQueueOutcome}
use tickline.Command.Evidence.Codec.{outcome_value}
use tickline.Command.Evidence.Chain.{same_bytes}
use tickline.Command.Names.{command_rejection_code_name, command_queue_outcome_name}
use tickline.Command.Replay.{CommandEvidenceReplayCode, CommandEvidenceReplayResult}
use tickline.Storage.Store.{
  EvidenceArchiveSummary, EvidenceSessionSummary, StoredEvidenceRecord, InvestigationStore,
}
use tickline.Storage.Json.{append_string_field, append_raw_field, normalize_timestamp}
use tickline.Storage.Bundle.{
  ExportException, export_error, standard, invalid_archive_id, replay_result_missing,
  evidence_count_mismatch, evidence_chain_mismatch, session_summary_mismatch, or_query_error,
  find_archive, load_all_evidence, Projections, SessionProjection, find_projection, Scan,
  scan_evidence, scan_sessions, require_json_integer, record_was_accepted,
}

abbrev investigation_bundle_schema_version : ℕ
investigation_bundle_schema_version = 1

unfoldable pub command_type_name : CommandType → Bytes
command_type_name type = if type == set_velocity then codes "set_velocity" else codes "unknown"

unfoldable pub rejection_name : CommandEvidenceRecord → Bytes
unfolding command_rejection_code_name command_queue_outcome_name outcome_value
rejection_name r =
    if not (is_none r.entry.rejection_code)
    then command_rejection_code_name r.entry.rejection_code
    else if not (outcome_value r.entry.queue_outcome == outcome_value CommandQueueOutcome.accepted)
    then command_queue_outcome_name r.entry.queue_outcome
    else codes "none"

-- What the text is made of, once it is checked.
pub record Bundle : Type 0 where
  pub archive : EvidenceArchiveSummary
  pub replay : CommandEvidenceReplayResult
  pub initial_head : Sha256Digest
  pub evidence : List StoredEvidenceRecord
  pub sessions : List EvidenceSessionSummary
  pub projections : Projections
  pub accepted_count : ℕ
  pub rejected_count : ℕ

-- The end of an object in a list, before the rest of the list.
abbrev item_end {ℓ} : {A : Type ℓ} → List A → Bytes
item_end [] = codes "    }" ++ codes "\n"
item_end (_ ∷ _) = codes "    }" ++ codes ",\n"

abbrev pub or_out_of_range : Option SessionProjection → Result ExportException SessionProjection
or_out_of_range none = err (standard out_of_range)
or_out_of_range (some projection) = ok projection

-- The fields of one session.
unfoldable pub render_session : EvidenceSessionSummary → SessionProjection → Bytes → Bytes
unfolding append_string_field append_raw_field to_string
render_session session projection output =
    let o0 = output ++ codes "    {\n" in
    let o1 = append_string_field o0 6 (codes "clientId") (to_string session.client_id) true in
    let o2 = append_string_field o1 6 (codes "sessionId") (to_string session.session_id) true in
    let o3 =
      append_string_field o2 6 (codes "lastCommittedSequence")
        (to_string projection.last_committed_sequence) true in
    let o4 =
      append_string_field o3 6 (codes "firstTargetTick") (to_string projection.first_target_tick)
        true in
    let o5 =
      append_string_field o4 6 (codes "lastTargetTick") (to_string projection.last_target_tick)
        true in
    let o6 =
      append_raw_field o5 6 (codes "acceptedCommands") (to_string session.accepted_count) true in
    append_raw_field o6 6 (codes "rejectedCommands") (to_string session.rejected_count) false

-- The loop over the sessions.
unfoldable pub render_sessions :
    Projections → List EvidenceSessionSummary → Bytes → Result ExportException Bytes
unfolding render_session find_projection
render_sessions projections [] output = ok output
render_sessions projections (session ∷ sessions) output = do
  projection ← or_out_of_range (find_projection (session.client_id, session.session_id) projections)
  render_sessions projections sessions
      (render_session session projection output ++ item_end sessions)

-- The fields of one record.
unfoldable pub render_record : StoredEvidenceRecord → Bytes → Bytes
unfolding append_string_field append_raw_field to_string to_hex command_type_name rejection_name
    record_was_accepted
render_record stored output =
    let r = stored.evidence in
    let envelope = r.entry.envelope in
    let outcome = if record_was_accepted r then codes "accepted" else codes "rejected" in
    let o0 = output ++ codes "    {\n" in
    let o1 = append_raw_field o0 6 (codes "ordinal") (to_string r.ordinal) true in
    let o2 = append_string_field o1 6 (codes "clientId") (to_string envelope.client_id) true in
    let o3 = append_string_field o2 6 (codes "sessionId") (to_string envelope.session_id) true in
    let o4 =
      append_string_field o3 6 (codes "sessionSequence") (to_string envelope.sequence) true in
    let o5 = append_string_field o4 6 (codes "targetTick") (to_string envelope.target_tick) true in
    let o6 =
      append_string_field o5 6 (codes "commandType") (command_type_name envelope.type) true in
    let o7 = append_string_field o6 6 (codes "outcome") outcome true in
    let o8 = append_string_field o7 6 (codes "rejectionCode") (rejection_name r) true in
    let o9 =
      append_string_field o8 6 (codes "previousDigest") (to_hex r.previous_record_digest) true in
    append_string_field o9 6 (codes "recordDigest") (to_hex stored.record_digest) false

-- The loop over the evidence.
unfoldable pub render_evidence : List StoredEvidenceRecord → Bytes → Bytes
unfolding render_record
render_evidence [] output = output
render_evidence (stored ∷ evidence) output =
    render_evidence evidence (render_record stored output ++ item_end evidence)

abbrev is_verified : CommandEvidenceReplayCode → Bool
is_verified CommandEvidenceReplayCode.verified = true
is_verified _ = false

-- The object of the replay.
unfoldable pub render_replay : Bundle → Bytes → Bytes
unfolding append_string_field append_raw_field to_string
render_replay b output =
    let shown = if is_verified b.replay.code then codes "true" else codes "false" in
    let o0 = output ++ codes "  \"replay\": {\n" in
    let o1 = append_raw_field o0 4 (codes "verified") shown true in
    let o2 = append_string_field o1 4 (codes "finalTick") (to_string b.replay.final_tick) true in
    let o3 =
      append_string_field o2 4 (codes "finalWorldFingerprint")
        (to_string b.replay.final_world_fingerprint) true in
    let o4 = append_raw_field o3 4 (codes "acceptedCommands") (to_string b.accepted_count) true in
    let o5 = append_raw_field o4 4 (codes "rejectedCommands") (to_string b.rejected_count) false in
    o5 ++ codes "  }\n"

-- The fields in front of the sessions.
unfoldable pub render_heads : Bundle → Bytes
unfolding append_string_field append_raw_field to_string to_hex normalize_timestamp
render_heads b =
    let o0 = codes "{\n" in
    let o1 =
      append_raw_field o0 2 (codes "schemaVersion") (to_string investigation_bundle_schema_version)
        true in
    let o2 =
      append_string_field o1 2 (codes "archiveDigest") (to_hex b.archive.archive_digest) true in
    let o3 = append_string_field o2 2 (codes "initialHeadDigest") (to_hex b.initial_head) true in
    let o4 =
      append_string_field o3 2 (codes "trustedHeadDigest") (to_hex b.archive.trusted_head) true in
    append_string_field o4 2 (codes "importedAtUtc") (normalize_timestamp b.archive.imported_at_utc)
      true

unfoldable pub render : Bundle → Result ExportException Bytes
unfolding render_heads render_sessions render_evidence render_replay
render b = do
  with_sessions ←
      render_sessions b.projections b.sessions (render_heads b ++ codes "  \"sessions\": [\n")
  let with_evidence =
      render_evidence b.evidence ((with_sessions ++ codes "  ],\n") ++ codes "  \"evidence\": [\n")
  ok (render_replay b (with_evidence ++ codes "  ],\n") ++ codes "}\n")

abbrev pub or_missing :
    Option CommandEvidenceReplayResult → Result ExportException CommandEvidenceReplayResult
or_missing none = err (export_error replay_result_missing)
or_missing (some replay) = ok replay

abbrev pub initial_head_of : List StoredEvidenceRecord → Sha256Digest
initial_head_of [] = zero_digest
initial_head_of (stored ∷ _) = stored.evidence.previous_record_digest

abbrev pub first_scan : List StoredEvidenceRecord → Scan
first_scan evidence = record {
  expected_digest = initial_head_of evidence;
  projections = [];
  accepted_count = 0;
  rejected_count = 0;
}

-- The checks of the session summaries against the evidence.
unfoldable pub check_sessions :
    EvidenceArchiveSummary
    → CommandEvidenceReplayResult
    → List StoredEvidenceRecord
    → Scan
    → List EvidenceSessionSummary
    → Result ExportException Bundle
unfolding scan_sessions require_json_integer
check_sessions archive replay evidence scan sessions = do
  throw_if (not (length sessions == length scan.projections))
      (export_error session_summary_mismatch)
  totals ← scan_sessions scan.projections sessions 0 0
  throw_if (not (totals.0 == scan.accepted_count) || not (totals.1 == scan.rejected_count))
      (export_error session_summary_mismatch)
  require_json_integer scan.accepted_count
  require_json_integer scan.rejected_count
  ok (record {
    archive = archive;
    replay = replay;
    initial_head = initial_head_of evidence;
    evidence = evidence;
    sessions = sessions;
    projections = scan.projections;
    accepted_count = scan.accepted_count;
    rejected_count = scan.rejected_count;
  })

-- The checks of the evidence against the archive's summary.
unfoldable pub check_evidence :
    InvestigationStore
    → EvidenceArchiveSummary
    → CommandEvidenceReplayResult
    → ℤ
    → List StoredEvidenceRecord
    → Result ExportException Bundle
unfolding scan_evidence check_sessions
check_evidence store archive replay archive_id evidence = do
  throw_if (not (length evidence == archive.record_count)) (export_error evidence_count_mismatch)
  scan ← scan_evidence evidence (first_scan evidence)
  throw_if
      (not (same_bytes scan.expected_digest archive.chain_head)
        || not (same_bytes archive.trusted_head archive.chain_head))
      (export_error evidence_chain_mismatch)
  or_query_error (store.list_sessions archive_id) >>= check_sessions archive replay evidence scan

-- All that comes before the text. `rounds` bounds the two loops over pages.
unfoldable pub check_bundle : InvestigationStore → ℕ → ℤ → Result ExportException Bundle
unfolding find_archive load_all_evidence check_evidence
check_bundle store rounds archive_id = do
  throw_if (leb_ℤ archive_id (pos 0)) (export_error invalid_archive_id)
  archive ← find_archive store archive_id rounds none
  found ← or_query_error (store.replay_result archive_id)
  replay ← or_missing found
  load_all_evidence store archive_id rounds (record { records = []; after_ordinal = none })
      >>= check_evidence store archive replay archive_id

unfoldable pub export_investigation_bundle_json :
    InvestigationStore → ℕ → ℤ → Result ExportException Bytes
unfolding check_bundle render
export_investigation_bundle_json store rounds archive_id =
    check_bundle store rounds archive_id >>= render
