-- ===== src/Examples/Storage.antt =====
-- Examples of bundles, from a store that holds one record.
use tickline.Base.{◌≡◌, refl, some, none, [], ◌∷◌, ◌++◌, take, ok, arith}
use tickline.Base.Int.{pos}
use tickline.Base.Text.{codes}
use tickline.Base.Words.{Bytes}
use tickline.Security.Sha256.{zero_digest}
use tickline.Command.Evidence.Codec.{digest_command_evidence}
use tickline.Command.Replay.{CommandEvidenceReplayCode, CommandEvidenceReplayResult}
use tickline.Storage.Store.{
  EvidenceArchiveSummary, EvidenceSessionSummary, StoredEvidenceRecord, InvestigationStore,
}
use tickline.Storage.Json.{append_json_string}
use tickline.Storage.Json.Escape.{read_string, read_string-append_json_string}
use tickline.Storage.Bundle.{load_all_evidence}
use tickline.Storage.Bundle.Pages.{newer, IsStored, load_all_evidence-IsStored}
use tickline.Storage.Export.{Bundle, check_bundle, render, export_investigation_bundle_json}
use tickline.Storage.Export.Checks.{IsChecked, export_investigation_bundle_json-IsChecked}
use tickline.Examples.Command.{only_record}

abbrev stored : StoredEvidenceRecord
stored = record {
  archive_id = pos 1;
  record_digest = digest_command_evidence only_record;
  evidence = only_record;
}

abbrev summary : EvidenceArchiveSummary
summary = record {
  archive_id = pos 1;
  source = codes "upload";
  imported_at_utc = codes "2024-05-06 07:08:09";
  record_count = 1;
  archive_digest = zero_digest;
  trusted_head = digest_command_evidence only_record;
  chain_head = digest_command_evidence only_record;
}

abbrev session : EvidenceSessionSummary
session = record {
  client_id = 3;
  session_id = 4;
  first_ordinal = 0;
  last_ordinal = 0;
  first_observed_tick = 0;
  last_observed_tick = 0;
  accepted_count = 1;
  rejected_count = 0;
}

abbrev replayed : CommandEvidenceReplayResult
replayed = record {
  code = CommandEvidenceReplayCode.verified;
  processed_records = 1;
  failed_ordinal = none;
  performed_tick_advances = 0;
  final_tick = 0;
  final_session_sequence = 1;
  final_pending_command_count = 1;
  final_world_fingerprint = 12;
  replayed_head_digest = digest_command_evidence only_record;
}

abbrev store : InvestigationStore
store = record {
  list_archives = λ limit before. ok (elim before [ none ↦ summary ∷ [] | some _ ↦ [] ]);
  query_evidence =
      λ archive_id query. ok (take query.limit (newer query.after_ordinal (stored ∷ [])));
  list_sessions = λ archive_id. ok (session ∷ []);
  replay_result = λ archive_id. ok (some replayed);
}

read_string-append_json_string_example :
    (text : Bytes) × (append_json_string (codes "a: ") (codes "x\n\"y\"") ≡ codes "a: " ++ text)
    × (read_string (text ++ codes ",") ≡ some (codes "x\n\"y\"", codes ","))
read_string-append_json_string_example =
    read_string-append_json_string (codes "a: ") (codes "x\n\"y\"") (codes ",")

load_all_evidence-IsStored_example :
    load_all_evidence store (pos 1) 2 (record { records = []; after_ordinal = none })
    ≡ ok (stored ∷ [])
unfolding IsStored
load_all_evidence-IsStored_example =
    load_all_evidence-IsStored store (pos 1) 2 (stored ∷ []) (λ after. refl) (refl, tt)
      (omega arith)

export_investigation_bundle_json-IsChecked_example :
    ((b : Bundle)
      → check_bundle store 2 (pos 1) ≡ ok b
      → (text : Bytes) × (export_investigation_bundle_json store 2 (pos 1) ≡ ok text))
    × ((text : Bytes)
        → export_investigation_bundle_json store 2 (pos 1) ≡ ok text
        → (b : Bundle) × (check_bundle store 2 (pos 1) ≡ ok b) × IsChecked b × (render b ≡ ok text))
export_investigation_bundle_json-IsChecked_example =
    export_investigation_bundle_json-IsChecked store 2 (pos 1)
