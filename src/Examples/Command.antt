-- ===== src/Examples/Command.antt =====
-- Examples of the command pipeline.
use tickline.Base.{◌≡◌, ◌≢◌, refl, ◌⊎◌, ◌↔◌, [], ◌∷◌, ◌++◌, true, ok, arith}
use tickline.Security.Sha256.{zero_digest}
use tickline.Simulation.Fingerprint.{StateFingerprint}
use tickline.Simulation.Canonical.{fingerprint_world_state}
use tickline.Command.Validator.{CommandRejectionCode, none, default_policy, validate, check_command}
use tickline.Command.Validator.Laws.{IsAcceptable, IsGuarded, validate_iff}
use tickline.Command.Session.{command_session, context_of, evaluate, translate}
use tickline.Command.Session.Laws.{IsAdmitted, accepted_result, rejected_result, evaluate_cases}
use tickline.Command.Evidence.{CommandEvidenceEntry, CommandEvidenceRecord, CommandQueueOutcome}
use tickline.Command.Evidence.Chain.{
  empty_log, verify, append, next_record, verify_command_evidence_chain,
}
use tickline.Command.Evidence.Chain.Growth.{IsChain, verify_iff, append-verify}
use tickline.Command.Pipeline.{CommandSubmissionResult, Submitted, submit}
use tickline.Command.Pipeline.Outcome.{IsTaken, IsExplained, taken, refused, submit_cases}
use tickline.Command.Pipeline.Continuity.{Continues, submit-Continues}
use tickline.Command.Evidence.Codec.{
  encode_command_evidence, digest_command_evidence, rejection_value,
}
use tickline.Command.Evidence.Decode.{decode_command_evidence, validate_record_invariants}
use tickline.Command.Evidence.RoundTrip.{IsRecord, decode-encode_command_evidence}
use tickline.Command.Evidence.Chain.Integrity.{verify_unique}
use tickline.Command.Evidence.Chain.Growth.{empty_log-verify}
use tickline.Examples.Data.{
  envelope-IsEnvelope, envelope, opened, opened-IsOpen, peopled, peopled-IsValid,
  peopled-IsCountable,
}

opened-IsGuarded : IsGuarded default_policy (context_of opened 0)
opened-IsGuarded = record {
  window = omega arith;
  velocity_limit = omega arith;
  client = omega arith;
  session = omega arith;
}

validate_iff_example :
    (validate default_policy envelope (context_of opened 0)
      ≡ ok (check_command default_policy envelope (context_of opened 0)))
    × ((validate default_policy envelope (context_of opened 0) ≡ ok none)
        ↔ IsAcceptable default_policy envelope (context_of opened 0))
validate_iff_example = validate_iff default_policy envelope (context_of opened 0) opened-IsGuarded

evaluate_cases_example :
    (IsAdmitted opened envelope 0
      × (evaluate opened envelope 0 ≡ ok (accepted_result (translate envelope))))
    ⊎ ((¬ IsAdmitted opened envelope 0)
        × ((code : CommandRejectionCode) × (code ≢ none)
            × (evaluate opened envelope 0 ≡ ok (rejected_result code))))
evaluate_cases_example = evaluate_cases opened envelope 0 opened-IsOpen

opened-made : command_session 3 4 default_policy ≡ ok opened
unfolding command_session
opened-made = refl

abbrev pub entry : CommandEvidenceEntry
entry = record {
  world_fingerprint_before = 12;
  observed_tick = 0;
  envelope = envelope;
  session_sequence_before = 0;
  session_sequence_after = 1;
  pending_commands_before = 0;
  pending_commands_after = 1;
  rejection_code = none;
  queue_outcome = CommandQueueOutcome.accepted;
}

abbrev pub only_record : CommandEvidenceRecord
only_record = record { ordinal = 0; previous_record_digest = zero_digest; entry = entry }

verify_iff_example :
    (verify_command_evidence_chain (only_record ∷ []) zero_digest ≡ true)
    ↔ IsChain 0 zero_digest (only_record ∷ []) zero_digest
verify_iff_example = verify_iff (only_record ∷ []) zero_digest

append-verify_example :
    (verify (append entry empty_log) ≡ true)
    × ((append entry empty_log).records ≡ empty_log.records ++ (next_record entry empty_log ∷ []))
append-verify_example = append-verify entry empty_log empty_log-verify (omega arith)

submit_cases_example :
    (f : StateFingerprint) × (fingerprint_world_state peopled ≡ ok f)
    × ((IsTaken 1_000 empty_log opened peopled envelope
          × (submit 1_000 empty_log opened peopled envelope
              ≡ ok (taken 1_000 empty_log opened peopled envelope f)))
        ⊎ ((¬ IsTaken 1_000 empty_log opened peopled envelope)
            × ((r : CommandSubmissionResult) × (outcome : CommandQueueOutcome) × (r.code ≢ none)
                × IsExplained 1_000 empty_log opened peopled envelope r outcome
                × (submit 1_000 empty_log opened peopled envelope
                    ≡ ok (refused 1_000 empty_log opened peopled envelope f r outcome)))))
submit_cases_example =
    submit_cases 1_000 empty_log opened peopled envelope peopled-IsValid opened-IsOpen
      peopled-IsCountable

submit-Continues_example :
    (r : Submitted) × (submit 1_000 empty_log opened peopled envelope ≡ ok r)
    × Continues opened empty_log r
submit-Continues_example =
    submit-Continues 1_000 empty_log opened peopled envelope peopled-IsValid opened-IsOpen
      peopled-IsCountable empty_log-verify

pub only_record-IsRecord : IsRecord only_record
unfolding validate_record_invariants rejection_value
only_record-IsRecord = record {
  ordinal = omega arith;
  digest = refl;
  fingerprint = omega arith;
  tick = omega arith;
  envelope = envelope-IsEnvelope;
  sequences = omega arith;
  pending = omega arith;
  consistent = refl;
}

decode-encode_command_evidence_example :
    decode_command_evidence (encode_command_evidence only_record) ≡ ok only_record
decode-encode_command_evidence_example =
    decode-encode_command_evidence only_record only_record-IsRecord

pub only_record_verifies :
    verify_command_evidence_chain (only_record ∷ []) (digest_command_evidence only_record) ≡ true
unfolding IsChain
only_record_verifies =
    (verify_iff (only_record ∷ []) (digest_command_evidence only_record)).1
      (record { counted = omega arith; ordinal = refl; previous_digest = refl }, refl)

verify_unique_example : (only_record ∷ []) ≡ (only_record ∷ [])
verify_unique_example =
    verify_unique (only_record ∷ []) (only_record ∷ []) (digest_command_evidence only_record) refl
      (λ _. refl, tt) only_record_verifies only_record_verifies
