-- ===== src/Command/Replay.antt =====
-- cpp/include/tickline/command/command_evidence_replay.hpp and
-- cpp/src/command/command_evidence_replay.cpp: the records of a log are submitted again to a copy of
-- the session and the world that they started from, and compared with what comes out.
pub mod Same
pub mod Counted
pub mod Run
pub mod Complete
pub mod Sound
pub mod Verified
pub mod Total
use tickline.Base.{
  ℕ, zero, suc, ◌+◌, ◌-◌, ◌%◌, ◌^◌, ltb, ◌==◌, not, ◌||◌, if◌then◌else◌, Bool, true, false, Option,
  none, some, List, [], ◌∷◌, length, Result, Exception, ok, err, overflow_error, logic_error,
  invalid_argument, out_of_range, length_error, ◌>>=◌,
}
use tickline.Security.Sha256.{Sha256Digest}
use tickline.Simulation.Fingerprint.{StateFingerprint}
use tickline.Simulation.Canonical.{fingerprint_world_state}
use tickline.Simulation.Clock.{Tick}
use tickline.Simulation.World.{World, current_tick, pending_command_count}
use tickline.Simulation.Advance.{advance}
use tickline.Command.Session.{CommandSession}
use tickline.Command.Evidence.{CommandEvidenceRecord}
use tickline.Command.Evidence.Chain.{CommandEvidenceLog, empty_log, verify_command_evidence_chain}
use tickline.Command.Pipeline.{Submitted, submit}
use tickline.Command.Archive.{CommandEvidenceArchive}
use tickline.Command.Replay.Same.{same_record}

pub data CommandEvidenceReplayCode : Type 0 where
  verified chain_verification_failed observed_tick_regression tick_advance_limit_exceeded
        simulation_advance_failed session_state_mismatch pending_command_count_mismatch
        world_state_mismatch submission_record_mismatch :
      CommandEvidenceReplayCode

pub record CommandEvidenceReplayPolicy : Type 0 where
  pub maximum_tick_advances : ℕ

pub record CommandEvidenceReplayResult : Type 0 where
  pub code : CommandEvidenceReplayCode
  pub processed_records : ℕ
  pub failed_ordinal : Option ℕ
  pub performed_tick_advances : ℕ
  pub final_tick : ℕ
  pub final_session_sequence : ℕ
  pub final_pending_command_count : ℕ
  pub final_world_fingerprint : StateFingerprint
  pub replayed_head_digest : Sha256Digest

-- The variables of `replay`.
pub record ReplayState : Type 0 where
  pub session : CommandSession
  pub world : World
  pub evidence : CommandEvidenceLog
  pub performed_tick_advances : ℕ

unfoldable pub make_result :
    CommandEvidenceReplayCode
    → ℕ
    → Option ℕ
    → ReplayState
    → Result Exception CommandEvidenceReplayResult
make_result code processed_records failed_ordinal s = do
  fingerprint ← fingerprint_world_state s.world
  ok (record {
    code = code;
    processed_records = processed_records;
    failed_ordinal = failed_ordinal;
    performed_tick_advances = s.performed_tick_advances;
    final_tick = (current_tick s.world).index;
    final_session_sequence = s.session.highest_accepted_sequence;
    final_pending_command_count = pending_command_count s.world;
    final_world_fingerprint = fingerprint;
    replayed_head_digest = s.evidence.head_digest;
  })

-- One round of the loop over the ticks: the world after it, or the exception that ended the loop.
abbrev pub after_advance :
    World
    → (World → World × Option Exception)
    → Result Exception (Tick × World)
    → World × Option Exception
after_advance w continue (ok (_, w')) = continue w'
after_advance w continue (err e) = (w, some e)

-- The loop over the ticks, with `steps` to go.
unfoldable pub advance_steps : ℕ → World → World × Option Exception
advance_steps zero w = (w, none)
advance_steps (suc steps) w = after_advance w (advance_steps steps) (advance w)

-- The two handlers: overflow_error, and logic_error with the classes below it.
abbrev pub is_caught : Exception → Bool
is_caught overflow_error = true
is_caught logic_error = true
is_caught invalid_argument = true
is_caught out_of_range = true
is_caught length_error = true

-- What a round of the loop over the records comes to.
pub data Round : Type 0 where
  returned : CommandEvidenceReplayResult → Round
  continued : ReplayState → Round

-- `return make_result(code, index, failed_ordinal, ...)`
abbrev pub stop :
    CommandEvidenceReplayCode → ℕ → CommandEvidenceRecord → ReplayState → Result Exception Round
stop code index expected_record s =
    make_result code index (some expected_record.ordinal) s >>= λ result. ok (returned result)

-- `generated_records[index]`
abbrev pub record_at : List CommandEvidenceRecord → ℕ → Option CommandEvidenceRecord
record_at [] index = none
record_at (r ∷ rs) zero = some r
record_at (r ∷ rs) (suc index) = record_at rs index

abbrev pub is_record : CommandEvidenceRecord → Option CommandEvidenceRecord → Bool
is_record expected_record none = false
is_record expected_record (some r) = same_record r expected_record

module _ (max_size index : ℕ) (expected_record : CommandEvidenceRecord) where
  -- The end of a round: what was submitted, against the record.
  unfoldable pub check_submission : ReplayState → Submitted → Result Exception Round
  check_submission s submitted =
      let generated_records = submitted.evidence.records in
      let s' : ReplayState = record {
        session = submitted.session;
        world = submitted.world;
        evidence = submitted.evidence;
        performed_tick_advances = s.performed_tick_advances;
      } in
      if not (length generated_records == index + 1)
        || not (is_record expected_record (record_at generated_records index))
      then stop submission_record_mismatch index expected_record s'
      else ok (continued s')

  -- The comparisons before the submission, and the submission.
  unfoldable pub check_state : ReplayState → Result Exception Round
  check_state s =
      if not (s.session.highest_accepted_sequence == expected_record.entry.session_sequence_before)
      then stop session_state_mismatch index expected_record s
      else if not (pending_command_count s.world == expected_record.entry.pending_commands_before)
      then stop pending_command_count_mismatch index expected_record s
      else do
        fingerprint ← fingerprint_world_state s.world
        if not (fingerprint == expected_record.entry.world_fingerprint_before)
            then stop world_state_mismatch index expected_record s
            else submit max_size s.evidence s.session s.world expected_record.entry.envelope
              >>= check_submission s

  -- What follows the loop over the ticks. The count of ticks has 64 bits.
  unfoldable pub after_steps : ReplayState → ℕ → World × Option Exception → Result Exception Round
  after_steps s required_advances (w, none) = check_state (record s {
    world = w;
    performed_tick_advances = (s.performed_tick_advances + required_advances) % 2 ^ 64;
  })
  after_steps s required_advances (w, some e) =
      if is_caught e
      then stop simulation_advance_failed index expected_record (record s { world = w })
      else err e

-- The body of the loop over the records. The subtraction wraps on 64 bits.
unfoldable pub replay_record :
    CommandEvidenceReplayPolicy
    → ℕ
    → ℕ
    → ReplayState
    → CommandEvidenceRecord
    → Result Exception Round
replay_record policy max_size index s expected_record =
    let current = (current_tick s.world).index in
    let required_advances = expected_record.entry.observed_tick - current in
    let remaining_budget =
      (policy.maximum_tick_advances + 2 ^ 64 - s.performed_tick_advances) % 2 ^ 64 in
    if ltb expected_record.entry.observed_tick current
    then stop observed_tick_regression index expected_record s
    else if ltb remaining_budget required_advances
    then stop tick_advance_limit_exceeded index expected_record s
    else after_steps max_size index expected_record s required_advances
        (advance_steps required_advances s.world)

abbrev pub next_round :
    (ReplayState → Result Exception CommandEvidenceReplayResult)
    → Round
    → Result Exception CommandEvidenceReplayResult
next_round continue (returned result) = ok result
next_round continue (continued s) = continue s

-- The loop over the records: those to go, and the index of the first of them.
unfoldable pub replay_records :
    CommandEvidenceReplayPolicy
    → ℕ
    → List CommandEvidenceRecord
    → ℕ
    → ReplayState
    → Result Exception CommandEvidenceReplayResult
replay_records policy max_size [] index s = make_result verified index none s
replay_records policy max_size (r ∷ rs) index s =
    replay_record policy max_size index s r
    >>= next_round (replay_records policy max_size rs (index + 1))

unfoldable pub replay :
    CommandEvidenceReplayPolicy
    → ℕ
    → CommandSession
    → World
    → List CommandEvidenceRecord
    → Sha256Digest
    → Result Exception CommandEvidenceReplayResult
replay policy max_size initial_session initial_world records trusted_head =
    let s : ReplayState = record {
      session = initial_session;
      world = initial_world;
      evidence = empty_log;
      performed_tick_advances = 0;
    } in
    if not (verify_command_evidence_chain records trusted_head)
    then make_result chain_verification_failed 0 none s
    else replay_records policy max_size records 0 s

-- The overload for an archive.
unfoldable pub replay_archive :
    CommandEvidenceReplayPolicy
    → ℕ
    → CommandSession
    → World
    → CommandEvidenceArchive
    → Result Exception CommandEvidenceReplayResult
unfolding replay
replay_archive policy max_size initial_session initial_world archive =
    replay policy max_size initial_session initial_world archive.records archive.head_digest
