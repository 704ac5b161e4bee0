-- ===== src/Command/Replay/Complete.antt =====
-- cpp/src/command/command_evidence_replay.cpp: replays of the logs that runs record.
use tickline.Base.{
  ℕ, zero, suc, ◌+◌, ◌-◌, ◌%◌, ◌^◌, ◌≤◌, le→ltb, ==_refl, some, none, ◌≡◌, refl, sym, ◌∙◌, ap,
  subst, List, [], ◌∷◌, ◌++◌, append_assoc, append-nil, length, length-append, ok, arith,
}
use tickline.Base.Words.{IsU64}
use tickline.Simulation.Fingerprint.{StateFingerprint}
use tickline.Simulation.Canonical.{fingerprint_world_state}
use tickline.Simulation.World.{World, current_tick, pending_command_count}
use tickline.Command.Envelope.{CommandEnvelope}
use tickline.Command.Session.{CommandSession}
use tickline.Command.Evidence.{CommandEvidenceRecord}
use tickline.Command.Evidence.Chain.{CommandEvidenceLog, append, next_record, empty_log, verify}
use tickline.Command.Evidence.Chain.Growth.{empty_log-verify}
use tickline.Command.Pipeline.{Submitted, submit}
use tickline.Command.Pipeline.Outcome.{before}
use tickline.Command.Pipeline.Recorded.{IsRecorded, submit-IsRecorded}
use tickline.Command.Replay.{
  CommandEvidenceReplayPolicy, CommandEvidenceReplayResult, ReplayState, continued, verified,
  advance_steps, record_at, check_submission, check_state, after_steps, replay_record,
  replay_records, replay, make_result,
}
use tickline.Command.Replay.Same.{same_record_refl}
use tickline.Command.Replay.Counted.{
  IsCounted, IsCounted-fingerprint, advance-IsCounted, IsRecorded-IsCounted,
}
use tickline.Command.Replay.Run.{Run, finished, ticked, submitted, advance_steps-suc, Run-verify}

pub record_at-append :
    (rs : List CommandEvidenceRecord) (r : CommandEvidenceRecord)
    → record_at (rs ++ (r ∷ [])) (length rs) ≡ some r
record_at-append [] r = refl
record_at-append (_ ∷ rs) r = record_at-append rs r

advance_steps_zero : (w : World) → advance_steps 0 w ≡ (w, none)
unfolding advance_steps
advance_steps_zero w = refl

-- The state after a submission.
abbrev resumed : Submitted → ℕ → ReplayState
resumed r performed = record {
  session = r.session;
  world = r.world;
  evidence = r.evidence;
  performed_tick_advances = performed;
}

module _ (max_size : ℕ) (log : CommandEvidenceLog) (s : CommandSession) (w : World)
    (c : CommandEnvelope) (r : Submitted) (e : submit max_size log s w c ≡ ok r)
    (f : StateFingerprint) (ef : fingerprint_world_state w ≡ ok f)
    (h : IsRecorded (before max_size log s w c f) w log c r) where
  abbrev made : CommandEvidenceRecord
  made = next_record h.entry log

  abbrev entered : ℕ → ReplayState
  entered performed = record {
    session = s;
    world = w;
    evidence = log;
    performed_tick_advances = performed;
  }

  records-eq : r.evidence.records ≡ log.records ++ (made ∷ [])
  unfolding append
  records-eq = ap (λ (l : CommandEvidenceLog). l.records) h.appended

  length-records : length r.evidence.records ≡ length log.records + 1
  length-records = ap length records-eq ∙ length-append log.records (made ∷ [])

  check_submission-eq :
      (performed : ℕ)
      → check_submission max_size (length log.records) made (entered performed) r
        ≡ ok (continued (resumed r performed))
  unfolding check_submission
  check_submission-eq performed =
      rw
        (
          length-records,
          ==_refl (length log.records + 1),
          records-eq,
          record_at-append log.records made,
          same_record_refl made,
        )
        refl

  check_state-eq :
      (performed : ℕ)
      → check_state max_size (length log.records) made (entered performed)
        ≡ ok (continued (resumed r performed))
  unfolding check_state pending_command_count
  check_state-eq performed =
      simp
        (
          h.sequence,
          ==_refl s.highest_accepted_sequence,
          h.pending,
          ==_refl (length w.pending_commands),
          ef,
          h.fingerprint,
          ==_refl f,
          h.envelope,
          e,
        )
        (check_submission-eq performed)

  -- The round of the record that a submission made, from the world some ticks earlier.
  replay_record-eq :
      (policy : CommandEvidenceReplayPolicy) (w0 : World) (k performed : ℕ)
      → advance_steps k w0 ≡ (w, none)
      → w.clock.tick_index ≡ w0.clock.tick_index + k
      → performed + k ≤ policy.maximum_tick_advances
      → IsU64 policy.maximum_tick_advances
      → replay_record policy max_size
          (length log.records)
          (record { session = s; world = w0; evidence = log; performed_tick_advances = performed })
          made
        ≡ ok (continued (resumed r (performed + k)))
  unfolding replay_record after_steps current_tick
  replay_record-eq policy w0 k performed steps ticks bound u =
      let tick = h.tick in
      let now = w0.clock.tick_index in
      let required : h.entry.observed_tick - now ≡ k = omega arith in
      let budget = (policy.maximum_tick_advances + 2 ^ 64 - performed) % 2 ^ 64 in
      let total : (performed + k) % 2 ^ 64 ≡ performed + k = omega arith in
      rw
        (
          le→ltb h.entry.observed_tick now (omega arith),
          required,
          le→ltb budget k (omega arith),
          steps,
          total,
        )
        (check_state-eq (performed + k))

-- What a replay reports of a run from a state that had performed some ticks.
pub record IsVerdict (last : CommandSession) (final : CommandEvidenceLog) (ticks : ℕ)
    (result : CommandEvidenceReplayResult) : Type 0 where
  pub code : result.code ≡ verified
  pub processed : result.processed_records ≡ length final.records
  pub failed : result.failed_ordinal ≡ none
  pub performed : result.performed_tick_advances ≤ ticks
  pub sequence : result.final_session_sequence ≡ last.highest_accepted_sequence
  pub head : result.replayed_head_digest ≡ final.head_digest

module _ (policy : CommandEvidenceReplayPolicy) (u : IsU64 policy.maximum_tick_advances)
    (max_size : ℕ) (last : CommandSession) (final : CommandEvidenceLog) where
  -- The rest of a run, replayed from the world `w0` in which the last submission left it, `k` ticks
  -- ago.
  abbrev Replayed :
      CommandSession → World → CommandEvidenceLog → ℕ → ℕ → List CommandEvidenceRecord → Type 0
  Replayed s w0 log performed ticks rest =
      (final.records ≡ log.records ++ rest)
      × ((result : CommandEvidenceReplayResult) × (replay_records policy max_size rest
              (length log.records)
              (record {
                session = s;
                world = w0;
                evidence = log;
                performed_tick_advances = performed;
              })
            ≡ ok result)
          × IsVerdict last final ticks result)

  replay_finished :
      (s : CommandSession) (w0 : World) (log : CommandEvidenceLog) (performed ticks : ℕ)
      → s ≡ last
      → log ≡ final
      → IsCounted w0
      → performed ≤ ticks
      → Replayed s w0 log performed ticks []
  unfolding replay_records make_result current_tick pending_command_count
  replay_finished s w0 log performed ticks same_session same_log k bound =
      let (f, ef) = IsCounted-fingerprint w0 k in
      (
        ap (λ (l : CommandEvidenceLog). l.records) (sym same_log) ∙ sym (append-nil log.records),
        (
          record {
            code = verified;
            processed_records = length log.records;
            failed_ordinal = none;
            performed_tick_advances = performed;
            final_tick = w0.clock.tick_index;
            final_session_sequence = s.highest_accepted_sequence;
            final_pending_command_count = length w0.pending_commands;
            final_world_fingerprint = f;
            replayed_head_digest = log.head_digest;
          },
          rw ef refl,
          record {
            code = refl;
            processed = ap (λ (l : CommandEvidenceLog). length l.records) same_log;
            failed = refl;
            performed = bound;
            sequence = ap (λ (x : CommandSession). x.highest_accepted_sequence) same_session;
            head = ap (λ (l : CommandEvidenceLog). l.head_digest) same_log;
          },
        ),
      )

  -- A submission in front of what is replayed already.
  replay_submitted :
      (s : CommandSession) (w w0 : World) (log : CommandEvidenceLog) (c : CommandEnvelope)
      (r : Submitted) (k performed ticks : ℕ) (rest : List CommandEvidenceRecord)
      (f : StateFingerprint) (h : IsRecorded (before max_size log s w c f) w log c r)
      → submit max_size log s w c ≡ ok r
      → fingerprint_world_state w ≡ ok f
      → advance_steps k w0 ≡ (w, none)
      → w.clock.tick_index ≡ w0.clock.tick_index + k
      → performed + k ≤ policy.maximum_tick_advances
      → Replayed r.session r.world r.evidence (performed + k) ticks rest
      → Replayed s w0 log performed ticks (next_record h.entry log ∷ rest)
  unfolding replay_records
  replay_submitted s w w0 log c r k performed ticks rest f h e ef steps now bound
        (er, (result, found, verdict)) =
      let made = next_record h.entry log in
      let records = records-eq max_size log s w c r e f ef h in
      (
        er ∙ ap (λ rs. rs ++ rest) records ∙ append_assoc log.records (made ∷ []) rest,
        (
          result,
          rw
              (replay_record-eq max_size log s w c r e f ef h policy w0 k performed steps now bound
                u)
              (subst
                (λ (i : ℕ).
                  replay_records policy max_size rest i (resumed r (performed + k)) ≡ ok result)
                (length-records max_size log s w c r e f ef h) found),
          verdict,
        ),
      )

  Run-Replayed :
      (s : CommandSession) (w : World) (log : CommandEvidenceLog) (n : ℕ)
      → Run max_size last final s w log n
      → (w0 : World) (k performed : ℕ) → advance_steps k w0 ≡ (w, none)
      → w.clock.tick_index ≡ w0.clock.tick_index + k
      → IsCounted w0
      → IsCounted w
      → performed + k + n ≤ policy.maximum_tick_advances
      → (rest : List CommandEvidenceRecord) × Replayed s w0 log performed (performed + k + n) rest
  Run-Replayed s w log n (finished _ _ _ a b) w0 k performed steps ticks c0 c1 bound =
      ([], replay_finished s w0 log performed _ a b c0 (omega arith))
  Run-Replayed s w log n (ticked _ _ w' _ m t e run) w0 k performed steps ticks c0 c1 bound =
      let (c2, tick) = advance-IsCounted w w' t c1 e in
      let (rest, found) =
        Run-Replayed s w' log m run w0 (suc k) performed (advance_steps-suc k w0 w w' t steps e)
          (omega arith) c0 c2 (omega arith) in
      (rest, subst (λ (j : ℕ). Replayed s w0 log performed j rest) (omega arith) found)
  Run-Replayed s w log n (submitted _ _ _ _ c r e run) w0 k performed steps ticks c0 c1 bound =
      let (f, ef, _, h) = submit-IsRecorded max_size log s w c r e in
      let c2 = IsRecorded-IsCounted (before max_size log s w c f) w log c r c1 h in
      let (rest, found) =
        Run-Replayed r.session r.world r.evidence n run r.world zero (performed + k)
          (advance_steps_zero r.world) (omega arith) c2 c2 (omega arith) in
      (
        next_record h.entry log ∷ rest,
        replay_submitted s w w0 log c r k performed _ rest f h e ef steps ticks (omega arith) (
            subst (λ (j : ℕ). Replayed r.session r.world r.evidence (performed + k) j rest)
              (omega arith) found),
      )

-- A log that a run recorded is verified by a replay, which regenerates every record and the head.
-- The run is any sequence of ticks and submissions that returned, from a valid world whose entities
-- and commands 64 bits count, a session and the empty log; its ticks are within the policy's
-- maximum, a 64-bit number. The replay reports no failed ordinal, all records processed, no more
-- ticks than the run had and the session sequence that the run ended with.
pub replay-Run :
    (policy : CommandEvidenceReplayPolicy) (max_size : ℕ) (s last : CommandSession) (w : World)
    (final : CommandEvidenceLog) (n : ℕ)
    → IsU64 policy.maximum_tick_advances
    → IsCounted w
    → Run max_size last final s w empty_log n
    → n ≤ policy.maximum_tick_advances
    → (result : CommandEvidenceReplayResult) × (replay policy max_size s w final.records
          final.head_digest
        ≡ ok result)
      × IsVerdict last final n result
unfolding replay verify
replay-Run policy max_size s last w final n u counted run bound =
    let (rest, (er, (result, found, verdict))) =
      Run-Replayed policy u max_size last final s w empty_log n run w 0 0 (advance_steps_zero w)
        (omega arith) counted counted (omega arith) in
    let verified_chain = Run-verify max_size last final s w empty_log n run empty_log-verify in
    (
      result,
      rw (verified_chain, er) found,
      subst (λ (j : ℕ). IsVerdict last final j result) (omega arith) verdict,
    )
