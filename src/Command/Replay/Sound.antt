-- ===== src/Command/Replay/Sound.antt =====
-- cpp/src/command/command_evidence_replay.cpp: what a replay that verified has found.
use tickline.Base.{
  ℕ, ◌+◌, ◌-◌, ◌%◌, ◌^◌, ◌≤◌, ◌==◌, ==_iff, ltb, ltb→le, Bool-cases, true, Option, some, none, ◌≡◌,
  ◌≢◌, inl, inr, refl, sym, ◌∙◌, ap, subst, length, Exception, ok, ok-injective, first_step,
}
use tickline.Simulation.Canonical.{fingerprint_world_state}
use tickline.Simulation.World.{World, current_tick, pending_command_count}
use tickline.Command.Evidence.{CommandEvidenceRecord}
use tickline.Command.Pipeline.{Submitted, submit}
use tickline.Command.Replay.{
  CommandEvidenceReplayCode, CommandEvidenceReplayPolicy, CommandEvidenceReplayResult, ReplayState,
  Round, continued, returned, observed_tick_regression, tick_advance_limit_exceeded,
  simulation_advance_failed, session_state_mismatch, pending_command_count_mismatch,
  world_state_mismatch, submission_record_mismatch, verified, advance_steps, record_at, is_record,
  is_caught, stop, make_result, check_submission, check_state, after_steps, replay_record,
}
use tickline.Command.Replay.Same.{same_record-eq}

pub make_result-code :
    (code : CommandEvidenceReplayCode) (processed : ℕ) (failed : Option ℕ) (s : ReplayState)
    (result : CommandEvidenceReplayResult)
    → make_result code processed failed s ≡ ok result
    → (result.code ≡ code)
      × (result.processed_records ≡ processed)
      × (result.performed_tick_advances ≡ s.performed_tick_advances)
      × (result.replayed_head_digest ≡ s.evidence.head_digest)
unfolding make_result
make_result-code code processed failed s result e =
    let (f, _, made) = first_step (fingerprint_world_state s.world) _ e in
    let same = sym (ok-injective made) in
    (
      ap (λ (r : CommandEvidenceReplayResult). r.code) same,
      ap (λ (r : CommandEvidenceReplayResult). r.processed_records) same,
      ap (λ (r : CommandEvidenceReplayResult). r.performed_tick_advances) same,
      ap (λ (r : CommandEvidenceReplayResult). r.replayed_head_digest) same,
    )

abbrev pub budget : CommandEvidenceReplayPolicy → ReplayState → ℕ
budget policy s = (policy.maximum_tick_advances + 2 ^ 64 - s.performed_tick_advances) % 2 ^ 64

module _ (policy : CommandEvidenceReplayPolicy) (max_size index : ℕ)
    (r : CommandEvidenceRecord) where
  -- What a comparison and a submission from `s` came to.
  abbrev pub Went : ReplayState → Round → Type 0
  Went s (returned result) = result.code ≢ verified
  Went s (continued s') =
      (submitted : Submitted) × (submit max_size s.evidence s.session s.world r.entry.envelope
        ≡ ok submitted)
      × (s' ≡ record {
        session = submitted.session;
        world = submitted.world;
        evidence = submitted.evidence;
        performed_tick_advances = s.performed_tick_advances;
      })
      × (length submitted.evidence.records ≡ index + 1)
      × (record_at submitted.evidence.records index ≡ some r)

  -- A whole round, its ticks included.
  abbrev pub Passed : ReplayState → Round → Type 0
  Passed s (returned result) = result.code ≢ verified
  Passed s (continued s') =
      (k : ℕ) × (w : World) × (k ≤ budget policy s)
      × (advance_steps k s.world ≡ (w, none))
      × Went
          (record s {
            world = w;
            performed_tick_advances = (s.performed_tick_advances + k) % 2 ^ 64;
          })
          (continued s')

  stop-Went :
      (code : CommandEvidenceReplayCode) (s0 s : ReplayState) (round : Round)
      → code ≢ verified
      → stop code index r s0 ≡ ok round
      → Went s round
  stop-Went code s0 s round ne e =
      let (result, e1, e2) = first_step (make_result code index (some r.ordinal) s0) _ e in
      let same = (make_result-code code index (some r.ordinal) s0 result e1).0 in
      let found : Went s (returned result) = λ v. ne (sym same ∙ v) in
      subst (Went s) (ok-injective e2) found

  is_record-eq : (o : Option CommandEvidenceRecord) → is_record r o ≡ true → o ≡ some r
  is_record-eq none e = cc
  is_record-eq (some x) e = ap some (same_record-eq x r e)

  check_submission-Went :
      (s : ReplayState) (submitted : Submitted) (round : Round)
      → submit max_size s.evidence s.session s.world r.entry.envelope ≡ ok submitted
      → check_submission max_size index r s submitted ≡ ok round
      → Went s round
  unfolding check_submission
  check_submission-Went s submitted round e c =
      let records = submitted.evidence.records in
      elim (Bool-cases (length records == index + 1)) [
        | inr t ↦ stop-Went submission_record_mismatch _ s round (λ p. cc) (rw t at c)
        | inl t ↦ elim (Bool-cases (is_record r (record_at records index))) [
          | inr m ↦ stop-Went submission_record_mismatch _ s round (λ p. cc) (rw (t, m) at c)
          | inl m ↦
              let found : Went s (continued _) =
                (submitted, e, refl, (==_iff _ _).0 t, is_record-eq _ m) in
              subst (Went s) (ok-injective (rw (t, m) at c)) found
        ]
      ]

  check_state-Went :
      (s : ReplayState) (round : Round) → check_state max_size index r s ≡ ok round → Went s round
  unfolding check_state pending_command_count
  check_state-Went s round c =
      let sequences = s.session.highest_accepted_sequence == r.entry.session_sequence_before in
      let counts = length s.world.pending_commands == r.entry.pending_commands_before in
      elim (Bool-cases sequences) [
        | inr t1 ↦ stop-Went session_state_mismatch s s round (λ p. cc) (rw t1 at c)
        | inl t1 ↦ elim (Bool-cases counts) [
          | inr t2 ↦ stop-Went pending_command_count_mismatch s s round (λ p. cc) (rw (t1, t2) at c)
          | inl t2 ↦
              let (f, _, c1) = first_step (fingerprint_world_state s.world) _ (rw (t1, t2) at c) in
              elim (Bool-cases (f == r.entry.world_fingerprint_before)) [
                | inr t3 ↦ stop-Went world_state_mismatch s s round (λ p. cc) (rw t3 at c1)
                | inl t3 ↦
                    let (submitted, e, c2) =
                      first_step (submit max_size s.evidence s.session s.world r.entry.envelope) _
                        (rw t3 at c1) in
                    check_submission-Went s submitted round e c2
              ]
        ]
      ]

  -- A stop says the same of the whole round.
  stop-Passed :
      (code : CommandEvidenceReplayCode) (s0 s : ReplayState) (round : Round)
      → code ≢ verified
      → stop code index r s0 ≡ ok round
      → Passed s round
  stop-Passed code s0 s round ne e =
      let (result, e1, e2) = first_step (make_result code index (some r.ordinal) s0) _ e in
      let same = (make_result-code code index (some r.ordinal) s0 result e1).0 in
      let found : Passed s (returned result) = λ v. ne (sym same ∙ v) in
      subst (Passed s) (ok-injective e2) found

  Went-Passed :
      (s : ReplayState) (k : ℕ) (w : World) (round : Round)
      → k ≤ budget policy s
      → advance_steps k s.world ≡ (w, none)
      → Went
          (record s {
            world = w;
            performed_tick_advances = (s.performed_tick_advances + k) % 2 ^ 64;
          })
          round
      → Passed s round
  Went-Passed s k w (returned result) b e h = h
  Went-Passed s k w (continued s') b e h = (k, w, b, e, h)

  after_steps-Passed :
      (s : ReplayState) (k : ℕ) (stepped : World × Option Exception) (round : Round)
      → k ≤ budget policy s
      → advance_steps k s.world ≡ stepped
      → after_steps max_size index r s k stepped ≡ ok round
      → Passed s round
  unfolding after_steps
  after_steps-Passed s k (w, none) round b e c =
      Went-Passed s k w round b e (check_state-Went _ round c)
  after_steps-Passed s k (w, some x) round b e c = elim (Bool-cases (is_caught x)) [
    | inl t ↦ stop-Passed simulation_advance_failed _ s round (λ p. cc) (rw t at c)
    | inr t ↦ absurd (cc (rw t at c))
  ]

  pub replay_record-Passed :
      (s : ReplayState) (round : Round)
      → replay_record policy max_size index s r ≡ ok round
      → Passed s round
  unfolding replay_record current_tick
  replay_record-Passed s round c =
      let now = s.world.clock.tick_index in
      let required = r.entry.observed_tick - now in
      elim (Bool-cases (ltb r.entry.observed_tick now)) [
        | inl t ↦ stop-Passed observed_tick_regression s s round (λ p. cc) (rw t at c)
        | inr t ↦ elim (Bool-cases (ltb (budget policy s) required)) [
          | inl b ↦ stop-Passed tick_advance_limit_exceeded s s round (λ p. cc) (rw (t, b) at c)
          | inr b ↦ after_steps-Passed s required _ round (ltb→le _ _ b) refl (rw (t, b) at c)
        ]
      ]
