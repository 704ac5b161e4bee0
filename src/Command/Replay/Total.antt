-- ===== src/Command/Replay/Total.antt =====
-- cpp/src/command/command_evidence_replay.cpp: replays that return.
use tickline.Base.{
  ℕ, zero, suc, ◌+◌, ◌-◌, ◌≤◌, ◌==◌, ltb, Bool-cases, true, Option, some, none, ◌≡◌, inl, inr, refl,
  ◌∙◌, ap, List, [], ◌∷◌, length, length-append, Result, Result-cases, bind_ok, Exception, ok,
  ◌>>=◌, arith,
}
use tickline.Base.Words.{u64_max}
use tickline.Security.Sha256.{Sha256Digest}
use tickline.Simulation.Canonical.{fingerprint_world_state}
use tickline.Simulation.World.{World, current_tick, pending_command_count}
use tickline.Simulation.Advance.{advance}
use tickline.Command.Envelope.{CommandEnvelope}
use tickline.Command.Session.{CommandSession}
use tickline.Command.Session.Laws.{IsOpen}
use tickline.Command.Evidence.{CommandEvidenceRecord}
use tickline.Command.Evidence.Chain.{empty_log, verify, verify_command_evidence_chain}
use tickline.Command.Evidence.Chain.Growth.{empty_log-verify}
use tickline.Command.Pipeline.{Submitted, submit}
use tickline.Command.Pipeline.Outcome.{IsCountable, before}
use tickline.Command.Pipeline.Continuity.{submit-Continues}
use tickline.Command.Pipeline.Recorded.{submit-IsRecorded}
use tickline.Command.Replay.{
  CommandEvidenceReplayCode, CommandEvidenceReplayPolicy, CommandEvidenceReplayResult, ReplayState,
  Round, continued, returned, chain_verification_failed, verified, observed_tick_regression,
  tick_advance_limit_exceeded, simulation_advance_failed, session_state_mismatch,
  pending_command_count_mismatch, world_state_mismatch, submission_record_mismatch, advance_steps,
  record_at, is_record, is_caught, stop, make_result, check_submission, check_state, after_steps,
  replay_record, replay_records, replay, next_round,
}
use tickline.Command.Replay.Sound.{budget}
use tickline.Command.Replay.Counted.{
  IsCounted, IsCounted-fingerprint, advance-IsCounted, IsRecorded-IsCounted, IsRecorded-pending,
  advance-length,
}

-- A state of the replay with room for `left` more submissions.
pub record IsReady (max_size left : ℕ) (s : ReplayState) : Type 0 where
  pub world : IsCounted s.world
  pub session : IsOpen s.session
  pub verified_log : verify s.evidence ≡ true
  pub room : length s.evidence.records + left ≤ max_size
  pub ordinals : length s.evidence.records + left ≤ u64_max
  pub pending : length s.world.pending_commands + left ≤ u64_max

make_result_total :
    (code : CommandEvidenceReplayCode) (processed : ℕ) (failed : Option ℕ) (s : ReplayState)
    → IsCounted s.world
    → (result : CommandEvidenceReplayResult) × (make_result code processed failed s ≡ ok result)
unfolding make_result
make_result_total code processed failed s k =
    let (f, ef) = IsCounted-fingerprint s.world k in
    (_, bind_ok (fingerprint_world_state s.world) _ f ef refl)

-- After any ticks, all of them or those before one that failed, the world is counted, and no command
-- was added.
advance_steps-IsCounted :
    (k : ℕ) (w : World)
    → IsCounted w
    → IsCounted (advance_steps k w).0
      × (length (advance_steps k w).0.pending_commands ≤ length w.pending_commands)
unfolding advance_steps
advance_steps-IsCounted zero w h = (h, omega arith)
advance_steps-IsCounted (suc k) w h = elim (Result-cases (advance w)) [
  | inr (thrown, e) ↦ rw e (h, omega arith)
  | inl ((t, w1), e) ↦
      let (h1, _) = advance-IsCounted w w1 t h e in
      let (h2, fewer) = advance_steps-IsCounted k w1 h1 in
      rw e (h2, omega (arith, fewer, advance-length w w1 t e))
]

module _ (max_size left : ℕ) where
  -- A submission from a ready state returns, and takes one place.
  submit-IsReady :
      (s : ReplayState) (c : CommandEnvelope)
      → IsReady max_size (suc left) s
      → (r : Submitted) × (submit max_size s.evidence s.session s.world c ≡ ok r)
        × IsReady max_size left (record {
          session = r.session;
          world = r.world;
          evidence = r.evidence;
          performed_tick_advances = s.performed_tick_advances;
        })
  submit-IsReady s c h =
      let k : IsCountable max_size s.evidence s.world = record {
        records = omega (arith, h.ordinals);
        room = λ e. omega (arith, h.room);
        entities = h.world.entities;
        pending = omega (arith, h.pending);
      } in
      let (r, e, next) =
        submit-Continues max_size s.evidence s.session s.world c h.world.valid h.session k
          h.verified_log in
      let (f, _, _, recorded) = submit-IsRecorded max_size s.evidence s.session s.world c r e in
      let b = before max_size s.evidence s.session s.world c f in
      let (_, grown, _) = next.recorded in
      let longer = ap length grown ∙ length-append s.evidence.records (_ ∷ []) in
      let fewer = IsRecorded-pending b s.world s.evidence c r h.world recorded in
      (
        r,
        e,
        record {
          world = IsRecorded-IsCounted b s.world s.evidence c r h.world recorded;
          session = next.session;
          verified_log = next.verified;
          room = omega (arith, longer, h.room);
          ordinals = omega (arith, longer, h.ordinals);
          pending = omega (arith, fewer, h.pending);
        },
      )

module _ (max_size left index : ℕ) (r : CommandEvidenceRecord) where
  -- A round that returned a result, or left a ready state.
  abbrev Onward : Round → Type 0
  Onward (returned _) = Unit {0}
  Onward (continued s) = IsReady max_size left s

  abbrev Ends : Result Exception Round → Type 0
  Ends m = (round : Round) × (m ≡ ok round) × Onward round

  stop_total :
      (code : CommandEvidenceReplayCode) (s : ReplayState)
      → IsCounted s.world
      → Ends (stop code index r s)
  stop_total code s h =
      let (result, e) = make_result_total code index (some r.ordinal) s h in
      (returned result, bind_ok (make_result code index (some r.ordinal) s) _ result e refl, tt)

  check_submission_total :
      (s : ReplayState) (submitted : Submitted)
      → IsReady max_size left (record {
        session = submitted.session;
        world = submitted.world;
        evidence = submitted.evidence;
        performed_tick_advances = s.performed_tick_advances;
      })
      → Ends (check_submission max_size index r s submitted)
  unfolding check_submission
  check_submission_total s submitted h =
      let records = submitted.evidence.records in
      elim (Bool-cases (length records == index + 1)) [
        | inr t ↦ rw t (stop_total submission_record_mismatch _ h.world)
        | inl t ↦ elim (Bool-cases (is_record r (record_at records index))) [
          | inr m ↦ rw (t, m) (stop_total submission_record_mismatch _ h.world)
          | inl m ↦ rw (t, m) (continued _, refl, h)
        ]
      ]

  check_state_total :
      (s : ReplayState) → IsReady max_size (suc left) s → Ends (check_state max_size index r s)
  unfolding check_state pending_command_count
  check_state_total s h =
      let sequences = s.session.highest_accepted_sequence == r.entry.session_sequence_before in
      let counts = length s.world.pending_commands == r.entry.pending_commands_before in
      let (f, ef) = IsCounted-fingerprint s.world h.world in
      elim (Bool-cases sequences) [
        | inr t1 ↦ rw t1 (stop_total session_state_mismatch s h.world)
        | inl t1 ↦ elim (Bool-cases counts) [
          | inr t2 ↦ rw (t1, t2) (stop_total pending_command_count_mismatch s h.world)
          | inl t2 ↦ elim (Bool-cases (f == r.entry.world_fingerprint_before)) [
            | inr t3 ↦ rw (t1, t2, ef, t3) (stop_total world_state_mismatch s h.world)
            | inl t3 ↦
                let (submitted, e, ready) = submit-IsReady max_size left s r.entry.envelope h in
                rw (t1, t2, ef, t3, e) (check_submission_total s submitted ready)
          ]
        ]
      ]

  is_caught_all : (e : Exception) → is_caught e ≡ true
  is_caught_all Exception.overflow_error = refl
  is_caught_all _ = refl

  after_steps_total :
      (s : ReplayState) (k : ℕ) (stepped : World × Option Exception)
      → IsReady max_size (suc left) s
      → IsCounted stepped.0
      → length stepped.0.pending_commands ≤ length s.world.pending_commands
      → Ends (after_steps max_size index r s k stepped)
  unfolding after_steps
  after_steps_total s k (w, none) h c fewer = check_state_total _ (record {
    world = c;
    session = h.session;
    verified_log = h.verified_log;
    room = h.room;
    ordinals = h.ordinals;
    pending = omega (arith, h.pending, fewer);
  })
  after_steps_total s k (w, some e) h c fewer =
      rw (is_caught_all e) (stop_total simulation_advance_failed _ c)

  replay_record_total :
      (policy : CommandEvidenceReplayPolicy) (s : ReplayState)
      → IsReady max_size (suc left) s
      → Ends (replay_record policy max_size index s r)
  unfolding replay_record current_tick
  replay_record_total policy s h =
      let now = s.world.clock.tick_index in
      let required = r.entry.observed_tick - now in
      let (c, fewer) = advance_steps-IsCounted required s.world h.world in
      elim (Bool-cases (ltb r.entry.observed_tick now)) [
        | inl t ↦ rw t (stop_total observed_tick_regression s h.world)
        | inr t ↦ elim (Bool-cases (ltb (budget policy s) required)) [
          | inl b ↦ rw (t, b) (stop_total tick_advance_limit_exceeded s h.world)
          | inr b ↦
              rw (t, b) (after_steps_total s required (advance_steps required s.world) h c fewer)
        ]
      ]

module _ (policy : CommandEvidenceReplayPolicy) (max_size : ℕ) where
  -- A round that ends, in front of rounds that return.
  after_round :
      (r : CommandEvidenceRecord) (rs : List CommandEvidenceRecord) (index : ℕ) (s : ReplayState)
      → Ends max_size (length rs) index r (replay_record policy max_size index s r)
      → ((s' : ReplayState)
          → IsReady max_size (length rs) s'
          → (result : CommandEvidenceReplayResult) × (replay_records policy max_size rs
                (index + 1)
                s'
              ≡ ok result))
      → (result : CommandEvidenceReplayResult) × ((replay_record policy max_size index s r
            >>= next_round (replay_records policy max_size rs (index + 1)))
          ≡ ok result)
  after_round r rs index s (returned result, e, _) ih = (result, bind_ok _ _ _ e refl)
  after_round r rs index s (continued s', e, ready) ih =
      let (result, e2) = ih s' ready in (result, bind_ok _ _ _ e e2)

  replay_records_total :
      (rs : List CommandEvidenceRecord) (index : ℕ) (s : ReplayState)
      → IsReady max_size (length rs) s
      → (result : CommandEvidenceReplayResult) × (replay_records policy max_size rs index s
          ≡ ok result)
  unfolding replay_records
  replay_records_total [] index s h = make_result_total verified index none s h.world
  replay_records_total (r ∷ rs) index s h =
      after_round r rs index s (replay_record_total max_size (length rs) index r policy s h)
        (replay_records_total rs (index + 1))

  -- A replay from a valid world and an open session never throws, whatever the records, the head and
  -- the policy: it returns a result, where the vector of records has room for as many records as it
  -- is given, and 64 bits count these, the entities, and the commands with one more for each record.
  pub replay_total :
      (s : CommandSession) (w : World) (records : List CommandEvidenceRecord)
      (trusted_head : Sha256Digest)
      → IsCounted w
      → IsOpen s
      → length records ≤ max_size
      → length w.pending_commands + length records ≤ u64_max
      → (result : CommandEvidenceReplayResult) × (replay policy max_size s w records trusted_head
          ≡ ok result)
  unfolding replay
  replay_total s w records trusted_head counted open_session room pending =
      let start : ReplayState = record {
        session = s;
        world = w;
        evidence = empty_log;
        performed_tick_advances = 0;
      } in
      let ready : IsReady max_size (length records) start = record {
        world = counted;
        session = open_session;
        verified_log = empty_log-verify;
        room = omega (arith, room);
        ordinals = omega (arith, pending);
        pending = omega (arith, pending);
      } in
      elim (Bool-cases (verify_command_evidence_chain records trusted_head)) [
        | inr t ↦ rw t (make_result_total chain_verification_failed 0 none start counted)
        | inl t ↦ rw t (replay_records_total records 0 start ready)
      ]
