-- ===== src/Command/Replay/Verified.antt =====
-- cpp/src/command/command_evidence_replay.cpp: replays and runs.
use tickline.Base.{
  ℕ, ◌+◌, ◌%◌, ◌^◌, ◌≤◌, Bool-cases, some, none, ◌≡◌, inl, inr, refl, sym, ◌∙◌, ap, subst, List, [],
  ◌∷◌, ◌++◌, append_assoc, append-nil, length, ok, ok-injective, first_step, arith,
}
use tickline.Base.Words.{IsU64}
use tickline.Security.Sha256.{Sha256Digest}
use tickline.Simulation.World.{World}
use tickline.Command.Session.{CommandSession}
use tickline.Command.Evidence.{CommandEvidenceRecord}
use tickline.Command.Evidence.Chain.{
  CommandEvidenceLog, append, next_record, empty_log, verify, verify_command_evidence_chain,
}
use tickline.Command.Evidence.Chain.Growth.{IsChain, verify_iff, empty_log-verify}
use tickline.Command.Pipeline.{Submitted, submit}
use tickline.Command.Pipeline.Recorded.{submit-IsRecorded}
use tickline.Command.Replay.{
  CommandEvidenceReplayPolicy, CommandEvidenceReplayResult, ReplayState, Round, continued, returned,
  verified, chain_verification_failed, record_at, replay_record, replay_records, replay, next_round,
}
use tickline.Command.Replay.Run.{Run, finished, submitted, ticks-Run, Run-verify}
use tickline.Command.Replay.Complete.{record_at-append}
use tickline.Command.Replay.Same.{some_injective}
use tickline.Command.Replay.Sound.{Passed, make_result-code, replay_record-Passed}

-- A run from `s` that recorded `records`, and what a replay's result says of it.
pub record IsRunOf (max_size : ℕ) (s : ReplayState) (records : List CommandEvidenceRecord)
    (most : ℕ) (result : CommandEvidenceReplayResult) : Type 0 where
  pub last : CommandSession
  pub final : CommandEvidenceLog
  pub ticks : ℕ
  pub run : Run max_size last final s.session s.world s.evidence ticks
  pub recorded : final.records ≡ s.evidence.records ++ records
  pub head : result.replayed_head_digest ≡ final.head_digest
  pub performed : result.performed_tick_advances ≡ s.performed_tick_advances + ticks
  pub within : result.performed_tick_advances ≤ most
  pub processed : result.processed_records ≡ length final.records

module _ (policy : CommandEvidenceReplayPolicy) (u : IsU64 policy.maximum_tick_advances)
    (max_size : ℕ) where
  -- A submission that regenerated the record `r` has appended it.
  regenerated :
      (log : CommandEvidenceLog) (s : CommandSession) (w : World) (r : CommandEvidenceRecord)
      (submission : Submitted)
      → submit max_size log s w r.entry.envelope ≡ ok submission
      → record_at submission.evidence.records (length log.records) ≡ some r
      → submission.evidence.records ≡ log.records ++ (r ∷ [])
  unfolding append
  regenerated log s w r submission e at_index =
      let (f, _, _, h) = submit-IsRecorded max_size log s w r.entry.envelope submission e in
      let made = next_record h.entry log in
      let records = ap (λ (l : CommandEvidenceLog). l.records) h.appended in
      let same : some made ≡ some r =
        sym (record_at-append log.records made)
        ∙ ap (λ rs. record_at rs (length log.records)) (sym records)
        ∙ at_index in
      records
      ∙ ap (λ (x : CommandEvidenceRecord). log.records ++ (x ∷ [])) (some_injective made r same)

  -- A round that the loop went on from, in front of the run of the rounds behind it.
  after_round :
      (r : CommandEvidenceRecord) (rs : List CommandEvidenceRecord) (index : ℕ) (s : ReplayState)
      (result : CommandEvidenceReplayResult) (round : Round)
      → Passed policy max_size index r s round
      → result.code ≡ verified
      → index ≡ length s.evidence.records
      → s.performed_tick_advances ≤ policy.maximum_tick_advances
      → ((s' : ReplayState) (result : CommandEvidenceReplayResult)
          → replay_records policy max_size rs (index + 1) s' ≡ ok result
          → result.code ≡ verified
          → index + 1 ≡ length s'.evidence.records
          → s'.performed_tick_advances ≤ policy.maximum_tick_advances
          → IsRunOf max_size s' rs policy.maximum_tick_advances result)
      → next_round (replay_records policy max_size rs (index + 1)) round ≡ ok result
      → IsRunOf max_size s (r ∷ rs) policy.maximum_tick_advances result
  after_round r rs index s result (returned x) p v i b ih e =
      absurd (p (ap (λ (y : CommandEvidenceReplayResult). y.code) (ok-injective e) ∙ v))
  after_round r rs index s result (continued s') (k, w, most, steps, (sub, e, same, len, got)) v i b
        ih rest =
      let total : (s.performed_tick_advances + k) % 2 ^ 64 ≡ s.performed_tick_advances + k =
        omega arith in
      let h = ih _ result (rw same at rest) v (sym len) (omega arith) in
      record {
        last = h.last;
        final = h.final;
        ticks = k + h.ticks;
        run =
            ticks-Run max_size h.last h.final k s.session s.world w s.evidence h.ticks steps
              (submitted s.session w s.evidence h.ticks r.entry.envelope sub e h.run);
        recorded =
            h.recorded
            ∙ ap (λ xs. xs ++ rs)
                (regenerated s.evidence s.session w r sub e
                  (subst (λ (j : ℕ). record_at sub.evidence.records j ≡ some r) i got))
            ∙ append_assoc s.evidence.records (r ∷ []) rs;
        head = h.head;
        performed = omega (arith, h.performed, total);
        within = h.within;
        processed = h.processed;
      }

  run_of :
      (rs : List CommandEvidenceRecord) (index : ℕ) (s : ReplayState)
      (result : CommandEvidenceReplayResult)
      → replay_records policy max_size rs index s ≡ ok result
      → result.code ≡ verified
      → index ≡ length s.evidence.records
      → s.performed_tick_advances ≤ policy.maximum_tick_advances
      → IsRunOf max_size s rs policy.maximum_tick_advances result
  unfolding replay_records
  run_of [] index s result e v i b =
      let (_, processed, performed, head) = make_result-code verified index none s result e in
      record {
        last = s.session;
        final = s.evidence;
        ticks = 0;
        run = finished s.session s.world s.evidence refl refl;
        recorded = sym (append-nil s.evidence.records);
        head = head;
        performed = omega (arith, performed);
        within = omega (arith, performed);
        processed = processed ∙ i;
      }
  run_of (r ∷ rs) index s result e v i b =
      let (round, e1, e2) = first_step (replay_record policy max_size index s r) _ e in
      after_round r rs index s result round
        (replay_record-Passed policy max_size index r s round e1) v i b (run_of rs (index + 1)) e2

IsChain-head :
    (index : ℕ) (previous : Sha256Digest) (rs : List CommandEvidenceRecord) (a b : Sha256Digest)
    → IsChain index previous rs a
    → IsChain index previous rs b
    → a ≡ b
unfolding IsChain
IsChain-head index previous [] a b x y = sym x ∙ y
IsChain-head index previous (r ∷ rs) a b (_, x) (_, y) = IsChain-head (index + 1) _ rs a b x y

-- A replay with a 64-bit maximum that reports `verified` has found a run of ticks and submissions,
-- from the session and the world that it was given and the empty log, which recorded exactly these
-- records, with the trusted head for its last digest. The result counts the run's ticks, which are
-- within the maximum, and all records, and holds the trusted head.
pub replay-IsRunOf :
    (policy : CommandEvidenceReplayPolicy) (max_size : ℕ) (s : CommandSession) (w : World)
    (records : List CommandEvidenceRecord) (trusted_head : Sha256Digest)
    (result : CommandEvidenceReplayResult)
    → IsU64 policy.maximum_tick_advances
    → replay policy max_size s w records trusted_head ≡ ok result
    → result.code ≡ verified
    → (found : IsRunOf max_size
        (record { session = s; world = w; evidence = empty_log; performed_tick_advances = 0 })
        records
        policy.maximum_tick_advances
        result)
      × (found.final.head_digest ≡ trusted_head)
unfolding replay verify
replay-IsRunOf policy max_size s w records trusted_head result u e v =
    let start : ReplayState = record {
      session = s;
      world = w;
      evidence = empty_log;
      performed_tick_advances = 0;
    } in
    elim (Bool-cases (verify_command_evidence_chain records trusted_head)) [
      | inr t ↦
          let code =
            (make_result-code chain_verification_failed 0 none start result (rw t at e)).0 in
          absurd (cc (code, v))
      | inl t ↦
          let found =
            run_of policy u max_size records 0 start result (rw t at e) v refl (omega arith) in
          let verifies =
            Run-verify max_size found.last found.final s w empty_log found.ticks found.run
              empty_log-verify in
          (
            found,
            IsChain-head 0 _ records _ _
                ((verify_iff records found.final.head_digest).0 (rw found.recorded at verifies))
                ((verify_iff records trusted_head).0 t),
          )
    ]
