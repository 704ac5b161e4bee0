-- ===== src/Command/Pipeline/Continuity.antt =====
-- cpp/src/command/authoritative_command_pipeline.cpp: what holds from one submission to the next.
use tickline.Base.{
  ℕ, ◌+◌, ◌<◌, ◌≤◌, ==_refl, ==_ne, lt→leb, true, ◌≡◌, ◌≢◌, inl, inr, refl, [], ◌∷◌, ◌++◌, length,
  ok, arith,
}
use tickline.Base.Words.{u64_max}
use tickline.Simulation.Fingerprint.{StateFingerprint}
use tickline.Simulation.World.{World, QueueCommandResult}
use tickline.Simulation.Validity.{IsValid}
use tickline.Simulation.Validity.Queueing.{with_command-IsValid}
use tickline.Command.Envelope.{CommandEnvelope}
use tickline.Command.Validator.{CommandRejectionCode, none}
use tickline.Command.Session.{CommandSession, commit_accepted_sequence, translate}
use tickline.Command.Session.Laws.{IsOpen}
use tickline.Command.Evidence.{CommandEvidenceEntry, CommandQueueOutcome}
use tickline.Command.Evidence.Codec.{rejection_value}
use tickline.Command.Evidence.Chain.{CommandEvidenceLog, append, verify, next_record}
use tickline.Command.Evidence.Chain.Growth.{append-verify}
use tickline.Command.Evidence.Decode.{validate_record_invariants}
use tickline.Command.Pipeline.{CommandSubmissionResult, Submitted, Observed, evidence_entry, submit}
use tickline.Command.Pipeline.Outcome.{
  IsCountable, submit_cases, IsTaken, taken, refused, before, IsExplained, IsRefusal, of_stale_tick,
  of_unknown_entity, of_sequence_not_increasing, of_target_tick_regression,
  of_velocity_out_of_range, not_none,
}

-- What a submission leaves for the next one.
pub record Continues (s : CommandSession) (log : CommandEvidenceLog) (r : Submitted) : Type 0 where
  pub world : IsValid r.world
  pub session : IsOpen r.session
  pub sequence : s.highest_accepted_sequence ≤ r.session.highest_accepted_sequence
  pub accepts :
      r.result.code ≡ none → s.highest_accepted_sequence < r.session.highest_accepted_sequence
  pub verified : verify r.evidence ≡ true
  pub recorded :
      (e : CommandEvidenceEntry) × (r.evidence.records ≡ log.records ++ (next_record e log ∷ []))
      × (validate_record_invariants e ≡ ok tt)

accepted-validates :
    (b : Observed) (c : CommandEnvelope) (s : CommandSession)
    → s.highest_accepted_sequence ≡ c.sequence
    → b.session_sequence < c.sequence
    → b.pending < u64_max
    → validate_record_invariants
        (evidence_entry b c s (b.pending + 1) none CommandQueueOutcome.accepted)
      ≡ ok tt
unfolding validate_record_invariants rejection_value
accepted-validates b c s e lt room = rw (
  e,
  ==_refl c.sequence,
  lt→leb b.session_sequence c.sequence lt,
  ==_ne b.pending u64_max (λ z. omega arith),
  ==_refl (b.pending + 1),
)

refused-validates :
    (b : Observed) (c : CommandEnvelope) (s : CommandSession) (code : CommandRejectionCode)
    → s.highest_accepted_sequence ≡ b.session_sequence
    → code ≢ none
    → validate_record_invariants
        (evidence_entry b c s b.pending code CommandQueueOutcome.not_attempted)
      ≡ ok tt
unfolding validate_record_invariants
refused-validates b c s code e ne =
    rw (not_none code ne, e, ==_refl b.session_sequence, ==_refl b.pending)

unqueued-validates :
    {q : QueueCommandResult} {code : CommandRejectionCode} {outcome : CommandQueueOutcome}
    (b : Observed) (c : CommandEnvelope) (s : CommandSession)
    → IsRefusal q code outcome
    → s.highest_accepted_sequence ≡ b.session_sequence
    → validate_record_invariants (evidence_entry b c s b.pending code outcome) ≡ ok tt
unfolding validate_record_invariants rejection_value
unqueued-validates b c s of_stale_tick e = rw (e, ==_refl b.session_sequence, ==_refl b.pending)
unqueued-validates b c s of_unknown_entity e = rw (e, ==_refl b.session_sequence, ==_refl b.pending)
unqueued-validates b c s of_sequence_not_increasing e =
    rw (e, ==_refl b.session_sequence, ==_refl b.pending)
unqueued-validates b c s of_target_tick_regression e =
    rw (e, ==_refl b.session_sequence, ==_refl b.pending)
unqueued-validates b c s of_velocity_out_of_range e =
    rw (e, ==_refl b.session_sequence, ==_refl b.pending)

module _ (max_size : ℕ) (log : CommandEvidenceLog) (s : CommandSession) (w : World)
    (c : CommandEnvelope) (v : IsValid w) (o : IsOpen s) (k : IsCountable max_size log w)
    (h : verify log ≡ true) where
  taken-Continues :
      (f : StateFingerprint)
      → IsTaken max_size log s w c
      → Continues s log (taken max_size log s w c f)
  unfolding validate_record_invariants append
  taken-Continues f t = record {
    world = with_command-IsValid w (translate c) v t.1;
    session = record {
      window = o.window;
      velocity_limit = o.velocity_limit;
      client = o.client;
      session = o.session;
    };
    sequence = omega (arith, t.0.1);
    accepts = λ _. t.0.1;
    verified = (append-verify _ log h k.records).0;
    recorded = (
      _,
      refl,
      accepted-validates (before max_size log s w c f) c (commit_accepted_sequence c.sequence s)
          refl t.0.1 k.pending,
    );
  }

  explained-validates :
      (f : StateFingerprint) (r : CommandSubmissionResult) (outcome : CommandQueueOutcome)
      → r.code ≢ none
      → IsExplained max_size log s w c r outcome
      → validate_record_invariants (
          evidence_entry
            (before max_size log s w c f)
            c
            s
            (length w.pending_commands)
            r.code
            outcome)
        ≡ ok tt
  explained-validates f r outcome ne (inl (_, _, _, e)) =
      rw e (refused-validates (before max_size log s w c f) c s r.code refl ne)
  explained-validates f r outcome ne (inr (_, (_, _, _, x))) =
      unqueued-validates (before max_size log s w c f) c s x refl

  refused-Continues :
      (f : StateFingerprint) (r : CommandSubmissionResult) (outcome : CommandQueueOutcome)
      → r.code ≢ none
      → IsExplained max_size log s w c r outcome
      → Continues s log (refused max_size log s w c f r outcome)
  unfolding append
  refused-Continues f r outcome ne x = record {
    world = v;
    session = o;
    sequence = omega arith;
    accepts = λ e. absurd (ne e);
    verified = (append-verify _ log h k.records).0;
    recorded = (_, refl, explained-validates f r outcome ne x);
  }

  -- From a valid world, an open session and a log that verifies, with counts in range, a submission
  -- returns, and leaves a valid world, an open session and a log that verifies. The session's
  -- sequence never falls, and rises if the command is accepted, so no sequence is accepted twice.
  -- The log is the old one and one record, whose entry passes the checks of the evidence decoder.
  pub submit-Continues : (r : Submitted) × (submit max_size log s w c ≡ ok r) × Continues s log r
  submit-Continues =
      let (f, _, cases) = submit_cases max_size log s w c v o k in
      elim cases [
        | inl (t, e) ↦ (taken max_size log s w c f, e, taken-Continues f t)
        | inr (_, (r, outcome, ne, x, e)) ↦
            (refused max_size log s w c f r outcome, e, refused-Continues f r outcome ne x)
      ]
