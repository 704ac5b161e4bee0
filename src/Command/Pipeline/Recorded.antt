-- ===== src/Command/Pipeline/Recorded.antt =====
-- cpp/src/command/authoritative_command_pipeline.cpp: what a submission that returned has recorded.
use tickline.Base.{
  ℕ, ◌≤◌, ltb, ltb→le, Option, Bool-cases, ◌≡◌, ◌⊎◌, inl, inr, refl, subst, sym, length, ok,
  ok-injective, first_step, throw_if-eq-ok,
}
use tickline.Base.Words.{u64_max}
use tickline.Simulation.Fingerprint.{StateFingerprint}
use tickline.Simulation.Canonical.{fingerprint_world_state}
use tickline.Simulation.Schedule.{VelocityCommand}
use tickline.Simulation.World.{
  World, QueueCommandResult, queue_velocity, current_tick, pending_command_count,
}
use tickline.Command.Envelope.{CommandEnvelope}
use tickline.Command.Session.{CommandSession, CommandAdmissionResult, evaluate, is_none}
use tickline.Command.Validator.{CommandRejectionCode}
use tickline.Command.Evidence.{CommandEvidenceEntry}
use tickline.Command.Evidence.Chain.{CommandEvidenceLog, append, prepare_append}
use tickline.Command.Pipeline.{
  Submitted, Observed, submit, submit_from, submit_rejected, submit_admitted, reject,
  from_queue_result, checked_count, or_logic_error,
}
use tickline.Command.Pipeline.Outcome.{before}

-- A submission that returned had room for an ordinal, and appended one entry, which holds the
-- command and what was seen before it. The world is the old one, or what the queue made of it.
pub record IsRecorded (b : Observed) (w : World) (log : CommandEvidenceLog) (c : CommandEnvelope)
    (r : Submitted) : Type 0 where
  pub entry : CommandEvidenceEntry
  pub appended : r.evidence ≡ append entry log
  pub envelope : entry.envelope ≡ c
  pub tick : entry.observed_tick ≡ b.tick
  pub fingerprint : entry.world_fingerprint_before ≡ b.fingerprint
  pub sequence : entry.session_sequence_before ≡ b.session_sequence
  pub pending : entry.pending_commands_before ≡ b.pending
  pub counted : length r.world.pending_commands ≤ u64_max
  pub world :
      (r.world ≡ w)
      ⊎ ((v : VelocityCommand) × (q : QueueCommandResult) × (queue_velocity w v ≡ ok (q, r.world)))

checked_count-eq-ok : (n m : ℕ) → checked_count n ≡ ok m → (n ≤ u64_max) × (n ≡ m)
unfolding checked_count
checked_count-eq-ok n m e =
    let (t, e1) = throw_if-eq-ok (ltb u64_max n) _ _ e in (ltb→le u64_max n t, ok-injective e1)

module _ (b : Observed) (s : CommandSession) (w : World) (log : CommandEvidenceLog)
    (c : CommandEnvelope) where
  submit_rejected-IsRecorded :
      (code : CommandRejectionCode) (r : Submitted)
      → submit_rejected b s w log c code ≡ ok r
      → IsRecorded b w log c r
  unfolding submit_rejected pending_command_count
  submit_rejected-IsRecorded code r e =
      let (result, e1, e2) = first_step (reject code) _ e in
      let (after, e3, e4) = first_step (checked_count (length w.pending_commands)) _ e2 in
      subst (IsRecorded b w log c) (ok-injective e4) (record {
        entry = _;
        appended = refl;
        envelope = refl;
        tick = refl;
        fingerprint = refl;
        sequence = refl;
        pending = refl;
        counted = (checked_count-eq-ok _ _ e3).0;
        world = inl refl;
      })

  submit_admitted-IsRecorded :
      (admitted : Option VelocityCommand) (r : Submitted)
      → submit_admitted b s w log c admitted ≡ ok r
      → IsRecorded b w log c r
  unfolding submit_admitted pending_command_count
  submit_admitted-IsRecorded admitted r e =
      let (v, e1, e2) = first_step (or_logic_error admitted) _ e in
      let (queued, e3, e4) = first_step (queue_velocity w v) _ e2 in
      let (result, e5, e6) = first_step (from_queue_result queued.0) _ e4 in
      let (after, e7, e8) = first_step (checked_count (length queued.1.pending_commands)) _ e6 in
      subst (IsRecorded b w log c) (ok-injective e8) (record {
        entry = _;
        appended = refl;
        envelope = refl;
        tick = refl;
        fingerprint = refl;
        sequence = refl;
        pending = refl;
        counted = (checked_count-eq-ok _ _ e7).0;
        world = inr (v, queued.0, e3);
      })

  submit_from-IsRecorded :
      (admission : CommandAdmissionResult) (r : Submitted)
      → submit_from b s w log c admission ≡ ok r
      → IsRecorded b w log c r
  submit_from-IsRecorded admission r e = elim (Bool-cases (is_none admission.code)) [
    | inl t ↦ submit_admitted-IsRecorded admission.command r (rw t at e)
    | inr t ↦ submit_rejected-IsRecorded admission.code r (rw t at e)
  ]

module _ (max_size : ℕ) (log : CommandEvidenceLog) (s : CommandSession) (w : World)
    (c : CommandEnvelope) where
  pub submit-IsRecorded :
      (r : Submitted)
      → submit max_size log s w c ≡ ok r
      → (f : StateFingerprint) × (fingerprint_world_state w ≡ ok f)
        × (length log.records ≤ u64_max)
        × IsRecorded (before max_size log s w c f) w log c r
  unfolding submit prepare_append current_tick pending_command_count
  submit-IsRecorded r e =
      let (_, e1, e2) = first_step (prepare_append max_size log) _ e in
      let (t, _) = throw_if-eq-ok (ltb u64_max (length log.records)) _ _ e1 in
      let (f, ef, e3) = first_step (fingerprint_world_state w) _ e2 in
      let (pending, ep, e4) = first_step (checked_count (length w.pending_commands)) _ e3 in
      let (admission, ea, e5) = first_step (evaluate s c w.clock.tick_index) _ e4 in
      (
        f,
        ef,
        ltb→le _ _ t,
        submit_from-IsRecorded (before max_size log s w c f) s w log c admission r
            (rw (sym (checked_count-eq-ok _ _ ep).1) at e5),
      )
