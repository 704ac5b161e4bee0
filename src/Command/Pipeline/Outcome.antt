-- ===== src/Command/Pipeline/Outcome.antt =====
-- cpp/src/command/authoritative_command_pipeline.cpp: what a submission comes to.
use tickline.Base.{
  ℕ, ◌+◌, ◌<◌, ◌≤◌, ==_refl, ==_ne, le→ltb, Option, some, false, ◌≡◌, ◌≢◌, ◌⊎◌, inl, inr, refl, ◌∙◌,
  [], ◌∷◌, length, length-append, ok, ◌>>=◌, arith,
}
use tickline.Base.Words.{u64_max}
use tickline.Simulation.Fingerprint.{StateFingerprint}
use tickline.Simulation.Canonical.{fingerprint_world_state}
use tickline.Simulation.Canonical.Laws.{fingerprint_world_state_total}
use tickline.Simulation.Schedule.Order.{length-sort}
use tickline.Simulation.World.{
  World, QueueCommandResult, current_tick, pending_command_count, queue_velocity,
}
use tickline.Simulation.Validity.{IsValid}
use tickline.Simulation.Validity.Queueing.{IsAdmissible, with_command, queue_velocity_cases}
use tickline.Command.Envelope.{CommandEnvelope}
use tickline.Command.Validator.{CommandRejectionCode, none}
use tickline.Command.Session.{
  CommandSession, commit_accepted_sequence, translate, evaluate, is_none,
}
use tickline.Command.Session.Laws.{IsOpen, IsAdmitted, rejected_result, evaluate_cases}
use tickline.Command.Evidence.{CommandQueueOutcome, command_queue_outcome}
use tickline.Command.Evidence.Codec.{rejection_value}
use tickline.Command.Evidence.Chain.{CommandEvidenceLog, append, prepare_append}
use tickline.Command.Pipeline.{
  CommandSubmissionResult, Submitted, Observed, evidence_entry, submit, submit_from,
  submit_rejected, submit_admitted, command_rejection_from_queue_result,
}

-- Nothing that `submit` counts is out of the range of its 64-bit count, before or after.
pub record IsCountable (max_size : ℕ) (log : CommandEvidenceLog) (w : World) : Type 0 where
  pub records : length log.records ≤ u64_max
  pub room : length log.records ≢ max_size
  pub entities : length w.entities ≤ u64_max
  pub pending : length w.pending_commands < u64_max

pub not_none : (code : CommandRejectionCode) → code ≢ none → is_none code ≡ false
not_none none ne = absurd (ne refl)
not_none _ ne = refl

not_accepted :
    (r : QueueCommandResult)
    → r ≢ QueueCommandResult.accepted
    → command_rejection_from_queue_result r ≢ none
unfolding command_rejection_from_queue_result
not_accepted QueueCommandResult.accepted ne = absurd (ne refl)
not_accepted _ ne = λ e. cc e

-- What the answers of the queue that refuse stand for: the code of the result, and the outcome in the
-- evidence.
pub data IsRefusal : QueueCommandResult → CommandRejectionCode → CommandQueueOutcome → Type 0 where
  of_stale_tick :
      IsRefusal QueueCommandResult.stale_tick CommandRejectionCode.stale_target_tick
        CommandQueueOutcome.stale_tick
  of_unknown_entity :
      IsRefusal QueueCommandResult.unknown_entity CommandRejectionCode.unknown_entity
        CommandQueueOutcome.unknown_entity
  of_sequence_not_increasing :
      IsRefusal QueueCommandResult.sequence_not_increasing
        CommandRejectionCode.entity_sequence_not_increasing
        CommandQueueOutcome.sequence_not_increasing
  of_target_tick_regression :
      IsRefusal QueueCommandResult.target_tick_regression
        CommandRejectionCode.target_tick_regression CommandQueueOutcome.target_tick_regression
  of_velocity_out_of_range :
      IsRefusal QueueCommandResult.velocity_out_of_range CommandRejectionCode.velocity_out_of_range
        CommandQueueOutcome.velocity_out_of_range

IsRefusal-command_rejection_from_queue_result :
    (r : QueueCommandResult)
    → r ≢ QueueCommandResult.accepted
    → IsRefusal r (command_rejection_from_queue_result r) (command_queue_outcome r)
unfolding command_rejection_from_queue_result command_queue_outcome
IsRefusal-command_rejection_from_queue_result QueueCommandResult.accepted ne = absurd (ne refl)
IsRefusal-command_rejection_from_queue_result QueueCommandResult.stale_tick ne = of_stale_tick
IsRefusal-command_rejection_from_queue_result QueueCommandResult.unknown_entity ne =
    of_unknown_entity
IsRefusal-command_rejection_from_queue_result QueueCommandResult.sequence_not_increasing ne =
    of_sequence_not_increasing
IsRefusal-command_rejection_from_queue_result QueueCommandResult.target_tick_regression ne =
    of_target_tick_regression
IsRefusal-command_rejection_from_queue_result QueueCommandResult.velocity_out_of_range ne =
    of_velocity_out_of_range

module _ (max_size : ℕ) (log : CommandEvidenceLog) (s : CommandSession) (w : World)
    (c : CommandEnvelope) where
  abbrev pub before : StateFingerprint → Observed
  before f = record {
    tick = w.clock.tick_index;
    fingerprint = f;
    session_sequence = s.highest_accepted_sequence;
    pending = length w.pending_commands;
  }

  -- What is taken: the session and the world both let it in.
  abbrev pub IsTaken : Type 0
  IsTaken = IsAdmitted s c w.clock.tick_index × IsAdmissible w (translate c)

  abbrev pub taken : StateFingerprint → Submitted
  taken f =
      let s' = commit_accepted_sequence c.sequence s in
      record {
        result = record { code = none; queue_result = some QueueCommandResult.accepted };
        session = s';
        world = with_command w (translate c);
        evidence =
            append
              (evidence_entry (before f) c s' (length w.pending_commands + 1) none
                CommandQueueOutcome.accepted)
              log;
      }

  -- The session did not admit the command, and the code is that of its evaluation; or it did, and the
  -- code and the outcome stand for what the queue answered to the translated command.
  abbrev pub IsExplained : CommandSubmissionResult → CommandQueueOutcome → Type 0
  IsExplained r outcome =
      ((¬ IsAdmitted s c w.clock.tick_index)
        × (evaluate s c w.clock.tick_index ≡ ok (rejected_result r.code))
        × (r.queue_result ≡ Option.none)
        × (outcome ≡ CommandQueueOutcome.not_attempted))
      ⊎ (IsAdmitted s c w.clock.tick_index
          × ((answer : QueueCommandResult) × (queue_velocity w (translate c) ≡ ok (answer, w))
              × (r.queue_result ≡ some answer)
              × IsRefusal answer r.code outcome))

  abbrev pub refused : StateFingerprint → CommandSubmissionResult → CommandQueueOutcome → Submitted
  refused f result outcome = record {
    result = result;
    session = s;
    world = w;
    evidence =
        append (evidence_entry (before f) c s (length w.pending_commands) result.code outcome) log;
  }

  module _ (v : IsValid w) (o : IsOpen s) (k : IsCountable max_size log w) where
    rejected-eq :
        (f : StateFingerprint) (code : CommandRejectionCode)
        → code ≢ none
        → submit_rejected (before f) s w log c code
          ≡ ok (
              refused f
                (record { code = code; queue_result = Option.none })
                CommandQueueOutcome.not_attempted)
    unfolding submit_rejected pending_command_count
    rejected-eq f code ne =
        rw (not_none code ne, le→ltb u64_max (length w.pending_commands) (omega (arith, k.pending)))

    length-with_command :
        length (with_command w (translate c)).pending_commands ≡ length w.pending_commands + 1
    unfolding with_command
    length-with_command = length-sort _ ∙ length-append w.pending_commands (translate c ∷ [])

    admitted-eq :
        (f : StateFingerprint)
        → queue_velocity w (translate c)
          ≡ ok (QueueCommandResult.accepted, with_command w (translate c))
        → submit_admitted (before f) s w log c (some (translate c)) ≡ ok (taken f)
    unfolding submit_admitted pending_command_count command_rejection_from_queue_result
        rejection_value
    admitted-eq f e = rw (
      e,
      length-with_command,
      le→ltb u64_max (length w.pending_commands + 1) (omega (arith, k.pending)),
    )

    unqueued-eq :
        (f : StateFingerprint) (r : QueueCommandResult)
        → r ≢ QueueCommandResult.accepted
        → queue_velocity w (translate c) ≡ ok (r, w)
        → submit_admitted (before f) s w log c (some (translate c))
          ≡ ok (
              refused f
                (record { code = command_rejection_from_queue_result r; queue_result = some r })
                (command_queue_outcome r))
    unfolding submit_admitted pending_command_count
    unqueued-eq f r ne e = rw (
      e,
      ==_refl (rejection_value (command_rejection_from_queue_result r)),
      not_none (command_rejection_from_queue_result r) (not_accepted r ne),
      le→ltb u64_max (length w.pending_commands) (omega (arith, k.pending)),
    )

    -- `submit` once its counts and its fingerprint are taken.
    submit-eq :
        (f : StateFingerprint)
        → fingerprint_world_state w ≡ ok f
        → submit max_size log s w c
          ≡ (evaluate s c w.clock.tick_index >>= submit_from (before f) s w log c)
    unfolding submit prepare_append current_tick pending_command_count
    submit-eq f e = rw (
      le→ltb u64_max (length log.records) k.records,
      ==_ne (length log.records) max_size k.room,
      e,
      le→ltb u64_max (length w.pending_commands) (omega (arith, k.pending)),
    )

    -- On a valid world and an open session, with counts in range, `submit` throws nothing. If the
    -- session admits the command and the world takes it, the result is accepted, the session's
    -- sequence is the command's, the command is in the queue. If not, the result holds a code that is
    -- not `none`, and the session and the world stay as they were. That code is the one of the
    -- session's evaluation, and nothing is asked of the queue, where the session does not admit the
    -- command; where it does, the result holds what the queue answers to the translated command, and
    -- code and outcome are the ones of that answer. In every case the evidence has one more entry,
    -- with the world's fingerprint, the tick, the envelope, the numbers before and after, the code and
    -- the outcome.
    pub submit_cases :
        (f : StateFingerprint) × (fingerprint_world_state w ≡ ok f)
        × ((IsTaken × (submit max_size log s w c ≡ ok (taken f)))
            ⊎ ((¬ IsTaken)
                × ((r : CommandSubmissionResult) × (outcome : CommandQueueOutcome) × (r.code ≢ none)
                    × IsExplained r outcome
                    × (submit max_size log s w c ≡ ok (refused f r outcome)))))
    submit_cases =
        let (f, e) = fingerprint_world_state_total w v k.entities (omega (arith, k.pending)) in
        (
          f,
          e,
          elim (evaluate_cases s c w.clock.tick_index o) [
            | inr (not_admitted, (code, ne, ev)) ↦ inr (
              λ t. not_admitted t.0,
              (
                record { code = code; queue_result = Option.none },
                CommandQueueOutcome.not_attempted,
                ne,
                inl (not_admitted, ev, refl, refl),
                submit-eq f e ∙ rw (ev, not_none code ne) (rejected-eq f code ne),
              ),
            )
            | inl (admitted, ev) ↦ elim (queue_velocity_cases w (translate c) v) [
              | inl (admissible, q) ↦
                  inl ((admitted, admissible), submit-eq f e ∙ rw ev (admitted-eq f q))
              | inr (refusal, (r, ne, q)) ↦ inr (
                λ t. refusal t.1,
                (
                  record { code = command_rejection_from_queue_result r; queue_result = some r },
                  command_queue_outcome r,
                  not_accepted r ne,
                  inr (admitted, (r, q, refl, IsRefusal-command_rejection_from_queue_result r ne)),
                  submit-eq f e ∙ rw ev (unqueued-eq f r ne q),
                ),
              )
            ]
          ],
        )
