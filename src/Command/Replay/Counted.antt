-- ===== src/Command/Replay/Counted.antt =====
-- The worlds of a replay (cpp/src/simulation/world.cpp): valid ones, whose entities and commands can
-- be counted in 64 bits, so that they have a fingerprint.
use tickline.Base.{
  ℕ, suc, ◌+◌, ◌≤◌, ◌==◌, ltb, Bool-cases, ◌≡◌, inl, inr, refl, sym, ◌∙◌, ap, subst, List, [], ◌∷◌,
  ◌++◌, length, length-append, ok, ok-injective, first_step, arith,
}
use tickline.Base.Words.{u64_max}
use tickline.Base.Dict
use tickline.Base.Dict.{Dict}
use tickline.Base.Int.{ℤ}
use tickline.Simulation.Clock.{Tick}
use tickline.Simulation.Clock
use tickline.Simulation.Fingerprint.{StateFingerprint}
use tickline.Simulation.Canonical.{fingerprint_world_state}
use tickline.Simulation.Canonical.Laws.{fingerprint_world_state_total}
use tickline.Simulation.Schedule.{VelocityCommand}
use tickline.Simulation.Schedule.Order.{length-sort}
use tickline.Simulation.World.{World, StoredEntity, QueueCommandResult, queue_velocity}
use tickline.Simulation.Advance.{
  advance, apply_command, apply_commands, integrate_entity, integrate_entities, remove_due,
}
use tickline.Simulation.Validity.{IsValid}
use tickline.Simulation.Validity.Queueing.{
  with_command, queue_velocity_cases, queue_velocity-IsValid,
}
use tickline.Simulation.Validity.Advancing.{advance_total, ticked}
use tickline.Command.Envelope.{CommandEnvelope}
use tickline.Command.Evidence.Chain.{CommandEvidenceLog}
use tickline.Command.Pipeline.{Submitted, Observed}
use tickline.Command.Pipeline.Recorded.{IsRecorded}

pub record IsCounted (w : World) : Type 0 where
  pub valid : IsValid w
  pub entities : length w.entities ≤ u64_max
  pub pending : length w.pending_commands ≤ u64_max

pub IsCounted-fingerprint :
    (w : World) → IsCounted w → (f : StateFingerprint) × (fingerprint_world_state w ≡ ok f)
IsCounted-fingerprint w k = fingerprint_world_state_total w k.valid k.entities k.pending

length-adjust {ℓ} :
    {V : Type ℓ} (k : ℕ) (f : V → V) (m : Dict V) → length (Dict.adjust k f m) ≡ length m
unfolding Dict.adjust
length-adjust k f [] = refl
length-adjust k f ((j, v) ∷ m) = elim (Bool-cases (j == k)) [
  | inl t ↦ rw t refl
  | inr t ↦ rw t (ap suc (length-adjust k f m))
]

length-update_at {ℓ} :
    {V : Type ℓ} (k : ℕ) (f : V → V) (m m' : Dict V)
    → Dict.update_at k f m ≡ ok m'
    → length m' ≡ length m
unfolding Dict.update_at
length-update_at k f m m' e = elim (Bool-cases (Dict.contains k m)) [
  | inl t ↦ ap length (sym (ok-injective (rw t at e))) ∙ length-adjust k f m
  | inr t ↦ absurd (cc (rw t at e))
]

length-apply_commands :
    (next : ℕ) (cs : List VelocityCommand) (m m' : Dict StoredEntity)
    → apply_commands next cs m ≡ ok m'
    → length m' ≡ length m
unfolding apply_commands
length-apply_commands next [] m m' e = ap length (sym (ok-injective e))
length-apply_commands next (c ∷ cs) m m' e = elim (Bool-cases (ltb c.target_tick next)) [
  | inl t ↦ absurd (cc (rw t at e))
  | inr t ↦ elim (Bool-cases (ltb next c.target_tick)) [
    | inl u ↦ ap length (sym (ok-injective (rw (t, u) at e)))
    | inr u ↦
        let (m1, e1, e2) =
          first_step (Dict.update_at c.entity_id (apply_command c) m) _ (rw (t, u) at e) in
        length-apply_commands next cs m1 m' e2 ∙ length-update_at _ _ m m1 e1
  ]
]

length-integrate_entities :
    (d l : ℤ) (m m' : Dict StoredEntity) → integrate_entities d l m ≡ ok m' → length m' ≡ length m
unfolding integrate_entities
length-integrate_entities d l [] m' e = ap length (sym (ok-injective e))
length-integrate_entities d l ((k, stored) ∷ m) m' e =
    let (s1, e1, e2) = first_step (integrate_entity d l stored) _ e in
    let (m1, e3, e4) = first_step (integrate_entities d l m) _ e2 in
    ap length (sym (ok-injective e4)) ∙ ap suc (length-integrate_entities d l m m1 e3)

length-remove_due : (next : ℕ) (cs : List VelocityCommand) → length (remove_due next cs) ≤ length cs
unfolding remove_due
length-remove_due next [] = omega arith
length-remove_due next (c ∷ cs) = elim (Bool-cases (c.target_tick == next)) [
  | inl t ↦ rw t (omega (arith, length-remove_due next cs))
  | inr t ↦ rw t (omega (arith, length-remove_due next cs))
]

-- A tick keeps the number of entities and adds no command.
pub advance-length :
    (w w' : World) (t : Tick)
    → advance w ≡ ok (t, w')
    → (length w'.entities ≡ length w.entities)
      × (length w'.pending_commands ≤ length w.pending_commands)
unfolding advance
advance-length w w' t e =
    let ((next_tick, next_clock), e1, e2) = first_step (Clock.advance w.clock) _ e in
    let (applied, e3, e4) =
      first_step (apply_commands next_tick.index w.pending_commands w.entities) _ e2 in
    let (moved, e5, e6) =
      first_step (integrate_entities w.clock.tick_duration w.limits.max_abs_position applied) _
        e4 in
    let same = ap (λ (p : Tick × World). p.1) (ok-injective e6) in
    (
      ap (λ (v : World). length v.entities) (sym same)
          ∙ length-integrate_entities _ _ applied moved e5
          ∙ length-apply_commands _ _ w.entities applied e3,
      subst (λ (v : World). length v.pending_commands ≤ length w.pending_commands) same
          (length-remove_due next_tick.index w.pending_commands),
    )

-- A tick that returns counts one tick, and leaves a counted world.
pub advance-IsCounted :
    (w w' : World) (t : Tick)
    → IsCounted w
    → advance w ≡ ok (t, w')
    → IsCounted w' × (w'.clock.tick_index ≡ w.clock.tick_index + 1)
unfolding ticked
advance-IsCounted w w' t k e =
    let (applied, _, cases) = advance_total w k.valid in
    let lengths = advance-length w w' t e in
    elim cases [
      | inr (fails, _) ↦ absurd (cc (fails, e))
      | inl (moved, _, done, valid) ↦
          let same : ticked w moved ≡ w' =
            ap (λ (p : Tick × World). p.1) (ok-injective (sym done ∙ e)) in
          (
            record {
              valid = subst IsValid same valid;
              entities = omega (arith, lengths, k.entities);
              pending = omega (arith, lengths, k.pending);
            },
            ap (λ (v : World). v.clock.tick_index) (sym same),
          )
    ]

queue_velocity-entities :
    (w w' : World) (c : VelocityCommand) (q : QueueCommandResult)
    → IsValid w
    → queue_velocity w c ≡ ok (q, w')
    → IsValid w' × (length w'.entities ≡ length w.entities)
unfolding with_command
queue_velocity-entities w w' c q v e =
    let ((_, w1), e1, valid) = queue_velocity-IsValid w c v in
    (
      subst IsValid (ap (λ (p : QueueCommandResult × World). p.1) (ok-injective (sym e1 ∙ e)))
          valid,
      elim (queue_velocity_cases w c v) [
        | inl (_, e2) ↦
            ap (λ (p : QueueCommandResult × World). length p.1.entities) (ok-injective (sym e ∙ e2))
        | inr (_, (_, _, e2)) ↦
            ap (λ (p : QueueCommandResult × World). length p.1.entities) (ok-injective (sym e ∙ e2))
      ],
    )

queue_velocity-pending :
    (w w' : World) (c : VelocityCommand) (q : QueueCommandResult)
    → IsValid w
    → queue_velocity w c ≡ ok (q, w')
    → length w'.pending_commands ≤ length w.pending_commands + 1
unfolding with_command
queue_velocity-pending w w' c q v e =
    let count = λ (p : QueueCommandResult × World). length p.1.pending_commands in
    elim (queue_velocity_cases w c v) [
      | inl (_, e2) ↦ omega (
        arith,
        ap count (ok-injective (sym e ∙ e2)),
        length-sort (w.pending_commands ++ (c ∷ [])),
        length-append w.pending_commands (c ∷ []),
      )
      | inr (_, (_, _, e2)) ↦ omega (arith, ap count (ok-injective (sym e ∙ e2)))
    ]

-- A submission that returns adds one command at most.
pub IsRecorded-pending :
    (b : Observed) (w : World) (log : CommandEvidenceLog) (c : CommandEnvelope) (r : Submitted)
    → IsCounted w
    → IsRecorded b w log c r
    → length r.world.pending_commands ≤ length w.pending_commands + 1
IsRecorded-pending b w log c r k h = elim h.world [
  | inl same ↦ omega (arith, ap (λ (v : World). length v.pending_commands) same)
  | inr (v, q, e) ↦ queue_velocity-pending w r.world v q k.valid e
]

-- A submission that returns leaves a counted world.
pub IsRecorded-IsCounted :
    (b : Observed) (w : World) (log : CommandEvidenceLog) (c : CommandEnvelope) (r : Submitted)
    → IsCounted w
    → IsRecorded b w log c r
    → IsCounted r.world
IsRecorded-IsCounted b w log c r k h = elim h.world [
  | inl same ↦ subst IsCounted (sym same) k
  | inr (v, q, e) ↦
      let (valid, entities) = queue_velocity-entities w r.world v q k.valid e in
      record { valid = valid; entities = omega (arith, entities, k.entities); pending = h.counted }
]
