-- ===== src/Simulation/Validity/Queueing.antt =====
-- cpp/src/simulation/world.cpp: queue_velocity on a valid world.
use native.Mathlib.Decide.{ℕ_discrete}
use tickline.Base.{
  ℕ, ◌<◌, ◌≤◌, ltb, leb, ◌≡◌, ◌≢◌, ◌⊎◌, inl, inr, Bool-cases, true, false, some, [], ◌∷◌, ◌++◌, All,
  All-append, All-mono, ok, ==_iff, leb→le, ltb→lt, ==_refl, ==_ne, subst, sym, ◌∙◌, arith,
}
use tickline.Base.Dict
use tickline.Base.Dict.{find_of_contains, contains_of_find, find-adjust, contains-adjust}
use tickline.Simulation.Motion.Exact.{IsWithin-within_symmetric_limit}
use tickline.Simulation.Schedule.{VelocityCommand, sort_commands}
use tickline.Simulation.Schedule.Order.{All-sort, sort-IsSorted}
use tickline.Simulation.World.{
  World, QueueCommandResult, accepted, stale_tick, unknown_entity, sequence_not_increasing,
  target_tick_regression, velocity_out_of_range, queue_velocity, velocity_is_valid,
}
use tickline.Simulation.Validity.{IsAllowed, IsQueued, IsValid}
use tickline.Simulation.Validity.Adding.{velocity_is_valid-IsAllowed}

-- What a command must be to enter the queue.
pub record IsAdmissible (w : World) (c : VelocityCommand) : Type 0 where
  pub ahead : w.clock.tick_index < c.target_tick
  pub named : Dict.contains c.entity_id w.entities ≡ true
  pub newer : (h : ℕ) → Dict.find c.entity_id w.highest_sequence ≡ some h → h < c.sequence
  pub forward : (t : ℕ) → Dict.find c.entity_id w.latest_target_tick ≡ some t → t ≤ c.target_tick
  pub allowed : IsAllowed w.limits c.velocity

-- The world with the command in its queue and in its books.
unfoldable pub with_command : World → VelocityCommand → World
with_command w c = record w {
  highest_sequence = Dict.adjust c.entity_id (λ _. c.sequence) w.highest_sequence;
  latest_target_tick = Dict.adjust c.entity_id (λ _. c.target_tick) w.latest_target_tick;
  pending_commands = sort_commands (w.pending_commands ++ (c ∷ []));
}

module _ (w : World) (c : VelocityCommand) (v : IsValid w) where
  IsAllowed-valid : IsAllowed w.limits c.velocity → velocity_is_valid w c.velocity ≡ true
  unfolding velocity_is_valid
  IsAllowed-valid a = rw (
    IsWithin-within_symmetric_limit c.velocity.x _ v.limited.velocity_limit.1 a.0,
    IsWithin-within_symmetric_limit c.velocity.y _ v.limited.velocity_limit.1 a.1,
  )

  Refused : Type 0
  Refused = (r : QueueCommandResult) × (r ≢ accepted) × (queue_velocity w c ≡ ok (r, w))

  -- The answers that depend on the books.
  module _ (h t : ℕ) where
    booked_cases :
        leb c.target_tick w.clock.tick_index ≡ false
        → Dict.contains c.entity_id w.entities ≡ true
        → Dict.find c.entity_id w.highest_sequence ≡ some h
        → Dict.find c.entity_id w.latest_target_tick ≡ some t
        → (IsAdmissible w c × (queue_velocity w c ≡ ok (accepted, with_command w c)))
          ⊎ ((¬ IsAdmissible w c) × Refused)
    unfolding queue_velocity with_command Dict.at Dict.update_at Refused
    booked_cases t1 t2 eh et = elim (Bool-cases (leb c.sequence h)) [
      | inl l ↦ inr (
        λ a. absurd (omega (arith, a.newer h eh, leb→le _ _ l)),
        (sequence_not_increasing, λ e. cc, rw (t1, t2, eh, l)),
      )
      | inr l1 ↦ elim (Bool-cases (ltb c.target_tick t)) [
        | inl l ↦ inr (
          λ a. absurd (omega (arith, a.forward t et, ltb→lt _ _ l)),
          (target_tick_regression, λ e. cc, rw (t1, t2, eh, l1, et, l)),
        )
        | inr l2 ↦ elim (Bool-cases (velocity_is_valid w c.velocity)) [
          | inr l ↦ inr (
            λ a. cc (IsAllowed-valid a.allowed, l),
            (velocity_out_of_range, λ e. cc, rw (t1, t2, eh, l1, et, l2, l)),
          )
          | inl l3 ↦ inl (
            record {
              ahead = ground arith;
              named = t2;
              newer = λ h' e'. ground arith;
              forward = λ t' e'. ground arith;
              allowed = velocity_is_valid-IsAllowed w c.velocity v.limited.velocity_limit.1 l3;
            },
            rw (
              t1,
              t2,
              eh,
              l1,
              et,
              l2,
              l3,
              contains_of_find c.entity_id w.highest_sequence h eh,
              contains_of_find c.entity_id w.latest_target_tick t et,
            ),
          )
        ]
      ]
    ]

  -- The command is accepted into the queue exactly if it is admissible: its tick lies ahead, its
  -- entity exists, its sequence is above the entity's highest, its tick not below the entity's
  -- latest, its velocity within the limit. Otherwise another answer is given and the world stays as
  -- it was. Nothing is thrown.
  pub queue_velocity_cases :
      (IsAdmissible w c × (queue_velocity w c ≡ ok (accepted, with_command w c)))
      ⊎ ((¬ IsAdmissible w c)
          × ((r : QueueCommandResult) × (r ≢ accepted) × (queue_velocity w c ≡ ok (r, w))))
  unfolding queue_velocity Refused
  queue_velocity_cases = elim (Bool-cases (leb c.target_tick w.clock.tick_index)) [
    | inl t ↦ inr (λ a. absurd (omega (arith, a.ahead, leb→le _ _ t)), (stale_tick, λ e. cc, rw t))
    | inr t1 ↦ elim (Bool-cases (Dict.contains c.entity_id w.entities)) [
      | inr t ↦ inr (λ a. cc (a.named, t), (unknown_entity, λ e. cc, rw (t1, t)))
      | inl t2 ↦
          let (h, eh) =
            find_of_contains c.entity_id w.highest_sequence (cc ((v.booked c.entity_id).0, t2)) in
          let (t, et) =
            find_of_contains c.entity_id w.latest_target_tick (cc ((v.booked c.entity_id).1, t2)) in
          booked_cases h t t1 t2 eh et
    ]
  ]

module _ (w : World) (c : VelocityCommand) (v : IsValid w) (a : IsAdmissible w c) where
  -- A command that was queued stays within the books, which move up to the new command's numbers.
  with_command-IsQueued : (q : VelocityCommand) → IsQueued w q → IsQueued (with_command w c) q
  unfolding with_command
  with_command-IsQueued q i =
      let (h, eh, lh) = i.sequenced in
      let (t, et, lt) = i.scheduled in
      elim (ℕ_discrete c.entity_id q.entity_id) [
        | yes e ↦
            let eh' = subst (λ (k : ℕ). Dict.find k w.highest_sequence ≡ some h) (sym e) eh in
            let et' = subst (λ (k : ℕ). Dict.find k w.latest_target_tick ≡ some t) (sym e) et in
            record {
              ahead = i.ahead;
              named = i.named;
              allowed = i.allowed;
              sequenced = (
                c.sequence,
                find-adjust c.entity_id q.entity_id _ w.highest_sequence h eh'
                    ∙ rw ((==_iff _ _).1 e),
                omega (arith, a.newer h eh'),
              );
              scheduled = (
                c.target_tick,
                find-adjust c.entity_id q.entity_id _ w.latest_target_tick t et'
                    ∙ rw ((==_iff _ _).1 e),
                omega (arith, a.forward t et'),
              );
            }
        | no n ↦
            let (h', eh') =
              find_of_contains c.entity_id w.highest_sequence
                (cc ((v.booked c.entity_id).0, a.named)) in
            let (t', et') =
              find_of_contains c.entity_id w.latest_target_tick
                (cc ((v.booked c.entity_id).1, a.named)) in
            record {
              ahead = i.ahead;
              named = i.named;
              allowed = i.allowed;
              sequenced = (
                h,
                find-adjust c.entity_id q.entity_id _ w.highest_sequence h' eh'
                    ∙ rw (==_ne _ _ n) eh,
                lh,
              );
              scheduled = (
                t,
                find-adjust c.entity_id q.entity_id _ w.latest_target_tick t' et'
                    ∙ rw (==_ne _ _ n) et,
                lt,
              );
            }
      ]

  self-IsQueued : IsQueued (with_command w c) c
  unfolding with_command
  self-IsQueued =
      let (h, eh) =
        find_of_contains c.entity_id w.highest_sequence (cc ((v.booked c.entity_id).0, a.named)) in
      let (t, et) =
        find_of_contains c.entity_id w.latest_target_tick
          (cc ((v.booked c.entity_id).1, a.named)) in
      record {
        ahead = a.ahead;
        named = a.named;
        allowed = a.allowed;
        sequenced = (
          c.sequence,
          find-adjust c.entity_id c.entity_id _ w.highest_sequence h eh ∙ rw (==_refl c.entity_id),
          omega arith,
        );
        scheduled = (
          c.target_tick,
          find-adjust c.entity_id c.entity_id _ w.latest_target_tick t et
              ∙ rw (==_refl c.entity_id),
          omega arith,
        );
      }

  append-IsQueued : All (IsQueued (with_command w c)) (w.pending_commands ++ (c ∷ []))
  append-IsQueued =
      All-append _ w.pending_commands (c ∷ [])
        (All-mono (IsQueued w) _ with_command-IsQueued w.pending_commands v.queued)
        (self-IsQueued, tt)

  pub with_command-IsValid : IsValid (with_command w c)
  unfolding with_command
  with_command-IsValid = record {
    running = v.running;
    limited = v.limited;
    placed = v.placed;
    booked = λ k. ground (
      arith,
      contains-adjust c.entity_id k (λ _. c.sequence) w.highest_sequence,
      contains-adjust c.entity_id k (λ _. c.target_tick) w.latest_target_tick,
      v.booked k,
    );
    queued = All-sort _ (w.pending_commands ++ (c ∷ [])) append-IsQueued;
    sorted = sort-IsSorted (w.pending_commands ++ (c ∷ []));
  }

-- On a valid world queue_velocity returns, whatever the command, and the world that it leaves is
-- valid.
pub queue_velocity-IsValid :
    (w : World) (c : VelocityCommand)
    → IsValid w
    → (r : QueueCommandResult × World) × (queue_velocity w c ≡ ok r) × IsValid r.1
queue_velocity-IsValid w c v = elim (queue_velocity_cases w c v) [
  | inl (a, e) ↦ ((accepted, with_command w c), e, with_command-IsValid w c v a)
  | inr (_, (r, _, e)) ↦ ((r, w), e, v)
]
