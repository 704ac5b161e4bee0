-- ===== src/Simulation/Validity/Advancing.antt =====
-- cpp/src/simulation/world.cpp, World::advance, as a whole.
use tickline.Base.{
  ℕ, ◌+◌, ◌<◌, ◌==◌, ◌≡◌, refl, sym, ◌∙◌, ◌⊎◌, inl, inr, Bool-cases, List, [], ◌∷◌, All, All-mono,
  ok, err, overflow_error, subst, subst⁻¹, arith,
}
use tickline.Base.Int.{pos-pos_part, IsI64, ◌+ℤ◌}
use tickline.Base.Words.{u64_max}
use tickline.Base.Dict
use tickline.Base.Dict.{Dict, AllEntries}
use tickline.Simulation.Clock.{current_tick}
use tickline.Simulation.Schedule.{VelocityCommand, IsSorted}
use tickline.Simulation.World.{World, StoredEntity}
use tickline.Simulation.Advance.{apply_commands, integrate_entities, remove_due, advance}
use tickline.Simulation.Validity.{IsRunning, IsSafe, IsPlaced, IsQueued, IsValid}
use tickline.Simulation.Validity.Clocks.{stepped, advance_exact}
use tickline.Simulation.Validity.Ticking.{
  IsDue, HasMoved, SomeEscapes, Pointwise, apply_commands_total, integrate_entities_total,
}

contains-Pointwise :
    (R : StoredEntity → StoredEntity → Type 0) (k : ℕ) (m n : Dict StoredEntity)
    → Pointwise R m n
    → Dict.contains k n ≡ Dict.contains k m
unfolding Dict.contains
contains-Pointwise R k [] [] h = refl
contains-Pointwise R k [] (y ∷ ys) h = absurd h
contains-Pointwise R k (x ∷ xs) [] h = absurd h
contains-Pointwise R k ((i, a) ∷ m) ((j, b) ∷ n) (e, _, h) = rw (e, contains-Pointwise R k m n h)

All-remove_due {κ} :
    (P : VelocityCommand → Type κ) (next : ℕ) (cs : List VelocityCommand)
    → All P cs
    → All P (remove_due next cs)
unfolding remove_due
All-remove_due P next [] h = h
All-remove_due P next (c ∷ cs) h = elim (Bool-cases (c.target_tick == next)) [
  | inl t ↦ rw t (All-remove_due P next cs h.1)
  | inr t ↦ rw t (h.0, All-remove_due P next cs h.1)
]

remove_due-IsSorted :
    (next : ℕ) (cs : List VelocityCommand) → IsSorted cs → IsSorted (remove_due next cs)
unfolding remove_due
remove_due-IsSorted next [] h = h
remove_due-IsSorted next (c ∷ cs) h = elim (Bool-cases (c.target_tick == next)) [
  | inl t ↦ rw t (remove_due-IsSorted next cs h.1)
  | inr t ↦ rw t (All-remove_due _ next cs h.0, remove_due-IsSorted next cs h.1)
]

-- What was queued before the tick and is not due at it lies ahead of the new tick.
remove_due-ahead :
    (tick : ℕ) (cs : List VelocityCommand)
    → All (λ c. tick < c.target_tick) cs
    → All (λ c. tick + 1 < c.target_tick) (remove_due (tick + 1) cs)
unfolding remove_due
remove_due-ahead tick [] h = h
remove_due-ahead tick (c ∷ cs) h = elim (Bool-cases (c.target_tick == tick + 1)) [
  | inl t ↦ rw t (remove_due-ahead tick cs h.1)
  | inr t ↦ rw t (ground arith, remove_due-ahead tick cs h.1)
]

-- The world after a tick that moved the entities to `moved`.
unfoldable pub ticked : World → Dict StoredEntity → World
ticked w moved = record w {
  clock = stepped w.clock;
  entities = moved;
  pending_commands = remove_due (w.clock.tick_index + 1) w.pending_commands;
}

All-both {κ μ} :
    (P : VelocityCommand → Type κ) (Q : VelocityCommand → Type μ) (cs : List VelocityCommand)
    → All P cs
    → All Q cs
    → All (λ c. P c × Q c) cs
All-both P Q [] h k = tt
All-both P Q (c ∷ cs) h k = ((h.0, k.0), All-both P Q cs h.1 k.1)

module _ (w : World) (v : IsValid w) where
  dues :
      All
        (IsDue w.limits (w.clock.tick_index + 1) (λ k. Dict.contains k w.entities))
        w.pending_commands
  dues =
      All-mono (IsQueued w) _ (λ c q. (omega (arith, q.ahead), q.named, q.allowed))
        w.pending_commands v.queued

  -- Every entity moves, for the duration of the clock.
  move_all :
      (m : Dict StoredEntity)
      → AllEntries (IsPlaced w.limits) m
      → ((m' : Dict StoredEntity) × (integrate_entities w.clock.tick_duration
              w.limits.max_abs_position m
            ≡ ok m')
          × AllEntries (IsPlaced w.limits) m'
          × Pointwise (HasMoved w.clock.tick_duration) m m')
        ⊎ ((integrate_entities w.clock.tick_duration w.limits.max_abs_position m
              ≡ err overflow_error)
            × SomeEscapes w.limits w.clock.tick_duration m)
  move_all m p =
      let e = pos-pos_part w.clock.tick_duration v.running.steps.1 in
      subst⁻¹
        (λ d.
          ((m' : Dict StoredEntity) × (integrate_entities d w.limits.max_abs_position m ≡ ok m')
            × AllEntries (IsPlaced w.limits) m'
            × Pointwise (HasMoved d) m m')
          ⊎ ((integrate_entities d w.limits.max_abs_position m ≡ err overflow_error)
              × SomeEscapes w.limits d m))
        e (integrate_entities_total w.limits _ (subst (IsSafe w.limits) e v.limited) m p)

  ticked-IsValid :
      (m : Dict StoredEntity)
      → IsRunning (stepped w.clock)
      → AllEntries (IsPlaced w.limits) m
      → ((k : ℕ) → Dict.contains k m ≡ Dict.contains k w.entities)
      → IsValid (ticked w m)
  unfolding ticked
  ticked-IsValid m r p same = record {
    running = r;
    limited = v.limited;
    placed = p;
    booked = λ k. ((v.booked k).0 ∙ sym (same k), (v.booked k).1 ∙ sym (same k));
    queued =
        All-mono _ _
          (λ c (q : IsQueued w c × (w.clock.tick_index + 1 < c.target_tick)). record {
            ahead = q.1;
            named = same c.entity_id ∙ q.0.named;
            allowed = q.0.allowed;
            sequenced = q.0.sequenced;
            scheduled = q.0.scheduled;
          })
          (remove_due (w.clock.tick_index + 1) w.pending_commands)
          (All-both _ _ (remove_due (w.clock.tick_index + 1) w.pending_commands)
            (All-remove_due _ _ w.pending_commands v.queued)
            (remove_due-ahead w.clock.tick_index w.pending_commands
              (All-mono _ _ (λ c (q : IsQueued w c). q.ahead) w.pending_commands v.queued)));
    sorted = remove_due-IsSorted _ w.pending_commands v.sorted;
  }

  -- On a valid world `advance` never meets a late command or a missing entity. The due commands
  -- are applied, and then either the tick is completed: the clock steps, the due commands leave the
  -- queue, every entity moves exactly, and the world stays valid. Or overflow_error is thrown, and
  -- then the clock cannot count the tick or some entity would leave the limit.
  pub advance_total :
      (applied : Dict StoredEntity) × (apply_commands
          (w.clock.tick_index + 1)
          w.pending_commands
          w.entities
        ≡ ok applied)
      × (((moved : Dict StoredEntity) × Pointwise (HasMoved w.clock.tick_duration) applied moved
            × (advance w ≡ ok (current_tick (stepped w.clock), ticked w moved))
            × IsValid (ticked w moved))
          ⊎ ((advance w ≡ err overflow_error)
              × (((w.clock.tick_index ≡ u64_max)
                    ⊎ (¬ IsI64 (w.clock.elapsed +ℤ w.clock.tick_duration)))
                  ⊎ SomeEscapes w.limits w.clock.tick_duration applied)))
  unfolding advance ticked current_tick
  advance_total =
      let (applied, ea, keys, pa) =
        apply_commands_total w.limits (w.clock.tick_index + 1) _ w.pending_commands w.entities
          (λ k. refl) dues v.placed in
      (
        applied,
        ea,
        elim (advance_exact w.clock v.running) [
          | inr f ↦ inr (rw f.0, inl f.1)
          | inl (e, r) ↦ elim (move_all applied pa) [
            | inr (em, out) ↦ inr (rw (e, ea, em), inr out)
            | inl (moved, em, pm, hm) ↦ inl (
              moved,
              hm,
              rw (e, ea, em),
              ticked-IsValid moved r pm (λ k. contains-Pointwise _ k applied moved hm ∙ keys k),
            )
          ]
        ],
      )
