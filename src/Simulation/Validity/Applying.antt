-- ===== src/Simulation/Validity/Applying.antt =====
-- cpp/src/simulation/world.cpp, World::advance: what the due commands do, said without the loop.
use native.Mathlib.Decide.{ℕ_discrete}
use tickline.Base.{
  ℕ, ◌+◌, ◌<◌, ◌≤◌, ltb, ltb→lt, le→ltb, ◌==◌, ==_iff, ==_ne, ◌&&◌, if◌then◌else◌, Bool-cases, true,
  false, ◌≡◌, refl, ap, subst⁻¹, ◌∙◌, inl, inr, Option, none, some, List, [], ◌∷◌, All, All-mono,
  ok, ok-injective, arith,
}
use tickline.Base.Dict
use tickline.Base.Dict.{Dict, find-adjust, contains-adjust, contains_of_find, find_of_contains}
use tickline.Simulation.Schedule.{VelocityCommand, command_order, IsSorted}
use tickline.Simulation.World.{World, StoredEntity}
use tickline.Simulation.Advance.{apply_command, apply_commands}
use tickline.Simulation.Validity.{IsQueued, IsValid}

abbrev later : Option VelocityCommand → Option VelocityCommand → Option VelocityCommand
later none o = o
later (some c) o = some c

-- The last command of the queue that is due at `next` and names `k`, in the order of the queue.
pub last_due : ℕ → ℕ → List VelocityCommand → Option VelocityCommand
last_due next k [] = none
last_due next k (c ∷ cs) =
    later (last_due next k cs)
      (if (c.target_tick == next) && (c.entity_id == k) then some c else none)

-- An entity takes velocity and sequence from the command, if there is one.
abbrev pub obey : Option VelocityCommand → StoredEntity → StoredEntity
obey none s = s
obey (some c) s = record s {
  state = record (s.state) { velocity = c.velocity; last_sequence = c.sequence };
}

-- Behind a command that is due later than `next` no command is due at it.
last_due_later :
    (next k : ℕ) (cs : List VelocityCommand)
    → All (λ d. next < d.target_tick) cs
    → last_due next k cs ≡ none
unfolding last_due
last_due_later next k [] h = refl
last_due_later next k (c ∷ cs) h =
    rw (last_due_later next k cs h.1, ==_ne c.target_tick next (λ e. omega (arith, h.0)))

later_than :
    (next : ℕ) (c d : VelocityCommand)
    → next < c.target_tick
    → command_order d c ≡ false
    → next < d.target_tick
unfolding command_order
later_than next c d h o = ground arith

obey-later :
    (o : Option VelocityCommand) (c : VelocityCommand) (s : StoredEntity)
    → obey o (apply_command c s) ≡ obey (later o (some c)) s
unfolding apply_command
obey-later none c s = refl
obey-later (some d) c s = refl

later_none : (o : Option VelocityCommand) → later o none ≡ o
later_none none = refl
later_none (some c) = refl

-- An entity after one due command, and what the rest of the queue makes of it.
obey-adjust :
    (k : ℕ) (c : VelocityCommand) (o : Option VelocityCommand) (m : Dict StoredEntity)
    (s : StoredEntity)
    → Dict.find k m ≡ some s
    → Dict.contains c.entity_id m ≡ true
    → (s' : StoredEntity) × (Dict.find k (Dict.adjust c.entity_id (apply_command c) m) ≡ some s')
      × (obey o s' ≡ obey (later o (if c.entity_id == k then some c else none)) s)
obey-adjust k c o m s e named = elim (ℕ_discrete c.entity_id k) [
  | yes same ↦
      let es = subst⁻¹ (λ (j : ℕ). Dict.find j m ≡ some s) same e in
      (
        apply_command c s,
        find-adjust c.entity_id k (apply_command c) m s es ∙ rw ((==_iff _ _).1 same),
        rw ((==_iff c.entity_id k).1 same) (obey-later o c s),
      )
  | no other ↦
      let (t, et) = find_of_contains c.entity_id m named in
      (
        s,
        find-adjust c.entity_id k (apply_command c) m t et ∙ rw (==_ne _ _ other) e,
        rw (==_ne c.entity_id k other, later_none o),
      )
]

-- What the loop asks of the queue.
abbrev IsPassable : ℕ → Dict StoredEntity → VelocityCommand → Type 0
IsPassable next m c = (next ≤ c.target_tick) × (Dict.contains c.entity_id m ≡ true)

applied-find :
    (next k : ℕ) (cs : List VelocityCommand) (m m' : Dict StoredEntity) (s : StoredEntity)
    → IsSorted cs
    → All (IsPassable next m) cs
    → Dict.find k m ≡ some s
    → apply_commands next cs m ≡ ok m'
    → Dict.find k m' ≡ some (obey (last_due next k cs) s)
unfolding apply_commands last_due Dict.update_at
applied-find next k [] m m' s o p e r = rw (← ok-injective r) e
applied-find next k (c ∷ cs) m m' s (o, os) ((ge, named), ps) e r =
    elim (Bool-cases (ltb next c.target_tick)) [
      | inl t ↦
          let lt = ltb→lt next c.target_tick t in
          let rest = All-mono _ _ (λ d. later_than next c d lt) cs o in
          rw
            (
              last_due_later next k cs rest,
              ==_ne c.target_tick next (λ z. omega arith),
              ← ok-injective (rw (le→ltb c.target_tick next ge, t) at r),
            )
            e
      | inr t ↦
          let due : c.target_tick ≡ next = ground arith in
          let (s', es, os') = obey-adjust k c (last_due next k cs) m s e named in
          rw ((==_iff _ _).1 due) (
            applied-find next k cs _ m' s' os
              (All-mono _ _
                (λ d (p : IsPassable next m d).
                  (p.0, contains-adjust c.entity_id d.entity_id (apply_command c) m ∙ p.1))
                cs ps)
              es (rw (le→ltb c.target_tick next ge, t, named) at r)
            ∙ ap some os')
    ]

-- On a valid world the loop over the due commands leaves every entity with the velocity and the
-- sequence of the last command of the queue that is due at the tick and names it, and with nothing
-- else changed; an entity that no due command names stays as it was.
pub apply_commands-last_due :
    (w : World) (k : ℕ) (s : StoredEntity) (applied : Dict StoredEntity)
    → IsValid w
    → Dict.find k w.entities ≡ some s
    → apply_commands (w.clock.tick_index + 1) w.pending_commands w.entities ≡ ok applied
    → Dict.find k applied ≡ some (obey (last_due (w.clock.tick_index + 1) k w.pending_commands) s)
apply_commands-last_due w k s applied v e r =
    applied-find (w.clock.tick_index + 1) k w.pending_commands w.entities applied s v.sorted
      (All-mono _ _ (λ c (q : IsQueued w c). (omega (arith, q.ahead), q.named)) w.pending_commands
        v.queued)
      e r
