-- ===== src/Simulation/Validity/Ticking.antt =====
-- cpp/src/simulation/world.cpp, World::advance: the loops over the due commands
-- and over the entities, on a valid world.
use tickline.Base.{
  ℕ, ◌≤◌, ltb, ◌≡◌, refl, ◌∙◌, ◌⊎◌, inl, inr, Bool, Bool-cases, true, List, [], ◌∷◌, All, ok, err,
  overflow_error, le→ltb,
}
use tickline.Base.Int.{ℤ, pos, ◌+ℤ◌, ◌*ℤ◌, quot}
use tickline.Base.Dict
use tickline.Base.Dict.{Dict, AllEntries, AllEntries-adjust, contains-adjust}
use tickline.Simulation.Motion.{
  microseconds_per_second, IsWithin, integrate_axis, scaled_displacement, AxisIntegration,
}
use tickline.Simulation.Motion.Exact.{IsResidual, displacement_fits, integrate_axis_cases}
use tickline.Simulation.Schedule.{VelocityCommand}
use tickline.Simulation.World.{WorldLimits, StoredEntity}
use tickline.Simulation.Advance.{
  apply_command, apply_commands, integrate_entity, integrate_entities,
}
use tickline.Simulation.Validity.{IsSafe, IsAllowed, IsPlaced}

-- What the loop over the queue needs of a command.
abbrev pub IsDue : WorldLimits → ℕ → (ℕ → Bool) → VelocityCommand → Type 0
IsDue l next keys c = (next ≤ c.target_tick) × (keys c.entity_id ≡ true) × IsAllowed l c.velocity

apply_command-IsPlaced :
    (l : WorldLimits) (c : VelocityCommand)
    → IsAllowed l c.velocity
    → (k : ℕ) (s : StoredEntity) → IsPlaced l k s
    → IsPlaced l k (apply_command c s)
unfolding apply_command
apply_command-IsPlaced l c a k s p = record {
  own_id = p.own_id;
  inside = p.inside;
  allowed = a;
  residuals = p.residuals;
}

-- The loop over the queue throws nothing: no command is late, and each finds its entity.
pub apply_commands_total :
    (l : WorldLimits) (next : ℕ) (keys : ℕ → Bool) (cs : List VelocityCommand)
    (m : Dict StoredEntity)
    → ((k : ℕ) → Dict.contains k m ≡ keys k)
    → All (IsDue l next keys) cs
    → AllEntries (IsPlaced l) m
    → (m' : Dict StoredEntity) × (apply_commands next cs m ≡ ok m')
      × ((k : ℕ) → Dict.contains k m' ≡ keys k)
      × AllEntries (IsPlaced l) m'
unfolding apply_commands Dict.update_at
apply_commands_total l next keys [] m kk h p = (m, refl, kk, p)
apply_commands_total l next keys (c ∷ cs) m kk (h, hs) p =
    elim (Bool-cases (ltb next c.target_tick)) [
      | inl t ↦ (m, rw (le→ltb _ _ h.0, t), kk, p)
      | inr t ↦
          let m' = Dict.adjust c.entity_id (apply_command c) m in
          rw (le→ltb _ _ h.0, t, kk c.entity_id, h.1)
            (apply_commands_total l next keys cs m'
              (λ k. contains-adjust c.entity_id k (apply_command c) m ∙ kk k) hs
              (AllEntries-adjust _ c.entity_id (apply_command c) m (apply_command-IsPlaced l c h.2)
                p))
    ]

-- A position in millionths of a millimetre, the carry included.
abbrev pub exact_place : ℤ → ℤ → ℤ
exact_place position residual = position *ℤ microseconds_per_second +ℤ residual

-- One tick moves an entity by its velocity times the duration, to the last millionth, and changes
-- nothing else.
pub record HasMoved (d : ℤ) (s s' : StoredEntity) : Type 0 where
  pub same_id : s'.state.id ≡ s.state.id
  pub same_velocity : s'.state.velocity ≡ s.state.velocity
  pub same_sequence : s'.state.last_sequence ≡ s.state.last_sequence
  pub moved_x :
      exact_place s'.state.position.x s'.residual_x
      ≡ s.state.position.x *ℤ microseconds_per_second
        +ℤ scaled_displacement s.state.velocity.x s.residual_x d
  pub moved_y :
      exact_place s'.state.position.y s'.residual_y
      ≡ s.state.position.y *ℤ microseconds_per_second
        +ℤ scaled_displacement s.state.velocity.y s.residual_y d

-- Two dictionaries with the same keys in the same places, and related values.
abbrev pub Pointwise :
    (StoredEntity → StoredEntity → Type 0) → Dict StoredEntity → Dict StoredEntity → Type 0
Pointwise R [] [] = Unit {0}
Pointwise R [] (y ∷ ys) = ⊥
Pointwise R (x ∷ xs) [] = ⊥
Pointwise R ((j, a) ∷ xs) ((k, b) ∷ ys) = (j ≡ k) × R a b × Pointwise R xs ys

-- One axis would leave the limit: the exact new position is outside.
abbrev pub AxisEscapes : WorldLimits → ℤ → ℤ → ℤ → ℤ → Type 0
AxisEscapes l d p v r =
    ¬ IsWithin (p +ℤ quot (scaled_displacement v r d) microseconds_per_second) l.max_abs_position

abbrev pub Escapes : WorldLimits → ℤ → StoredEntity → Type 0
Escapes l d s =
    AxisEscapes l d s.state.position.x s.state.velocity.x s.residual_x
    ⊎ AxisEscapes l d s.state.position.y s.state.velocity.y s.residual_y

abbrev pub SomeEscapes : WorldLimits → ℤ → Dict StoredEntity → Type 0
SomeEscapes l d [] = ⊥
SomeEscapes l d ((k, s) ∷ m) = Escapes l d s ⊎ SomeEscapes l d m

module _ (l : WorldLimits) (d : ℕ) (safe : IsSafe l (pos d)) where
  axis :
      (p v r : ℤ)
      → IsWithin p l.max_abs_position
      → IsWithin v l.max_abs_velocity
      → IsResidual r
      → ((a : AxisIntegration) × (integrate_axis p v r (pos d) l.max_abs_position ≡ ok a)
          × (exact_place a.position a.residual
              ≡ p *ℤ microseconds_per_second +ℤ scaled_displacement v r (pos d))
          × IsWithin a.position l.max_abs_position
          × IsResidual a.residual)
        ⊎ ((integrate_axis p v r (pos d) l.max_abs_position ≡ err overflow_error)
            × AxisEscapes l (pos d) p v r)
  axis p v r hp hv hr =
      elim (integrate_axis_cases p v r l.max_abs_position d safe.position_limit.1
        safe.position_limit_fits hp
        (displacement_fits v r l.max_abs_velocity d safe.safe hv hr).1) [
          | inl a ↦ inl a
          | inr e ↦ inr e
        ]

  integrate_entity_total :
      (k : ℕ) (s : StoredEntity)
      → IsPlaced l k s
      → ((s' : StoredEntity) × (integrate_entity (pos d) l.max_abs_position s ≡ ok s')
          × IsPlaced l k s'
          × HasMoved (pos d) s s')
        ⊎ ((integrate_entity (pos d) l.max_abs_position s ≡ err overflow_error)
            × Escapes l (pos d) s)
  unfolding integrate_entity
  integrate_entity_total k s p =
      elim (axis s.state.position.x s.state.velocity.x s.residual_x p.inside.0 p.allowed.0
        p.residuals.0) [
          | inr (e, out) ↦ inr (rw e, inl out)
          | inl (ax, ex, mx, ix, rx) ↦
              elim (axis s.state.position.y s.state.velocity.y s.residual_y p.inside.1 p.allowed.1
                p.residuals.1) [
                  | inr (e, out) ↦ inr (rw (ex, e), inr out)
                  | inl (ay, ey, my, iy, ry) ↦ inl (
                    record {
                      state = record (s.state) {
                        position = record { x = ax.position; y = ay.position };
                      };
                      residual_x = ax.residual;
                      residual_y = ay.residual;
                    },
                    rw (ex, ey),
                    record {
                      own_id = p.own_id;
                      inside = (ix, iy);
                      allowed = p.allowed;
                      residuals = (rx, ry);
                    },
                    record {
                      same_id = refl;
                      same_velocity = refl;
                      same_sequence = refl;
                      moved_x = mx;
                      moved_y = my;
                    },
                  )
                ]
        ]

  pub integrate_entities_total :
      (m : Dict StoredEntity)
      → AllEntries (IsPlaced l) m
      → ((m' : Dict StoredEntity) × (integrate_entities (pos d) l.max_abs_position m ≡ ok m')
          × AllEntries (IsPlaced l) m'
          × Pointwise (HasMoved (pos d)) m m')
        ⊎ ((integrate_entities (pos d) l.max_abs_position m ≡ err overflow_error)
            × SomeEscapes l (pos d) m)
  unfolding integrate_entities
  integrate_entities_total [] p = inl ([], refl, tt, tt)
  integrate_entities_total ((k, s) ∷ m) (ps, pm) = elim (integrate_entity_total k s ps) [
    | inr (e, out) ↦ inr (rw e, inl out)
    | inl (s', es, qs, hs) ↦ elim (integrate_entities_total m pm) [
      | inr (e, out) ↦ inr (rw (es, e), inr out)
      | inl (m', em, qm, hm) ↦ inl ((k, s') ∷ m', rw (es, em), (qs, qm), (refl, hs, hm))
    ]
  ]
