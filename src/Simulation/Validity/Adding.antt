-- ===== src/Simulation/Validity/Adding.antt =====
-- cpp/src/simulation/world.cpp: validity of new worlds and of add_entity.
use native.Mathlib.Nat.{div-add-mod}
use tickline.Base.{
  ℕ, ◌+◌, ◌*◌, ◌/◌, ◌^◌, ◌<◌, ◌≤◌, ◌≡◌, refl, ap, inl, inr, Bool-cases, true, false, some, List, [],
  ◌∷◌, All, ok, first_step, ok-injective, subst, subst₂, arith,
}
use tickline.Base.Int.{
  ℤ, pos, pos_part, neg_part, ◌-ℤ◌, quot, ltb_ℤ, leb_ℤ, i64_max, IsI64, quot-pos, pos-pos_part,
}
use tickline.Base.Dict
use tickline.Base.Dict.{Dict, AllEntries, AllEntries-emplace, contains-emplace, find-emplace_keeps}
use tickline.Simulation.Units.{Position2, Velocity2}
use tickline.Simulation.Clock.{FixedStepClock, fixed_step_clock}
use tickline.Simulation.Motion.{IsWithin}
use tickline.Simulation.Motion.Exact.{within_symmetric_limit-IsWithin}
use tickline.Simulation.Schedule.{VelocityCommand}
use tickline.Simulation.World.{
  World, WorldLimits, EntityState, StoredEntity, current_tick, world, check_limits,
  safe_velocity_limit, add_entity, position_is_valid, velocity_is_valid,
}
use tickline.Simulation.Validity.{IsSafe, IsAllowed, IsPlaced, IsQueued, IsValid}
use tickline.Simulation.Validity.Clocks.{fixed_step_clock-IsRunning}

pub velocity_is_valid-IsAllowed :
    (w : World) (v : Velocity2)
    → neg_part w.limits.max_abs_velocity ≡ 0
    → velocity_is_valid w v ≡ true
    → IsAllowed w.limits v
unfolding velocity_is_valid
velocity_is_valid-IsAllowed w v z h = (
  within_symmetric_limit-IsWithin v.x _ z (ground arith),
  within_symmetric_limit-IsWithin v.y _ z (ground arith),
)

position_is_valid-inside :
    (w : World) (p : Position2)
    → neg_part w.limits.max_abs_position ≡ 0
    → position_is_valid w p ≡ true
    → IsWithin p.x w.limits.max_abs_position × IsWithin p.y w.limits.max_abs_position
unfolding position_is_valid
position_is_valid-inside w p z h = (
  within_symmetric_limit-IsWithin p.x _ z (ground arith),
  within_symmetric_limit-IsWithin p.y _ z (ground arith),
)

-- The test of the constructor leaves room for one tick's displacement and the carry.
safe_bound :
    (m d : ℕ)
    → 0 < d
    → d < 2 ^ 63
    → ltb_ℤ (quot (i64_max -ℤ (pos 1_000_000 -ℤ pos 1)) (pos d)) (pos m) ≡ false
    → m * d + 999_999 < 2 ^ 63
unfolding ◌-ℤ◌
safe_bound m d p f h =
    let room : ℕ = 9_223_372_036_853_775_808 in
    let bound : m ≤ room / d = ground (arith, quot-pos (pos room) d p) in
    let product : m * d ≤ room / d * d = grind arith in omega (arith, div-add-mod room d)

module _ (d : ℤ) (l : WorldLimits) where
  checked-IsSafe :
      0 < pos_part d
      → neg_part d ≡ 0
      → IsI64 d
      → IsI64 l.max_abs_position
      → IsI64 l.max_abs_velocity
      → leb_ℤ l.max_abs_position (pos 0) ≡ false
      → leb_ℤ l.max_abs_velocity (pos 0) ≡ false
      → ltb_ℤ (safe_velocity_limit d) l.max_abs_velocity ≡ false
      → IsSafe l d
  checked-IsSafe hd zd fd hp hv t1 t2 t3 = record {
    position_limit = ground arith;
    position_limit_fits = hp;
    velocity_limit = ground arith;
    safe = safe_bound _ _ hd (omega arith) (
        subst₂ (λ a b. ltb_ℤ (safe_velocity_limit a) b ≡ false) (pos-pos_part d zd)
          (pos-pos_part _ (ground arith)) t3);
  }

  -- A world that the constructor returns is valid, for parameters that are int64_t values.
  pub world-IsValid :
      (w : World)
      → IsI64 d
      → IsI64 l.max_abs_position
      → IsI64 l.max_abs_velocity
      → world d l ≡ ok w
      → IsValid w
  unfolding world Dict.contains
  world-IsValid w hd hp hv e =
      let (c, ec, e1) = first_step (fixed_step_clock d) (check_limits d l) e in
      let (running, same) = fixed_step_clock-IsRunning d c hd ec in
      elim (Bool-cases (leb_ℤ l.max_abs_position (pos 0))) [
        | inl t ↦ absurd (cc (e1, t))
        | inr t1 ↦ elim (Bool-cases (leb_ℤ l.max_abs_velocity (pos 0))) [
          | inl t ↦ absurd (cc (rw t1 at e1, t))
          | inr t2 ↦ elim (Bool-cases (ltb_ℤ (safe_velocity_limit d) l.max_abs_velocity)) [
            | inl t ↦ absurd (cc (rw (t1, t2) at e1, t))
            | inr t3 ↦ subst IsValid (ok-injective (rw (t1, t2, t3) at e1)) (record {
              running = running;
              limited = rw same (
                  checked-IsSafe (rw same at running.steps.0) (rw same at running.steps.1) hd hp hv
                    t1 t2 t3);
              placed = tt;
              booked = λ k. (refl, refl);
              queued = tt;
              sorted = tt;
            })
          ]
        ]
      ]

module _ (w : World) (v : IsValid w) (e : EntityState) where
  -- The books may only grow, so what they say of a queued command still holds.
  All-keeps :
      (w' : World)
      → w'.clock ≡ w.clock
      → w'.limits ≡ w.limits
      → ((k : ℕ) → Dict.contains k w.entities ≡ true → Dict.contains k w'.entities ≡ true)
      → ((k h : ℕ)
          → Dict.find k w.highest_sequence ≡ some h
          → Dict.find k w'.highest_sequence ≡ some h)
      → ((k h : ℕ)
          → Dict.find k w.latest_target_tick ≡ some h
          → Dict.find k w'.latest_target_tick ≡ some h)
      → (cs : List VelocityCommand) → All (IsQueued w) cs
      → All (IsQueued w') cs
  All-keeps w' c l a b d [] h = tt
  All-keeps w' c l a b d (q ∷ qs) (h, hs) = (
    record {
      ahead = rw (ap (λ (x : FixedStepClock). x.tick_index) c) h.ahead;
      named = a q.entity_id h.named;
      allowed = rw l h.allowed;
      sequenced = (h.sequenced.0, b q.entity_id _ h.sequenced.1, h.sequenced.2);
      scheduled = (h.scheduled.0, d q.entity_id _ h.scheduled.1, h.scheduled.2);
    },
    All-keeps w' c l a b d qs hs,
  )

  added_entity : StoredEntity
  added_entity = record {
    state = record e { last_sequence = 0 };
    residual_x = pos 0;
    residual_y = pos 0;
  }

  with_entity : World
  unfolding added_entity current_tick
  with_entity = record w {
    entities = Dict.emplace e.id added_entity w.entities;
    highest_sequence = Dict.emplace e.id 0 w.highest_sequence;
    latest_target_tick = Dict.emplace e.id (current_tick w).index w.latest_target_tick;
  }

  with_entity-IsValid :
      Dict.contains e.id w.entities ≡ false
      → position_is_valid w e.position ≡ true
      → velocity_is_valid w e.velocity ≡ true
      → IsValid with_entity
  unfolding with_entity
  with_entity-IsValid n p q = record {
    running = v.running;
    limited = v.limited;
    placed =
        AllEntries-emplace (IsPlaced w.limits) e.id added_entity w.entities
          (record {
            own_id = refl;
            inside = position_is_valid-inside w e.position v.limited.position_limit.1 p;
            allowed = velocity_is_valid-IsAllowed w e.velocity v.limited.velocity_limit.1 q;
            residuals = omega arith;
          })
          v.placed;
    booked = λ k. ground (
      arith,
      contains-emplace e.id k added_entity w.entities,
      contains-emplace e.id k 0 w.highest_sequence,
      contains-emplace e.id k (current_tick w).index w.latest_target_tick,
      v.booked k,
    );
    queued =
        All-keeps with_entity refl refl
          (λ k h. ground (arith, contains-emplace e.id k added_entity w.entities))
          (λ k h. find-emplace_keeps e.id k _ h w.highest_sequence (cc ((v.booked e.id).0, n)))
          (λ k h. find-emplace_keeps e.id k _ h w.latest_target_tick (cc ((v.booked e.id).1, n)))
          w.pending_commands v.queued;
    sorted = v.sorted;
  }

  -- Whatever add_entity answers, the world that it leaves is valid.
  pub add_entity-IsValid : IsValid (add_entity w e).1
  unfolding add_entity with_entity
  add_entity-IsValid = elim (Bool-cases (Dict.contains e.id w.entities)) [
    | inl t ↦ rw t v
    | inr t1 ↦ elim (Bool-cases (position_is_valid w e.position)) [
      | inr t ↦ rw (t1, t) v
      | inl t2 ↦ elim (Bool-cases (velocity_is_valid w e.velocity)) [
        | inr t ↦ rw (t1, t2, t) v
        | inl t3 ↦ rw (t1, t2, t3) (with_entity-IsValid t1 t2 t3)
      ]
    ]
  ]
