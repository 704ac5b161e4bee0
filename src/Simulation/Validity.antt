-- ===== src/Simulation/Validity.antt =====
-- cpp/src/simulation/world.cpp: what a valid world is.
pub mod Clocks
pub mod Adding
pub mod Queueing
pub mod Ticking
pub mod Applying
pub mod Advancing
use tickline.Base.{ℕ, suc, ◌+◌, ◌*◌, ◌^◌, ◌≤◌, ◌<◌, ◌≡◌, some, true, All, List}
use tickline.Base.Int.{ℤ, pos, pos_part, neg_part, IsI64}
use tickline.Base.Words.{u64_max}
use tickline.Base.Dict
use tickline.Base.Dict.{Dict, AllEntries}
use tickline.Simulation.Units.{Velocity2}
use tickline.Simulation.Clock.{FixedStepClock}
use tickline.Simulation.Motion.{IsWithin}
use tickline.Simulation.Motion.Exact.{IsResidual}
use tickline.Simulation.Schedule.{VelocityCommand, IsSorted}
use tickline.Simulation.World.{World, WorldLimits, StoredEntity}

-- The clock has counted every tick at its full length, and no count has wrapped.
pub record IsRunning (c : FixedStepClock) : Type 0 where
  pub steps : (0 < pos_part c.tick_duration) × (neg_part c.tick_duration ≡ 0)
  pub duration_fits : IsI64 c.tick_duration
  pub index_fits : c.tick_index ≤ u64_max
  pub exact : c.elapsed ≡ pos (c.tick_index * pos_part c.tick_duration)
  pub elapsed_fits : IsI64 c.elapsed

-- The limits are positive, and no velocity within them can overflow one tick's displacement.
pub record IsSafe (l : WorldLimits) (d : ℤ) : Type 0 where
  pub position_limit : (0 < pos_part l.max_abs_position) × (neg_part l.max_abs_position ≡ 0)
  pub position_limit_fits : IsI64 l.max_abs_position
  pub velocity_limit : (0 < pos_part l.max_abs_velocity) × (neg_part l.max_abs_velocity ≡ 0)
  pub safe : pos_part l.max_abs_velocity * pos_part d + 999_999 < 2 ^ 63

abbrev pub IsAllowed : WorldLimits → Velocity2 → Type 0
IsAllowed l v = IsWithin v.x l.max_abs_velocity × IsWithin v.y l.max_abs_velocity

-- An entity is stored under its own identifier, inside the limits.
pub record IsPlaced (l : WorldLimits) (k : ℕ) (s : StoredEntity) : Type 0 where
  pub own_id : s.state.id ≡ k
  pub inside :
      IsWithin s.state.position.x l.max_abs_position
      × IsWithin s.state.position.y l.max_abs_position
  pub allowed : IsAllowed l s.state.velocity
  pub residuals : IsResidual s.residual_x × IsResidual s.residual_y

-- A queued command is still to come, names an entity, and is no newer than the books say.
pub record IsQueued (w : World) (c : VelocityCommand) : Type 0 where
  pub ahead : w.clock.tick_index < c.target_tick
  pub named : Dict.contains c.entity_id w.entities ≡ true
  pub allowed : IsAllowed w.limits c.velocity
  pub sequenced : (h : ℕ) × (Dict.find c.entity_id w.highest_sequence ≡ some h) × (c.sequence ≤ h)
  pub scheduled :
      (t : ℕ) × (Dict.find c.entity_id w.latest_target_tick ≡ some t) × (c.target_tick ≤ t)

pub record IsValid (w : World) : Type 0 where
  pub running : IsRunning w.clock
  pub limited : IsSafe w.limits w.clock.tick_duration
  pub placed : AllEntries (IsPlaced w.limits) w.entities
  pub booked :
      (k : ℕ)
      → (Dict.contains k w.highest_sequence ≡ Dict.contains k w.entities)
        × (Dict.contains k w.latest_target_tick ≡ Dict.contains k w.entities)
  pub queued : All (IsQueued w) w.pending_commands
  pub sorted : IsSorted w.pending_commands
