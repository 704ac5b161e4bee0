-- ===== src/Simulation/Schedule.antt =====
-- cpp/include/tickline/simulation/world.hpp and cpp/src/simulation/world.cpp: queued commands and
-- their order.
pub mod Order
use tickline.Base.{ℕ, ltb, ◌==◌, if◌then◌else◌, Bool, not, true, false, ◌≡◌, List, [], ◌∷◌, All}
use tickline.Simulation.Units.{EntityId, Velocity2}

pub record VelocityCommand : Type 0 where
  pub target_tick : ℕ
  pub entity_id : EntityId
  pub sequence : ℕ
  pub velocity : Velocity2

unfoldable pub command_order : VelocityCommand → VelocityCommand → Bool
command_order left right =
    if not (left.target_tick == right.target_tick)
    then ltb left.target_tick right.target_tick
    else if not (left.entity_id == right.entity_id)
    then ltb left.entity_id right.entity_id
    else ltb left.sequence right.sequence

unfoldable pub insert_command : VelocityCommand → List VelocityCommand → List VelocityCommand
insert_command c [] = c ∷ []
insert_command c (d ∷ ds) = if command_order c d then c ∷ d ∷ ds else d ∷ insert_command c ds

-- `std::sort` by `command_order`. The order is total on distinct keys, so the standard leaves no
-- choice of the result but among equal keys.
unfoldable pub sort_commands : List VelocityCommand → List VelocityCommand
unfolding insert_command
sort_commands [] = []
sort_commands (c ∷ cs) = insert_command c (sort_commands cs)

-- No command stands behind one that it precedes.
abbrev pub IsSorted : List VelocityCommand → Type 0
IsSorted [] = Unit {0}
IsSorted (c ∷ cs) = All (λ d. command_order d c ≡ false) cs × IsSorted cs
