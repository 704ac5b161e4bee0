-- ===== src/Simulation/Schedule/Order.antt =====
-- cpp/src/simulation/world.cpp: the queue before and after the sort.
use mathlib.Core.List.{Perm}
use mathlib.Core.List.Perm
use tickline.Base.{
  suc, ◌≡◌, refl, inl, inr, Bool-cases, true, false, List, [], ◌∷◌, All, length, arith,
}
use tickline.Simulation.Schedule.{
  VelocityCommand, command_order, insert_command, sort_commands, IsSorted,
}

module _ {κ} (P : VelocityCommand → Type κ) where
  All-insert :
      (c : VelocityCommand) (cs : List VelocityCommand)
      → P c
      → All P cs
      → All P (insert_command c cs)
  unfolding insert_command
  All-insert c [] h hs = (h, hs)
  All-insert c (d ∷ ds) h hs = elim (Bool-cases (command_order c d)) [
    | inl e ↦ rw e (h, hs)
    | inr e ↦ rw e (hs.0, All-insert c ds h hs.1)
  ]

  pub All-sort : (cs : List VelocityCommand) → All P cs → All P (sort_commands cs)
  unfolding sort_commands
  All-sort [] h = h
  All-sort (c ∷ cs) h = All-insert c (sort_commands cs) h.0 (All-sort cs h.1)

-- A command in front of one in front of a third is in front of the third.
command_order_trans :
    (a b c : VelocityCommand)
    → command_order a b ≡ true
    → command_order c b ≡ false
    → command_order c a ≡ false
unfolding command_order
command_order_trans a b c h k = ground arith

command_order_asym : (a b : VelocityCommand) → command_order a b ≡ true → command_order b a ≡ false
unfolding command_order
command_order_asym a b h = ground arith

All-later :
    (a b : VelocityCommand) (cs : List VelocityCommand)
    → command_order a b ≡ true
    → All (λ d. command_order d b ≡ false) cs
    → All (λ d. command_order d a ≡ false) cs
All-later a b [] h k = tt
All-later a b (c ∷ cs) h k = (command_order_trans a b c h k.0, All-later a b cs h k.1)

insert-IsSorted :
    (c : VelocityCommand) (cs : List VelocityCommand) → IsSorted cs → IsSorted (insert_command c cs)
unfolding insert_command
insert-IsSorted c [] h = (tt, tt)
insert-IsSorted c (d ∷ ds) h = elim (Bool-cases (command_order c d)) [
  | inl e ↦ rw e ((command_order_asym c d e, All-later c d ds e h.0), h)
  | inr e ↦ rw e (All-insert (λ x. command_order x d ≡ false) c ds e h.0, insert-IsSorted c ds h.1)
]

-- The queue after `std::sort` is in order: no command stands behind one that it precedes by
-- target tick, then entity, then sequence.
pub sort-IsSorted : (cs : List VelocityCommand) → IsSorted (sort_commands cs)
unfolding sort_commands
sort-IsSorted [] = tt
sort-IsSorted (c ∷ cs) = insert-IsSorted c (sort_commands cs) (sort-IsSorted cs)

insert-perm :
    (c : VelocityCommand) (cs : List VelocityCommand) → Perm (insert_command c cs) (c ∷ cs)
unfolding insert_command
insert-perm c [] = Perm.refl (c ∷ [])
insert-perm c (d ∷ ds) = elim (Bool-cases (command_order c d)) [
  | inl e ↦ rw e (Perm.refl (c ∷ d ∷ ds))
  | inr e ↦ rw e (Perm.trans (Perm.cons d (insert-perm c ds)) (Perm.swap c d ds))
]

-- The sort keeps the commands, each as often as it was there.
pub sort-perm : (cs : List VelocityCommand) → Perm (sort_commands cs) cs
unfolding sort_commands
sort-perm [] = Perm.refl []
sort-perm (c ∷ cs) = Perm.trans (insert-perm c (sort_commands cs)) (Perm.cons c (sort-perm cs))

length-insert :
    (c : VelocityCommand) (cs : List VelocityCommand)
    → length (insert_command c cs) ≡ suc (length cs)
unfolding insert_command
length-insert c [] = refl
length-insert c (d ∷ ds) = ground (arith, length-insert c ds)

pub length-sort : (cs : List VelocityCommand) → length (sort_commands cs) ≡ length cs
unfolding sort_commands
length-sort [] = refl
length-sort (c ∷ cs) = omega (arith, length-insert c (sort_commands cs), length-sort cs)
