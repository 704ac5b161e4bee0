-- ===== src/Base/Dict.antt =====
-- `std::map` with unsigned keys: an association list in the order of its keys.
use tickline.Base.Tests.{Bool-cases, ==_ne, ltb, ◌==◌, if◌then◌else◌}
use tickline.Base.Results.{Result, ok, err, Exception, out_of_range}
use Prim.Native.Nat.{ℕ}
use mathlib.Core.Path.{◌≡◌, refl, ap}
use native.Mathlib.Decide.{ℕ_discrete}
use mathlib.Core.Logic.{inl, inr}
use mathlib.Core.Bool.{Bool, true, false}
use mathlib.Core.Option.{Option, none, some}
use mathlib.Core.List.{List, [], ◌∷◌}
use native.Mathlib.Omega.{arith}

abbrev pub Dict {ℓ} : Type ℓ → Type ℓ
Dict V = List (ℕ × V)

module _ {ℓ} {V : Type ℓ} where
  unfoldable pub find : ℕ → Dict V → Option V
  find k [] = none
  find k ((j, v) ∷ m) = if j == k then some v else find k m

  unfoldable pub contains : ℕ → Dict V → Bool
  contains k [] = false
  contains k ((j, v) ∷ m) = if j == k then true else contains k m

  -- `emplace` leaves a key that is there as it is.
  unfoldable pub emplace : ℕ → V → Dict V → Dict V
  emplace k v [] = (k, v) ∷ []
  emplace k v ((j, w) ∷ m) =
      if j == k then (j, w) ∷ m else if ltb k j then (k, v) ∷ (j, w) ∷ m else (j, w) ∷ emplace k v m

  abbrev or_throw : Option V → Result Exception V
  or_throw none = err out_of_range
  or_throw (some v) = ok v

  -- `m.at(k)`
  unfoldable pub at : ℕ → Dict V → Result Exception V
  at k m = or_throw (find k m)

  unfoldable pub adjust : ℕ → (V → V) → Dict V → Dict V
  adjust k f [] = []
  adjust k f ((j, v) ∷ m) = if j == k then (j, f v) ∷ m else (j, v) ∷ adjust k f m

  -- A write through the reference that `m.at(k)` gives.
  unfoldable pub update_at : ℕ → (V → V) → Dict V → Result Exception (Dict V)
  update_at k f m = if contains k m then ok (adjust k f m) else err out_of_range

  pub find-emplace :
      (k j : ℕ) (v : V) (m : Dict V)
      → contains k m ≡ false
      → find j (emplace k v m) ≡ (if k == j then some v else find j m)
  unfolding find emplace contains
  find-emplace k j v [] h = refl
  find-emplace k j v ((i, w) ∷ m) h = ground (arith, find-emplace k j v m)

  pub contains-emplace :
      (k j : ℕ) (v : V) (m : Dict V)
      → contains j (emplace k v m) ≡ (if k == j then true else contains j m)
  unfolding contains emplace
  contains-emplace k j v [] = refl
  contains-emplace k j v ((i, w) ∷ m) = ground (arith, contains-emplace k j v m)

  pub find-adjust :
      (k j : ℕ) (f : V → V) (m : Dict V) (v : V)
      → find k m ≡ some v
      → find j (adjust k f m) ≡ (if k == j then some (f v) else find j m)
  unfolding find adjust
  find-adjust k j f [] v h = cc
  find-adjust k j f ((i, w) ∷ m) v h = ground (arith, find-adjust k j f m v)

  pub contains-adjust :
      (k j : ℕ) (f : V → V) (m : Dict V) → contains j (adjust k f m) ≡ contains j m
  unfolding contains adjust
  contains-adjust k j f [] = refl
  contains-adjust k j f ((i, w) ∷ m) = ground (arith, contains-adjust k j f m)

  pub find_of_contains : (k : ℕ) (m : Dict V) → contains k m ≡ true → (v : V) × (find k m ≡ some v)
  unfolding find contains
  find_of_contains k [] h = cc
  find_of_contains k ((j, v) ∷ m) h = elim (Bool-cases (j == k)) [
    | inl e ↦ (v, rw e)
    | inr e ↦ rw e (find_of_contains k m (rw e at h))
  ]

  pub contains_of_find : (k : ℕ) (m : Dict V) (v : V) → find k m ≡ some v → contains k m ≡ true
  unfolding find contains
  contains_of_find k [] v h = cc
  contains_of_find k ((j, w) ∷ m) v h = ground (arith, contains_of_find k m v)

module _ {ℓ} {V : Type ℓ} where
  -- A new key leaves the old ones as they were.
  pub find-emplace_keeps :
      (k j : ℕ) (v u : V) (m : Dict V)
      → contains k m ≡ false
      → find j m ≡ some u
      → find j (emplace k v m) ≡ some u
  find-emplace_keeps k j v u m n h = elim (ℕ_discrete k j) [
    | yes e ↦ cc (contains_of_find j m u h, ap (λ (i : ℕ). contains i m) e)
    | no e ↦ rw (find-emplace k j v m n, ==_ne k j e) h
  ]

-- A predicate of every entry.
abbrev pub AllEntries {ℓ κ} : {V : Type ℓ} → (ℕ → V → Type κ) → Dict V → Type κ
AllEntries P [] = Unit {_}
AllEntries P ((k, v) ∷ m) = P k v × AllEntries P m

module _ {ℓ κ} {V : Type ℓ} (P : ℕ → V → Type κ) where
  pub AllEntries-emplace :
      (k : ℕ) (v : V) (m : Dict V) → P k v → AllEntries P m → AllEntries P (emplace k v m)
  unfolding emplace
  AllEntries-emplace k v [] h hs = (h, hs)
  AllEntries-emplace k v ((j, w) ∷ m) h hs = elim (Bool-cases (j == k)) [
    | inl e ↦ rw e hs
    | inr e ↦ rw e (elim (Bool-cases (ltb k j)) [
      | inl l ↦ rw l (h, hs)
      | inr l ↦ rw l (hs.0, AllEntries-emplace k v m h hs.1)
    ])
  ]

  pub AllEntries-adjust :
      (k : ℕ) (f : V → V) (m : Dict V)
      → ((j : ℕ) (v : V) → P j v → P j (f v))
      → AllEntries P m
      → AllEntries P (adjust k f m)
  unfolding adjust
  AllEntries-adjust k f [] keep hs = hs
  AllEntries-adjust k f ((j, w) ∷ m) keep hs = elim (Bool-cases (j == k)) [
    | inl e ↦ rw e (keep j w hs.0, hs.1)
    | inr e ↦ rw e (hs.0, AllEntries-adjust k f m keep hs.1)
  ]
