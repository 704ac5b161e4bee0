-- ===== src/Simulation/Canonical/Laws.antt =====
-- cpp/src/simulation/canonical_state.cpp: the bytes of a valid world, and their number.
use tickline.Base.{
  ℕ, ◌+◌, ◌*◌, ◌≤◌, le→ltb, ◌≡◌, refl, ◌∙◌, true, List, [], ◌∷◌, length, length-append, ok, ==_refl,
  arith,
}
use tickline.Base.Dict
use tickline.Base.Dict.{find_of_contains}
use tickline.Base.Words.{Bytes, u64_max, bytes_u64}
use tickline.Simulation.Units.{EntityId}
use tickline.Simulation.Schedule.{VelocityCommand}
use tickline.Simulation.World.{World, StoredEntity}
use tickline.Simulation.Validity.{IsValid}
use tickline.Simulation.Fingerprint.{StateFingerprint, fingerprint_bytes}
use tickline.Simulation.Canonical.{
  append_u64, append_stored, append_entity, append_entities, append_command, append_commands,
  preamble, checked_size, encode_world_state, fingerprint_world_state,
}

length-append_stored :
    (id : EntityId) (stored : StoredEntity) (output : Bytes)
    → length (append_stored id stored output) ≡ length output + 64
unfolding append_stored
length-append_stored id stored output = simp length-append (omega arith)

module _ (w : World) (v : IsValid w) where
  append_entity_total :
      (id : EntityId) (stored : StoredEntity) (output : Bytes)
      → Dict.contains id w.entities ≡ true
      → (bs : Bytes) × (append_entity w id stored output ≡ ok bs) × (length bs ≡ length output + 80)
  unfolding append_entity Dict.at
  append_entity_total id stored output named =
      let (h, eh) = find_of_contains id w.highest_sequence (cc ((v.booked id).0, named)) in
      let (t, et) = find_of_contains id w.latest_target_tick (cc ((v.booked id).1, named)) in
      (
        append_u64 (append_u64 (append_stored id stored output) h) t,
        rw (eh, et),
        simp length-append (omega (arith, length-append_stored id stored output)),
      )

  append_entities_total :
      (es : List (EntityId × StoredEntity)) (output : Bytes)
      → ((k : ℕ) → Dict.contains k es ≡ true → Dict.contains k w.entities ≡ true)
      → (bs : Bytes) × (append_entities w es output ≡ ok bs)
        × (length bs ≡ length output + 80 * length es)
  unfolding append_entities Dict.contains
  append_entities_total [] output h = (output, refl, omega arith)
  append_entities_total ((id, stored) ∷ es) output h =
      let (bs, e, l) = append_entity_total id stored output (h id (rw (==_refl id))) in
      let (cs, e', l') = append_entities_total es bs (λ k c. h k (ground arith)) in
      (cs, rw e e', omega arith)

length-append_commands :
    (cs : List VelocityCommand) (output : Bytes)
    → length (append_commands cs output) ≡ length output + 40 * length cs
unfolding append_commands append_command
length-append_commands [] output = omega arith
length-append_commands (c ∷ cs) output =
    length-append_commands cs (append_command c output) ∙ simp length-append (omega arith)

length-preamble : (w : World) → length (preamble w) ≡ 48
unfolding preamble
length-preamble w = refl

-- A valid world whose entities and queue can be counted in 64 bits is encoded without an exception,
-- in 64 bytes and 80 for each entity and 40 for each queued command.
pub encode_world_state_total :
    (w : World)
    → IsValid w
    → length w.entities ≤ u64_max
    → length w.pending_commands ≤ u64_max
    → (bs : Bytes) × (encode_world_state w ≡ ok bs)
      × (length bs ≡ 64 + 80 * length w.entities + 40 * length w.pending_commands)
unfolding encode_world_state checked_size
encode_world_state_total w v he hp =
    let start = append_u64 (preamble w) (length w.entities) in
    let (bs, e, l) = append_entities_total w v w.entities start (λ k c. c) in
    let counted = append_u64 bs (length w.pending_commands) in
    (
      append_commands w.pending_commands counted,
      rw (le→ltb u64_max (length w.entities) he, e, le→ltb u64_max (length w.pending_commands) hp),
      omega (
        arith,
        length-append_commands w.pending_commands counted,
        length-append bs (bytes_u64 (length w.pending_commands)),
        l,
        length-append (preamble w) (bytes_u64 (length w.entities)),
        length-preamble w,
      ),
    )

-- Then the fingerprint of the world is defined.
pub fingerprint_world_state_total :
    (w : World)
    → IsValid w
    → length w.entities ≤ u64_max
    → length w.pending_commands ≤ u64_max
    → (f : StateFingerprint) × (fingerprint_world_state w ≡ ok f)
unfolding fingerprint_world_state
fingerprint_world_state_total w v he hp =
    let (bs, e, _) = encode_world_state_total w v he hp in (fingerprint_bytes bs, rw e)
