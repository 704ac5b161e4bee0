-- ===== src/Simulation/Canonical.antt =====
-- cpp/src/simulation/canonical_state.cpp: the bytes that stand for a world.
pub mod Laws
use tickline.Base.{
  ℕ, List, [], ◌∷◌, ◌++◌, length, Result, Exception, ok, overflow_error, ◌>>=◌, ◌>>◌, throw_if, ltb,
}
use tickline.Base.Dict
use tickline.Base.Words.{Bytes, bytes_u16, bytes_u64, u64_of_i64, u64_max}
use tickline.Base.Int.{ℤ}
use tickline.Simulation.Units.{EntityId}
use tickline.Simulation.Clock.{Tick}
use tickline.Simulation.Schedule.{VelocityCommand}
use tickline.Simulation.World.{World, StoredEntity, current_tick}
use tickline.Simulation.Fingerprint.{StateFingerprint, fingerprint_bytes}

abbrev canonical_state_schema_version : ℕ
canonical_state_schema_version = 1

abbrev magic : Bytes
magic = 0x54 ∷ 0x4c ∷ 0x57 ∷ 0x53 ∷ []

abbrev pub append_u16 : Bytes → ℕ → Bytes
append_u16 output value = output ++ bytes_u16 value

abbrev pub append_u64 : Bytes → ℕ → Bytes
append_u64 output value = output ++ bytes_u64 value

abbrev append_i64 : Bytes → ℤ → Bytes
append_i64 output value = append_u64 output (u64_of_i64 value)

unfoldable pub checked_size : ℕ → Result Exception ℕ
checked_size value = do throw_if (ltb u64_max value) overflow_error; ok value

-- The fields of an entity.
unfoldable pub append_stored : EntityId → StoredEntity → Bytes → Bytes
append_stored id stored output =
    let o1 = append_u64 output id in
    let o2 = append_i64 o1 stored.state.position.x in
    let o3 = append_i64 o2 stored.state.position.y in
    let o4 = append_i64 o3 stored.state.velocity.x in
    let o5 = append_i64 o4 stored.state.velocity.y in
    let o6 = append_u64 o5 stored.state.last_sequence in
    let o7 = append_i64 o6 stored.residual_x in append_i64 o7 stored.residual_y

-- The body of the loop over the entities: the fields, then the entity's line in the books.
unfoldable pub append_entity : World → EntityId → StoredEntity → Bytes → Result Exception Bytes
append_entity w id stored output = do
  let o8 = append_stored id stored output
  highest ← Dict.at id w.highest_sequence
  let o9 = append_u64 o8 highest
  latest ← Dict.at id w.latest_target_tick
  ok (append_u64 o9 latest)

unfoldable pub append_entities :
    World → List (EntityId × StoredEntity) → Bytes → Result Exception Bytes
append_entities w [] output = ok output
append_entities w ((id, stored) ∷ rest) output =
    append_entity w id stored output >>= append_entities w rest

-- The body of the loop over the commands.
unfoldable pub append_command : VelocityCommand → Bytes → Bytes
append_command c output =
    append_i64
      (append_i64 (append_u64 (append_u64 (append_u64 output c.target_tick) c.entity_id) c.sequence)
        c.velocity.x)
      c.velocity.y

unfoldable pub append_commands : List VelocityCommand → Bytes → Bytes
unfolding append_command
append_commands [] output = output
append_commands (c ∷ cs) output = append_commands cs (append_command c output)

-- What stands in front of the entities.
unfoldable pub preamble : World → Bytes
unfolding current_tick
preamble w =
    let o1 = append_u16 (append_u16 magic canonical_state_schema_version) 0 in
    let o2 = append_u64 o1 (current_tick w).index in
    let o3 = append_i64 o2 (current_tick w).elapsed in
    let o4 = append_i64 o3 w.clock.tick_duration in
    let o5 = append_i64 o4 w.limits.max_abs_position in append_i64 o5 w.limits.max_abs_velocity

unfoldable pub encode_world_state : World → Result Exception Bytes
unfolding preamble append_entities checked_size append_commands append_entity append_stored
encode_world_state w = do
  entity_count ← checked_size (length w.entities)
  output ← append_entities w w.entities (append_u64 (preamble w) entity_count)
  pending_count ← checked_size (length w.pending_commands)
  ok (append_commands w.pending_commands (append_u64 output pending_count))

unfoldable pub fingerprint_world_state : World → Result Exception StateFingerprint
unfolding encode_world_state fingerprint_bytes
fingerprint_world_state w = do bytes ← encode_world_state w; ok (fingerprint_bytes bytes)
