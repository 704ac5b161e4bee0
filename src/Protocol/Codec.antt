-- ===== src/Protocol/Codec.antt =====
-- cpp/src/protocol/command_envelope_codec.cpp: command envelopes as bytes.
pub mod RoundTrip
pub mod Canonical
use tickline.Base.{
  ℕ, zero, suc, ◌+◌, ◌*◌, ◌==◌, not, List, [], ◌∷◌, ◌++◌, length, get_or, set, take, drop,
  replicate, Result, Exception, ok, err, ◌>>=◌, ◌>>◌, throw_if, bit_or,
}
use tickline.Base.Words.{Bytes, low_byte, shr, shl, join_u16, u64_of_i64, i64_of_u64}
use tickline.Command.Envelope.{CommandEnvelope}
use tickline.Protocol.Frames.{
  ParseErrorCode, payload_size_mismatch, invalid_entity_id, ProtocolLimits, FrameView, parse_frame,
  frame_magic, protocol_version, frame_header_size, command_envelope,
}

abbrev pub command_envelope_payload_size : ℕ
command_envelope_payload_size = 60

abbrev pub command_frame_size : ℕ
command_frame_size = frame_header_size + command_envelope_payload_size

abbrev write_u16 : Bytes → ℕ → ℕ → Bytes
write_u16 bytes offset value =
    set (set bytes offset (low_byte (shr value 8))) (offset + 1) (low_byte value)

abbrev write_u32 : Bytes → ℕ → ℕ → Bytes
write_u32 bytes offset value =
    set
      (set (set (set bytes offset (low_byte (shr value 24))) (offset + 1) (low_byte (shr value 16)))
        (offset + 2) (low_byte (shr value 8)))
      (offset + 3) (low_byte value)

-- The loop of write_u64 with `rounds` bytes to go: the shift is `(7 - index) * 8`.
write_u64_loop : ℕ → Bytes → ℕ → ℕ → Bytes
write_u64_loop zero bytes offset value = bytes
write_u64_loop (suc rounds) bytes offset value =
    write_u64_loop rounds (set bytes offset (low_byte (shr value (rounds * 8)))) (offset + 1) value

write_u64 : Bytes → ℕ → ℕ → Bytes
unfolding write_u64_loop
write_u64 bytes offset value = write_u64_loop 8 bytes offset value

-- The loop of read_u64 with `rounds` bytes to go.
read_u64_loop : ℕ → Bytes → ℕ → ℕ → ℕ
read_u64_loop zero bytes offset value = value
read_u64_loop (suc rounds) bytes offset value =
    read_u64_loop rounds bytes (offset + 1) (bit_or (shl 64 value 8) (get_or bytes offset 0))

read_u64 : Bytes → ℕ → ℕ
unfolding read_u64_loop
read_u64 bytes offset = read_u64_loop 8 bytes offset 0

read_u16 : Bytes → ℕ → ℕ
read_u16 bytes offset = join_u16 (get_or bytes offset 0) (get_or bytes (offset + 1) 0)

-- The payload is written into the bytes from `base` on: `output.subspan(base)` is a view of them.
encode_payload : CommandEnvelope → Bytes → ℕ → Bytes
unfolding write_u64
encode_payload envelope bytes base =
    let b0 = write_u16 bytes (base + 0) envelope.schema_version in
    let b1 = write_u16 b0 (base + 2) envelope.type in
    let b2 = write_u64 b1 (base + 4) envelope.client_id in
    let b3 = write_u64 b2 (base + 12) envelope.session_id in
    let b4 = write_u64 b3 (base + 20) envelope.sequence in
    let b5 = write_u64 b4 (base + 28) envelope.target_tick in
    let b6 = write_u64 b5 (base + 36) envelope.payload.entity_id in
    let b7 = write_u64 b6 (base + 44) (u64_of_i64 envelope.payload.velocity.x) in
    write_u64 b7 (base + 52) (u64_of_i64 envelope.payload.velocity.y)

unfoldable pub encode_command_envelope : CommandEnvelope → Bytes
unfolding encode_payload
encode_command_envelope envelope =
    encode_payload envelope (replicate command_envelope_payload_size 0) 0

-- The loop that copies the magic, from `index` on.
copy_magic : Bytes → ℕ → Bytes → Bytes
copy_magic [] index output = output
copy_magic (m ∷ ms) index output = copy_magic ms (index + 1) (set output index m)

unfoldable pub encode_command_frame : CommandEnvelope → Bytes
unfolding encode_payload copy_magic
encode_command_frame envelope =
    let b0 = copy_magic frame_magic 0 (replicate command_frame_size 0) in
    let b1 = write_u16 b0 4 protocol_version in
    let b2 = write_u16 b1 6 frame_header_size in
    let b3 = write_u32 b2 8 command_frame_size in
    let b4 = write_u16 b3 12 command_envelope in
    let b5 = write_u16 b4 14 0 in encode_payload envelope b5 frame_header_size

-- The envelope that the fields of a payload give.
unfoldable pub envelope_of : Bytes → CommandEnvelope
unfolding read_u64 read_u16
envelope_of payload = record {
  schema_version = read_u16 payload 0;
  type = read_u16 payload 2;
  client_id = read_u64 payload 4;
  session_id = read_u64 payload 12;
  sequence = read_u64 payload 20;
  target_tick = read_u64 payload 28;
  payload = record {
    entity_id = read_u64 payload 36;
    velocity = record {
      x = i64_of_u64 (read_u64 payload 44);
      y = i64_of_u64 (read_u64 payload 52);
    };
  };
}

unfoldable pub decode_command_envelope : Bytes → Result ParseErrorCode CommandEnvelope
unfolding envelope_of
decode_command_envelope payload = do
  throw_if (not (length payload == command_envelope_payload_size)) payload_size_mismatch
  throw_if (read_u64 payload 36 == 0) invalid_entity_id
  ok (envelope_of payload)

unfoldable pub decode_command_frame :
    Bytes → ProtocolLimits → Result Exception (Result ParseErrorCode CommandEnvelope)
unfolding decode_command_envelope
decode_command_frame bytes limits = do
  frame_result ← parse_frame bytes limits
  ok (frame_result >>= λ view. decode_command_envelope view.payload)
