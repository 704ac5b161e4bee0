-- ===== src/Protocol/Codec/RoundTrip.antt =====
-- cpp/src/protocol/command_envelope_codec.cpp: the layout of the encodings, and decoding against it.
use tickline.Base.{
  ℕ, ◌+◌, ◌<◌, ◌≤◌, ◌==◌, ◌≡◌, refl, ap, ◌∙◌, [], ◌∷◌, ◌++◌, length, All, All-get_or, get_or,
  tabulate, tabulate-get_or, Bool-cases, inl, inr, ok, le→ltb, ==_ne, ==_iff, ap₂, ok-injective,
  arith,
}
use tickline.Base.Int.{IsI64}
use tickline.Base.Words.{
  Bytes, IsByte, IsU16, IsU64, bytes_u16, bytes_u32, bytes_u64, u64_of_i64, i64_of_u64, join,
  join-bytes_u64, join_u16, join_u16-bytes, bytes_u16-join, bytes_u64-join, u64_of_i64-i64_of_u64,
  join-IsU64, u64_of_i64-IsU64, i64_of_u64-u64_of_i64,
}
use tickline.Command.Envelope.{CommandEnvelope}
use tickline.Protocol.Frames.{
  parse_frame, check_header, check_size, ProtocolLimits, frame_magic, protocol_version,
  command_envelope,
}
use tickline.Protocol.Codec.{
  envelope_of, encode_command_envelope, encode_command_frame, decode_command_envelope,
  decode_command_frame, command_frame_size,
}

-- The fields in their order, each most significant byte first.
unfoldable pub payload_bytes : CommandEnvelope → Bytes
payload_bytes e =
    bytes_u16 e.schema_version
    ++ (bytes_u16 e.type
        ++ (bytes_u64 e.client_id
            ++ (bytes_u64 e.session_id
                ++ (bytes_u64 e.sequence
                    ++ (bytes_u64 e.target_tick
                        ++ (bytes_u64 e.payload.entity_id
                            ++ (bytes_u64 (u64_of_i64 e.payload.velocity.x)
                                ++ bytes_u64 (u64_of_i64 e.payload.velocity.y))))))))

unfoldable pub header_bytes : Bytes
header_bytes =
    frame_magic
    ++ (bytes_u16 protocol_version
        ++ (bytes_u16 16
            ++ (bytes_u32 command_frame_size ++ (bytes_u16 command_envelope ++ bytes_u16 0))))

-- The 60 bytes of an encoded envelope are its nine fields, without gap or overlap.
pub encode_command_envelope_layout :
    (e : CommandEnvelope) → encode_command_envelope e ≡ payload_bytes e
unfolding encode_command_envelope payload_bytes
encode_command_envelope_layout e = refl

-- A frame is the header, 16 bytes, and the encoded envelope.
pub encode_command_frame_layout :
    (e : CommandEnvelope) → encode_command_frame e ≡ header_bytes ++ encode_command_envelope e
unfolding encode_command_frame encode_command_envelope header_bytes
encode_command_frame_layout e = refl

-- The values that the fields of an envelope can hold.
pub record IsEnvelope (e : CommandEnvelope) : Type 0 where
  pub schema_version : IsU16 e.schema_version
  pub type : IsU16 e.type
  pub client_id : IsU64 e.client_id
  pub session_id : IsU64 e.session_id
  pub sequence : IsU64 e.sequence
  pub target_tick : IsU64 e.target_tick
  pub entity_id : (0 < e.payload.entity_id) × IsU64 e.payload.entity_id
  pub velocity : IsI64 e.payload.velocity.x × IsI64 e.payload.velocity.y

-- Decoding gives back the envelope that was encoded.
pub decode-encode_command_envelope :
    (e : CommandEnvelope)
    → IsEnvelope e
    → decode_command_envelope (encode_command_envelope e) ≡ ok e
unfolding decode_command_envelope payload_bytes
decode-encode_command_envelope e v =
    let x = u64_of_i64 e.payload.velocity.x in
    let y = u64_of_i64 e.payload.velocity.y in
    rw (
      encode_command_envelope_layout e,
      join-bytes_u64 e.payload.entity_id v.entity_id.1,
      ==_ne e.payload.entity_id 0 (λ z. omega (arith, v.entity_id)),
      join_u16-bytes e.schema_version v.schema_version,
      join_u16-bytes e.type v.type,
      join-bytes_u64 e.client_id v.client_id,
      join-bytes_u64 e.session_id v.session_id,
      join-bytes_u64 e.sequence v.sequence,
      join-bytes_u64 e.target_tick v.target_tick,
      join-bytes_u64 x (u64_of_i64-IsU64 _ v.velocity.0),
      join-bytes_u64 y (u64_of_i64-IsU64 _ v.velocity.1),
      i64_of_u64-u64_of_i64 e.payload.velocity.x v.velocity.0,
      i64_of_u64-u64_of_i64 e.payload.velocity.y v.velocity.1,
    )

-- The frame parser accepts an encoded frame, under limits that leave room for it.
decode_frame_payload :
    (e : CommandEnvelope) (limits : ProtocolLimits)
    → command_frame_size ≤ limits.maximum_frame_size
    → decode_command_frame (encode_command_frame e) limits
      ≡ ok (decode_command_envelope (encode_command_envelope e))
unfolding decode_command_frame parse_frame check_header check_size payload_bytes header_bytes
decode_frame_payload e limits h = rw (
  encode_command_frame_layout e,
  encode_command_envelope_layout e,
  le→ltb limits.maximum_frame_size 16 (omega arith),
  le→ltb limits.maximum_frame_size 76 h,
)

-- A frame that the encoder wrote decodes to the envelope, under any limits that allow 76 bytes.
pub decode-encode_command_frame :
    (e : CommandEnvelope) (limits : ProtocolLimits)
    → IsEnvelope e
    → command_frame_size ≤ limits.maximum_frame_size
    → decode_command_frame (encode_command_frame e) limits ≡ ok (ok e)
decode-encode_command_frame e limits v h =
    decode_frame_payload e limits h ∙ ap ok (decode-encode_command_envelope e v)

module _ (bs : Bytes) (h : All IsByte bs) where
  is_byte : (i : ℕ) → IsByte (get_or bs i 0)
  is_byte i = All-get_or IsByte bs i 0 (omega arith) h

  two :
      (i : ℕ)
      → bytes_u16 (join_u16 (get_or bs i 0) (get_or bs (i + 1) 0))
        ≡ get_or bs i 0 ∷ get_or bs (i + 1) 0 ∷ []
  two i = bytes_u16-join _ _ (is_byte i) (is_byte (i + 1))

  abbrev bytes_at : ℕ → Bytes
  bytes_at i = tabulate 8 (λ j. get_or bs (i + j) 0)

  are_bytes : (i : ℕ) → All IsByte (bytes_at i)
  are_bytes i = (
    is_byte _,
    (is_byte _, (is_byte _, (is_byte _, (is_byte _, (is_byte _, (is_byte _, (is_byte _, tt))))))),
  )

  eight : (i : ℕ) → bytes_u64 (join 0 (bytes_at i)) ≡ bytes_at i
  eight i = bytes_u64-join _ _ _ _ _ _ _ _ (are_bytes i)

  signed : (i : ℕ) → bytes_u64 (u64_of_i64 (i64_of_u64 (join 0 (bytes_at i)))) ≡ bytes_at i
  signed i =
      ap bytes_u64 (u64_of_i64-i64_of_u64 _ (join-IsU64 _ _ _ _ _ _ _ _ (are_bytes i))) ∙ eight i

  payload_bytes-envelope_of : payload_bytes (envelope_of bs) ≡ tabulate 60 (λ i. get_or bs i 0)
  unfolding payload_bytes envelope_of
  payload_bytes-envelope_of = ap₂ ◌++◌ (two 0) (
      ap₂ ◌++◌ (two 2) (
        ap₂ ◌++◌ (eight 4) (
          ap₂ ◌++◌ (eight 12) (
            ap₂ ◌++◌ (eight 20)
              (ap₂ ◌++◌ (eight 28) (ap₂ ◌++◌ (eight 36) (ap₂ ◌++◌ (signed 44) (signed 52))))))))

  -- A payload of bytes that decodes is the encoding of what it decodes to: no two payloads decode to
  -- the same envelope, and none has a part that the decoder ignores.
  pub encode-decode_command_envelope :
      (e : CommandEnvelope) → decode_command_envelope bs ≡ ok e → encode_command_envelope e ≡ bs
  unfolding decode_command_envelope
  encode-decode_command_envelope e d = elim (Bool-cases (length bs == 60)) [
    | inr t ↦ absurd (cc (d, t))
    | inl t ↦ elim (Bool-cases (join 0 (bytes_at 36) == 0)) [
      | inl z ↦ absurd (cc (rw t at d, z))
      | inr z ↦
          let same : envelope_of bs ≡ e = ok-injective (rw (t, z) at d) in
          rw (← same) (
            encode_command_envelope_layout (envelope_of bs)
            ∙ payload_bytes-envelope_of
            ∙ tabulate-get_or 60 bs 0 ((==_iff _ _).0 t))
    ]
  ]
