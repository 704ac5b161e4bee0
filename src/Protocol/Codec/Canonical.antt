-- ===== src/Protocol/Codec/Canonical.antt =====
-- cpp/src/protocol/command_envelope_codec.cpp: the decoder of frames accepts nothing but encodings.
use tickline.Base.{
  ℕ, ◌+◌, ◌≤◌, ◌==◌, ==_iff, ltb, ltb→le, not, Bool, true, false, throw_if-eq-ok, ◌≡◌, refl, ap,
  sym, ◌∙◌, [], ◌∷◌, ◌++◌, length, length-drop, length-take, All, take, drop, take-append-drop,
  get_or, tabulate-get_or, ap₂, ok, ok-injective, first_step, All-get_or, subst, arith,
}
use tickline.Base.Words.{Bytes, IsByte, bytes_u16, bytes_u32, bytes_u16-join, bytes_u32-join}
use tickline.Command.Envelope.{CommandEnvelope}
use tickline.Protocol.Frames.{
  parse_frame, decode_frame_header, validate_limits, check_header, check_size, has_valid_magic,
  read_u16, read_u32, ProtocolLimits, FrameHeader, FrameView, frame_magic, protocol_version,
  command_envelope,
}
use tickline.Protocol.Frames.Laws.{check_header-append, check_header_bounds}
use tickline.Protocol.Codec.{
  encode_command_envelope, encode_command_frame, decode_command_envelope, decode_command_frame,
  command_frame_size,
}
use tickline.Protocol.Codec.RoundTrip.{
  payload_bytes, header_bytes, encode_command_envelope_layout, encode_command_frame_layout,
  encode-decode_command_envelope,
}

not-false : (b : Bool) → not b ≡ false → b ≡ true
not-false true e = refl
not-false false e = cc

-- What an accepted header has in its sixteen bytes.
record HasFields (bs : Bytes) (header : FrameHeader) : Type 0 where
  magic : has_valid_magic bs ≡ true
  version : read_u16 bs 4 ≡ protocol_version
  header_size : read_u16 bs 6 ≡ 16
  frame_size : read_u32 bs 8 ≡ header.frame_size
  message_type : read_u16 bs 12 ≡ command_envelope
  flags : read_u16 bs 14 ≡ 0

check_header-HasFields :
    (bs : Bytes) (limits : ProtocolLimits) (header : FrameHeader)
    → check_header bs limits ≡ ok header
    → HasFields bs header
unfolding check_header
check_header-HasFields bs limits header e =
    let (_, e1) = throw_if-eq-ok (ltb (length bs) 16) _ _ e in
    let (t2, e2) = throw_if-eq-ok (not (has_valid_magic bs)) _ _ e1 in
    let (t3, e3) = throw_if-eq-ok (not (read_u16 bs 4 == protocol_version)) _ _ e2 in
    let (t4, e4) = throw_if-eq-ok (not (read_u16 bs 6 == 16)) _ _ e3 in
    let (_, e5) = throw_if-eq-ok (ltb (read_u32 bs 8) 16) _ _ e4 in
    let (_, e6) = throw_if-eq-ok (ltb limits.maximum_frame_size (read_u32 bs 8)) _ _ e5 in
    let (t7, e7) = throw_if-eq-ok (not (read_u16 bs 14 == 0)) _ _ e6 in
    let (t8, e8) = throw_if-eq-ok (not (read_u16 bs 12 == command_envelope)) _ _ e7 in
    record {
      magic = not-false _ t2;
      version = (==_iff _ _).0 (not-false _ t3);
      header_size = (==_iff _ _).0 (not-false _ t4);
      frame_size = ap (λ (h : FrameHeader). h.frame_size) (ok-injective e8);
      message_type = (==_iff _ _).0 (not-false _ t8);
      flags = (==_iff _ _).0 (not-false _ t7);
    }

valid_magic :
    (bs : Bytes)
    → has_valid_magic bs ≡ true
    → get_or bs 0 0 ∷ get_or bs 1 0 ∷ get_or bs 2 0 ∷ get_or bs 3 0 ∷ [] ≡ frame_magic
unfolding has_valid_magic
valid_magic bs h =
    let m : (get_or bs 0 0 ≡ 0x54)
        × (get_or bs 1 0 ≡ 0x49)
        × (get_or bs 2 0 ≡ 0x43)
        × (get_or bs 3 0 ≡ 0x4b) =
      ground arith in
    rw (m.0, m.1, m.2, m.3) refl

check_size-eq :
    (bs : Bytes) (header : FrameHeader) (view : FrameView)
    → check_size bs header ≡ ok view
    → (length bs ≡ header.frame_size) × (view.payload ≡ drop 16 bs)
unfolding check_size
check_size-eq bs header view e =
    let (t1, e1) = throw_if-eq-ok (ltb (length bs) header.frame_size) _ _ e in
    let (t2, e2) = throw_if-eq-ok (ltb header.frame_size (length bs)) _ _ e1 in
    (
      omega
          (arith, ltb→le (length bs) header.frame_size t1, ltb→le header.frame_size (length bs) t2),
      sym (ap (λ (v : FrameView). v.payload) (ok-injective e2)),
    )

halves_hold : (xs ys : Bytes) → All IsByte (xs ++ ys) → All IsByte xs × All IsByte ys
halves_hold [] ys h = (tt, h)
halves_hold (x ∷ xs) ys (b, h) = let (hx, hy) = halves_hold xs ys h in ((b, hx), hy)

byte : (bs : Bytes) → All IsByte bs → (i : ℕ) → IsByte (get_or bs i 0)
byte bs h i = All-get_or IsByte bs i 0 (omega arith) h

two :
    (bs : Bytes)
    → All IsByte bs
    → (i : ℕ) → bytes_u16 (read_u16 bs i) ≡ get_or bs i 0 ∷ get_or bs (i + 1) 0 ∷ []
two bs h i = bytes_u16-join _ _ (byte bs h i) (byte bs h (i + 1))

four :
    (bs : Bytes)
    → All IsByte bs
    → (i : ℕ)
    → bytes_u32 (read_u32 bs i)
      ≡ get_or bs i 0 ∷ get_or bs (i + 1) 0 ∷ get_or bs (i + 2) 0 ∷ get_or bs (i + 3) 0 ∷ []
four bs h i =
    bytes_u32-join _ _ _ _
      (byte bs h i, (byte bs h (i + 1), (byte bs h (i + 2), (byte bs h (i + 3), tt))))

-- Sixteen bytes that are an accepted header of a frame of 76 bytes are the ones that the encoder writes.
header_bytes-eq :
    (hs : Bytes) (header : FrameHeader)
    → length hs ≡ 16
    → All IsByte hs
    → HasFields hs header
    → header.frame_size ≡ command_frame_size
    → header_bytes ≡ hs
unfolding header_bytes
header_bytes-eq hs header n h f size =
    ap₂ ◌++◌ (sym (valid_magic hs f.magic)) (
      ap₂ ◌++◌ (ap bytes_u16 (sym f.version) ∙ two hs h 4) (
        ap₂ ◌++◌ (ap bytes_u16 (sym f.header_size) ∙ two hs h 6) (
          ap₂ ◌++◌ (ap bytes_u32 (sym (f.frame_size ∙ size)) ∙ four hs h 8) (
            ap₂ ◌++◌ (ap bytes_u16 (sym f.message_type) ∙ two hs h 12)
              (ap bytes_u16 (sym f.flags) ∙ two hs h 14)))))
    ∙ tabulate-get_or 16 hs 0 n

-- The steps of a decoder that accepted.
accepted :
    (bs : Bytes) (limits : ProtocolLimits) (e : CommandEnvelope)
    → decode_command_frame bs limits ≡ ok (ok e)
    → (header : FrameHeader) × (check_header bs limits ≡ ok header)
      × (length bs ≡ header.frame_size)
      × (decode_command_envelope (drop 16 bs) ≡ ok e)
unfolding decode_command_frame parse_frame decode_frame_header
accepted bs limits e d =
    let (r, er, e1) = first_step (parse_frame bs limits) _ d in
    let (view, ev, e2) = first_step r (λ v. decode_command_envelope v.payload) (ok-injective e1) in
    let (h, eh, e3) = first_step (decode_frame_header bs limits) _ er in
    let (header, es, e4) = first_step h (check_size bs) (ok-injective e3 ∙ ev) in
    let (_, _, e5) = first_step (validate_limits limits) _ eh in
    let (size, payload) = check_size-eq bs header view e4 in
    (header, ok-injective e5 ∙ es, size, ap decode_command_envelope (sym payload) ∙ e2)

-- Bytes that decode as a frame to a command are the frame that the encoder makes of that command, and
-- the limits leave room for it: no header field, length or payload byte is ignored.
pub encode-decode_command_frame :
    (bs : Bytes) (limits : ProtocolLimits) (e : CommandEnvelope)
    → All IsByte bs
    → decode_command_frame bs limits ≡ ok (ok e)
    → (encode_command_frame e ≡ bs) × (command_frame_size ≤ limits.maximum_frame_size)
unfolding payload_bytes
encode-decode_command_frame bs limits e h d =
    let (header, eh, size, ep) = accepted bs limits e d in
    let (_, fits, enough) = check_header_bounds bs limits header eh in
    let (hh, hp) =
      halves_hold (take 16 bs) (drop 16 bs) (subst (All IsByte) (sym (take-append-drop 16 bs)) h) in
    let payload : encode_command_envelope e ≡ drop 16 bs =
      encode-decode_command_envelope (drop 16 bs) hp e ep in
    let n : length (drop 16 bs) ≡ 60 =
      ap length (sym payload) ∙ ap length (encode_command_envelope_layout e) in
    let n16 : length (take 16 bs) ≡ 16 = omega (arith, length-take 16 bs, enough) in
    let whole : header.frame_size ≡ 76 = omega (arith, n, length-drop 16 bs, size, enough) in
    let front : check_header (take 16 bs) limits ≡ ok header =
      sym (check_header-append (take 16 bs) (drop 16 bs) limits (omega (arith, n16)))
      ∙ ap (λ x. check_header x limits) (take-append-drop 16 bs)
      ∙ eh in
    (
      encode_command_frame_layout e
          ∙ ap₂ ◌++◌
              (header_bytes-eq (take 16 bs) header n16 hh
                (check_header-HasFields (take 16 bs) limits header front) whole)
              payload
          ∙ take-append-drop 16 bs,
      omega (arith, whole, fits),
    )
