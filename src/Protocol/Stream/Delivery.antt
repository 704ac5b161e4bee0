-- ===== src/Protocol/Stream/Delivery.antt =====
-- cpp/src/protocol/stream_parser.cpp on what cpp/src/protocol/command_envelope_codec.cpp encodes.
use tickline.Base.{
  ◌≤◌, le→ltb, ◌≡◌, refl, ap, sym, ◌∙◌, none, some, List, [], ◌∷◌, ◌++◌, append-nil, length,
  ok-injective, ok, arith,
}
use tickline.Base.Words.{Bytes}
use tickline.Command.Envelope.{CommandEnvelope}
use tickline.Protocol.Frames.{ProtocolLimits, FrameHeader, check_header, command_envelope}
use tickline.Protocol.Codec.{encode_command_envelope, encode_command_frame, command_frame_size}
use tickline.Protocol.Codec.RoundTrip.{
  header_bytes, payload_bytes, encode_command_frame_layout, encode_command_envelope_layout,
}
use tickline.Protocol.Stream.{OwnedFrame, FrameStreamParser, push, finish, frame_stream_parser}
use tickline.Protocol.Stream.Automaton.{Run, settle, without_header, feed_all, feed_all-append}
use tickline.Protocol.Stream.Phases.{answer, decoded_then, settle_then}
use tickline.Protocol.Stream.Refinement.{push-feed_all}

-- The header of an encoded command.
abbrev command_header : FrameHeader
command_header = record {
  version = 1;
  header_size = 16;
  frame_size = 76;
  message_type = command_envelope;
  flags = 0;
}

-- The frame of a command.
abbrev pub command_frame : CommandEnvelope → OwnedFrame
command_frame e = record { header = command_header; payload = encode_command_envelope e }

check_header-header_bytes :
    (limits : ProtocolLimits)
    → command_frame_size ≤ limits.maximum_frame_size
    → check_header header_bytes limits ≡ ok command_header
unfolding check_header header_bytes
check_header-header_bytes limits h = rw (le→ltb limits.maximum_frame_size 76 h)

length-header_bytes : length header_bytes ≡ 16
unfolding header_bytes
length-header_bytes = refl

length-encode_command_envelope : (e : CommandEnvelope) → length (encode_command_envelope e) ≡ 60
unfolding payload_bytes
length-encode_command_envelope e = rw (encode_command_envelope_layout e)

module _ (limits : ProtocolLimits) (room : command_frame_size ≤ limits.maximum_frame_size) where
  abbrev idle : FrameStreamParser
  idle = record { limits = limits; buffer = []; current_header = none; failure = none }

  abbrev under : FrameStreamParser
  under = record {
    limits = limits;
    buffer = header_bytes;
    current_header = some command_header;
    failure = none;
  }

  feed_frame_header : without_header idle header_bytes ≡ ([], under)
  unfolding without_header settle header_bytes
  feed_frame_header = rw (length-header_bytes, check_header-header_bytes limits room)

  feed_payload :
      (e : CommandEnvelope)
      → feed_all under (encode_command_envelope e) ≡ (command_frame e ∷ [], idle)
  unfolding settle feed_all header_bytes
  feed_payload e =
      let payload = encode_command_envelope e in
      ap (feed_all under) (sym (append-nil payload))
      ∙ settle_then under payload [] command_header refl refl (rw length-encode_command_envelope)
          (rw length-encode_command_envelope (omega arith))
      ∙ rw length-encode_command_envelope

  feed_frame :
      (e : CommandEnvelope) → feed_all idle (encode_command_frame e) ≡ (command_frame e ∷ [], idle)
  feed_frame e =
      rw
        (
          encode_command_frame_layout e,
          decoded_then idle header_bytes (encode_command_envelope e) refl refl
              (rw length-header_bytes) (rw length-header_bytes (omega arith)),
          feed_frame_header,
        )
        (rw (feed_payload e))

-- The stream of a client that sends the commands one after the other.
abbrev pub stream_of : List CommandEnvelope → Bytes
stream_of [] = []
stream_of (e ∷ es) = encode_command_frame e ++ stream_of es

abbrev pub frames_of : List CommandEnvelope → List OwnedFrame
frames_of [] = []
frames_of (e ∷ es) = command_frame e ∷ frames_of es

feed_commands :
    (limits : ProtocolLimits) (room : command_frame_size ≤ limits.maximum_frame_size)
    (es : List CommandEnvelope)
    → feed_all (idle limits room) (stream_of es) ≡ (frames_of es, idle limits room)
unfolding feed_all
feed_commands limits room [] = refl
feed_commands limits room (e ∷ es) = rw (
  feed_all-append (idle limits room) (encode_command_frame e) (stream_of es),
  feed_frame limits room e,
  feed_commands limits room es,
)

-- A new parser with room for a command, given the encodings of any commands, emits for each command
-- in order the frame with its encoded envelope, is again as it was made, and then finishes without
-- an error.
pub push-stream_of :
    (limits : ProtocolLimits) (p : FrameStreamParser) (es : List CommandEnvelope)
    → command_frame_size ≤ limits.maximum_frame_size
    → frame_stream_parser limits ≡ ok p
    → (push p (stream_of es) ≡ ok (ok (frames_of es), p)) × (finish p ≡ (ok tt, p))
unfolding frame_stream_parser finish
push-stream_of limits p es room e =
    let small = le→ltb limits.maximum_frame_size 16 (omega arith) in
    let made : idle limits room ≡ p = ok-injective (rw small at e) in
    rw (← made) (
      push-feed_all (idle limits room) (stream_of es)
            (record { roomy = omega arith; held = omega arith; part = λ _. omega arith })
          ∙ ap (λ (r : Run). ok (answer r)) (feed_commands limits room es),
      refl,
    )
