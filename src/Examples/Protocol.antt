-- ===== src/Examples/Protocol.antt =====
-- Examples of the protocol.
use tickline.Base.{◌≤◌, ◌≡◌, refl, replicate, none, [], ◌∷◌, All, ok, arith}
use tickline.Base.Words.{Bytes, IsByte, i64_of_u64, u64_of_i64}
use tickline.Command.Evidence.Chain.{empty_log}
use tickline.Protocol.Codec.{
  encode_command_envelope, encode_command_frame, decode_command_envelope, decode_command_frame,
}
use tickline.Protocol.Codec.RoundTrip.{decode-encode_command_frame, encode-decode_command_envelope}
use tickline.Protocol.Codec.Canonical.{encode-decode_command_frame}
use tickline.Protocol.Gateway.{AuthoritativeCommandGateway, Answered, submit}
use tickline.Protocol.Gateway.Laws.{IsHandled, submit-IsHandled}
use tickline.Protocol.Stream.{
  FrameStreamParser, StreamParseResult, frame_stream_parser, push, finish,
}
use tickline.Protocol.Stream.Automaton.{feed_all, IsReady}
use tickline.Protocol.Stream.Phases.{answer}
use tickline.Protocol.Stream.Refinement.{push-feed_all}
use tickline.Protocol.Stream.Chunks.{IsSplit, push-append, push-IsReady}
use tickline.Protocol.Stream.Delivery.{stream_of, frames_of, push-stream_of}
use tickline.Command.Evidence.Chain.Growth.{empty_log-verify}
use tickline.Examples.Data.{
  envelope, envelope-IsEnvelope, opened, opened-IsOpen, peopled, peopled-IsValid, frames,
  peopled-IsCountable,
}

abbrev idle : FrameStreamParser
idle = record { limits = frames; buffer = []; current_header = none; failure = none }

idle-IsReady : IsReady idle
idle-IsReady = record { roomy = omega arith; held = omega arith; part = λ _. omega arith }

push-feed_all_example :
    push idle (0x54 ∷ 0x49 ∷ []) ≡ ok (answer (feed_all idle (0x54 ∷ 0x49 ∷ [])))
push-feed_all_example = push-feed_all idle (0x54 ∷ 0x49 ∷ []) idle-IsReady

push-IsReady_example : (r : StreamParseResult) × (push idle (0x54 ∷ 0x49 ∷ []) ≡ ok r) × IsReady r.1
push-IsReady_example = push-IsReady idle (0x54 ∷ 0x49 ∷ []) idle-IsReady

push-append_example : IsSplit idle (encode_command_frame envelope) (replicate 16 0)
push-append_example = push-append idle (encode_command_frame envelope) (replicate 16 0) idle-IsReady

idle-made : frame_stream_parser frames ≡ ok idle
unfolding frame_stream_parser
idle-made = refl

push-stream_of_example :
    (push idle (stream_of (envelope ∷ envelope ∷ []))
      ≡ ok (ok (frames_of (envelope ∷ envelope ∷ [])), idle))
    × (finish idle ≡ (ok tt, idle))
push-stream_of_example =
    push-stream_of frames idle (envelope ∷ envelope ∷ []) (omega arith) idle-made

decode-encode_command_frame_example :
    decode_command_frame (encode_command_frame envelope) frames ≡ ok (ok envelope)
decode-encode_command_frame_example =
    decode-encode_command_frame envelope frames envelope-IsEnvelope (omega arith)

abbrev payload : Bytes
payload =
    0 ∷ 1 ∷ 0 ∷ 1 ∷ 0 ∷ 0 ∷ 0 ∷ 0 ∷ 0 ∷ 0 ∷ 0 ∷ 3 ∷ 0 ∷ 0 ∷ 0 ∷ 0 ∷ 0 ∷ 0 ∷ 0 ∷ 4 ∷ 0 ∷ 0 ∷ 0 ∷ 0
    ∷ 0 ∷ 0 ∷ 0 ∷ 1 ∷ 0 ∷ 0 ∷ 0 ∷ 0 ∷ 0 ∷ 0 ∷ 0 ∷ 2 ∷ 0 ∷ 0 ∷ 0 ∷ 0 ∷ 0 ∷ 0 ∷ 0 ∷ 7 ∷ 255 ∷ 255
    ∷ 255 ∷ 255 ∷ 255 ∷ 255 ∷ 248 ∷ 48 ∷ 0 ∷ 0 ∷ 0 ∷ 0 ∷ 0 ∷ 0 ∷ 7 ∷ 208 ∷ []

payload-IsByte : All IsByte payload
payload-IsByte = omega arith

payload_decodes : decode_command_envelope payload ≡ ok envelope
unfolding decode_command_envelope i64_of_u64
payload_decodes = refl

encode-decode_command_envelope_example : encode_command_envelope envelope ≡ payload
encode-decode_command_envelope_example =
    encode-decode_command_envelope payload payload-IsByte envelope payload_decodes

abbrev frame : Bytes
frame = 0x54 ∷ 0x49 ∷ 0x43 ∷ 0x4b ∷ 0 ∷ 1 ∷ 0 ∷ 16 ∷ 0 ∷ 0 ∷ 0 ∷ 76 ∷ 0 ∷ 1 ∷ 0 ∷ 0 ∷ payload

frame-IsByte : All IsByte frame
frame-IsByte = omega arith

frame_made : encode_command_frame envelope ≡ frame
unfolding encode_command_frame u64_of_i64
frame_made = refl

frame_decodes : decode_command_frame frame frames ≡ ok (ok envelope)
frame_decodes = rw (← frame_made) decode-encode_command_frame_example

encode-decode_command_frame_example :
    (encode_command_frame envelope ≡ frame) × (76 ≤ frames.maximum_frame_size)
encode-decode_command_frame_example =
    encode-decode_command_frame frame frames envelope frame-IsByte frame_decodes

abbrev gateway : AuthoritativeCommandGateway
gateway = record { limits = frames; evidence = empty_log }

submit-IsHandled_example :
    (a : Answered) × (submit 1_000 gateway opened peopled (encode_command_frame envelope) ≡ ok a)
    × IsHandled 1_000 gateway opened peopled (encode_command_frame envelope) a
submit-IsHandled_example =
    submit-IsHandled 1_000 gateway opened peopled (encode_command_frame envelope) (omega arith)
      peopled-IsValid opened-IsOpen peopled-IsCountable empty_log-verify
