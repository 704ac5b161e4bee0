-- ===== src/Protocol/Stream.antt =====
-- cpp/include/tickline/protocol/stream_parser.hpp and cpp/src/protocol/stream_parser.cpp: frames from
-- a stream that comes in chunks. `bytes` below is what the offset has not passed.
pub mod Automaton
pub mod Phases
pub mod Refinement
pub mod Chunks
pub mod Delivery
use tickline.Base.{
  not, ℕ, zero, suc, ◌+◌, ◌-◌, min, ltb, if◌then◌else◌, Bool, true, false, ◌||◌, Option, none, some,
  List, [], ◌∷◌, ◌++◌, length, take, drop, Result, Exception, ok, err, invalid_argument, ◌>>=◌,
  ◌>>◌, throw_if,
}
use tickline.Base.Words.{Bytes}
use tickline.Protocol.Frames.{
  ProtocolLimits, ParseErrorCode, FrameHeader, FrameView, frame_header_size, decode_frame_header,
  parse_frame, truncated_header, truncated_frame,
}

pub record OwnedFrame : Type 0 where
  pub header : FrameHeader
  pub payload : Bytes

pub record FrameStreamParser : Type 0 where
  pub limits : ProtocolLimits
  pub buffer : Bytes
  pub current_header : Option FrameHeader
  pub failure : Option ParseErrorCode

abbrev pub has_value {ℓ} : {A : Type ℓ} → Option A → Bool
has_value none = false
has_value (some a) = true

-- The constructor.
unfoldable pub frame_stream_parser : ProtocolLimits → Result Exception FrameStreamParser
frame_stream_parser limits = do
  throw_if (ltb limits.maximum_frame_size frame_header_size) invalid_argument
  ok (record { limits = limits; buffer = []; current_header = none; failure = none })

-- Why a run of the loop has no answer: the code threw, or the model's bound on the rounds was met.
pub data Halt : Type 0 where
  thrown : Exception → Halt
  out_of_rounds : Halt

abbrev or_halt {ℓ} : {A : Type ℓ} → Result Exception A → Result Halt A
or_halt (ok a) = ok a
or_halt (err e) = err (thrown e)

-- What `push` answers, with the parser that it leaves.
abbrev pub StreamParseResult : Type 0
StreamParseResult = Result ParseErrorCode (List OwnedFrame) × FrameStreamParser

abbrev pub fail : ParseErrorCode → FrameStreamParser → StreamParseResult
fail code p = (err code, record p { failure = some code })

-- `buffer_.insert(end, bytes + offset, bytes + offset + count)`
abbrev pub buffered : FrameStreamParser → ℕ → Bytes → FrameStreamParser
buffered p count bytes = record p { buffer = p.buffer ++ take count bytes }

-- How the first half of a round ends: with `break`, with a failure, or with a header.
pub data HeaderStep : Type 0 where
  stops : FrameStreamParser → HeaderStep
  fails : ParseErrorCode → FrameStreamParser → HeaderStep
  continues : FrameHeader → FrameStreamParser → Bytes → HeaderStep

abbrev accept_header : FrameStreamParser → Bytes → Result ParseErrorCode FrameHeader → HeaderStep
accept_header p rest (err code) = fails code p
accept_header p rest (ok header) = continues header (record p { current_header = some header }) rest

decode_next : FrameStreamParser → Bytes → Result Halt HeaderStep
decode_next p bytes =
    let required = frame_header_size - length p.buffer in
    let count = min required (length bytes) in
    let p' = buffered p count bytes in
    if ltb (length p'.buffer) frame_header_size then ok (stops p') else (do
      header_result ← or_halt (decode_frame_header p'.buffer p'.limits)
      ok (accept_header p' (drop count bytes) header_result))

abbrev header_step : Option FrameHeader → FrameStreamParser → Bytes → Result Halt HeaderStep
header_step (some header) p bytes = ok (continues header p bytes)
header_step none p bytes = decode_next p bytes

pub read_header : FrameStreamParser → Bytes → Result Halt HeaderStep
unfolding decode_next
read_header p bytes = header_step p.current_header p bytes

-- How the second half ends: with `break`, with a failure, or with a frame.
pub data FrameStep : Type 0 where
  stops : FrameStreamParser → FrameStep
  fails : ParseErrorCode → FrameStreamParser → FrameStep
  emits : OwnedFrame → FrameStreamParser → Bytes → FrameStep

abbrev accept_frame : FrameStreamParser → Bytes → Result ParseErrorCode FrameView → FrameStep
accept_frame p rest (err code) = fails code p
accept_frame p rest (ok parsed) =
    emits (record { header = parsed.header; payload = parsed.payload })
      (record p { buffer = []; current_header = none }) rest

pub read_frame : FrameHeader → FrameStreamParser → Bytes → Result Halt FrameStep
read_frame header p bytes =
    let required = header.frame_size - length p.buffer in
    let count = min required (length bytes) in
    let p' = buffered p count bytes in
    if ltb (length p'.buffer) header.frame_size then ok (stops p') else (do
      parsed ← or_halt (parse_frame p'.buffer p'.limits)
      ok (accept_frame p' (drop count bytes) parsed))

-- What calls the rest of the loop.
abbrev pub Rest : Type 0
Rest = FrameStreamParser → Bytes → List OwnedFrame → Result Halt StreamParseResult

abbrev pub on_frame : Rest → List OwnedFrame → FrameStep → Result Halt StreamParseResult
on_frame next frames (stops p) = ok (ok frames, p)
on_frame next frames (fails code p) = ok (fail code p)
on_frame next frames (emits frame p bytes) = next p bytes (frames ++ (frame ∷ []))

abbrev pub on_header : Rest → List OwnedFrame → HeaderStep → Result Halt StreamParseResult
on_header next frames (stops p) = ok (ok frames, p)
on_header next frames (fails code p) = ok (fail code p)
on_header next frames (continues header p bytes) =
    read_frame header p bytes >>= on_frame next frames

-- The loop of `push`, with a bound on its rounds.
pub push_loop : ℕ → FrameStreamParser → Bytes → List OwnedFrame → Result Halt StreamParseResult
push_loop zero p bytes frames = err out_of_rounds
push_loop (suc rounds) p bytes frames =
    if ltb 0 (length bytes) || has_value p.current_header
    then (read_header p bytes >>= on_header (push_loop rounds) frames)
    else ok (ok frames, p)

-- Each round but the last takes a byte, so one round more than the bytes is enough.
abbrev push_from : Option ParseErrorCode → FrameStreamParser → Bytes → Result Halt StreamParseResult
push_from (some code) p bytes = ok (err code, p)
push_from none p bytes = push_loop (length bytes + 1) p bytes []

unfoldable pub push : FrameStreamParser → Bytes → Result Halt StreamParseResult
push p bytes = push_from p.failure p bytes

-- What `finish` answers, with the parser that it leaves.
abbrev pub FinishResult : Type 0
FinishResult = Result ParseErrorCode (Unit {0}) × FrameStreamParser

abbrev finish_with_error : ParseErrorCode → FrameStreamParser → FinishResult
finish_with_error code p = (err code, record p { failure = some code })

abbrev finish_from : Option ParseErrorCode → FrameStreamParser → FinishResult
finish_from (some code) p = (err code, p)
finish_from none p =
    if not (ltb 0 (length p.buffer))
    then (ok tt, p)
    else if ltb (length p.buffer) frame_header_size
    then finish_with_error truncated_header p
    else finish_with_error truncated_frame p

unfoldable pub finish : FrameStreamParser → FinishResult
finish p = finish_from p.failure p

unfoldable pub reset : FrameStreamParser → FrameStreamParser
reset p = record p { buffer = []; current_header = none; failure = none }
