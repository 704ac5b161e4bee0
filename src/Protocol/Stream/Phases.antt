-- ===== src/Protocol/Stream/Phases.antt =====
-- cpp/src/protocol/stream_parser.cpp: each half of a round of `push` against the automaton.
use native.Mathlib.Decide.{dec_lt}
use tickline.Base.{
  ℕ, ◌+◌, ◌-◌, ◌<◌, ◌≤◌, min, le→ltb, lt→ltb, ◌≡◌, ap, subst, sym, ◌∙◌, Option, none, some, List,
  [], ◌∷◌, ◌++◌, append-nil, length, length-append, length-take, length-drop, take, take_all,
  take-append, drop-append, drop, take-append-drop, Result, ok, err, ◌>>=◌, arith,
}
use tickline.Base.Words.{Bytes}
use tickline.Protocol.Frames.{
  ProtocolLimits, ParseErrorCode, FrameHeader, frame_header_size, check_header, check_size,
  parse_frame,
}
use tickline.Protocol.Frames.Laws.{
  IsRoomy, decode_frame_header-eq, check_header-append, check_header_bounds,
}
use tickline.Protocol.Stream.{
  Rest, on_frame, OwnedFrame, FrameStreamParser, Halt, StreamParseResult, read_header, read_frame,
  accept_header, header_step, HeaderStep, FrameStep,
}
use tickline.Protocol.Stream.Automaton.{
  Run, after, after_assoc, feed_all, feed_all-append, feed_all-without_header, feed_all-keeps,
  feed_all-settle, settle, without_header, IsReady, with_buffer,
}

-- What `push` answers for a run: all frames of the call, or the failure alone.
abbrev pub answer_with :
    Option ParseErrorCode → List OwnedFrame → FrameStreamParser → StreamParseResult
answer_with none frames p = (ok frames, p)
answer_with (some code) frames p = (err code, p)

abbrev pub answer : Run → StreamParseResult
answer r = answer_with r.1.failure r.0 r.1

-- A whole frame in the buffer is parsed as the header says.
parse_frame-eq :
    (buffer : Bytes) (limits : ProtocolLimits) (header : FrameHeader)
    → IsRoomy limits
    → check_header buffer limits ≡ ok header
    → length buffer ≡ header.frame_size
    → parse_frame buffer limits
      ≡ ok (ok (record { header = header; payload = drop frame_header_size buffer }))
unfolding parse_frame check_size
parse_frame-eq buffer limits header r c l = rw (
  decode_frame_header-eq buffer limits r,
  c,
  l,
  le→ltb header.frame_size header.frame_size (omega arith),
)

-- The count that a phase takes off a chunk is what it still needs, if that is there.
count-is :
    (need have : ℕ) (zs rest : Bytes)
    → length zs ≡ need
    → min need (length (zs ++ rest)) ≡ length zs
count-is need have zs rest e = omega (arith, length-append zs rest)

module _ (p : FrameStreamParser) (zs rest : Bytes) (need : ℕ) (e : length zs ≡ need) where
  take-need : take (min need (length (zs ++ rest))) (zs ++ rest) ≡ zs
  take-need = rw (count-is need need zs rest e) (take-append zs rest)

  drop-need : drop (min need (length (zs ++ rest))) (zs ++ rest) ≡ rest
  drop-need = rw (count-is need need zs rest e) (drop-append zs rest)

take-short :
    (need : ℕ) (bytes : Bytes) → length bytes ≤ need → take (min need (length bytes)) bytes ≡ bytes
take-short need bytes h = take_all (min need (length bytes)) bytes (omega arith)

module _ (p : FrameStreamParser) where
  pub read_header_waits :
      (bytes : Bytes)
      → p.current_header ≡ none
      → length p.buffer + length bytes < frame_header_size
      → read_header p bytes ≡ ok (HeaderStep.stops (with_buffer p (p.buffer ++ bytes)))
  unfolding read_header
  read_header_waits bytes c h =
      ap (λ (o : Option FrameHeader). header_step o p bytes) c
      ∙ rw (
        take-short (16 - length p.buffer) bytes (omega arith),
        lt→ltb (length (p.buffer ++ bytes)) 16 (rw length-append h),
      )

  pub read_header_decodes :
      (zs rest : Bytes)
      → IsRoomy p.limits
      → p.current_header ≡ none
      → length p.buffer + length zs ≡ frame_header_size
      → read_header p (zs ++ rest)
        ≡ ok (
            accept_header
              (with_buffer p (p.buffer ++ zs))
              rest
              (check_header (p.buffer ++ zs) p.limits))
  unfolding read_header
  read_header_decodes zs rest r c h =
      ap (λ (o : Option FrameHeader). header_step o p (zs ++ rest)) c
      ∙ rw (
        take-need p zs rest (16 - length p.buffer) (omega arith),
        drop-need p zs rest (16 - length p.buffer) (omega arith),
        le→ltb (length (p.buffer ++ zs)) 16 (rw length-append (omega arith)),
        decode_frame_header-eq (p.buffer ++ zs) p.limits r,
      )

  read_frame_keeps :
      (header : FrameHeader) (bytes : Bytes)
      → length p.buffer + length bytes < header.frame_size
      → read_frame header p bytes ≡ ok (FrameStep.stops (with_buffer p (p.buffer ++ bytes)))
  unfolding read_frame
  read_frame_keeps header bytes h = rw (
    take-short (header.frame_size - length p.buffer) bytes (omega arith),
    lt→ltb (length (p.buffer ++ bytes)) header.frame_size (rw length-append h),
  )

  read_frame_emits :
      (header : FrameHeader) (zs rest : Bytes)
      → IsRoomy p.limits
      → check_header (p.buffer ++ zs) p.limits ≡ ok header
      → length p.buffer + length zs ≡ header.frame_size
      → read_frame header p (zs ++ rest)
        ≡ ok (
            FrameStep.emits
              (record { header = header; payload = drop frame_header_size (p.buffer ++ zs) })
              (record p { buffer = []; current_header = none })
              rest)
  unfolding read_frame
  read_frame_emits header zs rest r c h = rw (
    take-need p zs rest (header.frame_size - length p.buffer) (omega arith),
    drop-need p zs rest (header.frame_size - length p.buffer) (omega arith),
    le→ltb (length (p.buffer ++ zs)) header.frame_size (rw length-append (omega arith)),
    parse_frame-eq (p.buffer ++ zs) p.limits header r c (rw length-append h),
  )

pub answer_idle :
    (p : FrameStreamParser) (frames : List OwnedFrame)
    → p.failure ≡ none
    → ◌≡◌ {A = Result Halt StreamParseResult}
        (ok (answer (after frames ([], p))))
        (ok (ok frames, p))
answer_idle p frames f =
    ap (λ (o : Option ParseErrorCode). ok (answer_with o (frames ++ []) p)) f
    ∙ ap (λ (l : List OwnedFrame). ok (ok l, p)) (append-nil frames)

-- The run over the bytes that end a frame, and what follows.
pub settle_then :
    (p : FrameStreamParser) (zs rest : Bytes) (header : FrameHeader)
    → p.failure ≡ none
    → p.current_header ≡ some header
    → length p.buffer + length zs ≡ header.frame_size
    → 0 < length zs
    → feed_all p (zs ++ rest)
      ≡ after
          (settle p header (p.buffer ++ zs)).0
          (feed_all (settle p header (p.buffer ++ zs)).1 rest)
settle_then p [] rest header f c l n = absurd (omega arith)
settle_then p (b ∷ bs) rest header f c l n =
    feed_all-append p (b ∷ bs) rest
    ∙ ap (λ (r : Run). after r.0 (feed_all r.1 rest)) (feed_all-settle p b bs header f c l)

-- The run over the bytes that end a header, and what follows.
pub decoded_then :
    (p : FrameStreamParser) (zs rest : Bytes)
    → p.failure ≡ none
    → p.current_header ≡ none
    → length p.buffer + length zs ≡ frame_header_size
    → 0 < length zs
    → feed_all p (zs ++ rest)
      ≡ after
          (without_header p (p.buffer ++ zs)).0
          (feed_all (without_header p (p.buffer ++ zs)).1 rest)
decoded_then p [] rest f c l n = absurd (omega arith)
decoded_then p (b ∷ bs) rest f c l n =
    feed_all-append p (b ∷ bs) rest
    ∙ ap (λ (r : Run). after r.0 (feed_all r.1 rest)) (feed_all-without_header p b bs f c l)

settle_more :
    (p : FrameStreamParser) (header : FrameHeader)
    → p.current_header ≡ some header
    → length p.buffer < header.frame_size
    → settle p header p.buffer ≡ ([], p)
unfolding settle
settle_more p header c more =
    rw (lt→ltb (length p.buffer) header.frame_size more)
      (ap (λ (o : Option FrameHeader). ([], record p { current_header = o })) (sym c))

module _ (next : Rest) (rounds : ℕ)
    (ih : (p : FrameStreamParser) (bytes : Bytes) (frames : List OwnedFrame)
      → IsReady p
      → p.failure ≡ none
      → length bytes < rounds
      → next p bytes frames ≡ ok (answer (after frames (feed_all p bytes)))) where
  -- The second half of a round, on the bytes that end the frame.
  ends_frame :
      (p : FrameStreamParser) (header : FrameHeader) (zs rest : Bytes) (frames : List OwnedFrame)
      → IsRoomy p.limits
      → p.failure ≡ none
      → check_header (p.buffer ++ zs) p.limits ≡ ok header
      → length p.buffer + length zs ≡ header.frame_size
      → length rest < rounds
      → (read_frame header p (zs ++ rest) >>= on_frame next frames)
        ≡ ok (
            answer (
              after frames (
                after
                  (settle p header (p.buffer ++ zs)).0
                  (feed_all (settle p header (p.buffer ++ zs)).1 rest))))
  unfolding settle
  ends_frame p header zs rest frames r f c h lt =
      rw
        (
          read_frame_emits p header zs rest r c h,
          le→ltb (length (p.buffer ++ zs)) header.frame_size (rw length-append (omega arith)),
        )
        (ih cleared rest (frames ++ (frame ∷ []))
            (record { roomy = r; held = omega arith; part = λ _. omega arith }) f lt
          ∙ ap (λ (x : Run). ok (answer x))
              (sym (after_assoc frames (frame ∷ []) (feed_all cleared rest))))
    where
      frame : OwnedFrame
      frame = record { header = header; payload = drop frame_header_size (p.buffer ++ zs) }

      cleared : FrameStreamParser
      cleared = record p { buffer = []; current_header = none }

  -- A round that starts under a header.
  pub under_header :
      (p : FrameStreamParser) (header : FrameHeader) (bytes : Bytes) (frames : List OwnedFrame)
      → IsRoomy p.limits
      → p.failure ≡ none
      → p.current_header ≡ some header
      → check_header p.buffer p.limits ≡ ok header
      → length p.buffer < header.frame_size
      → length bytes ≤ rounds
      → (read_frame header p bytes >>= on_frame next frames)
        ≡ ok (answer (after frames (feed_all p bytes)))
  under_header p header bytes frames r f c ch lt le =
      elim (dec_lt (length p.buffer + length bytes) header.frame_size) [
        | yes short ↦
            rw (read_frame_keeps p header bytes short, feed_all-keeps p bytes header f c short)
              (sym (answer_idle (with_buffer p (p.buffer ++ bytes)) frames f))
        | no long ↦
            let zs = take (header.frame_size - length p.buffer) bytes in
            let rest = drop (header.frame_size - length p.buffer) bytes in
            let lz : length p.buffer + length zs ≡ header.frame_size =
              omega (arith, length-take (header.frame_size - length p.buffer) bytes) in
            let bound = check_header_bounds p.buffer p.limits header ch in
            subst
              (λ (b : Bytes).
                (read_frame header p b >>= on_frame next frames)
                ≡ ok (answer (after frames (feed_all p b))))
              (take-append-drop (header.frame_size - length p.buffer) bytes)
              (ends_frame p header zs rest frames r f
                  (check_header-append p.buffer zs p.limits bound.2 ∙ ch) lz
                  (omega (arith, length-drop (header.frame_size - length p.buffer) bytes))
                ∙ ap (λ (x : Run). ok (answer (after frames x)))
                    (sym (settle_then p zs rest header f c lz (omega arith))))
      ]

  -- A header that was decoded in this round, and the frame behind it.
  pub header_decoded :
      (p : FrameStreamParser) (header : FrameHeader) (rest : Bytes) (frames : List OwnedFrame)
      → IsRoomy p.limits
      → p.failure ≡ none
      → p.current_header ≡ some header
      → check_header p.buffer p.limits ≡ ok header
      → length p.buffer ≡ frame_header_size
      → length rest < rounds
      → (read_frame header p rest >>= on_frame next frames)
        ≡ ok (
            answer (
              after frames
                (after (settle p header p.buffer).0 (feed_all (settle p header p.buffer).1 rest))))
  header_decoded p header rest frames r f c ch l lt =
      elim (dec_lt (length p.buffer) header.frame_size) [
        | yes more ↦
            under_header p header rest frames r f c ch more (omega arith)
            ∙ ap (λ (x : Run). ok (answer (after frames (after x.0 (feed_all x.1 rest)))))
                (sym (settle_more p header c more))
        | no done ↦
            subst
              (λ (b : Bytes).
                (read_frame header p rest >>= on_frame next frames)
                ≡ ok (
                    answer (
                      after frames
                        (after (settle p header b).0 (feed_all (settle p header b).1 rest)))))
              (append-nil p.buffer)
              (ends_frame p header [] rest frames r f (rw append-nil ch)
                (omega (arith, check_header_bounds p.buffer p.limits header ch)) lt)
      ]
