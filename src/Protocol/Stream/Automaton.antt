-- ===== src/Protocol/Stream/Automaton.antt =====
-- What a stream of frames means, one byte at a time, without chunks (the specification of
-- cpp/src/protocol/stream_parser.cpp).
use tickline.Base.{
  ℕ, ◌+◌, ◌<◌, ◌≤◌, ltb, le→ltb, lt→ltb, if◌then◌else◌, ◌≡◌, refl, ap, ap₂, sym, ◌∙◌, true, false,
  Option, none, some, List, [], ◌∷◌, ◌++◌, append_assoc, append-nil, length, length-append, drop,
  Result, ok, err, arith,
}
use tickline.Base.Words.{Bytes}
use tickline.Protocol.Frames.{
  ProtocolLimits, ParseErrorCode, FrameHeader, frame_header_size, check_header,
}
use tickline.Protocol.Frames.Laws.{IsRoomy}
use tickline.Protocol.Stream.{OwnedFrame, FrameStreamParser}

-- What a run of the automaton gives: the frames that end in it, and the state.
abbrev pub Run : Type 0
Run = List OwnedFrame × FrameStreamParser

abbrev pub with_buffer : FrameStreamParser → Bytes → FrameStreamParser
with_buffer p buffer = record p { buffer = buffer }

-- Under a header a byte ends the frame or is kept.
unfoldable pub settle : FrameStreamParser → FrameHeader → Bytes → Run
settle p header buffer =
    if ltb (length buffer) header.frame_size
    then ([], record p { buffer = buffer; current_header = some header })
    else (
      record { header = header; payload = drop frame_header_size buffer } ∷ [],
      record p { buffer = []; current_header = none },
    )

abbrev with_decoded : FrameStreamParser → Bytes → Result ParseErrorCode FrameHeader → Run
with_decoded p buffer (err code) = ([], record p { buffer = buffer; failure = some code })
with_decoded p buffer (ok header) = settle p header buffer

-- Sixteen bytes make a header.
unfoldable pub without_header : FrameStreamParser → Bytes → Run
without_header p buffer =
    if ltb (length buffer) frame_header_size
    then ([], with_buffer p buffer)
    else with_decoded p buffer (check_header buffer p.limits)

feed_with : Option ParseErrorCode → Option FrameHeader → FrameStreamParser → ℕ → Run
feed_with (some code) header p b = ([], p)
feed_with none none p b = without_header p (p.buffer ++ (b ∷ []))
feed_with none (some header) p b = settle p header (p.buffer ++ (b ∷ []))

pub feed : FrameStreamParser → ℕ → Run
unfolding feed_with
feed p b = feed_with p.failure p.current_header p b

-- The frames of one run in front of those of another.
abbrev pub after : List OwnedFrame → Run → Run
after fs r = (fs ++ r.0, r.1)

unfoldable pub feed_all : FrameStreamParser → Bytes → Run
feed_all p [] = ([], p)
feed_all p (b ∷ bs) = after (feed p b).0 (feed_all (feed p b).1 bs)

pub after_assoc : (fs gs : List OwnedFrame) (r : Run) → after fs (after gs r) ≡ after (fs ++ gs) r
after_assoc fs gs r = ap (λ (l : List OwnedFrame). (l, r.1)) (sym (append_assoc fs gs r.0))

-- Feeding two pieces one after the other is feeding their concatenation.
pub feed_all-append :
    (p : FrameStreamParser) (xs ys : Bytes)
    → feed_all p (xs ++ ys) ≡ after (feed_all p xs).0 (feed_all (feed_all p xs).1 ys)
unfolding feed_all
feed_all-append p [] ys = refl
feed_all-append p (x ∷ xs) ys = rw (feed_all-append (feed p x).1 xs ys) (
    after_assoc (feed p x).0 (feed_all (feed p x).1 xs).0
      (feed_all (feed_all (feed p x).1 xs).1 ys))

pub feed_failed :
    (p : FrameStreamParser) (b : ℕ) (code : ParseErrorCode)
    → p.failure ≡ some code
    → feed p b ≡ ([], p)
unfolding feed
feed_failed p b code e = ap (λ (f : Option ParseErrorCode). feed_with f p.current_header p b) e

pub feed_header :
    (p : FrameStreamParser) (b : ℕ) (header : FrameHeader)
    → p.failure ≡ none
    → p.current_header ≡ some header
    → feed p b ≡ settle p header (p.buffer ++ (b ∷ []))
unfolding feed
feed_header p b header f c = ap₂ (λ e h. feed_with e h p b) f c

pub feed_no_header :
    (p : FrameStreamParser) (b : ℕ)
    → p.failure ≡ none
    → p.current_header ≡ none
    → feed p b ≡ without_header p (p.buffer ++ (b ∷ []))
unfolding feed
feed_no_header p b f c = ap₂ (λ e h. feed_with e h p b) f c

-- After a failure nothing is read.
pub feed_all_failed :
    (p : FrameStreamParser) (bs : Bytes) (code : ParseErrorCode)
    → p.failure ≡ some code
    → feed_all p bs ≡ ([], p)
unfolding feed_all
feed_all_failed p [] code e = refl
feed_all_failed p (b ∷ bs) code e = rw (feed_failed p b code e) (feed_all_failed p bs code e)

-- What the buffer holds between two calls: less than a header, or less than its header's frame.
abbrev pub HoldsPart : ProtocolLimits → Bytes → Option FrameHeader → Type 0
HoldsPart limits buffer none = length buffer < frame_header_size
HoldsPart limits buffer (some header) =
    (check_header buffer limits ≡ ok header) × (length buffer < header.frame_size)

-- A parser between two calls. After a failure the buffer may hold a whole header.
pub record IsReady (p : FrameStreamParser) : Type 0 where
  pub roomy : IsRoomy p.limits
  pub held : length p.buffer ≤ p.limits.maximum_frame_size
  pub part : p.failure ≡ none → HoldsPart p.limits p.buffer p.current_header

longer : (xs : Bytes) (b n : ℕ) → length xs + 1 < n → ltb (length (xs ++ (b ∷ []))) n ≡ true
longer xs b n h = lt→ltb (length (xs ++ (b ∷ []))) n (rw length-append (omega arith))

full : (xs : Bytes) (b n : ℕ) → n ≤ length xs + 1 → ltb (length (xs ++ (b ∷ []))) n ≡ false
full xs b n h = le→ltb (length (xs ++ (b ∷ []))) n (rw length-append (omega arith))

feed_waits :
    (p : FrameStreamParser) (b : ℕ)
    → p.failure ≡ none
    → p.current_header ≡ none
    → length p.buffer + 1 < frame_header_size
    → feed p b ≡ ([], with_buffer p (p.buffer ++ (b ∷ [])))
unfolding without_header
feed_waits p b f c h = feed_no_header p b f c ∙ rw (longer p.buffer b 16 h)

-- Bytes that do not complete a header are kept.
pub feed_all-waits :
    (p : FrameStreamParser) (bs : Bytes)
    → p.failure ≡ none
    → p.current_header ≡ none
    → length p.buffer + length bs < frame_header_size
    → feed_all p bs ≡ ([], with_buffer p (p.buffer ++ bs))
unfolding feed_all
feed_all-waits p [] f c h = ap (λ (b : Bytes). ([], with_buffer p b)) (sym (append-nil p.buffer))
feed_all-waits p (b ∷ bs) f c h = rw (feed_waits p b f c (omega arith)) (
    feed_all-waits (with_buffer p (p.buffer ++ (b ∷ []))) bs f c (rw length-append (omega arith))
    ∙ ap (λ (x : Bytes). ([], with_buffer p x)) (append_assoc p.buffer (b ∷ []) bs))

after_nil : (r : Run) → after r.0 ([], r.1) ≡ r
after_nil r = ap (λ (l : List OwnedFrame). (l, r.1)) (append-nil r.0)

-- The bytes that complete a header have it decoded.
pub feed_all-without_header :
    (p : FrameStreamParser) (b : ℕ) (bs : Bytes)
    → p.failure ≡ none
    → p.current_header ≡ none
    → length p.buffer + length (b ∷ bs) ≡ frame_header_size
    → feed_all p (b ∷ bs) ≡ without_header p (p.buffer ++ (b ∷ bs))
unfolding feed_all without_header settle
feed_all-without_header p b [] f c h =
    rw (feed_no_header p b f c) (after_nil (without_header p (p.buffer ++ (b ∷ []))))
feed_all-without_header p b (d ∷ bs) f c h = rw (feed_waits p b f c (omega arith)) (
    feed_all-without_header (with_buffer p (p.buffer ++ (b ∷ []))) d bs f c
      (rw length-append (omega arith))
    ∙ ap (without_header p) (append_assoc p.buffer (b ∷ []) (d ∷ bs)))

feed_keeps :
    (p : FrameStreamParser) (b : ℕ) (header : FrameHeader)
    → p.failure ≡ none
    → p.current_header ≡ some header
    → length p.buffer + 1 < header.frame_size
    → feed p b ≡ ([], with_buffer p (p.buffer ++ (b ∷ [])))
unfolding settle
feed_keeps p b header f c h =
    feed_header p b header f c
    ∙ rw (longer p.buffer b header.frame_size h) (
        ap
          (λ (o : Option FrameHeader).
            ([], record p { buffer = p.buffer ++ (b ∷ []); current_header = o }))
          (sym c))

-- Bytes that do not complete the frame are kept.
pub feed_all-keeps :
    (p : FrameStreamParser) (bs : Bytes) (header : FrameHeader)
    → p.failure ≡ none
    → p.current_header ≡ some header
    → length p.buffer + length bs < header.frame_size
    → feed_all p bs ≡ ([], with_buffer p (p.buffer ++ bs))
unfolding feed_all
feed_all-keeps p [] header f c h =
    ap (λ (b : Bytes). ([], with_buffer p b)) (sym (append-nil p.buffer))
feed_all-keeps p (b ∷ bs) header f c h = rw (feed_keeps p b header f c (omega arith)) (
    feed_all-keeps (with_buffer p (p.buffer ++ (b ∷ []))) bs header f c
      (rw length-append (omega arith))
    ∙ ap (λ (x : Bytes). ([], with_buffer p x)) (append_assoc p.buffer (b ∷ []) bs))

-- The bytes that complete a frame have it emitted.
pub feed_all-settle :
    (p : FrameStreamParser) (b : ℕ) (bs : Bytes) (header : FrameHeader)
    → p.failure ≡ none
    → p.current_header ≡ some header
    → length p.buffer + length (b ∷ bs) ≡ header.frame_size
    → feed_all p (b ∷ bs) ≡ settle p header (p.buffer ++ (b ∷ bs))
unfolding feed_all settle
feed_all-settle p b [] header f c h =
    rw (feed_header p b header f c) (after_nil (settle p header (p.buffer ++ (b ∷ []))))
feed_all-settle p b (d ∷ bs) header f c h = rw (feed_keeps p b header f c (omega arith)) (
    feed_all-settle (with_buffer p (p.buffer ++ (b ∷ []))) d bs header f c
      (rw length-append (omega arith))
    ∙ ap (settle p header) (append_assoc p.buffer (b ∷ []) (d ∷ bs)))
