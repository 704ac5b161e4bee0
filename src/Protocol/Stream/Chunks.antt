-- ===== src/Protocol/Stream/Chunks.antt =====
-- cpp/src/protocol/stream_parser.cpp: parsers between two calls, and calls in a row.
use tickline.Base.{
  ℕ, ◌≤◌, ltb, ltb→lt, ltb→le, ◌≡◌, refl, ap, sym, ◌∙◌, inl, inr, Bool-cases, Option-cases, Option,
  none, List, [], ◌∷◌, ◌++◌, ok-injective, length, length-append, Result, Result-cases, ok, err,
  ◌>>=◌, arith, subst,
}
use tickline.Base.Words.{Bytes}
use tickline.Protocol.Frames.{
  ProtocolLimits, ParseErrorCode, FrameHeader, frame_header_size, check_header,
}
use tickline.Protocol.Frames.Laws.{check_header-append, check_header_bounds, IsRoomy}
use tickline.Protocol.Stream.{
  OwnedFrame, FrameStreamParser, Halt, StreamParseResult, push, frame_stream_parser, reset,
}
use tickline.Protocol.Stream.Automaton.{
  Run, after, settle, without_header, feed, feed_header, feed_no_header, feed_failed, feed_all,
  feed_all_failed, feed_all-append, HoldsPart, IsReady,
}
use tickline.Protocol.Stream.Phases.{answer, answer_with}
use tickline.Protocol.Stream.Refinement.{push-feed_all}

-- What `settle` leaves.
settle-IsReady :
    (p : FrameStreamParser) (header : FrameHeader) (buffer : Bytes)
    → IsRoomy p.limits
    → check_header buffer p.limits ≡ ok header
    → IsReady (settle p header buffer).1
unfolding settle
settle-IsReady p header buffer r c = elim (Bool-cases (ltb (length buffer) header.frame_size)) [
  | inl t ↦
      let lt = ltb→lt (length buffer) header.frame_size t in
      rw t (record {
        roomy = r;
        held = omega (arith, check_header_bounds buffer p.limits header c);
        part = λ _. (c, lt);
      })
  | inr t ↦ rw t (record { roomy = r; held = omega arith; part = λ _. omega arith })
]

-- What `without_header` leaves of a buffer that holds at most a header.
without_header-IsReady :
    (p : FrameStreamParser) (buffer : Bytes)
    → IsRoomy p.limits
    → p.current_header ≡ none
    → length buffer ≤ frame_header_size
    → IsReady (without_header p buffer).1
unfolding without_header
without_header-IsReady p buffer r c h = elim (Bool-cases (ltb (length buffer) 16)) [
  | inl t ↦
      let lt = ltb→lt (length buffer) 16 t in
      rw t (record {
        roomy = r;
        held = omega arith;
        part = λ _. subst (HoldsPart p.limits buffer) (sym c) lt;
      })
  | inr t ↦ elim (Result-cases (check_header buffer p.limits)) [
    | inl (header, e) ↦ rw (t, e) (settle-IsReady p header buffer r e)
    | inr (code, e) ↦
        rw (t, e) (record { roomy = r; held = omega arith; part = λ g. absurd (cc g) })
  ]
]

feed-IsReady : (p : FrameStreamParser) (b : ℕ) → IsReady p → IsReady (feed p b).1
feed-IsReady p b v = elim (Option-cases p.failure) [
  | inr (code, f) ↦ rw (feed_failed p b code f) v
  | inl f ↦ elim (Option-cases p.current_header) [
    | inl c ↦
        let part = subst (HoldsPart p.limits p.buffer) c (v.part f) in
        rw (feed_no_header p b f c) (
          without_header-IsReady p (p.buffer ++ (b ∷ [])) v.roomy c
            (omega (arith, length-append p.buffer (b ∷ []))))
    | inr (header, c) ↦
        let part = subst (HoldsPart p.limits p.buffer) c (v.part f) in
        let bounds = check_header_bounds p.buffer p.limits header part.0 in
        rw (feed_header p b header f c) (
          settle-IsReady p header (p.buffer ++ (b ∷ [])) v.roomy
            (check_header-append p.buffer (b ∷ []) p.limits bounds.2 ∙ part.0))
  ]
]

pub feed_all-IsReady : (p : FrameStreamParser) (bs : Bytes) → IsReady p → IsReady (feed_all p bs).1
unfolding feed_all
feed_all-IsReady p [] v = v
feed_all-IsReady p (b ∷ bs) v = feed_all-IsReady (feed p b).1 bs (feed-IsReady p b v)

-- A parser that the constructor made is between two calls, and `reset` gives one again.
pub frame_stream_parser-IsReady :
    (limits : ProtocolLimits) (p : FrameStreamParser)
    → frame_stream_parser limits ≡ ok p
    → IsReady p × (p ≡ reset p)
unfolding frame_stream_parser reset
frame_stream_parser-IsReady limits p e = elim (Bool-cases (ltb limits.maximum_frame_size 16)) [
  | inl t ↦ absurd (cc (rw t at e))
  | inr t ↦
      let made = ok-injective (rw t at e) in
      let roomy = ltb→le limits.maximum_frame_size 16 t in
      rw (← made)
        (record { roomy = omega arith; held = omega arith; part = λ _. omega arith }, refl)
]

answer-state : (r : Run) → (answer r).1 ≡ r.1
answer-state r = elim (Option-cases r.1.failure) [
  | inl f ↦ ap (λ (o : Option ParseErrorCode). (answer_with o r.0 r.1).1) f
  | inr (code, f) ↦ ap (λ (o : Option ParseErrorCode). (answer_with o r.0 r.1).1) f
]

-- On a parser between two calls `push` returns and leaves a parser between two calls: in particular
-- its buffer never outgrows the frame limit.
pub push-IsReady :
    (p : FrameStreamParser) (bytes : Bytes)
    → IsReady p
    → (r : StreamParseResult) × (push p bytes ≡ ok r) × IsReady r.1
push-IsReady p bytes v = (
  answer (feed_all p bytes),
  push-feed_all p bytes v,
  subst IsReady (sym (answer-state (feed_all p bytes))) (feed_all-IsReady p bytes v),
)

-- What one call answers where two calls answer `frames` and then this: a failure is all that a call
-- answers, so the earlier frames are not in it.
abbrev joined : List OwnedFrame → StreamParseResult → StreamParseResult
joined frames (err code, p) = (err code, p)
joined frames (ok more, p) = (ok (frames ++ more), p)

-- A call on `xs`, and if it did not fail one on `ys`.
abbrev then_push : Bytes → StreamParseResult → Result Halt StreamParseResult
then_push ys (err code, p) = ok (err code, p)
then_push ys (ok frames, p) = push p ys >>= λ r. ok (joined frames r)

joined-answer :
    (frames : List OwnedFrame) (r : Run) → joined frames (answer r) ≡ answer (after frames r)
joined-answer frames r = elim (Option-cases r.1.failure) [
  | inl f ↦
      ap (λ (o : Option ParseErrorCode). joined frames (answer_with o r.0 r.1)) f
      ∙ ap (λ (o : Option ParseErrorCode). answer_with o (frames ++ r.0) r.1) (sym f)
  | inr (code, f) ↦
      ap (λ (o : Option ParseErrorCode). joined frames (answer_with o r.0 r.1)) f
      ∙ ap (λ (o : Option ParseErrorCode). answer_with o (frames ++ r.0) r.1) (sym f)
]

then_push-answer :
    (r : Run) (ys : Bytes)
    → IsReady r.1
    → then_push ys (answer r) ≡ ok (answer (after r.0 (feed_all r.1 ys)))
then_push-answer r ys v = elim (Option-cases r.1.failure) [
  | inl f ↦
      ap (λ (o : Option ParseErrorCode). then_push ys (answer_with o r.0 r.1)) f
      ∙ rw (push-feed_all r.1 ys v) (ap ok (joined-answer r.0 (feed_all r.1 ys)))
  | inr (code, f) ↦
      ap (λ (o : Option ParseErrorCode). then_push ys (answer_with o r.0 r.1)) f
      ∙ ap (λ (o : Option ParseErrorCode). ok (answer_with o (r.0 ++ []) r.1)) (sym f)
      ∙ ap (λ (x : Run). ok (answer (after r.0 x))) (sym (feed_all_failed r.1 ys code f))
]

push_append_eq :
    (p : FrameStreamParser) (xs ys : Bytes)
    → IsReady p
    → push p (xs ++ ys) ≡ (push p xs >>= then_push ys)
push_append_eq p xs ys v =
    push-feed_all p (xs ++ ys) v
    ∙ rw (push-feed_all p xs v, feed_all-append p xs ys)
        (sym (then_push-answer (feed_all p xs) ys (feed_all-IsReady p xs v)))

-- How the call on a stream relates to the calls on its two pieces.
pub data IsSplit (p : FrameStreamParser) (xs ys : Bytes) : Type 0 where
  first_failed :
      (code : ParseErrorCode) (q : FrameStreamParser)
      → push p xs ≡ ok (err code, q)
      → push p (xs ++ ys) ≡ ok (err code, q)
      → IsSplit p xs ys
  second_failed :
      (frames : List OwnedFrame) (code : ParseErrorCode) (q r : FrameStreamParser)
      → push p xs ≡ ok (ok frames, q)
      → push q ys ≡ ok (err code, r)
      → push p (xs ++ ys) ≡ ok (err code, r)
      → IsSplit p xs ys
  both_succeeded :
      (frames more : List OwnedFrame) (q r : FrameStreamParser)
      → push p xs ≡ ok (ok frames, q)
      → push q ys ≡ ok (ok more, r)
      → push p (xs ++ ys) ≡ ok (ok (frames ++ more), r)
      → IsSplit p xs ys

after_second :
    (p : FrameStreamParser) (xs ys : Bytes) (frames : List OwnedFrame) (q : FrameStreamParser)
    (second : StreamParseResult)
    → push p xs ≡ ok (ok frames, q)
    → push q ys ≡ ok second
    → push p (xs ++ ys) ≡ ok (joined frames second)
    → IsSplit p xs ys
after_second p xs ys frames q (err code, r) e1 e2 e = second_failed frames code q r e1 e2 e
after_second p xs ys frames q (ok more, r) e1 e2 e = both_succeeded frames more q r e1 e2 e

after_first :
    (p : FrameStreamParser) (xs ys : Bytes) (first : StreamParseResult)
    → IsReady first.1
    → push p xs ≡ ok first
    → push p (xs ++ ys) ≡ then_push ys first
    → IsSplit p xs ys
after_first p xs ys (err code, q) v e1 e = first_failed code q e1 e
after_first p xs ys (ok frames, q) v e1 e =
    let (second, e2, _) = push-IsReady q ys v in
    after_second p xs ys frames q second e1 e2 (e ∙ rw e2 refl)

-- On a parser between two calls, a call on a stream and calls on its two pieces all return. If the
-- first piece fails, the stream fails alike and leaves the same parser. If both pieces succeed, the
-- stream gives the frames of both in order and leaves the same parser. If the first piece succeeds
-- and the second fails, the stream fails like the second and leaves the same parser, and the frames
-- that the first piece gave are not delivered: there the answer depends on where the stream was cut.
pub push-append : (p : FrameStreamParser) (xs ys : Bytes) → IsReady p → IsSplit p xs ys
push-append p xs ys v =
    let (first, e1, v') = push-IsReady p xs v in
    after_first p xs ys first v' e1 (push_append_eq p xs ys v ∙ rw e1 refl)
