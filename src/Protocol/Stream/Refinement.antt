-- ===== src/Protocol/Stream/Refinement.antt =====
-- cpp/src/protocol/stream_parser.cpp: the loop of `push` against the automaton.
use native.Mathlib.Decide.{dec_lt}
use tickline.Base.{
  ℕ, zero, suc, ◌+◌, ◌-◌, ◌<◌, ltb, le→ltb, lt→ltb, if◌then◌else◌, ◌||◌, ◌≡◌, refl, ap, subst, sym,
  ◌∙◌, inl, inr, Bool, Option-cases, true, false, Option, none, some, List, [], ◌∷◌, ◌++◌, length,
  length-append, length-take, length-drop, take, drop, take-append-drop, Result-cases, ok, ◌>>=◌,
  arith,
}
use tickline.Base.Words.{Bytes}
use tickline.Protocol.Frames.{ParseErrorCode, FrameHeader, frame_header_size, check_header}
use tickline.Protocol.Stream.{
  OwnedFrame, FrameStreamParser, push, push_from, push_loop, read_header, read_frame, on_frame,
  on_header, has_value, header_step,
}
use tickline.Protocol.Stream.Automaton.{
  Run, after, feed_all, feed_all_failed, feed_all-waits, settle, without_header, HoldsPart, IsReady,
  with_buffer,
}
use tickline.Protocol.Stream.Phases.{
  answer, answer_with, answer_idle, decoded_then, under_header, header_decoded, read_header_waits,
  read_header_decodes,
}

or_true : (b : Bool) → (b || true) ≡ true
or_true true = refl
or_true false = refl

module _ (rounds : ℕ)
    (ih : (p : FrameStreamParser) (bytes : Bytes) (frames : List OwnedFrame)
      → IsReady p
      → p.failure ≡ none
      → length bytes < rounds
      → push_loop rounds p bytes frames ≡ ok (answer (after frames (feed_all p bytes)))) where
  -- A round that ends a header.
  decodes :
      (p : FrameStreamParser) (zs rest : Bytes) (frames : List OwnedFrame)
      → IsReady p
      → p.failure ≡ none
      → p.current_header ≡ none
      → length p.buffer + length zs ≡ frame_header_size
      → 0 < length zs
      → length rest < rounds
      → (read_header p (zs ++ rest) >>= on_header (push_loop rounds) frames)
        ≡ ok (answer (after frames (feed_all p (zs ++ rest))))
  unfolding settle without_header
  decodes p zs rest frames v f c l n lt =
      let full = le→ltb (length (p.buffer ++ zs)) 16 (rw length-append (omega arith)) in
      elim (Result-cases (check_header (p.buffer ++ zs) p.limits)) [
        | inr (code, e) ↦
            rw (read_header_decodes p zs rest v.roomy c l, decoded_then p zs rest f c l n, full, e)
              (ap (λ (x : Run). ok (answer (after frames x)))
                (sym (
                  feed_all_failed (record p { buffer = p.buffer ++ zs; failure = some code }) rest
                    code refl)))
        | inl (header, e) ↦
            rw (read_header_decodes p zs rest v.roomy c l, decoded_then p zs rest f c l n, full, e)
              (header_decoded (push_loop rounds) rounds ih
                (record p { buffer = p.buffer ++ zs; current_header = some header }) header rest
                frames v.roomy f refl e (rw length-append l) lt)
      ]

  -- A round that starts without a header.
  no_header :
      (p : FrameStreamParser) (b : ℕ) (bs : Bytes) (frames : List OwnedFrame)
      → IsReady p
      → p.failure ≡ none
      → p.current_header ≡ none
      → length p.buffer < frame_header_size
      → length bs < rounds
      → (read_header p (b ∷ bs) >>= on_header (push_loop rounds) frames)
        ≡ ok (answer (after frames (feed_all p (b ∷ bs))))
  no_header p b bs frames v f c l lt =
      let need = 16 - length p.buffer in
      elim (dec_lt (length p.buffer + length (b ∷ bs)) 16) [
        | yes short ↦
            rw (read_header_waits p (b ∷ bs) c short, feed_all-waits p (b ∷ bs) f c short)
              (sym (answer_idle (with_buffer p (p.buffer ++ (b ∷ bs))) frames f))
        | no long ↦
            subst
              (λ (x : Bytes).
                (read_header p x >>= on_header (push_loop rounds) frames)
                ≡ ok (answer (after frames (feed_all p x))))
              (take-append-drop need (b ∷ bs))
              (decodes p (take need (b ∷ bs)) (drop need (b ∷ bs)) frames v f c
                (omega (arith, length-take need (b ∷ bs)))
                (omega (arith, length-take need (b ∷ bs)))
                (omega (arith, length-drop need (b ∷ bs))))
      ]

  loop_under :
      (p : FrameStreamParser) (header : FrameHeader) (bytes : Bytes) (frames : List OwnedFrame)
      → p.current_header ≡ some header
      → push_loop (suc rounds) p bytes frames
        ≡ (read_frame header p bytes >>= on_frame (push_loop rounds) frames)
  unfolding push_loop read_header
  loop_under p header bytes frames c =
      ap
        (λ (o : Option FrameHeader).
          if ltb 0 (length bytes) || has_value o
          then (header_step o p bytes >>= on_header (push_loop rounds) frames)
          else ok (ok frames, p))
        c
      ∙ rw (or_true (ltb 0 (length bytes)))

  loop_empty :
      (p : FrameStreamParser) (frames : List OwnedFrame)
      → p.current_header ≡ none
      → push_loop (suc rounds) p [] frames ≡ ok (ok frames, p)
  unfolding push_loop read_header
  loop_empty p frames c =
      ap
        (λ (o : Option FrameHeader).
          if has_value o
          then (header_step o p [] >>= on_header (push_loop rounds) frames)
          else ok (ok frames, p))
        c

  loop_bytes :
      (p : FrameStreamParser) (b : ℕ) (bs : Bytes) (frames : List OwnedFrame)
      → push_loop (suc rounds) p (b ∷ bs) frames
        ≡ (read_header p (b ∷ bs) >>= on_header (push_loop rounds) frames)
  unfolding push_loop
  loop_bytes p b bs frames = rw (lt→ltb 0 (suc (length bs)) (omega arith))

  round_none :
      (p : FrameStreamParser) (bytes : Bytes) (frames : List OwnedFrame)
      → IsReady p
      → p.failure ≡ none
      → p.current_header ≡ none
      → length bytes < suc rounds
      → push_loop (suc rounds) p bytes frames ≡ ok (answer (after frames (feed_all p bytes)))
  unfolding feed_all
  round_none p [] frames v f c lt = loop_empty p frames c ∙ sym (answer_idle p frames f)
  round_none p (b ∷ bs) frames v f c lt =
      loop_bytes p b bs frames
      ∙ no_header p b bs frames v f c (subst (HoldsPart p.limits p.buffer) c (v.part f))
          (omega arith)

  one_round :
      (p : FrameStreamParser) (bytes : Bytes) (frames : List OwnedFrame)
      → IsReady p
      → p.failure ≡ none
      → length bytes < suc rounds
      → push_loop (suc rounds) p bytes frames ≡ ok (answer (after frames (feed_all p bytes)))
  one_round p bytes frames v f lt = elim (Option-cases p.current_header) [
    | inl c ↦ round_none p bytes frames v f c lt
    | inr (header, c) ↦
        let part = subst (HoldsPart p.limits p.buffer) c (v.part f) in
        loop_under p header bytes frames c
        ∙ under_header (push_loop rounds) rounds ih p header bytes frames v.roomy f c part.0 part.1
            (omega arith)
  ]

loop_refines :
    (rounds : ℕ) (p : FrameStreamParser) (bytes : Bytes) (frames : List OwnedFrame)
    → IsReady p
    → p.failure ≡ none
    → length bytes < rounds
    → push_loop rounds p bytes frames ≡ ok (answer (after frames (feed_all p bytes)))
loop_refines zero p bytes frames v f lt = absurd (omega arith)
loop_refines (suc rounds) p bytes frames v f lt =
    one_round rounds (loop_refines rounds) p bytes frames v f lt

-- On a parser between two calls `push` always returns, and returns what the byte-at-a-time automaton
-- gives on the chunk: all frames that end in it, or the failure alone.
pub push-feed_all :
    (p : FrameStreamParser) (bytes : Bytes)
    → IsReady p
    → push p bytes ≡ ok (answer (feed_all p bytes))
unfolding push
push-feed_all p bytes v = elim (Option-cases p.failure) [
  | inl f ↦
      ap (λ (o : Option ParseErrorCode). push_from o p bytes) f
      ∙ loop_refines (length bytes + 1) p bytes [] v f (omega arith)
  | inr (code, f) ↦
      ap (λ (o : Option ParseErrorCode). push_from o p bytes) f
      ∙ ap (λ (o : Option ParseErrorCode). ok (answer_with o [] p)) (sym f)
      ∙ ap (λ (r : Run). ok (answer r)) (sym (feed_all_failed p bytes code f))
]
