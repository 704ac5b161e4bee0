-- ===== src/Protocol/Gateway/Laws.antt =====
-- cpp/src/protocol/authoritative_command_gateway.cpp: what the bytes of a client come to.
use tickline.Base.{
  ℕ, Option, some, ◌≡◌, ◌≢◌, ◌⊎◌, inl, inr, refl, ap, ◌∙◌, true, Result, Result-cases, >>=-never,
  ok, err, ◌>>=◌, arith,
}
use tickline.Base.Words.{Bytes}
use tickline.Simulation.World.{World}
use tickline.Simulation.Validity.{IsValid}
use tickline.Command.Envelope.{CommandEnvelope}
use tickline.Command.Session.{CommandSession}
use tickline.Command.Session.Laws.{IsOpen}
use tickline.Command.Evidence.Chain.{verify}
use tickline.Command.Pipeline
use tickline.Command.Pipeline.{Submitted}
use tickline.Command.Pipeline.Outcome.{IsCountable}
use tickline.Command.Pipeline.Continuity.{Continues, submit-Continues}
use tickline.Protocol.Frames.{
  ProtocolLimits, FrameHeader, ParseErrorCode, none, check_header, check_size, parse_frame,
}
use tickline.Protocol.Frames.Laws.{IsRoomy, decode_frame_header-eq}
use tickline.Protocol.Codec.{decode_command_frame, decode_command_envelope}
use tickline.Protocol.Gateway.{
  AuthoritativeCommandGateway, Answered, submit, parse_rejection, command_submission,
}

-- Decoding never answers with the code that stands for no error.
check_header_names :
    (bytes : Bytes) (limits : ProtocolLimits) → check_header bytes limits ≢ err none
unfolding check_header
check_header_names bytes limits = λ e. ground arith

check_size_names : (bytes : Bytes) (header : FrameHeader) → check_size bytes header ≢ err none
unfolding check_size
check_size_names bytes header = λ e. ground arith

decode_command_envelope_names : (payload : Bytes) → decode_command_envelope payload ≢ err none
unfolding decode_command_envelope
decode_command_envelope_names payload = λ e. ground arith

decode_command_frame_names :
    (bytes : Bytes) (limits : ProtocolLimits)
    → IsRoomy limits
    → (r : Result ParseErrorCode CommandEnvelope) × (decode_command_frame bytes limits ≡ ok r)
      × (r ≢ err none)
unfolding decode_command_frame parse_frame
decode_command_frame_names bytes limits roomy = (
  check_header bytes limits >>= check_size bytes >>= λ view. decode_command_envelope view.payload,
  rw (decode_frame_header-eq bytes limits roomy),
  >>=-never none _ _ (>>=-never none _ _ (check_header_names bytes limits) (check_size_names bytes))
      (λ view. decode_command_envelope_names view.payload),
)

parse_rejection-eq :
    (code : ParseErrorCode)
    → code ≢ none
    → parse_rejection code ≡ ok (record { parse_error = code; command_result = Option.none })
unfolding parse_rejection
parse_rejection-eq none n = absurd (n refl)
parse_rejection-eq _ n = refl

module _ (max_size : ℕ) (g : AuthoritativeCommandGateway) (s : CommandSession) (w : World) where
  -- What bytes come to: bytes that do not decode leave everything as it was, and the answer names the
  -- decoder's error; bytes that decode to a command come to what the pipeline makes of that command.
  pub IsHandled : Bytes → Answered → Type 0
  IsHandled bytes a =
      ((code : ParseErrorCode) × (decode_command_frame bytes g.limits ≡ ok (err code))
        × (code ≢ none)
        × (a ≡ record {
          result = record { parse_error = code; command_result = Option.none };
          gateway = g;
          session = s;
          world = w;
        }))
      ⊎ ((command : CommandEnvelope) × (r : Submitted) × (decode_command_frame bytes g.limits
            ≡ ok (ok command))
          × (Pipeline.submit max_size g.evidence s w command ≡ ok r)
          × Continues s g.evidence r
          × (a ≡ record {
            result = record { parse_error = none; command_result = some r.result };
            gateway = record g { evidence = r.evidence };
            session = r.session;
            world = r.world;
          }))

  undecoded-eq :
      (bytes : Bytes) (code : ParseErrorCode)
      → code ≢ none
      → decode_command_frame bytes g.limits ≡ ok (err code)
      → submit max_size g s w bytes
        ≡ ok (record {
          result = record { parse_error = code; command_result = Option.none };
          gateway = g;
          session = s;
          world = w;
        })
  unfolding submit
  undecoded-eq bytes code n e = rw (e, parse_rejection-eq code n)

  decoded-eq :
      (bytes : Bytes) (command : CommandEnvelope) (r : Submitted)
      → decode_command_frame bytes g.limits ≡ ok (ok command)
      → Pipeline.submit max_size g.evidence s w command ≡ ok r
      → submit max_size g s w bytes
        ≡ ok (record {
          result = record { parse_error = none; command_result = some r.result };
          gateway = record g { evidence = r.evidence };
          session = r.session;
          world = r.world;
        })
  unfolding submit command_submission
  decoded-eq bytes command r e p = rw (e, p)

  -- A gateway with a valid world, an open session and a log that verifies, and counts in range,
  -- answers every sequence of bytes without an exception. Bytes that do not decode leave the gateway,
  -- the session and the world as they were, and the answer names the decoder's error. Bytes that
  -- decode to a command have the result that the pipeline gives for that command, and leave its
  -- session, its world and its evidence, with the world valid, the session open and the log verified.
  pub submit-IsHandled :
      (bytes : Bytes)
      → IsRoomy g.limits
      → IsValid w
      → IsOpen s
      → IsCountable max_size g.evidence w
      → verify g.evidence ≡ true
      → (a : Answered) × (submit max_size g s w bytes ≡ ok a) × IsHandled bytes a
  unfolding IsHandled
  submit-IsHandled bytes roomy v o k h =
      let (r, e, names) = decode_command_frame_names bytes g.limits roomy in
      elim (Result-cases r) [
        | inr (code, re) ↦
            let n : code ≢ none = λ z. names (re ∙ ap err z) in
            (_, undecoded-eq bytes code n (e ∙ ap ok re), inl (code, e ∙ ap ok re, n, refl))
        | inl (command, re) ↦
            let (x, ex, cont) = submit-Continues max_size g.evidence s w command v o k h in
            (
              _,
              decoded-eq bytes command x (e ∙ ap ok re) ex,
              inr (command, x, e ∙ ap ok re, ex, cont, refl),
            )
      ]
