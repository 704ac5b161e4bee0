-- ===== src/Protocol/Gateway.antt =====
-- cpp/include/tickline/protocol/authoritative_command_gateway.hpp and
-- cpp/src/protocol/authoritative_command_gateway.cpp: bytes of a client to a submission.
pub mod Laws
use tickline.Base.{
  ℕ, ltb, not, Option, none, some, Bool, true, false, Result, Exception, ok, err, invalid_argument,
  ◌>>=◌, ◌>>◌, throw_if,
}
use tickline.Base.Words.{Bytes}
use tickline.Simulation.World.{World}
use tickline.Command.Envelope.{CommandEnvelope}
use tickline.Command.Session.{CommandSession}
use tickline.Command.Evidence.Chain.{CommandEvidenceLog, empty_log}
use tickline.Command.Pipeline
use tickline.Command.Pipeline.{CommandSubmissionResult, Submitted}
use tickline.Protocol.Frames.{ProtocolLimits, ParseErrorCode, frame_header_size}
use tickline.Protocol.Codec.{decode_command_frame}

pub record ProtocolSubmissionResult : Type 0 where
  pub parse_error : ParseErrorCode
  pub command_result : Option CommandSubmissionResult

abbrev is_none : ParseErrorCode → Bool
is_none ParseErrorCode.none = true
is_none _ = false

-- `parsed == has_parse_error`, where a result without a submission has not been parsed.
abbrev inconsistent : ParseErrorCode → Option CommandSubmissionResult → Bool
inconsistent code none = is_none code
inconsistent code (some result) = not (is_none code)

-- The private constructor.
abbrev protocol_submission_result :
    ParseErrorCode → Option CommandSubmissionResult → Result Exception ProtocolSubmissionResult
protocol_submission_result code result = do
  throw_if (inconsistent code result) invalid_argument
  ok (record { parse_error = code; command_result = result })

unfoldable pub parse_rejection : ParseErrorCode → Result Exception ProtocolSubmissionResult
parse_rejection code = do
  throw_if (is_none code) invalid_argument
  protocol_submission_result code none

unfoldable pub command_submission :
    CommandSubmissionResult → Result Exception ProtocolSubmissionResult
command_submission result = protocol_submission_result ParseErrorCode.none (some result)

pub record AuthoritativeCommandGateway : Type 0 where
  pub limits : ProtocolLimits
  pub evidence : CommandEvidenceLog

-- The constructor.
unfoldable pub authoritative_command_gateway :
    ProtocolLimits → Result Exception AuthoritativeCommandGateway
authoritative_command_gateway limits = do
  throw_if (ltb limits.maximum_frame_size frame_header_size) invalid_argument
  ok (record { limits = limits; evidence = empty_log })

-- What a call answers, and what it leaves.
pub record Answered : Type 0 where
  pub result : ProtocolSubmissionResult
  pub gateway : AuthoritativeCommandGateway
  pub session : CommandSession
  pub world : World

abbrev answer_rejected :
    AuthoritativeCommandGateway
    → CommandSession
    → World
    → ParseErrorCode
    → Result Exception Answered
answer_rejected gateway session w code = do
  result ← parse_rejection code
  ok (record { result = result; gateway = gateway; session = session; world = w })

abbrev pub answer_submitted : AuthoritativeCommandGateway → Submitted → Result Exception Answered
answer_submitted gateway submitted = do
  result ← command_submission submitted.result
  ok (record {
    result = result;
    gateway = record gateway { evidence = submitted.evidence };
    session = submitted.session;
    world = submitted.world;
  })

abbrev submit_decoded :
    ℕ
    → AuthoritativeCommandGateway
    → CommandSession
    → World
    → Result ParseErrorCode CommandEnvelope
    → Result Exception Answered
submit_decoded max_size gateway session w (err code) = answer_rejected gateway session w code
submit_decoded max_size gateway session w (ok command) =
    Pipeline.submit max_size gateway.evidence session w command >>= answer_submitted gateway

unfoldable pub submit :
    ℕ → AuthoritativeCommandGateway → CommandSession → World → Bytes → Result Exception Answered
unfolding parse_rejection command_submission
submit max_size gateway session w bytes = do
  envelope_result ← decode_command_frame bytes gateway.limits
  submit_decoded max_size gateway session w envelope_result
