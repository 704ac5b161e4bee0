-- ===== src/Protocol/Frames.antt =====
-- cpp/include/tickline/protocol/frame.hpp and cpp/src/protocol/frame_parser.cpp: the frame header and
-- the parser of one frame. `bytes[i]` is read only where the size was checked; the model reads 0
-- beyond the end.
pub mod Laws
pub mod Names
use tickline.Base.{
  ℕ, zero, suc, ◌+◌, ltb, ◌==◌, Bool, true, false, not, List, [], ◌∷◌, length, get_or, drop, Result,
  Exception, ok, err, invalid_argument, ◌>>=◌, ◌>>◌, throw_if, if◌then◌else◌,
}
use tickline.Base.Words.{Bytes, join_u16, join_u32}

abbrev pub frame_magic : Bytes
frame_magic = 0x54 ∷ 0x49 ∷ 0x43 ∷ 0x4b ∷ []

abbrev pub protocol_version : ℕ
protocol_version = 1

abbrev pub frame_header_size : ℕ
frame_header_size = 16

abbrev pub default_max_frame_size : ℕ
default_max_frame_size = 4_096

pub record ProtocolLimits : Type 0 where
  pub maximum_frame_size : ℕ

-- MessageType::command_envelope
abbrev pub command_envelope : ℕ
command_envelope = 1

pub data ParseErrorCode : Type 0 where
  none truncated_header invalid_magic unsupported_protocol_version invalid_header_size
        frame_too_small frame_too_large reserved_flags_set unknown_message_type truncated_frame
        trailing_data payload_size_mismatch invalid_entity_id :
      ParseErrorCode

pub record FrameHeader : Type 0 where
  pub version : ℕ
  pub header_size : ℕ
  pub frame_size : ℕ
  pub message_type : ℕ
  pub flags : ℕ

pub record FrameView : Type 0 where
  pub header : FrameHeader
  pub payload : Bytes

abbrev byte_at : Bytes → ℕ → ℕ
byte_at bytes offset = get_or bytes offset 0

abbrev pub read_u16 : Bytes → ℕ → ℕ
read_u16 bytes offset = join_u16 (byte_at bytes offset) (byte_at bytes (offset + 1))

abbrev pub read_u32 : Bytes → ℕ → ℕ
read_u32 bytes offset =
    join_u32 (byte_at bytes offset) (byte_at bytes (offset + 1)) (byte_at bytes (offset + 2))
      (byte_at bytes (offset + 3))

unfoldable pub validate_limits : ProtocolLimits → Result Exception (Unit {0})
validate_limits limits = throw_if (ltb limits.maximum_frame_size frame_header_size) invalid_argument

-- The loop over the bytes of the magic, from `index` on.
magic_from : Bytes → ℕ → Bytes → Bool
magic_from [] index bytes = true
magic_from (m ∷ ms) index bytes =
    if not (byte_at bytes index == m) then false else magic_from ms (index + 1) bytes

unfoldable pub has_valid_magic : Bytes → Bool
unfolding magic_from
has_valid_magic bytes = magic_from frame_magic 0 bytes

-- decode_frame_header behind the check of the limits.
unfoldable pub check_header : Bytes → ProtocolLimits → Result ParseErrorCode FrameHeader
unfolding has_valid_magic
check_header bytes limits = do
  throw_if (ltb (length bytes) frame_header_size) truncated_header
  throw_if (not (has_valid_magic bytes)) invalid_magic
  let version = read_u16 bytes 4
  throw_if (not (version == protocol_version)) unsupported_protocol_version
  let declared_header_size = read_u16 bytes 6
  throw_if (not (declared_header_size == frame_header_size)) invalid_header_size
  let declared_frame_size = read_u32 bytes 8
  throw_if (ltb declared_frame_size frame_header_size) frame_too_small
  throw_if (ltb limits.maximum_frame_size declared_frame_size) frame_too_large
  let message_type_value = read_u16 bytes 12
  let flags = read_u16 bytes 14
  throw_if (not (flags == 0)) reserved_flags_set
  throw_if (not (message_type_value == command_envelope)) unknown_message_type
  ok (record {
    version = version;
    header_size = declared_header_size;
    frame_size = declared_frame_size;
    message_type = message_type_value;
    flags = flags;
  })

unfoldable pub decode_frame_header :
    Bytes → ProtocolLimits → Result Exception (Result ParseErrorCode FrameHeader)
unfolding validate_limits
decode_frame_header bytes limits = do validate_limits limits; ok (check_header bytes limits)

-- parse_frame behind the decoding of the header.
unfoldable pub check_size : Bytes → FrameHeader → Result ParseErrorCode FrameView
check_size bytes header = do
  throw_if (ltb (length bytes) header.frame_size) truncated_frame
  throw_if (ltb header.frame_size (length bytes)) trailing_data
  ok (record { header = header; payload = drop frame_header_size bytes })

unfoldable pub parse_frame :
    Bytes → ProtocolLimits → Result Exception (Result ParseErrorCode FrameView)
unfolding decode_frame_header
parse_frame bytes limits = do
  header_result ← decode_frame_header bytes limits
  ok (header_result >>= check_size bytes)
