-- ===== src/Protocol/Frames/Names.antt =====
-- parse_error_code_name of cpp/include/tickline/protocol/frame.hpp.
use tickline.Base.Text.{codes}
use tickline.Base.Words.{Bytes}
use tickline.Protocol.Frames.{ParseErrorCode}

unfoldable pub parse_error_code_name : ParseErrorCode → Bytes
parse_error_code_name ParseErrorCode.none = codes "none"
parse_error_code_name ParseErrorCode.truncated_header = codes "truncated_header"
parse_error_code_name ParseErrorCode.invalid_magic = codes "invalid_magic"
parse_error_code_name ParseErrorCode.unsupported_protocol_version =
    codes "unsupported_protocol_version"
parse_error_code_name ParseErrorCode.invalid_header_size = codes "invalid_header_size"
parse_error_code_name ParseErrorCode.frame_too_small = codes "frame_too_small"
parse_error_code_name ParseErrorCode.frame_too_large = codes "frame_too_large"
parse_error_code_name ParseErrorCode.reserved_flags_set = codes "reserved_flags_set"
parse_error_code_name ParseErrorCode.unknown_message_type = codes "unknown_message_type"
parse_error_code_name ParseErrorCode.truncated_frame = codes "truncated_frame"
parse_error_code_name ParseErrorCode.trailing_data = codes "trailing_data"
parse_error_code_name ParseErrorCode.payload_size_mismatch = codes "payload_size_mismatch"
parse_error_code_name ParseErrorCode.invalid_entity_id = codes "invalid_entity_id"
