-- ===== src/Command/Archive.antt =====
-- cpp/include/tickline/command/command_evidence_archive.hpp and
-- cpp/src/command/command_evidence_archive.cpp: a log of evidence as one file.
pub mod Codec
pub mod Decode
pub mod Layout
pub mod RoundTrip
pub mod Trust
pub mod File
use tickline.Base.{
  ℕ, ◌+◌, ◌*◌, ◌-◌, ◌/◌, ◌%◌, ◌^◌, ltb, List, Result, ok, Exception, ◌>>◌, throw_if,
}
use tickline.Base.Words.{u64_max}
use tickline.Security.Sha256.{Sha256Digest}
use tickline.Command.Evidence.{CommandEvidenceRecord, command_evidence_encoded_size}
use tickline.Command.Evidence.Decode.{CommandEvidenceDecodeErrorCode}

abbrev pub command_evidence_archive_schema_version : ℕ
command_evidence_archive_schema_version = 1

abbrev pub command_evidence_archive_header_size : ℕ
command_evidence_archive_header_size = 56

pub data CommandEvidenceArchiveErrorCode : Type 0 where
  truncated_header invalid_magic unsupported_archive_schema unsupported_record_schema
        invalid_record_size nonzero_reserved_field record_count_overflow truncated_records
        trailing_data chain_verification_failed trusted_head_mismatch io_error :
      CommandEvidenceArchiveErrorCode

-- What the functions on archives throw: their own error, that of the record decoder, or a standard
-- exception.
pub data ArchiveException : Type 0 where
  archive_error : CommandEvidenceArchiveErrorCode → ArchiveException
  record_error : CommandEvidenceDecodeErrorCode → ArchiveException
  standard : Exception → ArchiveException

pub record CommandEvidenceArchive : Type 0 where
  pub records : List CommandEvidenceRecord
  pub head_digest : Sha256Digest

-- std::size_t has 64 bits.
unfoldable pub checked_archive_size : ℕ → Result ArchiveException ℕ
checked_archive_size record_count = do
  throw_if (ltb u64_max record_count) (archive_error record_count_overflow)
  throw_if
      (ltb ((u64_max - command_evidence_archive_header_size) / command_evidence_encoded_size)
        record_count)
      (archive_error record_count_overflow)
  ok (
      (command_evidence_archive_header_size + record_count * command_evidence_encoded_size % 2 ^ 64)
      % 2 ^ 64)
