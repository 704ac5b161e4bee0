-- ===== src/Command/Archive/Decode.antt =====
-- cpp/src/command/command_evidence_archive.cpp: an archive from its bytes.
use tickline.Base.{
  ℕ, zero, suc, ◌+◌, ltb, ◌==◌, not, List, [], ◌∷◌, take, drop, length, get_or, Result, ok, err,
  ◌>>=◌, ◌>>◌, throw_if, bit_or,
}
use tickline.Base.Words.{Bytes, join_u16, shl}
use tickline.Security.Sha256.{Sha256Digest}
use tickline.Command.Evidence.{
  CommandEvidenceRecord, command_evidence_schema_version, command_evidence_encoded_size,
}
use tickline.Command.Evidence.Chain.{verify_command_evidence_chain, same_bytes}
use tickline.Command.Evidence.Decode.{CommandEvidenceDecodeErrorCode, decode_command_evidence}
use tickline.Command.Archive.{
  CommandEvidenceArchive, ArchiveException, archive_error, record_error, truncated_header,
  invalid_magic, unsupported_archive_schema, unsupported_record_schema, invalid_record_size,
  nonzero_reserved_field, truncated_records, trailing_data, chain_verification_failed,
  trusted_head_mismatch, command_evidence_archive_schema_version,
  command_evidence_archive_header_size, checked_archive_size,
}
use tickline.Command.Archive.Codec.{archive_magic}

-- An ArchiveReader: the input, and the offset in it.
abbrev ArchiveReader : Type 0
ArchiveReader = Bytes × ℕ

abbrev read_byte : ArchiveReader → ℕ × ArchiveReader
read_byte (input, offset) = (get_or input offset 0, (input, suc offset))

abbrev read_u16 : ArchiveReader → ℕ × ArchiveReader
read_u16 r =
    let (first, r1) = read_byte r in let (second, r2) = read_byte r1 in (join_u16 first second, r2)

-- The loops of read_u32 and read_u64, on a word of `width` bits with `rounds` bytes to go.
unfoldable read_loop : ℕ → ℕ → ℕ → ArchiveReader → ℕ × ArchiveReader
read_loop width zero value r = (value, r)
read_loop width (suc rounds) value r =
    let (byte, r1) = read_byte r in read_loop width rounds (bit_or (shl width value 8) byte) r1

abbrev read_u32 : ArchiveReader → ℕ × ArchiveReader
read_u32 = read_loop 32 4 0

abbrev read_u64 : ArchiveReader → ℕ × ArchiveReader
read_u64 = read_loop 64 8 0

-- The loop of read_digest with `rounds` bytes to go.
unfoldable read_digest_loop : ℕ → ArchiveReader → Bytes × ArchiveReader
read_digest_loop zero r = ([], r)
read_digest_loop (suc rounds) r =
    let (byte, r1) = read_byte r in let (rest, r2) = read_digest_loop rounds r1 in (byte ∷ rest, r2)

abbrev read_digest : ArchiveReader → Sha256Digest × ArchiveReader
read_digest = read_digest_loop 32

-- The loop over the magic.
unfoldable check_magic : Bytes → ArchiveReader → Result ArchiveException ArchiveReader
check_magic [] r = ok r
check_magic (expected ∷ rest) r = do
  let (byte, r1) = read_byte r
  throw_if (not (byte == expected)) (archive_error invalid_magic)
  check_magic rest r1

-- The decoder up to the declared count and head.
unfoldable pub read_header : Bytes → Result ArchiveException (ℕ × Sha256Digest)
unfolding check_magic read_loop read_digest_loop
read_header encoded = do
  throw_if (ltb (length encoded) command_evidence_archive_header_size)
      (archive_error truncated_header)
  r0 ← check_magic archive_magic (take command_evidence_archive_header_size encoded, 0)
  let (archive_schema, r1) = read_u16 r0
  throw_if (not (archive_schema == command_evidence_archive_schema_version))
      (archive_error unsupported_archive_schema)
  let (record_schema, r2) = read_u16 r1
  throw_if (not (record_schema == command_evidence_schema_version))
      (archive_error unsupported_record_schema)
  let (record_size, r3) = read_u32 r2
  throw_if (not (record_size == command_evidence_encoded_size)) (archive_error invalid_record_size)
  let (reserved, r4) = read_u32 r3
  throw_if (not (reserved == 0)) (archive_error nonzero_reserved_field)
  let (record_count, r5) = read_u64 r4
  let (declared_head, r6) = read_digest r5
  ok (record_count, declared_head)

-- What decode_command_evidence throws goes through.
unfoldable pub or_record_error {ℓ} :
    {A : Type ℓ} → Result CommandEvidenceDecodeErrorCode A → Result ArchiveException A
or_record_error (ok a) = ok a
or_record_error (err code) = err (record_error code)

-- The loop over the records, with `rounds` records to go.
unfoldable pub decode_records : ℕ → ℕ → Bytes → Result ArchiveException (List CommandEvidenceRecord)
unfolding or_record_error
decode_records zero offset encoded = ok []
decode_records (suc rounds) offset encoded = do
  r ←
      or_record_error
        (decode_command_evidence (take command_evidence_encoded_size (drop offset encoded)))
  rs ← decode_records rounds (offset + command_evidence_encoded_size) encoded
  ok (r ∷ rs)

unfoldable pub decode_command_evidence_archive :
    Bytes → Sha256Digest → Result ArchiveException CommandEvidenceArchive
decode_command_evidence_archive encoded trusted_head = do
  (record_count, declared_head) ← read_header encoded
  expected_size ← checked_archive_size record_count
  throw_if (ltb (length encoded) expected_size) (archive_error truncated_records)
  throw_if (ltb expected_size (length encoded)) (archive_error trailing_data)
  records ← decode_records record_count command_evidence_archive_header_size encoded
  throw_if (not (verify_command_evidence_chain records declared_head))
      (archive_error chain_verification_failed)
  throw_if (not (same_bytes declared_head trusted_head)) (archive_error trusted_head_mismatch)
  ok (record { records = records; head_digest = declared_head })
