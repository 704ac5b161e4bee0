-- ===== src/Command/Archive/Codec.antt =====
-- cpp/src/command/command_evidence_archive.cpp: an archive as bytes.
use tickline.Base.{
  ℕ, ltb, ◌==◌, not, List, [], ◌∷◌, ◌++◌, length, Result, ok, logic_error, ◌>>=◌, ◌>>◌, throw_if,
}
use tickline.Base.Words.{Bytes, low_byte, shr, u64_max}
use tickline.Security.Sha256.{Sha256Digest}
use tickline.Command.Evidence.{
  CommandEvidenceRecord, command_evidence_schema_version, command_evidence_encoded_size,
}
use tickline.Command.Evidence.Codec.{encode_command_evidence}
use tickline.Command.Evidence.Chain.{verify_command_evidence_chain}
use tickline.Command.Archive.{
  ArchiveException, archive_error, standard, record_count_overflow, chain_verification_failed,
  command_evidence_archive_schema_version, checked_archive_size,
}

abbrev pub archive_magic : Bytes
archive_magic = 0x54 ∷ 0x4c ∷ 0x43 ∷ 0x41 ∷ []

-- An ArchiveWriter is its output.
abbrev append_byte : Bytes → ℕ → Bytes
append_byte output value = output ++ (value ∷ [])

-- A loop over the bytes of an array.
unfoldable append_all : Bytes → Bytes → Bytes
append_all output [] = output
append_all output (b ∷ bs) = append_all (append_byte output b) bs

abbrev append_u16 : Bytes → ℕ → Bytes
append_u16 output value = append_byte (append_byte output (low_byte (shr value 8))) (low_byte value)

-- The loop of append_u32 and of append_u64 over the shifts.
unfoldable append_shifts : List ℕ → Bytes → ℕ → Bytes
append_shifts [] output value = output
append_shifts (shift ∷ shifts) output value =
    append_shifts shifts (append_byte output (low_byte (shr value shift))) value

abbrev append_u32 : Bytes → ℕ → Bytes
append_u32 = append_shifts (24 ∷ 16 ∷ 8 ∷ 0 ∷ [])

abbrev append_u64 : Bytes → ℕ → Bytes
append_u64 = append_shifts (56 ∷ 48 ∷ 40 ∷ 32 ∷ 24 ∷ 16 ∷ 8 ∷ 0 ∷ [])

abbrev append_digest : Bytes → Sha256Digest → Bytes
append_digest output digest = output ++ digest

-- The header, of a count of records and a head.
unfoldable pub append_header : ℕ → Sha256Digest → Bytes → Bytes
unfolding append_all append_shifts
append_header count head_digest output =
    let o1 = append_all output archive_magic in
    let o2 = append_u16 o1 command_evidence_archive_schema_version in
    let o3 = append_u16 o2 command_evidence_schema_version in
    let o4 = append_u32 o3 command_evidence_encoded_size in
    let o5 = append_u32 o4 0 in let o6 = append_u64 o5 count in append_digest o6 head_digest

-- The loop over the records.
unfoldable pub append_records : List CommandEvidenceRecord → Bytes → Bytes
append_records [] output = output
append_records (r ∷ rs) output = append_records rs (output ++ encode_command_evidence r)

unfoldable pub encode_command_evidence_archive :
    List CommandEvidenceRecord → Sha256Digest → Result ArchiveException Bytes
encode_command_evidence_archive records head_digest = do
  throw_if (not (verify_command_evidence_chain records head_digest))
      (archive_error chain_verification_failed)
  throw_if (ltb u64_max (length records)) (archive_error record_count_overflow)
  encoded_size ← checked_archive_size (length records)
  let output = append_records records (append_header (length records) head_digest [])
  throw_if (not (length output == encoded_size)) (standard logic_error)
  ok output
