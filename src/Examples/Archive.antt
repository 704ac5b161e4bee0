-- ===== src/Examples/Archive.antt =====
-- Examples of archives, with a file system of files that never fails.
use tickline.Base.{
  ℕ, ◌+◌, ◌*◌, ◌≤◌, ◌<◌, ◌≡◌, refl, ◌⊎◌, true, false, ◌==◌, ==_refl, if◌then◌else◌, some, [], ◌∷◌,
  length, ok, err, ◌>>=◌, arith,
}
use tickline.Base.Words.{Bytes, u64_max}
use tickline.Security.Sha256.{Sha256Digest}
use tickline.Security.Sha256.Padding.{length-sha256}
use tickline.Command.Evidence.Codec.{encode_command_evidence, digest_command_evidence}
use tickline.Command.Evidence.Chain.{verify_command_evidence_chain}
use tickline.Command.Archive.{
  CommandEvidenceArchive, archive_error, chain_verification_failed, record_count_overflow,
}
use tickline.Command.Archive.Codec.{encode_command_evidence_archive}
use tickline.Command.Archive.Decode.{decode_command_evidence_archive}
use tickline.Command.Archive.Layout.{
  archive_bytes, encode_command_evidence_archive_cases, encode_command_evidence_archive-eq,
}
use tickline.Command.Archive.RoundTrip.{decode-encode_command_evidence_archive}
use tickline.Command.Archive.Trust.{IsTrusted, decode_command_evidence_archive-IsTrusted}
use tickline.Command.Archive.File.{
  FileSystem, IsDurable, write_encoded, write_command_evidence_archive,
  read_command_evidence_archive,
}
use tickline.Command.Archive.File.Stored.{read-write_command_evidence_archive}
use tickline.Examples.Command.{only_record, only_record-IsRecord, only_record_verifies}

abbrev files : FileSystem
files = record {
  FilePath = ℕ;
  Files = ℕ → Bytes;
  open_for_writing = λ path s. (true, λ j. if j == path then [] else s j);
  write = λ path bs s. (true, λ j. if j == path then bs else s j);
  close = λ path s. (true, s);
  open_for_reading = λ path s. true;
  tellg = λ path s. some (length (s path));
  read = λ path n s. s path;
}

files-IsDurable : IsDurable files
files-IsDurable = record {
  durable = λ path bs s o w c. (refl, rw (==_refl path) refl, rw (==_refl path) refl);
}

abbrev head : Sha256Digest
head = digest_command_evidence only_record

length-head : length head ≡ 32
unfolding digest_command_evidence
length-head = length-sha256 (encode_command_evidence only_record)

abbrev archive : CommandEvidenceArchive
archive = record { records = only_record ∷ []; head_digest = head }

encode_command_evidence_archive_cases_example :
    ((verify_command_evidence_chain (only_record ∷ []) head ≡ false)
      × (encode_command_evidence_archive (only_record ∷ []) head
          ≡ err (archive_error chain_verification_failed)))
    ⊎ ((verify_command_evidence_chain (only_record ∷ []) head ≡ true)
        × (((u64_max < 56 + 1 * 160)
              × (encode_command_evidence_archive (only_record ∷ []) head
                  ≡ err (archive_error record_count_overflow)))
            ⊎ ((56 + 1 * 160 ≤ u64_max)
                × (length (archive_bytes (only_record ∷ []) head) ≡ 56 + 1 * 160)
                × (encode_command_evidence_archive (only_record ∷ []) head
                    ≡ ok (archive_bytes (only_record ∷ []) head)))))
encode_command_evidence_archive_cases_example =
    encode_command_evidence_archive_cases (only_record ∷ []) head length-head

decode-encode_command_evidence_archive_example :
    (encode_command_evidence_archive (only_record ∷ []) head >>= λ bs.
    decode_command_evidence_archive bs head)
    ≡ ok archive
decode-encode_command_evidence_archive_example =
    decode-encode_command_evidence_archive (only_record ∷ []) head length-head
      (only_record-IsRecord, tt) only_record_verifies (omega arith)

archive-encoded :
    encode_command_evidence_archive (only_record ∷ []) head
    ≡ ok (archive_bytes (only_record ∷ []) head)
archive-encoded =
    encode_command_evidence_archive-eq (only_record ∷ []) head length-head only_record_verifies
      (omega arith)

archive-decoded :
    decode_command_evidence_archive (archive_bytes (only_record ∷ []) head) head ≡ ok archive
archive-decoded = rw archive-encoded at (
    decode-encode_command_evidence_archive (only_record ∷ []) head length-head
      (only_record-IsRecord, tt) only_record_verifies (omega arith))

decode_command_evidence_archive-IsTrusted_example :
    IsTrusted (archive_bytes (only_record ∷ []) head) head archive
decode_command_evidence_archive-IsTrusted_example =
    decode_command_evidence_archive-IsTrusted (archive_bytes (only_record ∷ []) head) head archive
      archive-decoded

archive-written :
    (write_command_evidence_archive files 5 (only_record ∷ []) head (λ _. [])).0 ≡ ok tt
unfolding write_command_evidence_archive write_encoded
archive-written = rw archive-encoded refl

read-write_command_evidence_archive_example :
    read_command_evidence_archive files 5 head
      (write_command_evidence_archive files 5 (only_record ∷ []) head (λ _. [])).1
    ≡ ok archive
read-write_command_evidence_archive_example =
    read-write_command_evidence_archive files files-IsDurable 5 (only_record ∷ []) head (λ _. [])
      length-head (only_record-IsRecord, tt) (omega arith) archive-written
