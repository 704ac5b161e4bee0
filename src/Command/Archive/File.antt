-- ===== src/Command/Archive/File.antt =====
-- cpp/src/command/command_evidence_archive.cpp: archives in files. The file system is a parameter.
pub mod Stored
use tickline.Base.{
  ℕ, ◌+◌, ◌*◌, ◌-◌, ◌^◌, ◌<◌, ◌≤◌, ltb, le→ltb, ◌==◌, ==_refl, not, ◌||◌, if◌then◌else◌, Bool, true,
  false, Option, none, some, List, [], ◌∷◌, length, Result, ok, err, ◌>>=◌, ◌>>◌, throw_if, ◌≡◌,
  refl, ◌⊎◌, All, arith,
}
use tickline.Base.Words.{Bytes, u64_max}
use tickline.Security.Sha256.{Sha256Digest}
use tickline.Command.Evidence.{CommandEvidenceRecord}
use tickline.Command.Evidence.Chain.{CommandEvidenceLog}
use tickline.Command.Archive.{ArchiveException, CommandEvidenceArchive, archive_error, io_error}
use tickline.Command.Archive.Codec.{encode_command_evidence_archive}
use tickline.Command.Archive.Decode.{decode_command_evidence_archive}

-- What the streams of the standard library do with the files. An operation that changes them says
-- whether the stream is still good; `open_for_writing` truncates, `write` is a write and a flush.
pub record FileSystem : Type 1 where
  pub FilePath : Type 0
  pub Files : Type 0
  pub open_for_writing : FilePath → Files → Bool × Files
  pub write : FilePath → Bytes → Files → Bool × Files
  pub close : FilePath → Files → Bool × Files
  pub open_for_reading : FilePath → Files → Bool
  pub tellg : FilePath → Files → Option ℕ
  pub read : FilePath → ℕ → Files → Bytes

-- A file that was opened, written and closed without a failure is there with what was written.
pub record IsDurable (S : FileSystem) : Type 0 where
  pub durable :
      (path : S.FilePath) (bs : Bytes) (files : S.Files)
      → let opened = S.open_for_writing path files in
        let written = S.write path bs opened.1 in
        let closed = S.close path written.1 in
        opened.0 ≡ true
        → written.0 ≡ true
        → closed.0 ≡ true
        → (S.open_for_reading path closed.1 ≡ true)
          × (S.tellg path closed.1 ≡ some (length bs))
          × (S.read path (length bs) closed.1 ≡ bs)

-- std::numeric_limits<std::streamsize>::max()
abbrev pub streamsize_max : ℕ
streamsize_max = 2 ^ 63 - 1

module _ (S : FileSystem) (path : S.FilePath) where
  -- The writes of an archive that was encoded. Where a write failed, the destructor closes the file.
  unfoldable pub write_encoded : S.Files → Bytes → Result ArchiveException (Unit {0}) × S.Files
  write_encoded files encoded =
      let (is_open, files1) = S.open_for_writing path files in
      let (written, files2) = S.write path encoded files1 in
      let (closed, files3) = S.close path files2 in
      if not is_open
      then (err (archive_error io_error), files1)
      else if not written
      then (err (archive_error io_error), files3)
      else if not closed
      then (err (archive_error io_error), files3)
      else (ok tt, files3)

  abbrev write_result :
      S.Files → Result ArchiveException Bytes → Result ArchiveException (Unit {0}) × S.Files
  write_result files (err e) = (err e, files)
  write_result files (ok encoded) = write_encoded files encoded

  unfoldable pub write_command_evidence_archive :
      List CommandEvidenceRecord
      → Sha256Digest
      → S.Files
      → Result ArchiveException (Unit {0}) × S.Files
  write_command_evidence_archive records head_digest files =
      write_result files (encode_command_evidence_archive records head_digest)

  -- The overload for a log.
  unfoldable pub write_command_evidence_log :
      CommandEvidenceLog → S.Files → Result ArchiveException (Unit {0}) × S.Files
  unfolding write_command_evidence_archive
  write_command_evidence_log evidence files =
      write_command_evidence_archive evidence.records evidence.head_digest files

  -- A position that could not be told is an error.
  abbrev known_size : Option ℕ → Result ArchiveException ℕ
  known_size none = err (archive_error io_error)
  known_size (some end_position) = ok end_position

  -- The read of a file that is not empty, and the count of what was read.
  abbrev read_bytes : S.Files → ℕ → Result ArchiveException Bytes
  read_bytes files file_size =
      let encoded = S.read path file_size files in
      if file_size == 0
      then ok []
      else if not (length encoded == file_size)
      then err (archive_error io_error)
      else ok encoded

  unfoldable pub read_command_evidence_archive :
      Sha256Digest → S.Files → Result ArchiveException CommandEvidenceArchive
  read_command_evidence_archive trusted_head files = do
    throw_if (not (S.open_for_reading path files)) (archive_error io_error)
    file_size ← known_size (S.tellg path files)
    throw_if (ltb u64_max file_size || ltb streamsize_max file_size) (archive_error io_error)
    encoded ← read_bytes files file_size
    decode_command_evidence_archive encoded trusted_head
