-- ===== src/Command/Archive/File/Stored.antt =====
-- cpp/src/command/command_evidence_archive.cpp: an archive that was written to a file and is read.
use tickline.Base.{
  some, ◌<◌, ◌+◌, ◌*◌, ◌≤◌, le→ltb, ==_refl, ==_ne, Bool-cases, true, inl, inr, List, length, ok,
  ◌≡◌, refl, ◌∙◌, All, arith,
}
use tickline.Base.Words.{Bytes, u64_max}
use tickline.Security.Sha256.{Sha256Digest}
use tickline.Command.Evidence.{CommandEvidenceRecord}
use tickline.Command.Evidence.RoundTrip.{IsRecord}
use tickline.Command.Archive.Decode.{decode_command_evidence_archive}
use tickline.Command.Archive.Layout.{archive_bytes, encode_command_evidence_archive_cases}
use tickline.Command.Archive.RoundTrip.{decode-encode_command_evidence_archive}
use tickline.Command.Archive.File.{
  FileSystem, IsDurable, streamsize_max, write_encoded, write_command_evidence_archive,
  read_command_evidence_archive,
}

module _ (S : FileSystem) (durable : IsDurable S) (path : S.FilePath) where
  -- What a write that reported no failure went through.
  write_encoded-eq-ok :
      (files : S.Files) (bs : Bytes)
      → (write_encoded S path files bs).0 ≡ ok tt
      → let stored = (write_encoded S path files bs).1 in
        (S.open_for_reading path stored ≡ true)
        × (S.tellg path stored ≡ some (length bs))
        × (S.read path (length bs) stored ≡ bs)
  unfolding write_encoded
  write_encoded-eq-ok files bs e =
      let opened = S.open_for_writing path files in
      let written = S.write path bs opened.1 in
      let closed = S.close path written.1 in
      elim (Bool-cases opened.0) [
        | inr t ↦ absurd (cc (rw t at e))
        | inl t1 ↦ elim (Bool-cases written.0) [
          | inr t ↦ absurd (cc (rw (t1, t) at e))
          | inl t2 ↦ elim (Bool-cases closed.0) [
            | inr t ↦ absurd (cc (rw (t1, t2, t) at e))
            | inl t3 ↦ rw (t1, t2, t3) (durable.durable path bs files t1 t2 t3)
          ]
        ]
      ]

  read_stored :
      (files : S.Files) (bs : Bytes) (head : Sha256Digest)
      → (S.open_for_reading path files ≡ true)
        × (S.tellg path files ≡ some (length bs))
        × (S.read path (length bs) files ≡ bs)
      → 0 < length bs
      → length bs ≤ streamsize_max
      → read_command_evidence_archive S path head files ≡ decode_command_evidence_archive bs head
  unfolding read_command_evidence_archive
  read_stored files bs head (opened, told, got) some_bytes fits =
      rw
        (
          opened,
          told,
          le→ltb u64_max (length bs) (omega arith),
          le→ltb streamsize_max (length bs) fits,
          ==_ne (length bs) 0 (λ z. omega arith),
          got,
          ==_refl (length bs),
        )
        refl

  -- On a file system that keeps what was written to a file and closed without a failure: if records
  -- with fields in their ranges, whose archive has a size that a stream can count, were written
  -- with a head of 32 bytes and no failure was reported, then the file reads back to these records
  -- and this head.
  pub read-write_command_evidence_archive :
      (rs : List CommandEvidenceRecord) (head : Sha256Digest) (files : S.Files)
      → length head ≡ 32
      → All IsRecord rs
      → 56 + length rs * 160 ≤ streamsize_max
      → (write_command_evidence_archive S path rs head files).0 ≡ ok tt
      → read_command_evidence_archive S path head
          (write_command_evidence_archive S path rs head files).1
        ≡ ok (record { records = rs; head_digest = head })
  unfolding write_command_evidence_archive
  read-write_command_evidence_archive rs head files h v b e =
      elim (encode_command_evidence_archive_cases rs head h) [
        | inl (_, refused) ↦ absurd (cc (rw refused at e))
        | inr (verified, inl (_, refused)) ↦ absurd (cc (rw refused at e))
        | inr (verified, inr (fits, size, encoded)) ↦
            let bs = archive_bytes rs head in
            let written : (write_encoded S path files bs).0 ≡ ok tt = rw encoded at e in
            let decoded = decode-encode_command_evidence_archive rs head h v verified fits in
            rw encoded (
              read_stored _ bs head (write_encoded-eq-ok files bs written) (omega (arith, size))
                (omega (arith, size))
              ∙ rw encoded at decoded)
      ]
