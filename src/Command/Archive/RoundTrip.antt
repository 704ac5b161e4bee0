-- ===== src/Command/Archive/RoundTrip.antt =====
-- cpp/src/command/command_evidence_archive.cpp: archives through their bytes and back.
use tickline.Base.{
  ℕ, ◌+◌, ◌*◌, ◌≤◌, le→ltb, ◌≡◌, refl, ◌∙◌, ap, sym, subst, List, [], ◌∷◌, ◌++◌, append_assoc,
  length, length-append, take, drop, take-append, drop-append, tabulate, tabulate-get_or, get_or,
  All, true, ok, ◌>>=◌, arith,
}
use tickline.Base.Words.{Bytes, IsU64, u64_max, join-bytes_u64}
use tickline.Security.Sha256.{Sha256Digest}
use tickline.Command.Evidence.{CommandEvidenceRecord}
use tickline.Command.Evidence.Codec.{encode_command_evidence}
use tickline.Command.Evidence.RoundTrip.{IsRecord, decode-encode_command_evidence}
use tickline.Command.Evidence.Chain.{verify_command_evidence_chain}
use tickline.Command.Evidence.Chain.Growth.{same_bytes_refl}
use tickline.Command.Archive.Codec.{encode_command_evidence_archive}
use tickline.Command.Archive.Decode.{
  read_header, decode_records, decode_command_evidence_archive, or_record_error,
}
use tickline.Command.Archive.Layout.{
  fixed_header, record_bytes, length-encode_command_evidence, length-archive_bytes,
  encode_command_evidence_archive-eq, checked_archive_size_exact,
}

read_header_spelled :
    (n : ℕ) (d : ℕ → ℕ) (rest : Bytes)
    → IsU64 n
    → read_header ((fixed_header n ++ tabulate 32 d) ++ rest) ≡ ok (n, tabulate 32 d)
unfolding read_header
read_header_spelled n d rest h =
    rw
      (
        le→ltb (length ((fixed_header n ++ tabulate 32 d) ++ rest)) 56 (omega arith),
        join-bytes_u64 n h,
      )
      refl

read_header-archive :
    (n : ℕ) (head rest : Bytes)
    → IsU64 n
    → length head ≡ 32
    → read_header ((fixed_header n ++ head) ++ rest) ≡ ok (n, head)
read_header-archive n head rest h l =
    subst (λ (bs : Bytes). read_header ((fixed_header n ++ bs) ++ rest) ≡ ok (n, bs))
      (tabulate-get_or 32 head 0 l) (read_header_spelled n (λ i. get_or head i 0) rest h)

-- The slice that the loop takes at the front of a record's bytes.
slice-encode_command_evidence :
    (r : CommandEvidenceRecord) (front rest : Bytes) (offset : ℕ)
    → offset ≡ length front
    → take 160 (drop offset (front ++ (encode_command_evidence r ++ rest)))
      ≡ encode_command_evidence r
slice-encode_command_evidence r front rest offset e =
    ap (λ (k : ℕ). take 160 (drop k (front ++ (encode_command_evidence r ++ rest)))) e
    ∙ ap (take 160) (drop-append front (encode_command_evidence r ++ rest))
    ∙ subst (λ (k : ℕ). take k (encode_command_evidence r ++ rest) ≡ encode_command_evidence r)
        (length-encode_command_evidence r) (take-append (encode_command_evidence r) rest)

decode_records-record_bytes :
    (rs : List CommandEvidenceRecord) (front : Bytes) (offset : ℕ)
    → offset ≡ length front
    → All IsRecord rs
    → decode_records (length rs) offset (front ++ record_bytes rs) ≡ ok rs
unfolding decode_records record_bytes or_record_error
decode_records-record_bytes [] front offset e v = refl
decode_records-record_bytes (r ∷ rs) front offset e (v, vs) =
    let bytes = encode_command_evidence r in
    let rest =
      ap (decode_records (length rs) (offset + 160))
        (sym (append_assoc front bytes (record_bytes rs)))
      ∙ decode_records-record_bytes rs (front ++ bytes) (offset + 160)
          (omega (arith, length-append front bytes, length-encode_command_evidence r)) vs in
    rw
      (
        slice-encode_command_evidence r front (record_bytes rs) offset e,
        decode-encode_command_evidence r v,
        rest,
      )
      refl

-- Records whose fields are in their ranges, whose entries pass the checks of the record decoder and
-- which verify against a head of 32 bytes, in an archive whose size 64 bits count, are what the
-- archive of them decodes to, if the head is the trusted one.
pub decode-encode_command_evidence_archive :
    (rs : List CommandEvidenceRecord) (head : Sha256Digest)
    → length head ≡ 32
    → All IsRecord rs
    → verify_command_evidence_chain rs head ≡ true
    → 56 + length rs * 160 ≤ u64_max
    → (encode_command_evidence_archive rs head >>= λ bs. decode_command_evidence_archive bs head)
      ≡ ok (record { records = rs; head_digest = head })
unfolding decode_command_evidence_archive
decode-encode_command_evidence_archive rs head h v c b =
    let size = 56 + length rs * 160 in
    rw
      (
        encode_command_evidence_archive-eq rs head h c b,
        read_header-archive (length rs) head (record_bytes rs) (omega arith) h,
        checked_archive_size_exact (length rs) b,
        length-archive_bytes rs head h,
        le→ltb size size (omega arith),
        decode_records-record_bytes rs (fixed_header (length rs) ++ head) 56
            (omega (arith, length-append (fixed_header (length rs)) head)) v,
        c,
        same_bytes_refl head,
      )
      refl
