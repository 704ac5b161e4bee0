-- ===== src/Command/Archive/Layout.antt =====
-- cpp/src/command/command_evidence_archive.cpp: which bytes an archive consists of.
use tickline.Base.{
  ℕ, ◌+◌, ◌*◌, ◌/◌, ◌-◌, ◌≤◌, ◌<◌, ==_refl, le→ltb, lt→ltb, ltb→lt, ltb→le, ltb, Bool-cases, inl,
  inr, ◌⊎◌, false, ◌≡◌, refl, ◌∙◌, ap, sym, List, [], ◌∷◌, ◌++◌, append_assoc, append-nil, length,
  length-append, length-set, true, ok, err, arith,
}
use tickline.Base.Words.{Bytes, u64_max, bytes_u16, bytes_u32, bytes_u64}
use tickline.Security.Sha256.{Sha256Digest}
use tickline.Command.Evidence.{CommandEvidenceRecord}
use tickline.Command.Evidence.Codec.{
  EvidenceWriter, append_bytes, append_byte, encode_command_evidence,
}
use tickline.Command.Evidence.Chain.{verify_command_evidence_chain}
use tickline.Command.Archive.{
  checked_archive_size, archive_error, record_count_overflow, chain_verification_failed,
}
use tickline.Command.Archive.Codec.{
  append_header, append_records, encode_command_evidence_archive, archive_magic,
}

length-append_bytes :
    (w : EvidenceWriter) (bs : Bytes) → length (append_bytes w bs).output ≡ length w.output
unfolding append_bytes append_byte
length-append_bytes w [] = refl
length-append_bytes w (b ∷ bs) =
    length-append_bytes (append_byte w b) bs ∙ length-set w.output w.offset b

pub length-encode_command_evidence :
    (r : CommandEvidenceRecord) → length (encode_command_evidence r) ≡ 160
unfolding encode_command_evidence
length-encode_command_evidence r = simp length-append_bytes

-- The bytes of the records, one behind the other.
unfoldable pub record_bytes : List CommandEvidenceRecord → Bytes
record_bytes [] = []
record_bytes (r ∷ rs) = encode_command_evidence r ++ record_bytes rs

pub length-record_bytes :
    (rs : List CommandEvidenceRecord) → length (record_bytes rs) ≡ 160 * length rs
unfolding record_bytes
length-record_bytes [] = omega arith
length-record_bytes (r ∷ rs) = omega (
  arith,
  length-append (encode_command_evidence r) (record_bytes rs),
  length-encode_command_evidence r,
  length-record_bytes rs,
)

append_records-record_bytes :
    (rs : List CommandEvidenceRecord) (output : Bytes)
    → append_records rs output ≡ output ++ record_bytes rs
unfolding append_records record_bytes
append_records-record_bytes [] output = sym (append-nil output)
append_records-record_bytes (r ∷ rs) output =
    append_records-record_bytes rs (output ++ encode_command_evidence r)
    ∙ append_assoc output (encode_command_evidence r) (record_bytes rs)

-- The header in front of the head.
abbrev pub fixed_header : ℕ → Bytes
fixed_header count =
    archive_magic
    ++ (bytes_u16 1 ++ (bytes_u16 2 ++ (bytes_u32 160 ++ (bytes_u32 0 ++ bytes_u64 count))))

-- What an archive consists of.
abbrev pub archive_bytes : List CommandEvidenceRecord → Sha256Digest → Bytes
archive_bytes rs head = (fixed_header (length rs) ++ head) ++ record_bytes rs

append_header-fixed_header :
    (count : ℕ) (head : Sha256Digest) → append_header count head [] ≡ fixed_header count ++ head
unfolding append_header
append_header-fixed_header count head = refl

pub length-archive_bytes :
    (rs : List CommandEvidenceRecord) (head : Sha256Digest)
    → length head ≡ 32
    → length (archive_bytes rs head) ≡ 56 + length rs * 160
length-archive_bytes rs head h = omega (
  arith,
  length-append (fixed_header (length rs) ++ head) (record_bytes rs),
  length-append (fixed_header (length rs)) head,
  length-record_bytes rs,
)

pub checked_archive_size_exact :
    (n : ℕ) → 56 + n * 160 ≤ u64_max → checked_archive_size n ≡ ok (56 + n * 160)
unfolding checked_archive_size
checked_archive_size_exact n h =
    rw (le→ltb u64_max n (omega arith), le→ltb ((u64_max - 56) / 160) n (omega arith))
      (ap ok (omega arith))

checked_archive_size_overflow :
    (n : ℕ)
    → u64_max < 56 + n * 160
    → checked_archive_size n ≡ err (archive_error record_count_overflow)
unfolding checked_archive_size
checked_archive_size_overflow n h = elim (Bool-cases (ltb u64_max n)) [
  | inl t ↦ rw t refl
  | inr t ↦ rw (t, lt→ltb ((u64_max - 56) / 160) n (omega arith)) refl
]

module _ (rs : List CommandEvidenceRecord) (head : Sha256Digest) where
  encode_command_evidence_archive_too_many :
      verify_command_evidence_chain rs head ≡ true
      → u64_max < 56 + length rs * 160
      → encode_command_evidence_archive rs head ≡ err (archive_error record_count_overflow)
  unfolding encode_command_evidence_archive
  encode_command_evidence_archive_too_many v b = elim (Bool-cases (ltb u64_max (length rs))) [
    | inl t ↦ rw (v, t) refl
    | inr t ↦ rw (v, t, checked_archive_size_overflow (length rs) b) refl
  ]

  pub encode_command_evidence_archive-eq :
      length head ≡ 32
      → verify_command_evidence_chain rs head ≡ true
      → 56 + length rs * 160 ≤ u64_max
      → encode_command_evidence_archive rs head ≡ ok (archive_bytes rs head)
  unfolding encode_command_evidence_archive
  encode_command_evidence_archive-eq h v b =
      rw
        (
          v,
          le→ltb u64_max (length rs) (omega arith),
          checked_archive_size_exact (length rs) b,
          append_records-record_bytes rs (append_header (length rs) head []),
          append_header-fixed_header (length rs) head,
          length-archive_bytes rs head h,
          ==_refl (56 + length rs * 160),
        )
        refl

  -- On a head of 32 bytes, as every digest has, the encoder refuses records that do not verify
  -- against it, and then records whose archive would have more bytes than 64 bits count. Of all
  -- others it makes the magic, the two schema versions, the record size, the reserved zero, the
  -- count and the head, and behind these 56 bytes the 160 bytes of each record. So it never throws
  -- the logic_error of its own size check.
  pub encode_command_evidence_archive_cases :
      length head ≡ 32
      → ((verify_command_evidence_chain rs head ≡ false)
          × (encode_command_evidence_archive rs head
              ≡ err (archive_error chain_verification_failed)))
        ⊎ ((verify_command_evidence_chain rs head ≡ true)
            × (((u64_max < 56 + length rs * 160)
                  × (encode_command_evidence_archive rs head
                      ≡ err (archive_error record_count_overflow)))
                ⊎ ((56 + length rs * 160 ≤ u64_max)
                    × (length (archive_bytes rs head) ≡ 56 + length rs * 160)
                    × (encode_command_evidence_archive rs head ≡ ok (archive_bytes rs head)))))
  unfolding encode_command_evidence_archive
  encode_command_evidence_archive_cases h =
      let size = 56 + length rs * 160 in
      elim (Bool-cases (verify_command_evidence_chain rs head)) [
        | inr v ↦ inl (v, rw v refl)
        | inl v ↦ elim (Bool-cases (ltb u64_max size)) [
          | inl t ↦
              let b = ltb→lt u64_max size t in
              inr (v, inl (b, encode_command_evidence_archive_too_many v b))
          | inr t ↦
              let b = ltb→le u64_max size t in
              inr (
                v,
                inr (b, length-archive_bytes rs head h, encode_command_evidence_archive-eq h v b),
              )
        ]
      ]
