-- ===== src/Command/Archive/Trust.antt =====
-- cpp/src/command/command_evidence_archive.cpp: what a decoded archive is known to be.
use tickline.Base.{
  ℕ, zero, suc, ◌+◌, ◌-◌, ◌*◌, ◌/◌, ◌≤◌, ltb, ltb→le, not, Bool, true, false, ◌≡◌, refl, ap, subst,
  List, [], ◌∷◌, length, take, drop, ok, err, ok-injective, first_step, throw_if-eq-ok, Result,
  arith,
}
use tickline.Base.Words.{Bytes, u64_max}
use tickline.Security.Sha256.{Sha256Digest}
use tickline.Command.Evidence.{CommandEvidenceRecord}
use tickline.Command.Evidence.Chain.{verify_command_evidence_chain, same_bytes}
use tickline.Command.Evidence.Chain.Growth.{same_bytes-eq}
use tickline.Command.Evidence.Decode.{CommandEvidenceDecodeErrorCode, decode_command_evidence}
use tickline.Command.Archive.{CommandEvidenceArchive, checked_archive_size}
use tickline.Command.Archive.Decode.{
  read_header, decode_records, decode_command_evidence_archive, or_record_error,
}

not-false : (b : Bool) → not b ≡ false → b ≡ true
not-false true e = refl
not-false false e = cc

or_record_error-eq-ok {ℓ} :
    {A : Type ℓ} (r : Result CommandEvidenceDecodeErrorCode A) {a : A}
    → or_record_error r ≡ ok a
    → r ≡ ok a
unfolding or_record_error
or_record_error-eq-ok (ok a) e = ap ok (ok-injective e)
or_record_error-eq-ok (err code) e = cc

checked_archive_size-eq-ok :
    (n size : ℕ) → checked_archive_size n ≡ ok size → (size ≡ 56 + n * 160) × (size ≤ u64_max)
unfolding checked_archive_size
checked_archive_size-eq-ok n size e =
    let (_, e1) = throw_if-eq-ok (ltb u64_max n) _ _ e in
    let (t, e2) = throw_if-eq-ok (ltb ((u64_max - 56) / 160) n) _ _ e1 in
    let bound = ltb→le ((u64_max - 56) / 160) n t in
    let same = ok-injective e2 in (omega arith, omega arith)

-- Each record is what the record decoder makes of its 160 bytes.
abbrev pub AreDecoded : ℕ → Bytes → List CommandEvidenceRecord → Type 0
AreDecoded offset bs [] = Unit {0}
AreDecoded offset bs (r ∷ rs) =
    (decode_command_evidence (take 160 (drop offset bs)) ≡ ok r) × AreDecoded (offset + 160) bs rs

decode_records-AreDecoded :
    (n offset : ℕ) (bs : Bytes) (rs : List CommandEvidenceRecord)
    → decode_records n offset bs ≡ ok rs
    → (length rs ≡ n) × AreDecoded offset bs rs
unfolding decode_records
decode_records-AreDecoded zero offset bs [] e = (refl, tt)
decode_records-AreDecoded zero offset bs (r ∷ rs) e = absurd (cc (ok-injective e))
decode_records-AreDecoded (suc n) offset bs rs e =
    let first = decode_command_evidence (take 160 (drop offset bs)) in
    let (r, er, e1) = first_step (or_record_error first) _ e in
    let (rest, erest, e2) = first_step (decode_records n (offset + 160) bs) _ e1 in
    let (l, d) = decode_records-AreDecoded n (offset + 160) bs rest erest in
    let found : (length (r ∷ rest) ≡ suc n) × AreDecoded offset bs (r ∷ rest) =
      (ap suc l, (or_record_error-eq-ok first er, d)) in
    subst (λ (l : List CommandEvidenceRecord). (length l ≡ suc n) × AreDecoded offset bs l)
      (ok-injective e2) found

-- An archive that decodes under a trusted head holds that head, records that verify against it, as
-- many as its header counts, each decoded from its own 160 bytes, and no byte behind them.
pub record IsTrusted (bs : Bytes) (trusted_head : Sha256Digest) (a : CommandEvidenceArchive)
    : Type 0 where
  pub head : a.head_digest ≡ trusted_head
  pub verified : verify_command_evidence_chain a.records trusted_head ≡ true
  pub header : read_header bs ≡ ok (length a.records, trusted_head)
  pub size : length bs ≡ 56 + length a.records * 160
  pub decoded : AreDecoded 56 bs a.records

made-IsTrusted :
    (bs : Bytes) (trusted_head head : Sha256Digest) (n size : ℕ) (rs : List CommandEvidenceRecord)
    → head ≡ trusted_head
    → read_header bs ≡ ok (n, head)
    → checked_archive_size n ≡ ok size
    → length bs ≡ size
    → decode_records n 56 bs ≡ ok rs
    → verify_command_evidence_chain rs head ≡ true
    → IsTrusted bs trusted_head (record { records = rs; head_digest = head })
made-IsTrusted bs trusted_head head n size rs same eh es el er ev =
    let (l, d) = decode_records-AreDecoded n 56 bs rs er in
    record {
      head = same;
      verified = rw (← same) ev;
      header = rw (l, ← same) eh;
      size = omega (arith, checked_archive_size-eq-ok n size es);
      decoded = d;
    }

pub decode_command_evidence_archive-IsTrusted :
    (bs : Bytes) (trusted_head : Sha256Digest) (a : CommandEvidenceArchive)
    → decode_command_evidence_archive bs trusted_head ≡ ok a
    → IsTrusted bs trusted_head a
unfolding decode_command_evidence_archive
decode_command_evidence_archive-IsTrusted bs trusted_head a e =
    let ((n, head), eh, e1) = first_step (read_header bs) _ e in
    let (size, es, e2) = first_step (checked_archive_size n) _ e1 in
    let (t1, e3) = throw_if-eq-ok (ltb (length bs) size) _ _ e2 in
    let (t2, e4) = throw_if-eq-ok (ltb size (length bs)) _ _ e3 in
    let (rs, er, e5) = first_step (decode_records n 56 bs) _ e4 in
    let (t3, e6) = throw_if-eq-ok (not (verify_command_evidence_chain rs head)) _ _ e5 in
    let (t4, e7) = throw_if-eq-ok (not (same_bytes head trusted_head)) _ _ e6 in
    subst (IsTrusted bs trusted_head) (ok-injective e7) (
      made-IsTrusted bs trusted_head head n size rs
        (same_bytes-eq head trusted_head (not-false _ t4)) eh es
        (omega (arith, ltb→le (length bs) size t1, ltb→le size (length bs) t2)) er (not-false _ t3))
