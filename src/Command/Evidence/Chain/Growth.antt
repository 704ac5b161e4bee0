-- ===== src/Command/Evidence/Chain/Growth.antt =====
-- cpp/src/command/command_evidence.cpp: the chain as a relation, and appends.
use tickline.Base.{
  ℕ, ◌+◌, ◌≤◌, ◌==◌, ==_iff, ==_refl, ltb, le→ltb, ltb→le, Bool-cases, true, ◌↔◌, ◌≡◌, refl, ap₂,
  subst, subst₂, sym, ◌∙◌, List, [], ◌∷◌, ◌++◌, length, arith, inl, inr,
}
use tickline.Base.Words.{Bytes, u64_max}
use tickline.Security.Sha256.{Sha256Digest, zero_digest}
use tickline.Command.Evidence.{CommandEvidenceEntry, CommandEvidenceRecord}
use tickline.Command.Evidence.Codec.{digest_command_evidence}
use tickline.Command.Evidence.Chain.{
  CommandEvidenceLog, same_bytes, verify_from, verify_command_evidence_chain, verify, append,
  empty_log, next_record,
}

pub same_bytes_refl : (bs : Bytes) → same_bytes bs bs ≡ true
unfolding same_bytes
same_bytes_refl [] = refl
same_bytes_refl (y ∷ ys) = rw (==_refl y) (same_bytes_refl ys)

pub same_bytes-eq : (xs ys : Bytes) → same_bytes xs ys ≡ true → xs ≡ ys
unfolding same_bytes
same_bytes-eq [] [] h = refl
same_bytes-eq [] (y ∷ ys) h = cc
same_bytes-eq (x ∷ xs) [] h = cc
same_bytes-eq (x ∷ xs) (y ∷ ys) h = elim (Bool-cases (x == y)) [
  | inl t ↦ ap₂ ◌∷◌ ((==_iff x y).0 t) (same_bytes-eq xs ys (rw t at h))
  | inr t ↦ absurd (cc (rw t at h))
]

-- What one round of the loop asks of a record.
pub record IsLinked (index : ℕ) (previous : Sha256Digest) (r : CommandEvidenceRecord) : Type 0 where
  pub counted : index ≤ u64_max
  pub ordinal : r.ordinal ≡ index
  pub previous_digest : r.previous_record_digest ≡ previous

verify_from_linked :
    (index : ℕ) (previous : Sha256Digest) (r : CommandEvidenceRecord)
    (rs : List CommandEvidenceRecord) (head : Sha256Digest)
    → IsLinked index previous r
    → verify_from index previous (r ∷ rs) head
      ≡ verify_from (index + 1) (digest_command_evidence r) rs head
unfolding verify_from
verify_from_linked index previous r rs head l = rw (
  le→ltb u64_max index l.counted,
  l.ordinal,
  ==_refl index,
  l.previous_digest,
  same_bytes_refl previous,
)

verify_from-IsLinked :
    (index : ℕ) (previous : Sha256Digest) (r : CommandEvidenceRecord)
    (rs : List CommandEvidenceRecord) (head : Sha256Digest)
    → verify_from index previous (r ∷ rs) head ≡ true
    → IsLinked index previous r
      × (verify_from (index + 1) (digest_command_evidence r) rs head ≡ true)
unfolding verify_from
verify_from-IsLinked index previous r rs head h = elim (Bool-cases (ltb u64_max index)) [
  | inl t ↦ absurd (cc (rw t at h))
  | inr t ↦ elim (Bool-cases (r.ordinal == index)) [
    | inr o ↦ absurd (cc (rw (t, o) at h))
    | inl o ↦ elim (Bool-cases (same_bytes r.previous_record_digest previous)) [
      | inr p ↦ absurd (cc (rw (t, o, p) at h))
      | inl p ↦ (
        record {
          counted = ltb→le u64_max index t;
          ordinal = (==_iff _ _).0 o;
          previous_digest = same_bytes-eq _ _ p;
        },
        rw (t, o, p) at h,
      )
    ]
  ]
]

-- The chain of digests, as a relation.
unfoldable pub IsChain : ℕ → Sha256Digest → List CommandEvidenceRecord → Sha256Digest → Type 0
IsChain index previous [] head = previous ≡ head
IsChain index previous (r ∷ rs) head =
    IsLinked index previous r × IsChain (index + 1) (digest_command_evidence r) rs head

verify_from-IsChain :
    (index : ℕ) (previous : Sha256Digest) (rs : List CommandEvidenceRecord) (head : Sha256Digest)
    → verify_from index previous rs head ≡ true
    → IsChain index previous rs head
unfolding verify_from IsChain
verify_from-IsChain index previous [] head h = same_bytes-eq previous head h
verify_from-IsChain index previous (r ∷ rs) head h =
    let (l, rest) = verify_from-IsLinked index previous r rs head h in
    (l, verify_from-IsChain (index + 1) (digest_command_evidence r) rs head rest)

IsChain-verify_from :
    (index : ℕ) (previous : Sha256Digest) (rs : List CommandEvidenceRecord) (head : Sha256Digest)
    → IsChain index previous rs head
    → verify_from index previous rs head ≡ true
unfolding IsChain verify_from
IsChain-verify_from index previous [] head h = rw h (same_bytes_refl head)
IsChain-verify_from index previous (r ∷ rs) head (l, rest) =
    verify_from_linked index previous r rs head l
    ∙ IsChain-verify_from (index + 1) (digest_command_evidence r) rs head rest

-- The loop accepts the records exactly if they make a chain: each has its position for an ordinal
-- and the digest of the record before it, zero for the first, and `head` is the digest of the last.
pub verify_iff :
    (rs : List CommandEvidenceRecord) (head : Sha256Digest)
    → (verify_command_evidence_chain rs head ≡ true) ↔ IsChain 0 zero_digest rs head
unfolding verify_command_evidence_chain
verify_iff rs head =
    (verify_from-IsChain 0 zero_digest rs head, IsChain-verify_from 0 zero_digest rs head)

IsChain-append :
    (index : ℕ) (previous : Sha256Digest) (rs : List CommandEvidenceRecord) (head : Sha256Digest)
    (r : CommandEvidenceRecord)
    → IsChain index previous rs head
    → IsLinked (index + length rs) head r
    → IsChain index previous (rs ++ (r ∷ [])) (digest_command_evidence r)
unfolding IsChain
IsChain-append index previous [] head r h l =
    (subst₂ (λ n d. IsLinked n d r) (omega arith) (sym h) l, refl)
IsChain-append index previous (s ∷ rs) head r (k, h) l = (
  k,
  IsChain-append (index + 1) (digest_command_evidence s) rs head r h
      (subst (λ (n : ℕ). IsLinked n head r) (omega arith) l),
)

-- A log that verifies, with room for an ordinal, still verifies when an entry is appended, and its
-- records are the old ones and then one that holds the entry.
pub append-verify :
    (e : CommandEvidenceEntry) (log : CommandEvidenceLog)
    → verify log ≡ true
    → length log.records ≤ u64_max
    → (verify (append e log) ≡ true)
      × ((append e log).records ≡ log.records ++ (next_record e log ∷ []))
unfolding verify append
append-verify e log h room = (
  (verify_iff _ _).1 (
      IsChain-append 0 zero_digest log.records log.head_digest (next_record e log)
        ((verify_iff _ _).0 h)
        (record { counted = omega arith; ordinal = omega arith; previous_digest = refl })),
  refl,
)

pub empty_log-verify : verify empty_log ≡ true
unfolding verify
empty_log-verify = refl
