-- ===== src/Command/Evidence/Chain/Integrity.antt =====
-- cpp/src/command/command_evidence.cpp: what a head digest says of the records behind it.
use tickline.Base.{ℕ, ◌+◌, ◌≡◌, refl, ap, ap₂, sym, ◌∙◌, true, List, [], ◌∷◌, length, arith}
use tickline.Security.Sha256.{Sha256Digest, zero_digest}
use tickline.Command.Evidence.{CommandEvidenceRecord}
use tickline.Command.Evidence.Codec.{digest_command_evidence}
use tickline.Command.Evidence.Chain.{verify_command_evidence_chain}
use tickline.Command.Evidence.Chain.Growth.{IsChain, verify_iff}

-- At no position two different records have the same digest.
abbrev pub NoCollision : List CommandEvidenceRecord → List CommandEvidenceRecord → Type 0
NoCollision [] ss = Unit {0}
NoCollision (r ∷ rs) [] = Unit {0}
NoCollision (r ∷ rs) (s ∷ ss) =
    (digest_command_evidence r ≡ digest_command_evidence s → r ≡ s) × NoCollision rs ss

chains_agree :
    (index : ℕ) (p q : Sha256Digest) (rs ss : List CommandEvidenceRecord) (head : Sha256Digest)
    → IsChain index p rs head
    → IsChain index q ss head
    → length rs ≡ length ss
    → NoCollision rs ss
    → (rs ≡ ss) × (p ≡ q)
unfolding IsChain
chains_agree index p q [] [] head c d e n = (refl, c ∙ sym d)
chains_agree index p q [] (s ∷ ss) head c d e n = absurd (omega arith)
chains_agree index p q (r ∷ rs) [] head c d e n = absurd (omega arith)
chains_agree index p q (r ∷ rs) (s ∷ ss) head (l, c) (k, d) e (n, ns) =
    let (rest, digests) = chains_agree (index + 1) _ _ rs ss head c d (omega arith) ns in
    let same = n digests in
    (
      ap₂ ◌∷◌ same rest,
      sym l.previous_digest ∙ ap (λ x. x.previous_record_digest) same ∙ k.previous_digest,
    )

-- Two sequences of records of the same length that verify against the same head are the same, if
-- at no position two different records have the same digest.
pub verify_unique :
    (rs ss : List CommandEvidenceRecord) (head : Sha256Digest)
    → length rs ≡ length ss
    → NoCollision rs ss
    → verify_command_evidence_chain rs head ≡ true
    → verify_command_evidence_chain ss head ≡ true
    → rs ≡ ss
verify_unique rs ss head e n v w =
    (chains_agree 0 zero_digest zero_digest rs ss head ((verify_iff rs head).0 v)
      ((verify_iff ss head).0 w) e n).0
