-- ===== src/Command/Evidence/Chain.antt =====
-- cpp/src/command/command_evidence.cpp: the chain of digests, and the log.
pub mod Growth
pub mod Integrity
use tickline.Base.{
  ℕ, suc, ◌+◌, ◌==◌, ltb, not, ◌&&◌, Bool, true, false, if◌then◌else◌, List, [], ◌∷◌, ◌++◌, length,
  Result, Exception, ok, overflow_error, length_error, ◌>>=◌, ◌>>◌, throw_if,
}
use tickline.Base.Words.{Bytes, u64_max}
use tickline.Security.Sha256.{Sha256Digest, zero_digest}
use tickline.Command.Evidence.{CommandEvidenceEntry, CommandEvidenceRecord}
use tickline.Command.Evidence.Codec.{digest_command_evidence}

-- `a == b` on digests.
unfoldable pub same_bytes : Bytes → Bytes → Bool
same_bytes [] [] = true
same_bytes [] (y ∷ ys) = false
same_bytes (x ∷ xs) [] = false
same_bytes (x ∷ xs) (y ∷ ys) = if x == y then same_bytes xs ys else false

-- The loop, with the digest of the record before and the index of the next.
unfoldable pub verify_from : ℕ → Sha256Digest → List CommandEvidenceRecord → Sha256Digest → Bool
verify_from index previous [] expected_head = same_bytes previous expected_head
verify_from index previous (r ∷ rs) expected_head =
    if ltb u64_max index
    then false
    else if not (r.ordinal == index)
    then false
    else if not (same_bytes r.previous_record_digest previous)
    then false
    else verify_from (index + 1) (digest_command_evidence r) rs expected_head

unfoldable pub verify_command_evidence_chain : List CommandEvidenceRecord → Sha256Digest → Bool
unfolding verify_from same_bytes
verify_command_evidence_chain records expected_head =
    verify_from 0 zero_digest records expected_head

pub record CommandEvidenceLog : Type 0 where
  pub records : List CommandEvidenceRecord
  pub head_digest : Sha256Digest

abbrev pub empty_log : CommandEvidenceLog
empty_log = record { records = []; head_digest = zero_digest }

unfoldable pub verify : CommandEvidenceLog → Bool
unfolding verify_command_evidence_chain
verify log = verify_command_evidence_chain log.records log.head_digest

-- `max_size` is what the standard library allows for a vector of records.
unfoldable pub prepare_append : ℕ → CommandEvidenceLog → Result Exception (Unit {0})
prepare_append max_size log = do
  throw_if (ltb u64_max (length log.records)) overflow_error
  throw_if (length log.records == max_size) length_error

-- The record that `append` makes of an entry.
abbrev pub next_record : CommandEvidenceEntry → CommandEvidenceLog → CommandEvidenceRecord
next_record entry log = record {
  ordinal = length log.records;
  previous_record_digest = log.head_digest;
  entry = entry;
}

unfoldable pub append : CommandEvidenceEntry → CommandEvidenceLog → CommandEvidenceLog
append entry log = record {
  records = log.records ++ (next_record entry log ∷ []);
  head_digest = digest_command_evidence (next_record entry log);
}
