-- ===== src/Storage/Store.antt =====
-- cpp/include/tickline/storage/investigation_store.hpp: what the store of investigations answers, and
-- the record of its queries.
use tickline.Base.{ℕ, Bool, Option, List, Result, Exception}
use tickline.Base.Int.{ℤ}
use tickline.Base.Words.{Bytes}
use tickline.Security.Sha256.{Sha256Digest}
use tickline.Command.Envelope.{ClientId, SessionId}
use tickline.Command.Validator.{CommandRejectionCode}
use tickline.Command.Evidence.{CommandEvidenceRecord, CommandQueueOutcome}
use tickline.Command.Evidence.Decode.{CommandEvidenceDecodeErrorCode}
use tickline.Command.Replay.{CommandEvidenceReplayResult}

pub data InvestigationStoreErrorCode : Type 0 where
  open_failed migration_failed sqlite_failure invalid_argument archive_verification_failed
        archive_not_found :
      InvestigationStoreErrorCode

-- The store throws its own error, that of the record decoder, or a standard exception.
pub data StoreException : Type 0 where
  store_error : InvestigationStoreErrorCode → StoreException
  record_error : CommandEvidenceDecodeErrorCode → StoreException
  standard_error : Exception → StoreException

pub record EvidenceArchiveImportResult : Type 0 where
  pub archive_id : ℤ
  pub inserted : Bool
  pub record_count : ℕ
  pub archive_digest : Sha256Digest
  pub chain_head : Sha256Digest

pub record EvidenceArchiveSummary : Type 0 where
  pub archive_id : ℤ
  pub source : Bytes
  pub imported_at_utc : Bytes
  pub record_count : ℕ
  pub archive_digest : Sha256Digest
  pub trusted_head : Sha256Digest
  pub chain_head : Sha256Digest

pub record EvidenceSessionSummary : Type 0 where
  pub client_id : ClientId
  pub session_id : SessionId
  pub first_ordinal : ℕ
  pub last_ordinal : ℕ
  pub first_observed_tick : ℕ
  pub last_observed_tick : ℕ
  pub accepted_count : ℕ
  pub rejected_count : ℕ

pub record EvidenceQuery : Type 0 where
  pub client_id : Option ClientId
  pub session_id : Option SessionId
  pub rejection_code : Option CommandRejectionCode
  pub queue_outcome : Option CommandQueueOutcome
  pub minimum_observed_tick : Option ℕ
  pub maximum_observed_tick : Option ℕ
  pub after_ordinal : Option ℕ
  pub limit : ℕ

pub record StoredEvidenceRecord : Type 0 where
  pub archive_id : ℤ
  pub record_digest : Sha256Digest
  pub evidence : CommandEvidenceRecord

-- The queries of a store, which change nothing.
pub record InvestigationStore : Type 0 where
  pub list_archives : ℕ → Option ℤ → Result StoreException (List EvidenceArchiveSummary)
  pub query_evidence : ℤ → EvidenceQuery → Result StoreException (List StoredEvidenceRecord)
  pub list_sessions : ℤ → Result StoreException (List EvidenceSessionSummary)
  pub replay_result : ℤ → Result StoreException (Option CommandEvidenceReplayResult)
