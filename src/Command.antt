-- ===== src/Command.antt =====
-- cpp/include/tickline/command and cpp/src/command: what clients send, what is admitted, and the
-- evidence of it.
pub mod Envelope
pub mod Validator
pub mod Session
pub mod Evidence
pub mod Pipeline
pub mod Archive
pub mod Replay
pub mod Names
