-- ===== src/Examples.antt =====
-- Runs of the model at concrete inputs.
pub mod Data
pub mod Security
pub mod Simulation
pub mod Protocol
pub mod Command
pub mod Archive
pub mod Replay
pub mod Storage
pub mod Database
