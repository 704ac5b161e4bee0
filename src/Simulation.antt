-- ===== src/Simulation.antt =====
-- cpp/include/tickline/simulation and cpp/src/simulation: the authoritative simulation.
pub mod Units
pub mod Clock
pub mod Motion
pub mod Schedule
pub mod World
pub mod Fingerprint
pub mod Canonical
pub mod Advance
pub mod Validity
