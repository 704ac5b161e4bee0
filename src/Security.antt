-- ===== src/Security.antt =====
-- cpp/include/tickline/security and cpp/src/security: the digest of the evidence chain.
pub mod Sha256
