-- ===== src/Protocol.antt =====
-- cpp/include/tickline/protocol and cpp/src/protocol: from untrusted bytes to command envelopes.
pub mod Frames
pub mod Codec
pub mod Stream
pub mod Gateway
