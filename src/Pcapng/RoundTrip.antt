-- ===== src/Pcapng/RoundTrip.antt =====
-- What capture-agent/src/pcapng.rs writes, it reads back.
pub mod Framing
pub mod Parts
pub mod File
pub mod Truncated
