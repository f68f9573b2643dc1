-- ===== src/Reassembly.antt =====
-- capture-agent/src/reassembly.rs: rejoining IPv4 fragments and TCP segments.
pub mod Status
pub mod Buffer
pub mod Coverage
pub mod Eviction
pub mod Fragments
pub mod Segments
pub mod Clock
pub mod DnsFraming
pub mod Sniffing
