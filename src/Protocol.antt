-- ===== src/Protocol.antt =====
-- The recognition of application protocols, nfq/protocol.c.
mod Tests
pub mod Marker
pub mod Tls
pub mod Http
pub mod Quic
pub mod Detect
pub mod Resolve
