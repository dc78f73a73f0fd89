-- ===== src/Net.antt =====
-- The packet functions of nfq/darkmagic.c: header tests, TCP options, dissection, time to live.
mod Tests
pub mod Headers
pub mod TcpOptions
pub mod Ttl
pub mod Dissect
pub mod Fragment
