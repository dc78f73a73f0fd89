-- ===== src/Conntrack.antt =====
-- nfq/conntrack.c and nfq/conntrack.h: connection tracking and the reassembly of a message from
-- consecutive packets.
mod Tests
pub mod Reasm
pub mod Conn
pub mod Track
pub mod Pool
