-- ===== src/Desync.antt =====
-- The decisions of the packet engine, nfq/desync.c.
mod Tests
pub mod Profile
pub mod Cutoff
pub mod AutoHostlist
pub mod Delayed
pub mod Match
pub mod Mode
pub mod Ident
