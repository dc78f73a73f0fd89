-- ===== src/Helpers.antt =====
-- nfq/helpers.c and the inline functions of nfq/helpers.h.
mod Tests
pub mod Bytes
pub mod Seq
pub mod Ports
pub mod Unique
