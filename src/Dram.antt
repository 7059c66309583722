-- ===== src/Dram.antt =====
-- src/dram.rs: the memory as a list of bytes.
pub mod Defs
pub mod Access
