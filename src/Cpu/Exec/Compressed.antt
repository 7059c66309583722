-- ===== src/Cpu/Exec/Compressed.antt =====
-- src/cpu.rs: `execute_compressed`, a function for each arm; the words are of 16 bits.
pub mod Fields
pub mod Arms
pub mod Low
