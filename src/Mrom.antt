-- ===== src/Mrom.antt =====
-- src/mrom.rs: the mask ROM, a vector of bytes with the reads of the memory.
pub mod Defs
pub mod Contents
