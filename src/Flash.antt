-- ===== src/Flash.antt =====
-- src/flash.rs: the CFI flash device.
pub mod Defs
pub mod Modes
pub mod Bytes
