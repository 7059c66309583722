-- ===== src/Cpu/Alu.antt =====
-- src/cpu.rs: the arithmetic instructions of `execute`.
pub mod Defs
pub mod Word
pub mod Division
pub mod Shifts
pub mod SingleBit
