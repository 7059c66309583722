-- ===== src/Cpu.antt =====
-- src/cpu.rs: the hart's state, trap entry and return, reservations and interrupts.
pub mod Defs
pub mod Decode
pub mod Words
pub mod Alu
pub mod Memory
pub mod Exec
pub mod Vector
pub mod Traps
pub mod Registers
pub mod StatusBits
pub mod Return
pub mod Interrupts
