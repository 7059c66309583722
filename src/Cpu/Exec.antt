-- ===== src/Cpu/Exec.antt =====
-- src/cpu.rs: the instructions, over any bus.
pub mod Base
pub mod Atomic
pub mod System
pub mod Compressed
pub mod Step
pub mod Reservation
pub mod Links
pub mod Access
