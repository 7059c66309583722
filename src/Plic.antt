-- ===== src/Plic.antt =====
-- src/plic.rs: the platform-level interrupt controller.
pub mod Defs
pub mod Registers
pub mod Pending
pub mod Best
pub mod Claim
pub mod Query
pub mod Invariant
pub mod Delivery
