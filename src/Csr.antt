-- ===== src/Csr.antt =====
-- src/csr.rs: the control and status registers.
pub mod Addr
pub mod Defs
pub mod Status
pub mod Frame
pub mod Flags
pub mod Access
pub mod New
pub mod Bounds
pub mod Invariant
pub mod Run
pub mod Stimecmp
