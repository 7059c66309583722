-- ===== src/Mmu.antt =====
-- src/mmu.rs: the page-table walks and the permission checks.
pub mod Memory
pub mod Entry
pub mod Walk
pub mod Permissions
pub mod Leaf
pub mod Errors
pub mod Tables
pub mod Complete
pub mod Again
pub mod Formats
pub mod Translate
