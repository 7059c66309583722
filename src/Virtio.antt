-- ===== src/Virtio.antt =====
-- src/virtio.rs and src/virtio_rng.rs: the two VirtIO devices with legacy queues.
pub mod Guest
pub mod Rounds
pub mod Indices
pub mod Rng
pub mod Block
