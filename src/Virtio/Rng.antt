-- ===== src/Virtio/Rng.antt =====
-- src/virtio_rng.rs: the entropy device.
pub mod Defs
pub mod Queue
pub mod Termination
