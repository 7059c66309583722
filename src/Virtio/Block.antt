-- ===== src/Virtio/Block.antt =====
-- src/virtio.rs: the block device.
pub mod Defs
pub mod Requests
pub mod Queue
pub mod Transfer
pub mod Termination
