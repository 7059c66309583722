-- ===== src/Bus.antt =====
-- src/bus.rs: the interrupt side of the bus, and the path of an interrupt from a device to the hart.
pub mod Lines
pub mod Map
pub mod Delivery
