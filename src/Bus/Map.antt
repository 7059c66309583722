-- ===== src/Bus/Map.antt =====
-- src/bus.rs: the address map of the bus, its reads and writes of the four widths.
pub mod Regions
pub mod Defs
pub mod Reads
pub mod Writes
pub mod Hart
pub mod Timer
pub mod Level
pub mod Loads
pub mod Ram
