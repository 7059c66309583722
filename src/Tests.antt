-- ===== src/Tests.antt =====
-- The theorems at concrete inputs, by component.
mod Mmu
mod Plic
mod Csr
mod Cpu
mod Uart
mod Bus
mod Dram
mod Alu
mod Exec
mod Memories
mod Virtio
mod BusMap
