-- ===== src/Bus/Map/Writes.antt =====
-- src/bus.rs: `write64`, `write32`, `write16` and `write8`. A write of 64 bits to an address of no
-- region fails; one of the other widths is ignored.
use qemu_rust_risc_v.Prelude.{ℕ, ◌-◌, ◌||◌, if◌then◌else◌, ok, err}
use qemu_rust_risc_v.Dram.Defs as DramDefs
use qemu_rust_risc_v.Dram.Defs.{ByteOrder}
use qemu_rust_risc_v.Flash.Defs as FlashDefs
use qemu_rust_risc_v.Bus.Map.Regions.{
  dram_base, clint_base, plic_base, uart_base, virtio_blk_base, virtio_rng_base, flash_base,
  is_dram, is_empty_slot, is_virtio, is_pci, is_bank1, is_clint, is_plic, is_uart, is_block, is_rng,
  is_test, is_flash, write_clint64, write_clint32,
}
use qemu_rust_risc_v.Bus.Map.Defs.{
  Bus, HostOps, Reply, unmapped, ignored, write_dram, write_uart, write_plic, write_rng,
  write_block,
}

module _ {H : Type 0} (le : ByteOrder) (ops : HostOps H) where
  unfoldable pub write64 : ℕ → ℕ → Bus H → Reply H (Unit {0})
  unfolding write_clint64 write_uart FlashDefs.write
  write64 addr v b =
      if is_dram addr
      then write_dram b (DramDefs.write64 le b.dram (addr - dram_base) v)
      else if is_clint addr
      then (ok tt, record b { devices = write_clint64 b.devices (addr - clint_base) v })
      else if is_plic addr
      then ignored b
      else if is_uart addr
      then write_uart b (addr - uart_base) v
      else if is_virtio addr || is_test addr
      then ignored b
      else if is_flash addr
      then (ok tt, record b { flash = FlashDefs.write64 b.flash (addr - flash_base) v })
      else if is_bank1 addr || is_pci addr
      then ignored b
      else (err unmapped, b)

  unfoldable pub write32 : ℕ → ℕ → Bus H → Reply H (Unit {0})
  unfolding write_clint32 write_plic write_uart write_block write_rng FlashDefs.write
  write32 addr v b =
      if is_dram addr
      then write_dram b (DramDefs.write32 le b.dram (addr - dram_base) v)
      else if is_clint addr
      then (ok tt, record b { devices = write_clint32 b.devices (addr - clint_base) v })
      else if is_plic addr
      then write_plic b (addr - plic_base) v
      else if is_uart addr
      then write_uart b (addr - uart_base) v
      else if is_empty_slot addr
      then ignored b
      else if is_block addr
      then write_block le ops b (addr - virtio_blk_base) v
      else if is_rng addr
      then write_rng le ops b (addr - virtio_rng_base) v
      else if is_flash addr
      then (ok tt, record b { flash = FlashDefs.write32 b.flash (addr - flash_base) v })
      else ignored b

  unfoldable pub write16 : ℕ → ℕ → Bus H → Reply H (Unit {0})
  unfolding FlashDefs.write
  write16 addr v b =
      if is_dram addr
      then write_dram b (DramDefs.write16 le b.dram (addr - dram_base) v)
      else if is_flash addr
      then (ok tt, record b { flash = FlashDefs.write16 b.flash (addr - flash_base) v })
      else ignored b

  unfoldable pub write8 : ℕ → ℕ → Bus H → Reply H (Unit {0})
  unfolding DramDefs.write8 write_uart FlashDefs.write
  write8 addr v b =
      if is_dram addr
      then write_dram b (DramDefs.write8 b.dram (addr - dram_base) v)
      else if is_uart addr
      then write_uart b (addr - uart_base) v
      else if is_flash addr
      then (ok tt, record b { flash = FlashDefs.write8 b.flash (addr - flash_base) v })
      else ignored b
