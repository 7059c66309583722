-- ===== src/Bus/Map/Reads.antt =====
-- src/bus.rs: `read64`, `read32`, `read16` and `read8`.
use qemu_rust_risc_v.Prelude.{ℕ, ◌-◌, ◌||◌, ◌==◌, if◌then◌else◌, bit_or, Option, none, some, err}
use qemu_rust_risc_v.Bits.{shl, shr, as_u32}
use qemu_rust_risc_v.Dram.Defs as DramDefs
use qemu_rust_risc_v.Dram.Defs.{ByteOrder}
use qemu_rust_risc_v.Mrom.Defs as MromDefs
use qemu_rust_risc_v.Flash.Defs as FlashDefs
use qemu_rust_risc_v.Virtio.Rng.Defs as RngDefs
use qemu_rust_risc_v.Virtio.Block.Defs as BlockDefs
use qemu_rust_risc_v.Virtio.Block.Defs.{VirtioBlock}
use qemu_rust_risc_v.Bus.Map.Regions.{
  dram_base, clint_base, plic_base, uart_base, virtio_blk_base, virtio_rng_base, flash_base,
  mrom_base, rtc_base, is_dram, is_empty_slot, is_virtio, is_fw_cfg, is_pci, is_bank1, is_mrom,
  is_clint, is_plic, is_uart, is_block, is_rng, is_rtc, is_test, is_flash, config_byte,
}
use qemu_rust_risc_v.Bus.Map.Defs.{
  Bus, HostOps, Reply, unmapped, value, read_memory, read_uart, read_plic, read_clint64,
  read_clint32,
}

-- The capacity of the block device, from its two registers.
unfoldable pub capacity_word : Option VirtioBlock → ℕ → ℕ
unfolding BlockDefs.read32
capacity_word none offset = 0
capacity_word (some vb) offset =
    if offset == 0x100
    then bit_or (BlockDefs.read32 vb 0x100) (shl 64 (BlockDefs.read32 vb 0x104) 32)
    else 0

unfoldable pub block_register : Option VirtioBlock → ℕ → ℕ
unfolding BlockDefs.read32
block_register none offset = 0
block_register (some vb) offset = BlockDefs.read32 vb offset

unfoldable pub block_byte : Option VirtioBlock → ℕ → ℕ
unfolding BlockDefs.read32
block_byte none offset = 0
block_byte (some vb) offset = config_byte (BlockDefs.read32 vb) offset

module _ {H : Type 0} (le : ByteOrder) (ops : HostOps H) where
  unfoldable pub read64 : ℕ → Bus H → Reply H ℕ
  unfolding read_clint64 read_uart capacity_word FlashDefs.read
  read64 addr b =
      if is_mrom addr
      then read_memory b (MromDefs.read64 le b.mrom (addr - mrom_base))
      else if is_dram addr
      then read_memory b (DramDefs.read64 le b.dram (addr - dram_base))
      else if is_clint addr
      then value b (read_clint64 b (addr - clint_base))
      else if is_plic addr
      then value b 0
      else if is_uart addr
      then read_uart b (addr - uart_base)
      else if is_empty_slot addr
      then value b 0
      else if is_block addr
      then value b (capacity_word b.virtio_block (addr - virtio_blk_base))
      else if is_rng addr
      then value b 0
      else if is_rtc addr || is_test addr || is_fw_cfg addr
      then value b 0
      else if is_flash addr
      then read_memory b (FlashDefs.read64 b.flash (addr - flash_base))
      else if is_bank1 addr
      then value b 0xFFFFFFFFFFFFFFFF
      else if is_pci addr
      then value b 0
      else (err unmapped, b)

  -- The clock: the low and the high half of the seconds.
  abbrev pub read_rtc : H → ℕ → ℕ
  read_rtc host offset =
      if offset == 0x00
      then as_u32 (ops.seconds host)
      else if offset == 0x04
      then as_u32 (shr (ops.seconds host) 32)
      else 0

  unfoldable pub read32 : ℕ → Bus H → Reply H ℕ
  unfolding read_clint32 read_plic read_uart block_register RngDefs.read32 FlashDefs.read
  read32 addr b =
      if is_mrom addr
      then read_memory b (MromDefs.read32 le b.mrom (addr - mrom_base))
      else if is_dram addr
      then read_memory b (DramDefs.read32 le b.dram (addr - dram_base))
      else if is_clint addr
      then value b (read_clint32 b (addr - clint_base))
      else if is_plic addr
      then read_plic b (addr - plic_base)
      else if is_uart addr
      then read_uart b (addr - uart_base)
      else if is_empty_slot addr
      then value b 0
      else if is_block addr
      then value b (block_register b.virtio_block (addr - virtio_blk_base))
      else if is_rng addr
      then value b (RngDefs.read32 b.virtio_rng (addr - virtio_rng_base))
      else if is_flash addr
      then read_memory b (FlashDefs.read32 b.flash (addr - flash_base))
      else if is_bank1 addr
      then value b 0xFFFFFFFF
      else if is_rtc addr
      then value b (read_rtc b.host (addr - rtc_base))
      else if is_fw_cfg addr || is_test addr || is_pci addr
      then value b 0
      else (err unmapped, b)

  unfoldable pub read16 : ℕ → Bus H → Reply H ℕ
  unfolding FlashDefs.read
  read16 addr b =
      if is_mrom addr
      then read_memory b (MromDefs.read16 le b.mrom (addr - mrom_base))
      else if is_dram addr
      then read_memory b (DramDefs.read16 le b.dram (addr - dram_base))
      else if is_plic addr || is_virtio addr || is_pci addr
      then value b 0
      else if is_flash addr
      then read_memory b (FlashDefs.read16 b.flash (addr - flash_base))
      else if is_bank1 addr
      then value b 0xFFFF
      else if is_fw_cfg addr
      then value b 0
      else (err unmapped, b)

  unfoldable pub read8 : ℕ → Bus H → Reply H ℕ
  unfolding DramDefs.read8 read_uart block_byte RngDefs.read32 FlashDefs.read
  read8 addr b =
      if is_mrom addr
      then read_memory b (MromDefs.read8 b.mrom (addr - mrom_base))
      else if is_dram addr
      then read_memory b (DramDefs.read8 b.dram (addr - dram_base))
      else if is_uart addr
      then read_uart b (addr - uart_base)
      else if is_plic addr || is_empty_slot addr
      then value b 0
      else if is_block addr
      then value b (block_byte b.virtio_block (addr - virtio_blk_base))
      else if is_rng addr
      then value b (config_byte (RngDefs.read32 b.virtio_rng) (addr - virtio_rng_base))
      else if is_pci addr
      then value b 0
      else if is_flash addr
      then read_memory b (FlashDefs.read8 b.flash (addr - flash_base))
      else if is_bank1 addr
      then value b 0xFF
      else if is_fw_cfg addr
      then value b 0
      else (err unmapped, b)
