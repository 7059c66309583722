-- ===== src/Bus/Map/Regions.antt =====
-- src/bus.rs: the addresses of the regions, and what accesses change of the devices.
use qemu_rust_risc_v.Prelude.{
  ℕ, ◌+◌, ◌*◌, Bool, ◌&&◌, ◌||◌, ◌==◌, leb, ltb, in_range, if◌then◌else◌, bit_and, bit_or,
}
use qemu_rust_risc_v.Bits.{shl, shr, bit_not}
use qemu_rust_risc_v.Plic.Defs.{set_pending, clear_pending}
use qemu_rust_risc_v.Bus.Lines.{Devices}

abbrev pub dram_base : ℕ
dram_base = 0x80000000

abbrev pub dram_size : ℕ
dram_size = 0x80000000

abbrev pub clint_base : ℕ
clint_base = 0x02000000

abbrev pub plic_base : ℕ
plic_base = 0x0c000000

abbrev pub uart_base : ℕ
uart_base = 0x10000000

abbrev pub virtio_blk_base : ℕ
virtio_blk_base = 0x10002000

abbrev pub virtio_rng_base : ℕ
virtio_rng_base = 0x10007000

abbrev pub flash_base : ℕ
flash_base = 0x20000000

abbrev pub mrom_base : ℕ
mrom_base = 0x1000

abbrev pub rtc_base : ℕ
rtc_base = 0x00101000

abbrev pub clint_mtime_offset : ℕ
clint_mtime_offset = 0xBFF8

abbrev pub clint_mtimecmp_offset : ℕ
clint_mtimecmp_offset = 0x4000

-- The regions that answer zero and ignore writes: the VirtIO slots 0, 2 to 5 and 7.
abbrev pub is_empty_slot : ℕ → Bool
is_empty_slot addr =
    in_range 0x10001000 0x10001FFF addr
    || in_range 0x10003000 0x10006FFF addr
    || in_range 0x10008000 0x10008FFF addr

abbrev pub is_dram : ℕ → Bool
is_dram addr = leb dram_base addr && ltb addr (dram_base + dram_size)

unfoldable pub write_clint64 : Devices → ℕ → ℕ → Devices
write_clint64 d offset v =
    if offset == 0
    then record d { msip = bit_and v 1 }
    else if offset == clint_mtimecmp_offset
    then record d { mtimecmp = v }
    else d

unfoldable pub write_clint32 : Devices → ℕ → ℕ → Devices
write_clint32 d offset v =
    if offset == 0
    then record d { msip = bit_and v 1 }
    else if offset == clint_mtimecmp_offset
    then record d { mtimecmp = bit_or (bit_and d.mtimecmp 0xFFFFFFFF00000000) v }
    else if offset == clint_mtimecmp_offset + 4
    then record d { mtimecmp = bit_or (bit_and d.mtimecmp 0x00000000FFFFFFFF) (shl 64 v 32) }
    else d

-- An interrupt of a device at the PLIC: raised by its callback.
abbrev pub raise : Devices → Bool → ℕ → Devices
raise d raised irq = if raised then record d { plic = set_pending d.plic irq } else d

-- InterruptACK: the PLIC follows the status of the device.
unfoldable pub acknowledge : Devices → ℕ → ℕ → Devices
acknowledge d irq irq_status =
    if irq_status == 0
    then record d { plic = clear_pending d.plic irq }
    else record d { plic = set_pending d.plic irq }

-- A byte of a register of the configuration space.
abbrev pub config_byte : (ℕ → ℕ) → ℕ → ℕ
config_byte read32 offset =
    if leb 0x100 offset
    then bit_and (shr (read32 (bit_and offset (bit_not 64 0x3))) (bit_and offset 0x3 * 8)) 0xFF
    else 0

-- The eight VirtIO slots together, FW-CFG and PCI, which answer zero, and the second flash bank, which
-- answers all ones.
abbrev pub is_virtio : ℕ → Bool
is_virtio addr = in_range 0x10001000 0x10008FFF addr

abbrev pub is_fw_cfg : ℕ → Bool
is_fw_cfg addr = in_range 0x10100000 0x10100017 addr

abbrev pub is_pci : ℕ → Bool
is_pci addr = in_range 0x30000000 0x3FFFFFFF addr

abbrev pub is_bank1 : ℕ → Bool
is_bank1 addr = in_range 0x22000000 0x23FFFFFF addr

abbrev pub is_mrom : ℕ → Bool
is_mrom addr = in_range mrom_base 0x0000FFFF addr

abbrev pub is_clint : ℕ → Bool
is_clint addr = in_range clint_base 0x020FFFFF addr

abbrev pub is_plic : ℕ → Bool
is_plic addr = in_range plic_base 0x0C5FFFFF addr

abbrev pub is_uart : ℕ → Bool
is_uart addr = in_range uart_base 0x100000FF addr

abbrev pub is_block : ℕ → Bool
is_block addr = in_range virtio_blk_base 0x10002FFF addr

abbrev pub is_rng : ℕ → Bool
is_rng addr = in_range virtio_rng_base 0x10007FFF addr

abbrev pub is_rtc : ℕ → Bool
is_rtc addr = in_range rtc_base 0x00101FFF addr

abbrev pub is_test : ℕ → Bool
is_test addr = in_range 0x00100000 0x00100FFF addr

abbrev pub is_flash : ℕ → Bool
is_flash addr = in_range flash_base 0x21FFFFFF addr
