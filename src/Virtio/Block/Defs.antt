-- ===== src/Virtio/Block/Defs.antt =====
-- src/virtio.rs: the state and the registers of the block device. The interrupt callback,
-- which the bus sets, is called there; the messages are left out.
use qemu_rust_risc_v.Prelude.{ℕ, ◌/◌, Bool, false, ◌==◌, ◌!=◌, if◌then◌else◌, bit_and, bit_or}
use qemu_rust_risc_v.Bits.{shl, shr, bit_not, as_u32}
use qemu_rust_risc_v.Virtio.Rng.Defs.{select_features}

abbrev pub sector_size : ℕ
sector_size = 512

pub record VirtioBlock : Type 0 where
  pub status : ℕ
  pub queue_sel : ℕ
  pub queue_align : ℕ
  pub queue_num : ℕ
  pub queue_pfn : ℕ
  pub queue_ready : Bool
  pub driver_features : ℕ
  pub device_features_sel : ℕ
  pub driver_features_sel : ℕ
  pub interrupt_status : ℕ
  pub capacity : ℕ

-- The device over a disk image of a length in bytes.
abbrev pub new : ℕ → VirtioBlock
new image_len = record {
  status = 0;
  queue_sel = 0;
  queue_align = 4096;
  queue_num = 0;
  queue_pfn = 0;
  queue_ready = false;
  driver_features = 0;
  device_features_sel = 0;
  driver_features_sel = 0;
  interrupt_status = 0;
  capacity = image_len / sector_size;
}

unfoldable pub trigger_interrupt : VirtioBlock → VirtioBlock
trigger_interrupt v = record v { interrupt_status = bit_or v.interrupt_status 0x1 }

-- The features SIZE_MAX, SEG_MAX, BLK_SIZE and FLUSH.
abbrev pub features : ℕ
features = bit_or (bit_or (bit_or (shl 64 1 1) (shl 64 1 2)) (shl 64 1 6)) (shl 64 1 9)

unfoldable pub read32 : VirtioBlock → ℕ → ℕ
read32 v offset =
    if offset == 0x000
    then 0x74726976
    else if offset == 0x004
    then 1
    else if offset == 0x008
    then 2
    else if offset == 0x00c
    then 0x554d4551
    else if offset == 0x010
    then (if v.device_features_sel == 0 then as_u32 features else 0)
    else if offset == 0x03c
    then v.queue_align
    else if offset == 0x034
    then 256
    else if offset == 0x040
    then (if v.queue_sel == 0 then v.queue_pfn else 0)
    else if offset == 0x044
    then (if v.queue_sel == 0 then (if v.queue_ready then 1 else 0) else 0)
    else if offset == 0x060
    then v.interrupt_status
    else if offset == 0x070
    then v.status
    else if offset == 0x100
    then as_u32 v.capacity
    else if offset == 0x104
    then as_u32 (shr v.capacity 32)
    else if offset == 0x108
    then 0x20000
    else if offset == 0x10c
    then 128
    else if offset == 0x114
    then as_u32 sector_size
    else 0

unfoldable pub reset : VirtioBlock → VirtioBlock
reset v = record v {
  queue_num = 0;
  queue_pfn = 0;
  queue_ready = false;
  queue_sel = 0;
  interrupt_status = 0;
  driver_features = 0;
  device_features_sel = 0;
  driver_features_sel = 0;
  queue_align = 4096;
}

unfoldable pub write32 : VirtioBlock → ℕ → ℕ → VirtioBlock
unfolding reset
write32 v offset value =
    if offset == 0x014
    then record v { device_features_sel = value }
    else if offset == 0x020
    then record v {
      driver_features = select_features v.driver_features_sel v.driver_features value;
    }
    else if offset == 0x024
    then record v { driver_features_sel = value }
    else if offset == 0x030
    then record v { queue_sel = value }
    else if offset == 0x038
    then (if v.queue_sel == 0 then record v { queue_num = value } else v)
    else if offset == 0x03c
    then record v { queue_align = value }
    else if offset == 0x040
    then (if v.queue_sel == 0 then record v { queue_pfn = value; queue_ready = value != 0 } else v)
    else if offset == 0x044
    then (if v.queue_sel == 0 then record v { queue_ready = value != 0 } else v)
    else if offset == 0x064
    then record v { interrupt_status = bit_and v.interrupt_status (bit_not 32 value) }
    else if offset == 0x070
    then (if value == 0 then record (reset v) { status = value } else record v { status = value })
    else v
