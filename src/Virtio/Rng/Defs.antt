-- ===== src/Virtio/Rng/Defs.antt =====
-- src/virtio_rng.rs: the state and the registers of the entropy device. The interrupt callback,
-- which the bus sets, is called there; the messages are left out.
use qemu_rust_risc_v.Prelude.{ℕ, Bool, false, ◌==◌, ◌!=◌, if◌then◌else◌, bit_and, bit_or}
use qemu_rust_risc_v.Bits.{shl, bit_not}

pub record VirtioRng : Type 0 where
  pub status : ℕ
  pub queue_sel : ℕ
  pub queue_num : ℕ
  pub queue_pfn : ℕ
  pub queue_ready : Bool
  pub driver_features : ℕ
  pub device_features_sel : ℕ
  pub driver_features_sel : ℕ
  pub interrupt_status : ℕ

abbrev pub new : VirtioRng
new = record {
  status = 0;
  queue_sel = 0;
  queue_num = 0;
  queue_pfn = 0;
  queue_ready = false;
  driver_features = 0;
  device_features_sel = 0;
  driver_features_sel = 0;
  interrupt_status = 0;
}

unfoldable pub trigger_interrupt : VirtioRng → VirtioRng
trigger_interrupt v = record v { interrupt_status = bit_or v.interrupt_status 0x1 }

unfoldable pub read32 : VirtioRng → ℕ → ℕ
read32 v offset =
    if offset == 0x000
    then 0x74726976
    else if offset == 0x004
    then 1
    else if offset == 0x008
    then 4
    else if offset == 0x00c
    then 0x554d4551
    else if offset == 0x010
    then 0
    else if offset == 0x034
    then 64
    else if offset == 0x040
    then (if v.queue_sel == 0 then v.queue_pfn else 0)
    else if offset == 0x044
    then (if v.queue_sel == 0 then (if v.queue_ready then 1 else 0) else 0)
    else if offset == 0x060
    then v.interrupt_status
    else if offset == 0x070
    then v.status
    else 0

-- The low or the high half of the driver's features.
abbrev pub select_features : ℕ → ℕ → ℕ → ℕ
select_features selector features value =
    if selector == 0
    then bit_or (bit_and features 0xFFFFFFFF00000000) value
    else bit_or (bit_and features 0x00000000FFFFFFFF) (shl 64 value 32)

unfoldable pub reset : VirtioRng → VirtioRng
reset v = record v {
  queue_num = 0;
  queue_pfn = 0;
  queue_ready = false;
  queue_sel = 0;
  interrupt_status = 0;
  driver_features = 0;
  device_features_sel = 0;
  driver_features_sel = 0;
}

unfoldable pub write32 : VirtioRng → ℕ → ℕ → VirtioRng
unfolding reset
write32 v offset value =
    if offset == 0x014
    then record v { device_features_sel = value }
    else if offset == 0x020
    then record v {
      driver_features = select_features v.driver_features_sel v.driver_features value;
    }
    else if offset == 0x024
    then record v { driver_features_sel = value }
    else if offset == 0x030
    then record v { queue_sel = value }
    else if offset == 0x038
    then (if v.queue_sel == 0 then record v { queue_num = value } else v)
    else if offset == 0x040
    then (if v.queue_sel == 0 then record v { queue_pfn = value; queue_ready = value != 0 } else v)
    else if offset == 0x044
    then (if v.queue_sel == 0 then record v { queue_ready = value != 0 } else v)
    else if offset == 0x064
    then record v { interrupt_status = bit_and v.interrupt_status (bit_not 32 value) }
    else if offset == 0x070
    then (if value == 0 then record (reset v) { status = value } else record v { status = value })
    else v
