-- ===== src/Tests/BusMap.antt =====
-- The bus with small memories, and a hart over it.
use qemu_rust_risc_v.Prelude.{
  ◌+◌, ◌-◌, ◌%◌, ◌/◌, ◌^◌, ◌≡◌, refl, arith, ◌==◌, ◌&&◌, leb, ltb, if◌then◌else◌, get_or, replicate,
  none, some, ok,
}
use qemu_rust_risc_v.Bits.{shr, as_u32, test_bit}
use qemu_rust_risc_v.Trap.{Mode}
use qemu_rust_risc_v.Csr.Addr
use qemu_rust_risc_v.Csr.Defs.{read, stored, read_mstatus}
use qemu_rust_risc_v.Dram.Defs as DramDefs
use qemu_rust_risc_v.Mrom.Defs as MromDefs
use qemu_rust_risc_v.Flash.Defs as FlashDefs
use qemu_rust_risc_v.Virtio.Rng.Defs as RngDefs
use qemu_rust_risc_v.Cpu.Defs.{Cpu}
use qemu_rust_risc_v.Cpu.Exec.System.{system}
use qemu_rust_risc_v.Bus.Lines.{has_timer_interrupt}
use qemu_rust_risc_v.Bus.Map.Defs.{Bus, HostOps}
use qemu_rust_risc_v.Bus.Map.Reads.{read32, read64}
use qemu_rust_risc_v.Bus.Map.Writes.{write32}
use qemu_rust_risc_v.Bus.Map.Hart.{system_bus, stimecmp-system}
use qemu_rust_risc_v.Bus.Map.Timer.{mtimecmp_halves}
use qemu_rust_risc_v.Bus.Map.Level.{Level, store_8, after, after-Level}
use qemu_rust_risc_v.Tests.Plic.{configured-IsValid}
use qemu_rust_risc_v.Tests.Dram.{little, little_laws}
use qemu_rust_risc_v.Dram.Defs.{to_bytes}
use qemu_rust_risc_v.Cpu.Memory.{load_va, store_va}
use qemu_rust_risc_v.Bus.Map.Loads.{IsBare, load_va-store_va}
use qemu_rust_risc_v.Tests.Bus.{devices}
use qemu_rust_risc_v.Tests.Virtio.{no_disk, random}

abbrev pub machine : Bus (Unit {0})
machine = record {
  mrom = MromDefs.new 8;
  dram = DramDefs.new 8;
  flash = FlashDefs.new 8;
  virtio_block = none;
  virtio_rng = RngDefs.new;
  devices = devices;
  host = tt;
}

abbrev pub host : HostOps (Unit {0})
host = record { file = no_disk; random = random; seconds = λ h. 0 }

abbrev hart : Cpu (Bus (Unit {0}))
hart = record {
  pc = 0x1000;
  regs = replicate 32 7;
  f_regs = replicate 32 0;
  csr = record {
    regs = λ a. if a == Addr.stimecmp then some (2 ^ 64 - 1) else none;
    num_triggers = 4;
  };
  mode = Mode.machine;
  bus = machine;
  reservation = none;
  inst_count = 0;
}

cleared : hart.bus.devices.stimecmp ≡ read hart.csr Addr.stimecmp
unfolding read stored
cleared = refl

-- `csrrw x0, stimecmp, x1`
stimecmp-system_example :
    (system (system_bus little host) hart 0x14D09073).1.bus.devices.stimecmp
    ≡ read (system (system_bus little host) hart 0x14D09073).1.csr Addr.stimecmp
stimecmp-system_example = stimecmp-system little host hart 0x14D09073 cleared

mtimecmp_halves_example :
    (b1 b2 : Bus (Unit {0})) × (write32 little host 0x2004000 (as_u32 0x123456789) machine
      ≡ (ok tt, b1))
    × (write32 little host 0x2004004 (shr 0x123456789 32) b1 ≡ (ok tt, b2))
    × (read64 little host 0x2004000 b2 ≡ (ok 0x123456789, b2))
    × (read32 little host 0x2004000 b2 ≡ (ok (0x123456789 % 2 ^ 32), b2))
    × (read32 little host 0x2004004 b2 ≡ (ok (0x123456789 / 2 ^ 32), b2))
    × (has_timer_interrupt b2.devices ≡ leb 0x123456789 machine.devices.mtime)
mtimecmp_halves_example = mtimecmp_halves little host machine 0x123456789 (omega arith)

-- Both interrupts of the UART are switched off.
after-Level_example : Level (after little host (store_8 0x10000001 0) machine).devices
after-Level_example = after-Level little host (store_8 0x10000001 0) machine refl configured-IsValid

bare : IsBare hart
unfolding read stored read_mstatus test_bit
bare = refl

-- A byte inside the word.
load_va-store_va_example :
    (d : Cpu (Bus (Unit {0}))) × (store_va
        (system_bus little host)
        hart
        0x80000000
        0x1122334455667788
        8
      ≡ (ok tt, d))
    × (load_va (system_bus little host) d 0x80000000 8 ≡ (ok 0x1122334455667788, d))
    × ((load_va (system_bus little host) d 0x80000003 1).0 ≡ (
        if leb 0x80000000 0x80000003 && ltb 0x80000003 (0x80000000 + 8)
        then ok (get_or (to_bytes 8 0x1122334455667788) (0x80000003 - 0x80000000) 0)
        else (load_va (system_bus little host) hart 0x80000003 1).0))
load_va-store_va_example =
    load_va-store_va little host hart 0x80000000 0x1122334455667788 0x80000003 little_laws bare
      (omega arith) (omega arith) (omega arith) (omega arith) (omega arith) refl
