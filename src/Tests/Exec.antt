-- ===== src/Tests/Exec.antt =====
-- A hart over a bus with one word of memory, which every address shows.
use qemu_rust_risc_v.Prelude.{
  ℕ, true, ◌≡◌, ◌≢◌, refl, arith, ◌==◌, if◌then◌else◌, none, ok, replicate,
}
use qemu_rust_risc_v.Trap.{Mode}
use qemu_rust_risc_v.Mmu.Memory.{MemoryBus}
use qemu_rust_risc_v.Cpu.Defs.{read_reg}
use qemu_rust_risc_v.Cpu.Memory.{SystemBus, Hart, ◌>>=◌}
use qemu_rust_risc_v.Cpu.Exec.Atomic.{load_reserved, store_conditional}
use qemu_rust_risc_v.Cpu.Exec.Compressed.Fields.{full_7}
use qemu_rust_risc_v.Cpu.Exec.Compressed.Arms.{next_half}
use qemu_rust_risc_v.Cpu.Exec.Compressed.Low.{c_jalr}
use qemu_rust_risc_v.Cpu.Exec.Links.{c_jalr_lem}

abbrev words : MemoryBus
words = record {
  Bus = ℕ;
  Fault = Unit {0};
  read64 = λ addr cell. (ok cell, cell);
  write64 = λ addr v cell. (ok tt, v);
}

abbrev cell_bus : SystemBus
cell_bus = record {
  words = words;
  read8 = λ addr cell. (ok cell, cell);
  read16 = λ addr cell. (ok cell, cell);
  read32 = λ addr cell. (ok cell, cell);
  write8 = λ addr v cell. (ok tt, v);
  write16 = λ addr v cell. (ok tt, v);
  write32 = λ addr v cell. (ok tt, v);
  get_stimecmp = λ cell. 0;
  set_stimecmp = λ v cell. cell;
}

abbrev hart : Hart cell_bus
hart = record {
  pc = 0x1000;
  regs = replicate 32 7;
  f_regs = replicate 32 0;
  csr = record { regs = λ a. none; num_triggers = 4 };
  mode = Mode.machine;
  bus = 5;
  reservation = none;
  inst_count = 0;
}

-- `lr.d x5, (x6)` and `sc.d x7, x8, (x6)`.
abbrev lr_inst : ℕ
lr_inst = 0x100332AF

abbrev sc_inst : ℕ
sc_inst = 0x188333AF

abbrev reserved : Hart cell_bus
unfolding load_reserved
reserved = (load_reserved cell_bus true hart lr_inst 0x2000 0x2000).1

abbrev stored : Hart cell_bus
unfolding store_conditional
stored = (store_conditional cell_bus true reserved sc_inst 0x2000 0x2000).1

-- `c.jalr a0`
target : full_7 0x9502 ≢ 0
target e = omega (arith, e)

c_jalr_lem_example :
    (d : Hart cell_bus) × (c_jalr cell_bus hart 0x9502 ≡ (ok tt, d))
    × (d.pc ≡ (if full_7 0x9502 == 1 then next_half hart else read_reg hart (full_7 0x9502)))
    × (read_reg d 1 ≡ (if 1 == 0 then 0 else if 1 == 1 then next_half hart else read_reg hart 1))
c_jalr_lem_example = c_jalr_lem cell_bus hart 0x9502 1 refl target
