-- ===== src/Cpu/Exec/Links.antt =====
-- src/cpu.rs: C.JALR, which writes the link register before it reads its target.
use qemu_rust_risc_v.Prelude.{ℕ, ◌≡◌, ◌≢◌, refl, arith, ◌∙◌, ◌==◌, if◌then◌else◌, length, ok}
use qemu_rust_risc_v.Cpu.Defs.{read_reg, write_reg}
use qemu_rust_risc_v.Cpu.Registers.{read_reg-write_reg}
use qemu_rust_risc_v.Cpu.Memory.{SystemBus, Hart}
use qemu_rust_risc_v.Cpu.Exec.Compressed.Fields.{full_7}
use qemu_rust_risc_v.Cpu.Exec.Compressed.Arms.{next_half}
use qemu_rust_risc_v.Cpu.Exec.Compressed.Low.{c_jalr}

module _ (s : SystemBus) where
  -- C.JALR of a register other than x0, on a hart with 32 registers, succeeds, puts the address of the next
  -- instruction into x1 and changes no other register. It goes to the address in its register, except that
  -- C.JALR of x1 goes to the next instruction.
  pub c_jalr_lem :
      (c : Hart s) (inst j : ℕ)
      → length c.regs ≡ 32
      → full_7 inst ≢ 0
      → (d : Hart s) × (c_jalr s c inst ≡ (ok tt, d))
        × (d.pc ≡ (if full_7 inst == 1 then next_half c else read_reg c (full_7 inst)))
        × (read_reg d j ≡ (if j == 0 then 0 else if j == 1 then next_half c else read_reg c j))
  unfolding c_jalr read_reg write_reg
  c_jalr_lem c inst j len target = (
    (c_jalr s c inst).1,
    refl,
    read_reg-write_reg c 1 (full_7 inst) (next_half c) len (omega arith) ∙ ground (arith, target),
    read_reg-write_reg c 1 j (next_half c) len (omega arith),
  )
