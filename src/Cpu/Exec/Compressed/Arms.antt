-- ===== src/Cpu/Exec/Compressed/Arms.antt =====
-- src/cpu.rs: the arms of `execute_compressed` that access memory and those of the quadrant one.
use qemu_rust_risc_v.Prelude.{
  ℕ, ◌+◌, ◌%◌, ◌^◌, Bool, ◌&&◌, ◌==◌, if◌then◌else◌, bit_and, bit_or, bit_xor, Option, none, some,
}
use qemu_rust_risc_v.Bits.{shr, as_u32}
use qemu_rust_risc_v.Signed.{sign_extend}
use qemu_rust_risc_v.Cpu.Defs.{Cpu, read_reg, write_reg, clear_reservation}
use qemu_rust_risc_v.Cpu.Words.{wrapping_add, wrapping_sub}
use qemu_rust_risc_v.Cpu.Alu.Defs.{shift_right_signed}
use qemu_rust_risc_v.Cpu.Memory.{SystemBus, Hart, Run, ◌>>=◌, done, illegal, load_va, store_va}
use qemu_rust_risc_v.Cpu.Exec.Base.{set_f_reg, mark_fs_dirty, set_fs_dirty}
use qemu_rust_risc_v.Cpu.Exec.Compressed.Fields.{
  field, reg_2, reg_7, full_7, imm_addi4spn, imm_six, imm_small, imm_addi16sp, imm_lui, imm_jump,
  imm_branch,
}

module _ {B : Type 0} where
  abbrev pub next_half : Cpu B → ℕ
  next_half c = (c.pc + 2) % 2 ^ 64

  abbrev pub finish_half : Cpu B → ℕ → ℕ → Cpu B
  finish_half c rd value = record (write_reg c rd value) { pc = next_half c }

module _ (s : SystemBus) where
  -- The loads of eight bytes, and of four with the sign.
  unfoldable pub c_load_double : Hart s → ℕ → ℕ → Run s (Unit {0})
  unfolding load_va write_reg
  c_load_double c rd va = do (value, c1) ← load_va s c va 8; done (finish_half c1 rd value)

  unfoldable pub c_load_word : Hart s → ℕ → ℕ → Run s (Unit {0})
  unfolding load_va write_reg
  c_load_word c rd va = do
    (value, c1) ← load_va s c va 4
    done (finish_half c1 rd (sign_extend 32 value))

  unfoldable pub c_load_float : Hart s → ℕ → ℕ → Run s (Unit {0})
  unfolding load_va set_fs_dirty
  c_load_float c rd va = do
    (value, c1) ← load_va s c va 8
    done (record (mark_fs_dirty (set_f_reg c1 rd value)) { pc = next_half c })

  unfoldable pub c_store : Hart s → ℕ → ℕ → ℕ → Run s (Unit {0})
  unfolding store_va clear_reservation
  c_store c va value size = do
    (_, c1) ← store_va s c va value size
    done (record (clear_reservation c1) { pc = next_half c })

  unfoldable pub c_addi4spn : Hart s → ℕ → Run s (Unit {0})
  unfolding imm_addi4spn read_reg write_reg
  c_addi4spn c inst =
      if imm_addi4spn inst == 0
      then illegal c inst
      else done (finish_half c (reg_2 inst) (wrapping_add 64 (read_reg c 2) (imm_addi4spn inst)))

  unfoldable pub c_addi : Hart s → ℕ → Run s (Unit {0})
  unfolding imm_small read_reg write_reg
  c_addi c inst =
      if full_7 inst == 0
      then done (record c { pc = next_half c })
      else done (
          finish_half c (full_7 inst) (wrapping_add 64 (read_reg c (full_7 inst)) (imm_small inst)))

  unfoldable pub c_addiw : Hart s → ℕ → Run s (Unit {0})
  unfolding imm_small read_reg write_reg
  c_addiw c inst = done (
      finish_half c (full_7 inst) (
        sign_extend 32
          (wrapping_add 32 (as_u32 (read_reg c (full_7 inst))) (as_u32 (imm_small inst)))))

  unfoldable pub c_li : Hart s → ℕ → Run s (Unit {0})
  unfolding imm_small write_reg
  c_li c inst = done (finish_half c (full_7 inst) (imm_small inst))

  -- C.ADDI16SP and C.LUI.
  unfoldable pub c_lui : Hart s → ℕ → Run s (Unit {0})
  unfolding imm_addi16sp imm_lui read_reg write_reg
  c_lui c inst =
      if full_7 inst == 2
      then done (finish_half c 2 (wrapping_add 64 (read_reg c 2) (imm_addi16sp inst)))
      else done (finish_half c (full_7 inst) (imm_lui inst))

  -- The result of the arm of C.SUB to C.ADDW, by bit 12 and bits 6:5.
  unfoldable pub c_arith : ℕ → ℕ → ℕ → ℕ → Option ℕ
  c_arith funct1 funct2_low x y =
      if (funct1 == 0) && (funct2_low == 0)
      then some (wrapping_sub 64 x y)
      else if (funct1 == 0) && (funct2_low == 1)
      then some (bit_xor x y)
      else if (funct1 == 0) && (funct2_low == 2)
      then some (bit_or x y)
      else if (funct1 == 0) && (funct2_low == 3)
      then some (bit_and x y)
      else if (funct1 == 1) && (funct2_low == 0)
      then some (sign_extend 32 (wrapping_sub 32 (as_u32 x) (as_u32 y)))
      else if (funct1 == 1) && (funct2_low == 1)
      then some (sign_extend 32 (wrapping_add 32 (as_u32 x) (as_u32 y)))
      else none

  -- C.SRLI, C.SRAI, C.ANDI and the arithmetic ones, by bits 11:10.
  unfoldable pub c_alu_value : Hart s → ℕ → Option ℕ
  unfolding imm_six imm_small read_reg c_arith
  c_alu_value c inst =
      let x = read_reg c (reg_7 inst) in
      if field inst 10 0x3 == 0
      then some (shr x (imm_six inst))
      else if field inst 10 0x3 == 1
      then some (shift_right_signed 64 x (imm_six inst))
      else if field inst 10 0x3 == 2
      then some (bit_and x (imm_small inst))
      else c_arith (field inst 12 0x1) (field inst 5 0x3) x (read_reg c (reg_2 inst))

  unfoldable pub c_alu : Hart s → ℕ → Run s (Unit {0})
  unfolding c_alu_value write_reg
  c_alu c inst = elim (c_alu_value c inst) [
    | some value ↦ done (finish_half c (reg_7 inst) value)
    | none ↦ illegal c inst
  ]

  unfoldable pub c_jump : Hart s → ℕ → Run s (Unit {0})
  unfolding imm_jump
  c_jump c inst = done (record c { pc = wrapping_add 64 c.pc (imm_jump inst) })

  unfoldable pub c_branch : Hart s → ℕ → Bool → Run s (Unit {0})
  unfolding imm_branch
  c_branch c inst taken =
      done (record c { pc = if taken then wrapping_add 64 c.pc (imm_branch inst) else next_half c })
