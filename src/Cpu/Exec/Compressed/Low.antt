-- ===== src/Cpu/Exec/Compressed/Low.antt =====
-- src/cpu.rs: the quadrant two of `execute_compressed`, and its dispatch on the quadrant and funct3.
use qemu_rust_risc_v.Prelude.{ℕ, ◌==◌, ◌!=◌, if◌then◌else◌, get_or, err}
use qemu_rust_risc_v.Bits.{shl}
use qemu_rust_risc_v.Trap.{exception, breakpoint}
use qemu_rust_risc_v.Cpu.Defs.{read_reg, write_reg}
use qemu_rust_risc_v.Cpu.Words.{wrapping_add}
use qemu_rust_risc_v.Cpu.Memory.{SystemBus, Hart, Run, done, illegal}
use qemu_rust_risc_v.Cpu.Exec.Compressed.Fields.{
  field, reg_2, reg_7, full_2, full_7, imm_six, imm_word, imm_double, imm_ldsp, imm_lwsp, imm_sdsp,
  imm_swsp,
}
use qemu_rust_risc_v.Cpu.Exec.Compressed.Arms.{
  finish_half, next_half, c_load_double, c_load_word, c_load_float, c_store, c_addi4spn, c_addi,
  c_addiw, c_li, c_lui, c_alu, c_jump, c_branch,
}

module _ (s : SystemBus) where
  unfoldable pub c_slli : Hart s → ℕ → Run s (Unit {0})
  unfolding imm_six read_reg write_reg
  c_slli c inst =
      done (finish_half c (full_7 inst) (shl 64 (read_reg c (full_7 inst)) (imm_six inst)))

  -- C.JALR writes the link before it reads the target.
  unfoldable pub c_jalr : Hart s → ℕ → Run s (Unit {0})
  unfolding read_reg write_reg
  c_jalr c inst =
      let linked = write_reg c 1 (next_half c) in
      done (record linked { pc = read_reg linked (full_7 inst) })

  -- C.JR, C.MV, C.EBREAK, C.JALR and C.ADD.
  unfoldable pub c_register : Hart s → ℕ → Run s (Unit {0})
  unfolding c_jalr read_reg write_reg
  c_register c inst =
      if field inst 12 0x1 == 0
      then (if full_2 inst == 0
          then done (record c { pc = read_reg c (full_7 inst) })
          else done (finish_half c (full_7 inst) (read_reg c (full_2 inst))))
      else (if full_2 inst == 0
          then (if full_7 inst == 0 then (err (exception breakpoint, c.pc), c) else c_jalr c inst)
          else done (
              finish_half c (full_7 inst)
                (wrapping_add 64 (read_reg c (full_7 inst)) (read_reg c (full_2 inst)))))

  -- The loads from the stack; those of the integer registers do not take x0.
  unfoldable pub c_lwsp : Hart s → ℕ → Run s (Unit {0})
  unfolding imm_lwsp read_reg c_load_word
  c_lwsp c inst =
      if full_7 inst == 0
      then illegal c inst
      else c_load_word s c (full_7 inst) (wrapping_add 64 (read_reg c 2) (imm_lwsp inst))

  unfoldable pub c_ldsp : Hart s → ℕ → Run s (Unit {0})
  unfolding imm_ldsp read_reg c_load_double
  c_ldsp c inst =
      if full_7 inst == 0
      then illegal c inst
      else c_load_double s c (full_7 inst) (wrapping_add 64 (read_reg c 2) (imm_ldsp inst))

  -- `opcode` is 0.
  unfoldable pub quadrant_0 : Hart s → ℕ → ℕ → Run s (Unit {0})
  unfolding c_addi4spn c_load_float c_load_word c_load_double c_store imm_word imm_double read_reg
  quadrant_0 c inst funct3 =
      let base = read_reg c (reg_7 inst) in
      let double = wrapping_add 64 base (imm_double inst) in
      let word = wrapping_add 64 base (imm_word inst) in
      if funct3 == 0
      then c_addi4spn s c inst
      else if funct3 == 1
      then c_load_float s c (reg_2 inst) double
      else if funct3 == 2
      then c_load_word s c (reg_2 inst) word
      else if funct3 == 3
      then c_load_double s c (reg_2 inst) double
      else if funct3 == 5
      then c_store s c double (get_or c.f_regs (reg_2 inst) 0) 8
      else if funct3 == 6
      then c_store s c word (read_reg c (reg_2 inst)) 4
      else if funct3 == 7
      then c_store s c double (read_reg c (reg_2 inst)) 8
      else illegal c inst

  -- `opcode` is 1.
  unfoldable pub quadrant_1 : Hart s → ℕ → ℕ → Run s (Unit {0})
  unfolding c_addi c_addiw c_li c_lui c_alu c_jump c_branch read_reg
  quadrant_1 c inst funct3 =
      if funct3 == 0
      then c_addi s c inst
      else if funct3 == 1
      then c_addiw s c inst
      else if funct3 == 2
      then c_li s c inst
      else if funct3 == 3
      then c_lui s c inst
      else if funct3 == 4
      then c_alu s c inst
      else if funct3 == 5
      then c_jump s c inst
      else if funct3 == 6
      then c_branch s c inst (read_reg c (reg_7 inst) == 0)
      else c_branch s c inst (read_reg c (reg_7 inst) != 0)

  -- `opcode` is 2.
  unfoldable pub quadrant_2 : Hart s → ℕ → ℕ → Run s (Unit {0})
  unfolding c_slli c_load_float c_lwsp c_ldsp c_register c_store imm_ldsp imm_sdsp imm_swsp read_reg
  quadrant_2 c inst funct3 =
      let sp = read_reg c 2 in
      if funct3 == 0
      then c_slli c inst
      else if funct3 == 1
      then c_load_float s c (full_7 inst) (wrapping_add 64 sp (imm_ldsp inst))
      else if funct3 == 2
      then c_lwsp c inst
      else if funct3 == 3
      then c_ldsp c inst
      else if funct3 == 4
      then c_register c inst
      else if funct3 == 5
      then c_store s c (wrapping_add 64 sp (imm_sdsp inst)) (get_or c.f_regs (full_2 inst) 0) 8
      else if funct3 == 6
      then c_store s c (wrapping_add 64 sp (imm_swsp inst)) (read_reg c (full_2 inst)) 4
      else c_store s c (wrapping_add 64 sp (imm_sdsp inst)) (read_reg c (full_2 inst)) 8

  -- The quadrant, and funct3 of three bits. A word of quadrant 3 does not reach this function.
  unfoldable pub execute_compressed : Hart s → ℕ → Run s (Unit {0})
  unfolding quadrant_0 quadrant_1 quadrant_2
  execute_compressed c inst =
      let funct3 = field inst 13 0x7 in
      if field inst 0 0x3 == 0
      then quadrant_0 c inst funct3
      else if field inst 0 0x3 == 1
      then quadrant_1 c inst funct3
      else if field inst 0 0x3 == 2
      then quadrant_2 c inst funct3
      else illegal c inst
