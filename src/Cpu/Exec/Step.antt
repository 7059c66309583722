-- ===== src/Cpu/Exec/Step.antt =====
-- src/cpu.rs: `execute`, which decodes an instruction word, and `step`, over any bus. The results of
-- the floating-point arms, which compute on the floats of the host, are a parameter.
use qemu_rust_risc_v.Prelude.{
  ℕ, ◌+◌, ◌%◌, ◌^◌, ◌||◌, ◌==◌, ◌!=◌, if◌then◌else◌, bit_and, ok, err, none, some,
}
use qemu_rust_risc_v.Bits.{as_u16}
use qemu_rust_risc_v.Cpu.Defs.{handle_trap}
use qemu_rust_risc_v.Cpu.Decode.{opcode}
use qemu_rust_risc_v.Cpu.Interrupts.{InterruptBus, check_interrupt}
use qemu_rust_risc_v.Cpu.Memory.{SystemBus, Hart, Run, ◌>>=◌, illegal, fetch}
use qemu_rust_risc_v.Cpu.Exec.Base.{
  lui, auipc, jal, jalr, branch, load_arm, load_fp, store_arm, store_fp, op_imm_arm, op_arm,
  op_imm_32_arm, op_32_arm, misc_mem,
}
use qemu_rust_risc_v.Cpu.Exec.Atomic.{amo}
use qemu_rust_risc_v.Cpu.Exec.System.{system}
use qemu_rust_risc_v.Cpu.Exec.Compressed.Low.{execute_compressed}

module _ (s : SystemBus) (float : Hart s → ℕ → Run s (Unit {0})) where
  -- The arms of the opcode of a standard instruction.
  unfoldable pub execute_standard : Hart s → ℕ → Run s (Unit {0})
  unfolding lui auipc jal jalr branch load_arm load_fp store_arm store_fp op_imm_arm op_arm
      op_imm_32_arm op_32_arm misc_mem amo system
  execute_standard c inst =
      let code = opcode inst in
      if code == 0x37
      then lui s c inst
      else if code == 0x17
      then auipc s c inst
      else if code == 0x6F
      then jal s c inst
      else if code == 0x67
      then jalr s c inst
      else if code == 0x63
      then branch s c inst
      else if code == 0x03
      then load_arm s c inst
      else if code == 0x07
      then load_fp s c inst
      else if code == 0x23
      then store_arm s c inst
      else if code == 0x27
      then store_fp s c inst
      else if code == 0x13
      then op_imm_arm s c inst
      else if code == 0x33
      then op_arm s c inst
      else if code == 0x1B
      then op_imm_32_arm s c inst
      else if code == 0x3B
      then op_32_arm s c inst
      else if code == 0x0F
      then misc_mem s c inst
      else if code == 0x2F
      then amo s c inst
      else if code == 0x73
      then system s c inst
      else if (code == 0x53) || (code == 0x43) || (code == 0x47) || (code == 0x4B) || (code == 0x4F)
      then float c inst
      else illegal c inst

  unfoldable pub execute : Hart s → ℕ → Run s (Unit {0})
  unfolding execute_standard execute_compressed
  execute c inst =
      if bit_and inst 0x3 != 0x3
      then execute_compressed s c (as_u16 inst)
      else execute_standard c inst

  -- A trap of the fetch or of the instruction is handled where it left the hart.
  unfoldable pub handled : Run s (Unit {0}) → Hart s
  unfolding handle_trap
  handled (ok _, c) = c
  handled (err (trap, tval), c) = handle_trap c trap tval

  -- `fetch`, then `execute`.
  unfoldable pub run_instruction : Hart s → Hart s
  unfolding fetch execute handled
  run_instruction c = handled (do (inst, c1) ← fetch s c; execute c1 inst)

  -- One step: the interrupts, then an instruction.
  unfoldable pub step : InterruptBus s.words.Bus → Hart s → Hart s
  unfolding check_interrupt run_instruction handle_trap
  step ops c =
      let (c1, pending) =
        check_interrupt ops (record c { inst_count = (c.inst_count + 1) % 2 ^ 64 }) in
      elim pending [ some trap ↦ handle_trap c1 trap 0 | none ↦ run_instruction c1 ]
