-- ===== src/Cpu/Exec/Base.antt =====
-- src/cpu.rs: the arms of `execute` of the integer instructions, of the loads and the stores, and of
-- MISC-MEM, each a function of the hart and the instruction word.
use qemu_rust_risc_v.Prelude.{
  ℕ, zero, suc, ◌+◌, ◌*◌, ◌%◌, ◌^◌, Bool, not, ◌==◌, ◌!=◌, ltb, if◌then◌else◌, bit_and, bit_or,
  Option, none, some, get_or, set, ok, err,
}
use qemu_rust_risc_v.Bits.{shl, bit_not}
use qemu_rust_risc_v.Signed.{sign_extend}
use qemu_rust_risc_v.Csr.Addr
use qemu_rust_risc_v.Csr.Defs.{read, write}
use qemu_rust_risc_v.Mmu.Entry.{store}
use qemu_rust_risc_v.Cpu.Defs.{Cpu, read_reg, write_reg, clear_reservation}
use qemu_rust_risc_v.Cpu.Decode.{rd, rs1, rs2, funct3, funct7, imm_i, imm_s, imm_b, imm_u, imm_j}
use qemu_rust_risc_v.Cpu.Words.{wrapping_add, signed_less}
use qemu_rust_risc_v.Cpu.Alu.Defs.{op_imm, op}
use qemu_rust_risc_v.Cpu.Alu.Word.{op_imm_32, op_32}
use qemu_rust_risc_v.Cpu.Memory.{
  SystemBus, Hart, Run, ◌>>=◌, done, illegal, load_va, store_va, translate_va,
}

-- `branch_taken`
unfoldable pub branch_taken : ℕ → ℕ → ℕ → Option Bool
branch_taken funct3 rs1_val rs2_val =
    if funct3 == 0x0
    then some (rs1_val == rs2_val)
    else if funct3 == 0x1
    then some (rs1_val != rs2_val)
    else if funct3 == 0x4
    then some (signed_less 64 rs1_val rs2_val)
    else if funct3 == 0x5
    then some (not (signed_less 64 rs1_val rs2_val))
    else if funct3 == 0x6
    then some (ltb rs1_val rs2_val)
    else if funct3 == 0x7
    then some (not (ltb rs1_val rs2_val))
    else none

-- `mstatus = (mstatus & !(0x3 << 13)) | (0x3 << 13)`
unfoldable pub set_fs_dirty : ℕ → ℕ
set_fs_dirty mstatus = bit_or (bit_and mstatus (bit_not 64 (shl 64 0x3 13))) (shl 64 0x3 13)

module _ {B : Type 0} where
  abbrev pub next_pc : Cpu B → ℕ
  next_pc c = (c.pc + 4) % 2 ^ 64

  -- `self.write_reg(rd, value); self.pc = next_pc`
  abbrev pub finish : Cpu B → ℕ → ℕ → Cpu B
  finish c rd value = record (write_reg c rd value) { pc = next_pc c }

  abbrev pub set_f_reg : Cpu B → ℕ → ℕ → Cpu B
  set_f_reg c index value = record c { f_regs = set c.f_regs index value }

  abbrev pub mark_fs_dirty : Cpu B → Cpu B
  mark_fs_dirty c = record c {
    csr = write c.csr Addr.mstatus (set_fs_dirty (read c.csr Addr.mstatus));
  }

module _ (s : SystemBus) where
  unfoldable pub lui : Hart s → ℕ → Run s (Unit {0})
  unfolding imm_u write_reg
  lui c inst = done (finish c (rd inst) (imm_u inst))

  unfoldable pub auipc : Hart s → ℕ → Run s (Unit {0})
  unfolding imm_u write_reg
  auipc c inst = done (finish c (rd inst) (wrapping_add 64 c.pc (imm_u inst)))

  unfoldable pub jal : Hart s → ℕ → Run s (Unit {0})
  unfolding imm_j write_reg
  jal c inst =
      done (record (write_reg c (rd inst) (next_pc c)) { pc = wrapping_add 64 c.pc (imm_j inst) })

  unfoldable pub jalr : Hart s → ℕ → Run s (Unit {0})
  unfolding imm_i read_reg write_reg
  jalr c inst =
      let target = bit_and (wrapping_add 64 (read_reg c (rs1 inst)) (imm_i inst)) (bit_not 64 1) in
      done (record (write_reg c (rd inst) (next_pc c)) { pc = target })

  unfoldable pub branch : Hart s → ℕ → Run s (Unit {0})
  unfolding imm_b read_reg branch_taken
  branch c inst =
      elim (branch_taken (funct3 inst) (read_reg c (rs1 inst)) (read_reg c (rs2 inst))) [
        | some taken ↦
            done (record c { pc = if taken then wrapping_add 64 c.pc (imm_b inst) else next_pc c })
        | none ↦ illegal c inst
      ]

  -- The width of a load and what it makes of the bytes.
  abbrev pub extended : (ℕ → ℕ) → Run s ℕ → Run s ℕ
  extended f (ok v, c) = (ok (f v), c)
  extended f (err e, c) = (err e, c)

  unfoldable pub load_value : Hart s → ℕ → ℕ → Run s ℕ
  unfolding load_va
  load_value c inst va =
      if funct3 inst == 0x0
      then extended (sign_extend 8) (load_va s c va 1)
      else if funct3 inst == 0x1
      then extended (sign_extend 16) (load_va s c va 2)
      else if funct3 inst == 0x2
      then extended (sign_extend 32) (load_va s c va 4)
      else if funct3 inst == 0x3
      then load_va s c va 8
      else if funct3 inst == 0x4
      then load_va s c va 1
      else if funct3 inst == 0x5
      then load_va s c va 2
      else if funct3 inst == 0x6
      then load_va s c va 4
      else illegal c inst

  unfoldable pub load_arm : Hart s → ℕ → Run s (Unit {0})
  unfolding imm_i read_reg write_reg load_value
  load_arm c inst = do
    (value, c1) ← load_value c inst (wrapping_add 64 (read_reg c (rs1 inst)) (imm_i inst))
    done (finish c1 (rd inst) value)

  unfoldable pub load_fp_value : Hart s → ℕ → ℕ → Run s ℕ
  unfolding load_va
  load_fp_value c inst va =
      if funct3 inst == 0x2
      then extended (λ v. bit_or 0xFFFFFFFF00000000 (bit_and v 0xFFFFFFFF)) (load_va s c va 4)
      else if funct3 inst == 0x3
      then load_va s c va 8
      else illegal c inst

  unfoldable pub load_fp : Hart s → ℕ → Run s (Unit {0})
  unfolding imm_i read_reg load_fp_value set_fs_dirty
  load_fp c inst = do
    (value, c1) ← load_fp_value c inst (wrapping_add 64 (read_reg c (rs1 inst)) (imm_i inst))
    done (record (mark_fs_dirty (set_f_reg c1 (rd inst) value)) { pc = next_pc c })

  unfoldable pub store_width : Hart s → ℕ → ℕ → ℕ → Run s (Unit {0})
  unfolding store_va
  store_width c inst va value =
      if funct3 inst == 0x0
      then store_va s c va value 1
      else if funct3 inst == 0x1
      then store_va s c va value 2
      else if funct3 inst == 0x2
      then store_va s c va value 4
      else if funct3 inst == 0x3
      then store_va s c va value 8
      else illegal c inst

  -- `self.clear_reservation(); self.pc = next_pc`
  abbrev pub finish_store : Hart s → Run s (Unit {0})
  finish_store c = done (record (clear_reservation c) { pc = next_pc c })

  unfoldable pub store_arm : Hart s → ℕ → Run s (Unit {0})
  unfolding imm_s read_reg store_width clear_reservation
  store_arm c inst = do
    (_, c1) ←
        store_width c inst (wrapping_add 64 (read_reg c (rs1 inst)) (imm_s inst))
          (read_reg c (rs2 inst))
    finish_store c1

  unfoldable pub store_fp_width : Hart s → ℕ → ℕ → Run s (Unit {0})
  unfolding store_va
  store_fp_width c inst va =
      if funct3 inst == 0x2
      then store_va s c va (bit_and (get_or c.f_regs (rs2 inst) 0) 0xFFFFFFFF) 4
      else if funct3 inst == 0x3
      then store_va s c va (get_or c.f_regs (rs2 inst) 0) 8
      else illegal c inst

  unfoldable pub store_fp : Hart s → ℕ → Run s (Unit {0})
  unfolding imm_s read_reg store_fp_width clear_reservation
  store_fp c inst = do
    (_, c1) ← store_fp_width c inst (wrapping_add 64 (read_reg c (rs1 inst)) (imm_s inst))
    finish_store c1

  -- The end of the four arithmetic arms.
  abbrev pub computed : Hart s → ℕ → Option ℕ → Run s (Unit {0})
  computed c inst (some value) = done (finish c (rd inst) value)
  computed c inst none = illegal c inst

  unfoldable pub op_imm_arm : Hart s → ℕ → Run s (Unit {0})
  unfolding imm_i read_reg write_reg op_imm
  op_imm_arm c inst =
      computed c inst (op_imm inst (funct3 inst) (imm_i inst) (read_reg c (rs1 inst)))

  unfoldable pub op_arm : Hart s → ℕ → Run s (Unit {0})
  unfolding read_reg write_reg op
  op_arm c inst =
      computed c inst
        (op (funct7 inst) (funct3 inst) (read_reg c (rs1 inst)) (read_reg c (rs2 inst)))

  unfoldable pub op_imm_32_arm : Hart s → ℕ → Run s (Unit {0})
  unfolding imm_i read_reg write_reg op_imm_32
  op_imm_32_arm c inst =
      computed c inst (op_imm_32 inst (funct3 inst) (imm_i inst) (read_reg c (rs1 inst)))

  unfoldable pub op_32_arm : Hart s → ℕ → Run s (Unit {0})
  unfolding read_reg write_reg op_32
  op_32_arm c inst =
      computed c inst
        (op_32 (funct7 inst) (funct3 inst) (read_reg c (rs1 inst)) (read_reg c (rs2 inst)))

  -- The eight writes of CBO.ZERO, whose results are dropped.
  unfoldable pub zero_line : ℕ → ℕ → ℕ → s.words.Bus → s.words.Bus
  zero_line pa zero i bus = bus
  zero_line pa (suc n) i bus = zero_line pa n (i + 1) (s.words.write64 (pa + i * 8) 0 bus).1

  unfoldable pub cbo_zero : Hart s → ℕ → Run s (Unit {0})
  unfolding translate_va zero_line
  cbo_zero c va = do
    (pa, c1) ← translate_va s c store (bit_and va (bit_not 64 63)) (bit_and va (bit_not 64 63))
    done (record c1 { bus = zero_line pa 8 0 c1.bus; pc = next_pc c })

  unfoldable pub misc_mem : Hart s → ℕ → Run s (Unit {0})
  unfolding read_reg cbo_zero
  misc_mem c inst =
      if funct3 inst == 0x0
      then done (record c { pc = next_pc c })
      else if funct3 inst == 0x1
      then done (record c { pc = next_pc c })
      else if funct3 inst == 0x2
      then (if rs2 inst == 0
          then done (record c { pc = next_pc c })
          else if rs2 inst == 1
          then done (record c { pc = next_pc c })
          else if rs2 inst == 2
          then done (record c { pc = next_pc c })
          else if rs2 inst == 4
          then cbo_zero c (read_reg c (rs1 inst))
          else illegal c inst)
      else illegal c inst
