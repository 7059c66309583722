-- ===== src/Cpu/Exec/System.antt =====
-- src/cpu.rs: the SYSTEM arm of `execute`: the environment calls, the returns and fences, and the
-- six CSR instructions with the interception of TIME and STIMECMP.
use qemu_rust_risc_v.Prelude.{
  ℕ, ◌+◌, Bool, true, not, ◌&&◌, ◌||◌, ◌==◌, ◌!=◌, if◌then◌else◌, ok, err,
}
use qemu_rust_risc_v.Bits.{shr}
use qemu_rust_risc_v.Trap.{
  Mode, Exception, mode_number, exception, breakpoint, environment_call_from_u_mode,
  environment_call_from_s_mode, environment_call_from_m_mode,
}
use qemu_rust_risc_v.Csr.Addr
use qemu_rust_risc_v.Csr.Defs.{Csr, read, write, csrrw, csrrs, csrrc}
use qemu_rust_risc_v.Csr.Access.{is_valid_csr, check_csr_privilege}
use qemu_rust_risc_v.Cpu.Defs.{read_reg, write_reg, mret, sret}
use qemu_rust_risc_v.Cpu.Decode.{rd, rs1, funct3, funct7, imm_i}
use qemu_rust_risc_v.Cpu.Memory.{SystemBus, Hart, Run, done, illegal}
use qemu_rust_risc_v.Cpu.Exec.Base.{next_pc, finish}

unfoldable pub environment_call : Mode → Exception
environment_call Mode.user = environment_call_from_u_mode
environment_call Mode.supervisor = environment_call_from_s_mode
environment_call Mode.hypervisor = environment_call_from_m_mode
environment_call Mode.machine = environment_call_from_m_mode

-- `crate::bus::CLINT_BASE + 0xBFF8`
abbrev pub time_addr : ℕ
time_addr = 0x02000000 + 0xBFF8

-- `(inst >> 20) as u16`
abbrev pub csr_addr : ℕ → ℕ
csr_addr inst = shr inst 20

module _ (s : SystemBus) where
  -- funct3 0.
  unfoldable pub privileged : Hart s → ℕ → Run s (Unit {0})
  unfolding imm_i environment_call mret sret
  privileged c inst =
      if (funct7 inst == 0x09) || (funct7 inst == 0x31) || (funct7 inst == 0x11)
      then done (record c { pc = next_pc c })
      else if imm_i inst == 0x000
      then (err (exception (environment_call c.mode), 0), c)
      else if imm_i inst == 0x001
      then (err (exception breakpoint, c.pc), c)
      else if imm_i inst == 0x302
      then done (mret c)
      else if imm_i inst == 0x102
      then done (sret c)
      else if (imm_i inst == 0x105) || (imm_i inst == 0x00D) || (imm_i inst == 0x01D)
      then done (record c { pc = next_pc c })
      else illegal c inst

  -- The tests that each of the six makes, with its `is_write`.
  abbrev pub allowed : Hart s → ℕ → Bool → Bool
  allowed c inst is_write =
      is_valid_csr (csr_addr inst)
      && check_csr_privilege (csr_addr inst) (mode_number c.mode) is_write

  -- `self.bus.read64(CLINT_BASE + 0xBFF8).unwrap_or(0)`
  unfoldable pub read_time : Hart s → Hart s × ℕ
  read_time c =
      let (answer, bus) = s.words.read64 time_addr c.bus in
      (record c { bus = bus }, elim answer [ ok v ↦ v | err f ↦ 0 ])

  -- The old value: of TIME from the bus, of another register from the CSR file, which the operation
  -- changes.
  unfoldable pub access_csr : Hart s → ℕ → (Csr → ℕ → ℕ → Csr × ℕ) → ℕ → Hart s × ℕ
  unfolding read_time
  access_csr c addr operation operand =
      if addr == Addr.time
      then read_time c
      else (let r = operation c.csr addr operand in (record c { csr = r.0 }, r.1))

  -- CSRRW, which intercepts STIMECMP.
  unfoldable pub csr_write : Hart s → ℕ → Run s (Unit {0})
  unfolding is_valid_csr check_csr_privilege mode_number read_reg write_reg access_csr csrrw
  csr_write c inst =
      if not (allowed c inst true)
      then illegal c inst
      else if csr_addr inst == Addr.stimecmp
      then (let new_val = if rs1 inst == 0 then 0 else read_reg c (rs1 inst) in
          done (
            finish
              (record c {
                bus = s.set_stimecmp new_val c.bus;
                csr = write c.csr (csr_addr inst) new_val;
              })
              (rd inst) (s.get_stimecmp c.bus)))
      else (let r = access_csr c (csr_addr inst) csrrw (read_reg c (rs1 inst)) in
          done (finish r.0 (rd inst) r.1))

  -- CSRRWI, likewise.
  unfoldable pub csr_write_imm : Hart s → ℕ → Run s (Unit {0})
  unfolding is_valid_csr check_csr_privilege mode_number write_reg access_csr csrrw
  csr_write_imm c inst =
      if not (allowed c inst true)
      then illegal c inst
      else if csr_addr inst == Addr.stimecmp
      then (let r = csrrw c.csr (csr_addr inst) (rs1 inst) in
          done
            (finish (record c { csr = r.0; bus = s.set_stimecmp (rs1 inst) c.bus }) (rd inst) r.1))
      else (let r = access_csr c (csr_addr inst) csrrw (rs1 inst) in
          done (finish r.0 (rd inst) r.1))

  -- `if is_write && csr_addr == STIMECMP`: the bus follows the CSR file.
  abbrev pub sync_stimecmp : Hart s → Bool → ℕ → Hart s
  sync_stimecmp c is_write addr =
      if is_write && (addr == Addr.stimecmp)
      then record c { bus = s.set_stimecmp (read c.csr Addr.stimecmp) c.bus }
      else c

  -- CSRRS, CSRRC, CSRRSI and CSRRCI: the operation and its operand.
  unfoldable pub csr_bits : (Csr → ℕ → ℕ → Csr × ℕ) → ℕ → Hart s → ℕ → Run s (Unit {0})
  unfolding is_valid_csr check_csr_privilege mode_number write_reg access_csr
  csr_bits operation operand c inst =
      let is_write = rs1 inst != 0 in
      let should_read = (rd inst != 0) || (rs1 inst != 0) in
      if not (allowed c inst is_write)
      then illegal c inst
      else (let r =
            if not should_read then (c, 0) else access_csr c (csr_addr inst) operation operand in
          done (finish (sync_stimecmp r.0 is_write (csr_addr inst)) (rd inst) r.1))

  unfoldable pub system : Hart s → ℕ → Run s (Unit {0})
  unfolding privileged csr_write csr_write_imm csr_bits read_reg csrrs csrrc
  system c inst =
      if funct3 inst == 0x0
      then privileged c inst
      else if funct3 inst == 0x1
      then csr_write c inst
      else if funct3 inst == 0x2
      then csr_bits csrrs (read_reg c (rs1 inst)) c inst
      else if funct3 inst == 0x3
      then csr_bits csrrc (read_reg c (rs1 inst)) c inst
      else if funct3 inst == 0x5
      then csr_write_imm c inst
      else if funct3 inst == 0x6
      then csr_bits csrrs (rs1 inst) c inst
      else if funct3 inst == 0x7
      then csr_bits csrrc (rs1 inst) c inst
      else illegal c inst
