-- ===== src/Cpu/Exec/Access.antt =====
-- src/cpu.rs: the SYSTEM arm keeps the comparator of the supervisor timer in the bus and STIMECMP in
-- the CSR file the same.
use qemu_rust_risc_v.Prelude.{
  ℕ, ◌≡◌, ◌≢◌, arith, ap, sym, ◌∙◌, Bool, true, false, not, ◌&&◌, ◌||◌, ◌==◌, ◌!=◌, if-cases,
  Bool-cases, inl, inr,
}
use qemu_rust_risc_v.Csr.Addr
use qemu_rust_risc_v.Csr.Defs.{Csr, read, write, csrrw, csrrs, csrrc}
use qemu_rust_risc_v.Csr.Stimecmp.{
  stimecmp-write_self, stimecmp-write_other, KeepsOthers, csrrw-KeepsOthers, csrrs-KeepsOthers,
  csrrc-KeepsOthers, NoOperand, csrrs-NoOperand, csrrc-NoOperand,
}
use qemu_rust_risc_v.Cpu.Defs.{read_reg, write_reg, mret, sret, clear_reservation}
use qemu_rust_risc_v.Cpu.Decode.{rd, rs1, funct3, funct7, imm_i}
use qemu_rust_risc_v.Cpu.Memory.{SystemBus, Hart, Run}
use qemu_rust_risc_v.Cpu.Exec.Base.{next_pc, finish}
use qemu_rust_risc_v.Cpu.Exec.System.{
  csr_addr, time_addr, privileged, allowed, read_time, access_csr, csr_write, csr_write_imm,
  sync_stimecmp, csr_bits, system,
}

-- The comparator in the bus is a field, which reads of the time do not change.
pub record IsComparator (s : SystemBus) : Type 0 where
  pub get-set : (v : ℕ) (b : s.words.Bus) → s.get_stimecmp (s.set_stimecmp v b) ≡ v
  pub get-read :
      (b : s.words.Bus) → s.get_stimecmp (s.words.read64 time_addr b).1 ≡ s.get_stimecmp b

module _ (s : SystemBus) (laws : IsComparator s) where
  -- The bus and the CSR file agree.
  abbrev pub Synced : Hart s → Type 0
  Synced c = s.get_stimecmp c.bus ≡ read c.csr Addr.stimecmp

  -- A register write and a new program counter do not matter.
  finish-Synced : (c : Hart s) (i v : ℕ) → Synced c → Synced (finish c i v)
  unfolding write_reg
  finish-Synced c i v h =
      if-cases (λ (d : Hart s). Synced (record d { pc = next_pc c })) (i != 0) (λ _. h) (λ _. h)

  read_time-Synced : (c : Hart s) → Synced c → Synced (read_time s c).0
  unfolding read_time
  read_time-Synced c h = laws.get-read c.bus ∙ h

  -- A CSR access at another address than that of STIMECMP.
  access-Synced :
      (c : Hart s) (a v : ℕ) (operation : Csr → ℕ → ℕ → Csr × ℕ)
      → KeepsOthers operation
      → a ≢ Addr.stimecmp
      → Synced c
      → Synced (access_csr s c a operation v).0
  unfolding access_csr
  access-Synced c a v operation keeps ne h =
      if-cases (λ (r : Hart s × ℕ). Synced r.0) (a == Addr.time) (λ _. read_time-Synced c h)
        (λ _. h ∙ sym (keeps c.csr a v ne))

  -- A write of both.
  both-Synced :
      (c : Hart s) (a v : ℕ)
      → (a == Addr.stimecmp) ≡ true
      → Synced (record c { csr = write c.csr a v; bus = s.set_stimecmp v c.bus })
  both-Synced c a v self =
      let e : a ≡ Addr.stimecmp = ground (arith, self) in
      laws.get-set v c.bus
      ∙ sym (ap (λ n. read (write c.csr n v) Addr.stimecmp) e ∙ stimecmp-write_self c.csr v)

  csr_write-Synced : (c : Hart s) (inst : ℕ) → Synced c → Synced (csr_write s c inst).1
  unfolding csr_write
  csr_write-Synced c inst h =
      if-cases (λ (r : Run s (Unit {0})). Synced r.1) (not (allowed s c inst true)) (λ _. h)
        (λ _.
          if-cases (λ (r : Run s (Unit {0})). Synced r.1) (csr_addr inst == Addr.stimecmp)
            (λ self. finish-Synced _ (rd inst) _ (both-Synced c (csr_addr inst) _ self))
            (λ other. finish-Synced _ (rd inst) _ (
              access-Synced c (csr_addr inst) _ csrrw csrrw-KeepsOthers (ground (arith, other)) h)))

  csr_write_imm-Synced : (c : Hart s) (inst : ℕ) → Synced c → Synced (csr_write_imm s c inst).1
  unfolding csr_write_imm csrrw
  csr_write_imm-Synced c inst h =
      if-cases (λ (r : Run s (Unit {0})). Synced r.1) (not (allowed s c inst true)) (λ _. h)
        (λ _.
          if-cases (λ (r : Run s (Unit {0})). Synced r.1) (csr_addr inst == Addr.stimecmp)
            (λ self. finish-Synced _ (rd inst) _ (both-Synced c (csr_addr inst) (rs1 inst) self))
            (λ other. finish-Synced _ (rd inst) _ (
              access-Synced c (csr_addr inst) _ csrrw csrrw-KeepsOthers (ground (arith, other)) h)))

  -- An access that does not write, at any address.
  unwritten-Synced :
      (c : Hart s) (a v : ℕ) (operation : Csr → ℕ → ℕ → Csr × ℕ)
      → NoOperand operation
      → v ≡ 0
      → Synced c
      → Synced (access_csr s c a operation v).0
  unfolding access_csr
  unwritten-Synced c a v operation nothing zero_v h =
      if-cases (λ (r : Hart s × ℕ). Synced r.0) (a == Addr.time) (λ _. read_time-Synced c h)
        (λ _.
          h
          ∙ sym (
              ap (λ n. read (operation c.csr a n).0 Addr.stimecmp) zero_v
              ∙ ap (λ d. read d Addr.stimecmp) (nothing c.csr a)))

  -- The bus follows the CSR file where an access wrote STIMECMP.
  follow-Synced :
      (c : Hart s) (is_write : Bool) (a : ℕ)
      → (is_write && (a == Addr.stimecmp) ≡ false → Synced c)
      → Synced (sync_stimecmp s c is_write a)
  follow-Synced c is_write a h =
      if-cases (λ (d : Hart s). Synced d) (is_write && (a == Addr.stimecmp))
        (λ _. laws.get-set (read c.csr Addr.stimecmp) c.bus) h

  csr_bits-Synced :
      (operation : Csr → ℕ → ℕ → Csr × ℕ) (v : ℕ) (c : Hart s) (inst : ℕ)
      → KeepsOthers operation
      → NoOperand operation
      → (rs1 inst ≡ 0 → v ≡ 0)
      → Synced c
      → Synced (csr_bits s operation v c inst).1
  unfolding csr_bits
  csr_bits-Synced operation v c inst keeps nothing operand h =
      let is_write = rs1 inst != 0 in
      let a = csr_addr inst in
      let accessed : is_write && (a == Addr.stimecmp) ≡ false
          → Synced (access_csr s c a operation v).0 =
        λ e. elim (Bool-cases is_write) [
          | inl w ↦ access-Synced c a v operation keeps (λ same. ground (arith, w, same, e)) h
          | inr w ↦ unwritten-Synced c a v operation nothing (operand (ground (arith, w))) h
        ] in
      if-cases (λ (r : Run s (Unit {0})). Synced r.1) (not (allowed s c inst is_write)) (λ _. h)
        (λ _. finish-Synced _ (rd inst) _ (
          if-cases (λ (r : Hart s × ℕ). Synced (sync_stimecmp s r.0 is_write a))
            (not ((rd inst != 0) || (rs1 inst != 0))) (λ _. follow-Synced c is_write a (λ _. h))
            (λ _. follow-Synced (access_csr s c a operation v).0 is_write a accessed)))

  mret-Synced : (c : Hart s) → Synced c → Synced (mret c)
  unfolding mret clear_reservation
  mret-Synced c h = h ∙ sym (stimecmp-write_other c.csr Addr.mstatus _ (omega arith))

  sret-Synced : (c : Hart s) → Synced c → Synced (sret c)
  unfolding sret clear_reservation
  sret-Synced c h = h ∙ sym (stimecmp-write_other c.csr Addr.sstatus _ (omega arith))

  abbrev Kept : Run s (Unit {0}) → Type 0
  Kept r = Synced r.1

  privileged-Synced : (c : Hart s) (inst : ℕ) → Synced c → Synced (privileged s c inst).1
  unfolding privileged
  privileged-Synced c inst h =
      if-cases Kept ((funct7 inst == 0x09) || (funct7 inst == 0x31) || (funct7 inst == 0x11))
        (λ _. h)
        (λ _.
          if-cases Kept (imm_i inst == 0x000) (λ _. h)
            (λ _.
              if-cases Kept (imm_i inst == 0x001) (λ _. h)
                (λ _.
                  if-cases Kept (imm_i inst == 0x302) (λ _. mret-Synced c h)
                    (λ _.
                      if-cases Kept (imm_i inst == 0x102) (λ _. sret-Synced c h)
                        (λ _.
                          if-cases Kept
                            ((imm_i inst == 0x105)
                              || (imm_i inst == 0x00D)
                              || (imm_i inst == 0x01D))
                            (λ _. h) (λ _. h))))))

  -- If the bus has the comparator as a field that a read of the time does not change, every
  -- instruction of SYSTEM, whether it succeeds or not, leaves the comparator in the bus equal to
  -- STIMECMP in the CSR file when it was equal before.
  pub system-Synced : (c : Hart s) (inst : ℕ) → Synced c → Synced (system s c inst).1
  unfolding system read_reg
  system-Synced c inst h =
      let x = read_reg c (rs1 inst) in
      let zero_reg : rs1 inst ≡ 0 → x ≡ 0 = λ e. ground (arith, e) in
      if-cases Kept (funct3 inst == 0x0) (λ _. privileged-Synced c inst h)
        (λ _.
          if-cases Kept (funct3 inst == 0x1) (λ _. csr_write-Synced c inst h)
            (λ _.
              if-cases Kept (funct3 inst == 0x2)
                (λ _. csr_bits-Synced csrrs x c inst csrrs-KeepsOthers csrrs-NoOperand zero_reg h)
                (λ _.
                  if-cases Kept (funct3 inst == 0x3)
                    (λ _.
                      csr_bits-Synced csrrc x c inst csrrc-KeepsOthers csrrc-NoOperand zero_reg h)
                    (λ _.
                      if-cases Kept (funct3 inst == 0x5) (λ _. csr_write_imm-Synced c inst h)
                        (λ _.
                          if-cases Kept (funct3 inst == 0x6)
                            (λ _.
                              csr_bits-Synced csrrs (rs1 inst) c inst csrrs-KeepsOthers
                                csrrs-NoOperand (λ e. e) h)
                            (λ _.
                              if-cases Kept (funct3 inst == 0x7)
                                (λ _.
                                  csr_bits-Synced csrrc (rs1 inst) c inst csrrc-KeepsOthers
                                    csrrc-NoOperand (λ e. e) h)
                                (λ _. h)))))))
