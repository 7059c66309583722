-- ===== src/Cpu/Traps.antt =====
-- src/cpu.rs, `handle_trap`: what trap entry writes.
use qemu_rust_risc_v.Prelude.{ℕ, ◌<◌, ◌-◌, ◌≡◌, refl, arith, ◌∙◌, sym, ap, true, false, not, ◌&&◌}
use qemu_rust_risc_v.Prelude.{◌==◌, if◌then◌else◌, in_range, Bool-cases, none, inl, inr, ◌⊎◌}
use qemu_rust_risc_v.Bits.{test_bit}
use qemu_rust_risc_v.Trap.{Trap, Mode, machine, supervisor, mode_number, code}
use qemu_rust_risc_v.Csr.Addr
use qemu_rust_risc_v.Csr.Defs.{Csr, stored, read_mstatus, read, write, sstatus_mask}
use qemu_rust_risc_v.Csr.Status.{mstatus-write-mstatus, mstatus-write-sstatus, sstatus_bits}
use qemu_rust_risc_v.Mmu.Entry.{is_machine}
use qemu_rust_risc_v.Cpu.Defs.{Cpu, enter_sstatus, enter_mstatus, enter_s_csr, enter_m_csr}
use qemu_rust_risc_v.Cpu.Defs.{
  take_s_trap, take_trap, should_delegate, handle_trap, clear_reservation,
}
use qemu_rust_risc_v.Cpu.Vector.{delegated, target, should_delegate_lem, vector_lem}
use qemu_rust_risc_v.Cpu.StatusBits.{enter_mstatus_bits, enter_sstatus_bits}

-- MSTATUS after an entry into machine mode.
pub enter_m_status :
    (csr : Csr) (pc : ℕ) (trap : Trap) (tval : ℕ) (mode : Mode) (i : ℕ)
    → i < 63
    → in_range 32 35 i ≡ false
    → test_bit (read (enter_m_csr csr pc trap tval mode) Addr.mstatus) i ≡ (
        if i == 3
        then false
        else if i == 7
        then test_bit (read csr Addr.mstatus) 3
        else if in_range 11 12 i
        then test_bit (mode_number mode) (i - 11)
        else test_bit (read csr Addr.mstatus) i)
unfolding enter_m_csr
enter_m_status csr pc trap tval mode i below other =
    let c1 = write csr Addr.mepc pc in
    let c2 = write c1 Addr.mcause (code trap) in
    let c3 = write c2 Addr.mtval tval in
    let same : read c3 Addr.mstatus ≡ read csr Addr.mstatus =
      unfold read write stored read_mstatus in refl in
    mstatus-write-mstatus c3 (enter_mstatus (read c3 Addr.mstatus) mode) i below other
    ∙ rw same (enter_mstatus_bits (read csr Addr.mstatus) mode i (omega arith))

-- SIE, SPIE and SPP lie under the mask of SSTATUS.
pub status_fields :
    (test_bit sstatus_mask 1 ≡ true)
    × (test_bit sstatus_mask 5 ≡ true)
    × (test_bit sstatus_mask 8 ≡ true)
unfolding test_bit
status_fields = (refl, refl, refl)

-- MSTATUS after an entry into supervisor mode.
pub enter_s_status :
    (csr : Csr) (pc : ℕ) (trap : Trap) (tval : ℕ) (mode : Mode) (i : ℕ)
    → i < 63
    → in_range 32 35 i ≡ false
    → test_bit (read (enter_s_csr csr pc trap tval mode) Addr.mstatus) i ≡ (
        if i == 1
        then false
        else if i == 5
        then test_bit (read csr Addr.mstatus) 1
        else if i == 8
        then test_bit (mode_number mode) 0
        else test_bit (read csr Addr.mstatus) i)
unfolding enter_s_csr
enter_s_status csr pc trap tval mode i below other =
    let c1 = write csr Addr.sepc pc in
    let c2 = write c1 Addr.scause (code trap) in
    let c3 = write c2 Addr.stval tval in
    let same : read c3 Addr.mstatus ≡ read csr Addr.mstatus =
      unfold read write stored read_mstatus in refl in
    let shown : read c3 Addr.sstatus ≡ read csr Addr.sstatus =
      unfold read write stored read_mstatus in refl in
    let value = enter_sstatus (read c3 Addr.sstatus) mode in
    ground (
      arith,
      mstatus-write-sstatus c3 value i below other,
      ap (λ w. test_bit (enter_sstatus w mode) i) shown,
      ap (λ w. test_bit w i) same,
      enter_sstatus_bits (read csr Addr.sstatus) mode i (omega arith),
      sstatus_bits csr 1,
      sstatus_bits csr i,
      status_fields,
      ap (test_bit sstatus_mask),
    )

-- The registers of a trap that each mode has: the saved program counter, the cause, the value.
abbrev pub Recorded : Csr → ℕ → ℕ → ℕ → ℕ → Trap → ℕ → Type 0
Recorded csr epc cause tval pc trap value =
    (read csr epc ≡ pc) × (read csr cause ≡ code trap) × (read csr tval ≡ value)

module _ {B : Type 0} where
  -- A trap goes to supervisor mode exactly when the hart is not in machine mode and the bit with
  -- its number is set, of MIDELEG for an interrupt and of MEDELEG for an exception; otherwise it goes
  -- to machine mode. Either entry records the program counter, the cause and the trap value in the
  -- registers of its mode, and jumps to the multiple of four below its vector register, to which
  -- an interrupt adds four times its number, in 64 bits, if bit 0 of the register is set. It drops the
  -- reservation and leaves the integer registers as they are.
  pub handle_trap_lem :
      (c : Cpu B) (trap : Trap) (tval : ℕ)
      → let d = handle_trap c trap tval in
        ((delegated c.csr trap && not (is_machine c.mode) ≡ true)
          × (d.mode ≡ supervisor)
          × Recorded d.csr Addr.sepc Addr.scause Addr.stval c.pc trap tval
          × (d.pc ≡ target (read c.csr Addr.stvec) trap)
          × (d.reservation ≡ none)
          × (d.regs ≡ c.regs))
        ⊎ ((delegated c.csr trap && not (is_machine c.mode) ≡ false)
            × (d.mode ≡ machine)
            × Recorded d.csr Addr.mepc Addr.mcause Addr.mtval c.pc trap tval
            × (d.pc ≡ target (read c.csr Addr.mtvec) trap)
            × (d.reservation ≡ none)
            × (d.regs ≡ c.regs))
  unfolding handle_trap take_trap take_s_trap enter_m_csr enter_s_csr read write stored
      clear_reservation
  handle_trap_lem c trap tval =
      let same = ap (λ b. b && not (is_machine c.mode)) (should_delegate_lem c.csr trap) in
      elim (Bool-cases (should_delegate c.csr trap && not (is_machine c.mode))) [
        | inl e ↦ inl (
            rw e (
              sym same ∙ e,
              refl,
              (refl, refl, refl),
              vector_lem (read c.csr Addr.stvec) trap,
              refl,
              refl,
            ))
        | inr e ↦ inr (
            rw e (
              sym same ∙ e,
              refl,
              (refl, refl, refl),
              vector_lem (read c.csr Addr.mtvec) trap,
              refl,
              refl,
            ))
      ]
