-- ===== src/Cpu/Return.antt =====
-- src/cpu.rs: a trap followed by the MRET or SRET that returns from it.
use qemu_rust_risc_v.Prelude.{ℕ, ◌<◌, ◌-◌, ◌≡◌, refl, arith, ◌∙◌, ap, true, false, not, ◌&&◌}
use qemu_rust_risc_v.Prelude.{◌==◌, if◌then◌else◌, in_range, none, bit_and, ◌+◌, ◌⊎◌}
use qemu_rust_risc_v.Bits.{
  test_bit, shr, shr_bit, test_bit-ext, test_bit-and, test_bit-shr, test_bit_ones, test_bit_beyond,
}
use qemu_rust_risc_v.Trap.{Trap, Mode, supervisor, user, mode_number, mode_of}
use qemu_rust_risc_v.Trap.{mode_of-mode_number}
use qemu_rust_risc_v.Csr.Addr
use qemu_rust_risc_v.Csr.Defs.{Csr, stored, read, write, sstatus_mask}
use qemu_rust_risc_v.Csr.Status.{mstatus-write-mstatus, mstatus-write-sstatus, sstatus_bits}
use qemu_rust_risc_v.Mmu.Entry.{is_machine}
use qemu_rust_risc_v.Cpu.Defs.{Cpu, enter_s_csr, enter_m_csr, leave_mstatus, leave_sstatus}
use qemu_rust_risc_v.Cpu.Defs.{
  take_s_trap, take_trap, should_delegate, handle_trap, clear_reservation,
}
use qemu_rust_risc_v.Cpu.Defs.{mret, sret}
use qemu_rust_risc_v.Cpu.StatusBits.{mode_number-lt, leave_mstatus_bits, leave_sstatus_bits}
use qemu_rust_risc_v.Cpu.Traps.{enter_m_status, enter_s_status, status_fields}

-- The field MPP, two bits wide, holds the number of the mode.
mpp_field :
    (x : ℕ) (m : Mode)
    → ((i : ℕ) → in_range 11 12 i ≡ true → test_bit x i ≡ test_bit (mode_number m) (i - 11))
    → mode_of (bit_and (shr x 11) 0x3) ≡ m
mpp_field x m f =
    let field : bit_and (shr x 11) 0x3 ≡ mode_number m =
      test_bit-ext (bit_and (shr x 11) 0x3) (mode_number m) (λ i. ground (
        arith,
        test_bit-and (shr x 11) 0x3 i,
        test_bit-shr 11 x i,
        test_bit_ones 2 i,
        test_bit_beyond 2 (mode_number m) i (mode_number-lt m),
        f (i + 11),
      )) in
    ap mode_of field ∙ mode_of-mode_number m

-- MSTATUS after a trap into machine mode and MRET.
mret_status :
    (csr : Csr) (pc : ℕ) (trap : Trap) (tval : ℕ) (mode : Mode) (i : ℕ)
    → i < 63
    → in_range 32 35 i ≡ false
    → let entered = enter_m_csr csr pc trap tval mode in
      test_bit
        (read (write entered Addr.mstatus (leave_mstatus (read entered Addr.mstatus))) Addr.mstatus)
        i
      ≡ (if i == 7
          then true
          else if in_range 11 12 i
          then false
          else test_bit (read csr Addr.mstatus) i)
mret_status csr pc trap tval mode i below other =
    let entered = enter_m_csr csr pc trap tval mode in
    let raw = read entered Addr.mstatus in
    ground (
      arith,
      mstatus-write-mstatus entered (leave_mstatus raw) i below other,
      leave_mstatus_bits raw i,
      enter_m_status csr pc trap tval mode 7,
      enter_m_status csr pc trap tval mode i below other,
    )

mret_mode :
    (csr : Csr) (pc : ℕ) (trap : Trap) (tval : ℕ) (mode : Mode)
    → mode_of (bit_and (shr (read (enter_m_csr csr pc trap tval mode) Addr.mstatus) 11) 0x3) ≡ mode
mret_mode csr pc trap tval mode =
    mpp_field (read (enter_m_csr csr pc trap tval mode) Addr.mstatus) mode
      (λ i h. ground (arith, enter_m_status csr pc trap tval mode i))

-- MSTATUS after a trap into supervisor mode and SRET.
sret_status :
    (csr : Csr) (pc : ℕ) (trap : Trap) (tval : ℕ) (mode : Mode) (i : ℕ)
    → i < 63
    → in_range 32 35 i ≡ false
    → let entered = enter_s_csr csr pc trap tval mode in
      test_bit
        (read (write entered Addr.sstatus (leave_sstatus (read entered Addr.sstatus))) Addr.mstatus)
        i
      ≡ (if i == 5 then true else if i == 8 then false else test_bit (read csr Addr.mstatus) i)
sret_status csr pc trap tval mode i below other =
    let entered = enter_s_csr csr pc trap tval mode in
    let raw = read entered Addr.sstatus in
    ground (
      arith,
      status_fields,
      mstatus-write-sstatus entered (leave_sstatus raw) i below other,
      leave_sstatus_bits raw i,
      sstatus_bits entered 5,
      sstatus_bits entered i,
      enter_s_status csr pc trap tval mode 5,
      enter_s_status csr pc trap tval mode i below other,
      ap (test_bit sstatus_mask),
    )

sret_mode :
    (csr : Csr) (pc : ℕ) (trap : Trap) (tval : ℕ) (mode : Mode)
    → (mode ≡ user) ⊎ (mode ≡ supervisor)
    → (if bit_and (shr (read (enter_s_csr csr pc trap tval mode) Addr.sstatus) 8) 0x1 == 0
        then user
        else supervisor)
      ≡ mode
unfolding mode_number test_bit
sret_mode csr pc trap tval mode low =
    let entered = enter_s_csr csr pc trap tval mode in
    ground (
      arith,
      status_fields,
      shr_bit 8 (read entered Addr.sstatus),
      sstatus_bits entered 8,
      enter_s_status csr pc trap tval mode 8,
    )

module _ {B : Type 0} where
  -- A trap that goes to machine mode, followed by MRET: the program counter, the mode and the
  -- integer registers are those before the trap, no reservation is held, and of the bits of
  -- MSTATUS below SD and outside SXL and UXL, MPIE is set, MPP is clear and the others, MIE among
  -- them, are as before the trap.
  pub mret-handle_trap :
      (c : Cpu B) (trap : Trap) (tval i : ℕ)
      → should_delegate c.csr trap && not (is_machine c.mode) ≡ false
      → i < 63
      → in_range 32 35 i ≡ false
      → let d = mret (handle_trap c trap tval) in
        (d.pc ≡ c.pc)
        × (d.mode ≡ c.mode)
        × (d.regs ≡ c.regs)
        × (d.reservation ≡ none)
        × (test_bit (read d.csr Addr.mstatus) i ≡ (
            if i == 7
            then true
            else if in_range 11 12 i
            then false
            else test_bit (read c.csr Addr.mstatus) i))
  unfolding mret handle_trap take_trap clear_reservation
  mret-handle_trap c trap tval i to_machine below other = rw to_machine (
    unfold read write stored enter_m_csr in refl,
    mret_mode c.csr c.pc trap tval c.mode,
    refl,
    refl,
    mret_status c.csr c.pc trap tval c.mode i below other,
  )

  -- A trap that goes to supervisor mode, from user or supervisor mode, followed by SRET: the
  -- program counter, the mode and the integer registers are those before the trap, no reservation
  -- is held, and of the bits of MSTATUS below SD and outside SXL and UXL, SPIE is set, SPP is
  -- clear and the others, SIE among them, are as before the trap.
  pub sret-handle_trap :
      (c : Cpu B) (trap : Trap) (tval i : ℕ)
      → should_delegate c.csr trap && not (is_machine c.mode) ≡ true
      → (c.mode ≡ user) ⊎ (c.mode ≡ supervisor)
      → i < 63
      → in_range 32 35 i ≡ false
      → let d = sret (handle_trap c trap tval) in
        (d.pc ≡ c.pc)
        × (d.mode ≡ c.mode)
        × (d.regs ≡ c.regs)
        × (d.reservation ≡ none)
        × (test_bit (read d.csr Addr.mstatus) i ≡ (
            if i == 5
            then true
            else if i == 8
            then false
            else test_bit (read c.csr Addr.mstatus) i))
  unfolding sret handle_trap take_s_trap clear_reservation
  sret-handle_trap c trap tval i delegated low below other = rw delegated (
    unfold read write stored enter_s_csr in refl,
    sret_mode c.csr c.pc trap tval c.mode low,
    refl,
    refl,
    sret_status c.csr c.pc trap tval c.mode i below other,
  )
