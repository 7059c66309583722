-- ===== src/Cpu/Defs.antt =====
-- src/cpu.rs: the state of the hart, over any type of bus; its registers, its reservation, trap
-- entry (`handle_trap`, `take_trap`, `take_s_trap`) and the MRET and SRET arms of `execute`.
use qemu_rust_risc_v.Prelude.{ℕ, ◌+◌, ◌*◌, ◌%◌, ◌^◌, Bool, false, not, ◌&&◌}
use qemu_rust_risc_v.Prelude.{
  ◌==◌, ◌!=◌, if◌then◌else◌, bit_and, bit_or, Option, none, some, List, get_or, set, replicate,
}
use qemu_rust_risc_v.Bits.{shl, shr, bit_not}
use qemu_rust_risc_v.Trap.{
  Trap, Mode, exception, interrupt, code, is_interrupt, mode_number, mode_of,
}
use qemu_rust_risc_v.Csr.New
use qemu_rust_risc_v.Csr.Addr
use qemu_rust_risc_v.Csr.Defs.{Csr, read, write}
use qemu_rust_risc_v.Mmu.Entry.{is_machine}

pub record Cpu (B : Type 0) : Type 0 where
  pub pc : ℕ
  pub regs : List ℕ
  pub f_regs : List ℕ
  pub csr : Csr
  pub mode : Mode
  pub bus : B
  pub reservation : Option ℕ
  pub inst_count : ℕ

module _ {B : Type 0} where
  unfoldable pub new : B → Cpu B
  new bus = record {
    pc = 0;
    regs = replicate 32 0;
    f_regs = replicate 32 0;
    csr = New.new;
    mode = Mode.machine;
    bus = bus;
    reservation = none;
    inst_count = 0;
  }

  unfoldable pub clear_reservation : Cpu B → Cpu B
  clear_reservation c = record c { reservation = none }

  unfoldable pub set_reservation : Cpu B → ℕ → Cpu B
  set_reservation c addr = record c { reservation = some (bit_and addr (bit_not 64 0x7)) }

  unfoldable pub check_reservation : Cpu B → ℕ → Bool
  check_reservation c addr = elim c.reservation [
    | some reserved_addr ↦ bit_and addr (bit_not 64 0x7) == reserved_addr
    | none ↦ false
  ]

  -- The index is a field of five bits, so it lies within the array.
  unfoldable pub read_reg : Cpu B → ℕ → ℕ
  read_reg c index = if index == 0 then 0 else get_or c.regs index 0

  unfoldable pub write_reg : Cpu B → ℕ → ℕ → Cpu B
  write_reg c index value = if index != 0 then record c { regs = set c.regs index value } else c

-- The vector of a trap: the base, or in vectored mode for an interrupt the base plus four times the
-- cause.
unfoldable pub vector : ℕ → Trap → ℕ
vector tvec trap =
    let base = bit_and tvec (bit_not 64 0x3) in
    if is_interrupt trap && (bit_and tvec 0x1 != 0)
    then (base + 4 * bit_and (code trap) 0x3F) % 2 ^ 64
    else base

-- SPIE takes SIE, SIE is cleared, SPP takes the mode.
unfoldable pub enter_sstatus : ℕ → Mode → ℕ
enter_sstatus sstatus mode =
    let sie = bit_and (shr sstatus 1) 0x1 in
    let s1 = bit_or (bit_and sstatus (bit_not 64 (shl 64 1 5))) (shl 64 sie 5) in
    let s2 = bit_and s1 (bit_not 64 (shl 64 1 1)) in
    bit_or (bit_and s2 (bit_not 64 (shl 64 1 8))) (shl 64 (bit_and (mode_number mode) 1) 8)

-- MPIE takes MIE, MIE is cleared, MPP takes the mode.
unfoldable pub enter_mstatus : ℕ → Mode → ℕ
enter_mstatus mstatus mode =
    let mie = bit_and (shr mstatus 3) 0x1 in
    let m1 = bit_or (bit_and mstatus (bit_not 64 (shl 64 1 7))) (shl 64 mie 7) in
    let m2 = bit_and m1 (bit_not 64 (shl 64 1 3)) in
    bit_or (bit_and m2 (bit_not 64 (shl 64 0x3 11))) (shl 64 (mode_number mode) 11)

-- MIE takes MPIE, MPIE is set, MPP is cleared.
unfoldable pub leave_mstatus : ℕ → ℕ
leave_mstatus mstatus =
    let mpie = bit_and (shr mstatus 7) 0x1 in
    let m1 = bit_or (bit_and mstatus (bit_not 64 (shl 64 1 3))) (shl 64 mpie 3) in
    let m2 = bit_or m1 (shl 64 1 7) in bit_and m2 (bit_not 64 (shl 64 0x3 11))

-- SIE takes SPIE, SPIE is set, SPP is cleared.
unfoldable pub leave_sstatus : ℕ → ℕ
leave_sstatus sstatus =
    let spie = bit_and (shr sstatus 5) 0x1 in
    let s1 = bit_or (bit_and sstatus (bit_not 64 (shl 64 1 1))) (shl 64 spie 1) in
    let s2 = bit_or s1 (shl 64 1 5) in bit_and s2 (bit_not 64 (shl 64 1 8))

-- The four CSR writes of a trap entry, in order.
unfoldable pub enter_s_csr : Csr → ℕ → Trap → ℕ → Mode → Csr
unfolding enter_sstatus
enter_s_csr csr pc trap tval mode =
    let c1 = write csr Addr.sepc pc in
    let c2 = write c1 Addr.scause (code trap) in
    let c3 = write c2 Addr.stval tval in
    write c3 Addr.sstatus (enter_sstatus (read c3 Addr.sstatus) mode)

unfoldable pub enter_m_csr : Csr → ℕ → Trap → ℕ → Mode → Csr
unfolding enter_mstatus
enter_m_csr csr pc trap tval mode =
    let c1 = write csr Addr.mepc pc in
    let c2 = write c1 Addr.mcause (code trap) in
    let c3 = write c2 Addr.mtval tval in
    write c3 Addr.mstatus (enter_mstatus (read c3 Addr.mstatus) mode)

-- Bit `exception_code` of MIDELEG for an interrupt, of MEDELEG for an exception.
unfoldable pub should_delegate : Csr → Trap → Bool
should_delegate csr trap =
    let exception_code = bit_and (code trap) (bit_not 64 (shl 64 1 63)) in
    elim trap [
      | interrupt i ↦ bit_and (shr (read csr Addr.mideleg) exception_code) 1 != 0
      | exception e ↦ bit_and (shr (read csr Addr.medeleg) exception_code) 1 != 0
    ]

module _ {B : Type 0} where
  unfoldable pub take_s_trap : Cpu B → Trap → ℕ → Cpu B
  unfolding enter_s_csr vector
  take_s_trap c trap mtval = record c {
    csr = enter_s_csr c.csr c.pc trap mtval c.mode;
    mode = Mode.supervisor;
    pc = vector (read c.csr Addr.stvec) trap;
  }

  unfoldable pub take_trap : Cpu B → Trap → ℕ → Cpu B
  unfolding enter_m_csr vector
  take_trap c trap mtval = record c {
    csr = enter_m_csr c.csr c.pc trap mtval c.mode;
    mode = Mode.machine;
    pc = vector (read c.csr Addr.mtvec) trap;
  }

  -- The printing of unusual exceptions is left out.
  unfoldable pub handle_trap : Cpu B → Trap → ℕ → Cpu B
  unfolding take_s_trap take_trap clear_reservation
  handle_trap c trap tval =
      let c0 = clear_reservation c in
      if should_delegate c0.csr trap && not (is_machine c0.mode)
      then take_s_trap c0 trap tval
      else take_trap c0 trap tval

  unfoldable pub mret : Cpu B → Cpu B
  unfolding leave_mstatus clear_reservation
  mret c =
      let mstatus = read c.csr Addr.mstatus in
      let csr = write c.csr Addr.mstatus (leave_mstatus mstatus) in
      clear_reservation (record c {
        csr = csr;
        mode = mode_of (bit_and (shr mstatus 11) 0x3);
        pc = read csr Addr.mepc;
      })

  unfoldable pub sret : Cpu B → Cpu B
  unfolding leave_sstatus clear_reservation
  sret c =
      let sstatus = read c.csr Addr.sstatus in
      let csr = write c.csr Addr.sstatus (leave_sstatus sstatus) in
      clear_reservation (record c {
        csr = csr;
        mode = if bit_and (shr sstatus 8) 0x1 == 0 then Mode.user else Mode.supervisor;
        pc = read csr Addr.sepc;
      })
