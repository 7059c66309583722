-- ===== src/Tests/Cpu.antt =====
-- The hart with environment calls from user mode delegated, over a bus that is not used.
use qemu_rust_risc_v.Prelude.{
  ◌≡◌, ◌⊎◌, inl, refl, arith, true, false, not, ◌==◌, ◌&&◌, if◌then◌else◌, in_range, none, some,
  replicate,
}
use qemu_rust_risc_v.Bits.{test_bit}
use qemu_rust_risc_v.Trap.{
  Trap, Mode, user, supervisor, machine, exception, interrupt, illegal_instruction,
  environment_call_from_u_mode, code,
}
use qemu_rust_risc_v.Csr.Addr
use qemu_rust_risc_v.Csr.Defs.{Csr, read, stored}
use qemu_rust_risc_v.Mmu.Entry.{is_machine}
use qemu_rust_risc_v.Cpu.Defs.{Cpu, handle_trap, mret, sret, should_delegate}
use qemu_rust_risc_v.Cpu.Vector.{delegated, target}
use qemu_rust_risc_v.Cpu.Traps.{Recorded, handle_trap_lem}
use qemu_rust_risc_v.Cpu.Return.{mret-handle_trap, sret-handle_trap}
use qemu_rust_risc_v.Cpu.Interrupts.{InterruptBus, check_interrupt}
use qemu_rust_risc_v.Cpu.Interrupts.Order.{check_interrupt_lem, first, can_take, candidates}
use qemu_rust_risc_v.Cpu.Interrupts.Lines.{mip-check_interrupt}
use mathlib.Core.Option

-- MIE and SIE set, environment calls from user mode delegated, the timer interrupt enabled.
abbrev registers : Csr
registers = record {
  regs = λ a.
      if a == Addr.medeleg
      then some 0x100
      else if a == Addr.stvec
      then some 0x80000000
      else if a == Addr.mstatus
      then some 0xA
      else if a == Addr.mie
      then some 0x80
      else none;
  num_triggers = 4;
}

abbrev hart : Cpu (Unit {0})
hart = record {
  pc = 0x80001000;
  regs = replicate 32 0;
  f_regs = replicate 32 0;
  csr = registers;
  mode = Mode.user;
  bus = tt;
  reservation = some 0x80002000;
  inst_count = 0;
}

-- The timer line is up.
abbrev timer_up : InterruptBus (Unit {0})
timer_up = record {
  update_uart_irq = λ b. b;
  has_external_interrupt = λ b context. false;
  has_timer_interrupt = λ b. true;
  has_software_interrupt = λ b i. false;
  has_s_timer_interrupt = λ b. false;
}

abbrev illegal : Trap
illegal = exception illegal_instruction

abbrev ecall : Trap
ecall = exception environment_call_from_u_mode

illegal_to_machine : should_delegate hart.csr illegal && not (is_machine hart.mode) ≡ false
unfolding should_delegate read stored code
illegal_to_machine = refl

ecall_delegated : should_delegate hart.csr ecall && not (is_machine hart.mode) ≡ true
unfolding should_delegate read stored code
ecall_delegated = refl

mret-handle_trap_example :
    let d = mret (handle_trap hart illegal 0) in
    (d.pc ≡ hart.pc)
    × (d.mode ≡ hart.mode)
    × (d.regs ≡ hart.regs)
    × (d.reservation ≡ none)
    × (test_bit (read d.csr Addr.mstatus) 3 ≡ (
        if 3 == 7
        then true
        else if in_range 11 12 3
        then false
        else test_bit (read hart.csr Addr.mstatus) 3))
mret-handle_trap_example = mret-handle_trap hart illegal 0 3 illegal_to_machine (omega arith) refl

sret-handle_trap_example :
    let d = sret (handle_trap hart ecall 0) in
    (d.pc ≡ hart.pc)
    × (d.mode ≡ hart.mode)
    × (d.regs ≡ hart.regs)
    × (d.reservation ≡ none)
    × (test_bit (read d.csr Addr.mstatus) 1 ≡ (
        if 1 == 5 then true else if 1 == 8 then false else test_bit (read hart.csr Addr.mstatus) 1))
sret-handle_trap_example =
    sret-handle_trap hart ecall 0 1 ecall_delegated (inl refl) (omega arith) refl

handle_trap_lem_example :
    let d = handle_trap hart ecall 0 in
    ((delegated hart.csr ecall && not (is_machine hart.mode) ≡ true)
      × (d.mode ≡ supervisor)
      × Recorded d.csr Addr.sepc Addr.scause Addr.stval hart.pc ecall 0
      × (d.pc ≡ target (read hart.csr Addr.stvec) ecall)
      × (d.reservation ≡ none)
      × (d.regs ≡ hart.regs))
    ⊎ ((delegated hart.csr ecall && not (is_machine hart.mode) ≡ false)
        × (d.mode ≡ machine)
        × Recorded d.csr Addr.mepc Addr.mcause Addr.mtval hart.pc ecall 0
        × (d.pc ≡ target (read hart.csr Addr.mtvec) ecall)
        × (d.reservation ≡ none)
        × (d.regs ≡ hart.regs))
handle_trap_lem_example = handle_trap_lem hart ecall 0

check_interrupt_lem_example :
    (check_interrupt timer_up hart).1
    ≡ Option.map interrupt (
        first (can_take timer_up tt hart.csr) (
          candidates user
            (test_bit (read hart.csr Addr.mstatus) 3)
            (test_bit (read hart.csr Addr.mstatus) 1)))
check_interrupt_lem_example = check_interrupt_lem timer_up hart

mip-check_interrupt_example :
    test_bit (read (check_interrupt timer_up hart).0.csr Addr.mip) 7
    ≡ (if 7 == 9 then false else if 7 == 5 then false else test_bit (read hart.csr Addr.mip) 7)
mip-check_interrupt_example = mip-check_interrupt timer_up hart 7 (omega arith)
