-- ===== src/Bus/Delivery.antt =====
-- src/bus.rs: the way of an interrupt from a device to the trap that the hart takes.
use qemu_rust_risc_v.Prelude.{ℕ, ◌<◌, ◌≡◌, ap, ◌∙◌, arith, true, false, ◌==◌, if◌then◌else◌}
use qemu_rust_risc_v.Prelude.{some, length}
use qemu_rust_risc_v.Bits.{test_bit}
use qemu_rust_risc_v.Trap.{interrupt, user, supervisor_external_interrupt, interrupt_number}
use qemu_rust_risc_v.Csr.Addr
use qemu_rust_risc_v.Csr.Defs.{read}
use qemu_rust_risc_v.Uart.Defs as UartDefs
use qemu_rust_risc_v.Plic.Pending.{
  is_pending, is_enabled, priority_of, threshold_of, set_pending_lem, clear_pending_lem,
}
use qemu_rust_risc_v.Plic.Invariant as PlicInvariant
use qemu_rust_risc_v.Plic.Delivery.{delivered}
use qemu_rust_risc_v.Cpu.Defs.{Cpu}
use qemu_rust_risc_v.Cpu.Interrupts.{check_interrupt}
use qemu_rust_risc_v.Cpu.Interrupts.Order.{check_interrupt_lem, can_take, first, candidates}
use qemu_rust_risc_v.Bus.Lines.{
  Devices, interrupts, update_uart_irq, uart_irq, has_external_interrupt,
}
use mathlib.Core.Option

-- With 32 words of pending bits: after the synchronisation, source 10 of the PLIC is pending exactly when the line of the UART is
-- up, and every other source is as it was.
pub is_pending-update_uart_irq :
    (d : Devices) (j : ℕ)
    → length d.plic.pending ≡ 32
    → is_pending (update_uart_irq d).plic j
      ≡ (if j == uart_irq then UartDefs.has_pending_interrupt d.uart else is_pending d.plic j)
unfolding update_uart_irq
is_pending-update_uart_irq d j len =
    ground (arith, set_pending_lem d.plic uart_irq j len, clear_pending_lem d.plic uart_irq j len)

-- The controller is valid and the line of the UART is up; source 10 is enabled for context 1 above its threshold; MIE enables
-- and MIDELEG delegates the supervisor external interrupt; the hart is in user mode, and MIE enables
-- no interrupt of the machine level. Then `check_interrupt` takes the supervisor
-- external interrupt.
pub uart-check_interrupt :
    (c : Cpu Devices)
    → PlicInvariant.IsValid c.bus.plic
    → UartDefs.has_pending_interrupt c.bus.uart ≡ true
    → is_enabled c.bus.plic 1 uart_irq ≡ true
    → threshold_of c.bus.plic 1 < priority_of c.bus.plic uart_irq
    → test_bit (read c.csr Addr.mie) 9 ≡ true
    → test_bit (read c.csr Addr.mideleg) 9 ≡ true
    → c.mode ≡ user
    → test_bit (read c.csr Addr.mie) 11 ≡ false
    → test_bit (read c.csr Addr.mie) 7 ≡ false
    → test_bit (read c.csr Addr.mie) 3 ≡ false
    → (check_interrupt interrupts c).1 ≡ some (interrupt supervisor_external_interrupt)
unfolding first can_take candidates
uart-check_interrupt c v up on above mie9 mideleg9 mode mie11 mie7 mie3 =
    let d = update_uart_irq c.bus in
    let external : has_external_interrupt d 1 ≡ true =
      unfold update_uart_irq in
      rw up (
        (delivered c.bus.plic 1 uart_irq v (omega arith) (omega arith) (omega arith) on above).0) in
    let status = read c.csr Addr.mstatus in
    let choice : first (can_take interrupts d c.csr)
          (candidates user (test_bit status 3) (test_bit status 1))
        ≡ some supervisor_external_interrupt =
      unfold interrupt_number in ground (arith, mie11, mie3, mie7, mie9, mideleg9, external) in
    check_interrupt_lem interrupts c ∙ rw mode (ap (Option.map interrupt) choice)
