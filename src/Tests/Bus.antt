-- ===== src/Tests/Bus.antt =====
-- A byte arrives at the UART while user code runs.
use qemu_rust_risc_v.Prelude.{ℕ, ◌≡◌, refl, true, ◌==◌, if◌then◌else◌, none, some, replicate}
use qemu_rust_risc_v.Trap.{Mode, interrupt, supervisor_external_interrupt}
use qemu_rust_risc_v.Bits.{test_bit}
use qemu_rust_risc_v.Csr.Addr
use qemu_rust_risc_v.Csr.Defs.{Csr, read, stored}
use qemu_rust_risc_v.Uart.Defs as UartDefs
use qemu_rust_risc_v.Cpu.Defs.{Cpu}
use qemu_rust_risc_v.Cpu.Interrupts.{check_interrupt}
use qemu_rust_risc_v.Bus.Lines
use qemu_rust_risc_v.Bus.Lines.{Devices, update_uart_irq, uart_irq, interrupts}
use qemu_rust_risc_v.Bus.Delivery.{uart-check_interrupt}
use qemu_rust_risc_v.Tests.Plic.{configured, configured-IsValid, ten_enabled, ten_above}
use qemu_rust_risc_v.Tests.Uart.{busy}

abbrev pub devices : Devices
devices = record Lines.new { uart = busy; plic = configured }

-- The supervisor external interrupt enabled and delegated.
abbrev registers : Csr
registers = record {
  regs = λ a. if a == Addr.mie then some 0x200 else if a == Addr.mideleg then some 0x200 else none;
  num_triggers = 4;
}

abbrev hart : Cpu Devices
hart = record {
  pc = 0x1000;
  regs = replicate 32 0;
  f_regs = replicate 32 0;
  csr = registers;
  mode = Mode.user;
  bus = devices;
  reservation = none;
  inst_count = 0;
}

line_up : UartDefs.has_pending_interrupt busy ≡ true
unfolding UartDefs.has_pending_interrupt
line_up = refl

mie_bit : (i : ℕ) → test_bit (read registers Addr.mie) i ≡ test_bit 0x200 i
unfolding read stored
mie_bit i = refl

mideleg_9 : test_bit (read registers Addr.mideleg) 9 ≡ true
unfolding read stored test_bit
mideleg_9 = refl

mie_9 : test_bit (read registers Addr.mie) 9 ≡ true
unfolding read stored test_bit
mie_9 = refl

uart-check_interrupt_example :
    (check_interrupt interrupts hart).1 ≡ some (interrupt supervisor_external_interrupt)
unfolding test_bit
uart-check_interrupt_example =
    uart-check_interrupt hart configured-IsValid line_up ten_enabled ten_above mie_9 mideleg_9 refl
      (mie_bit 11) (mie_bit 7) (mie_bit 3)
