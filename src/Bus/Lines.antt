-- ===== src/Bus/Lines.antt =====
-- src/bus.rs: the part of the bus that interrupts depend on, that is, the UART, the PLIC and the
-- CLINT; its queries, and how it fills the interface that `check_interrupt` calls.
use qemu_rust_risc_v.Prelude.{ℕ, ◌+◌, ◌%◌, ◌^◌, Bool, ◌&&◌, leb, ◌!=◌, if◌then◌else◌, bit_and}
use qemu_rust_risc_v.Bits.{shr}
use qemu_rust_risc_v.Csr.Defs.{u64_max}
use qemu_rust_risc_v.Uart.Defs as UartDefs
use qemu_rust_risc_v.Uart.Defs.{Uart}
use qemu_rust_risc_v.Plic.Defs as PlicDefs
use qemu_rust_risc_v.Plic.Defs.{Plic, set_pending, clear_pending}
use qemu_rust_risc_v.Cpu.Defs.{Cpu}
use qemu_rust_risc_v.Cpu.Interrupts.{InterruptBus}

-- The fields `uart`, `plic`, `mtime`, `mtimecmp`, `stimecmp` and `msip` of `Bus`.
pub record Devices : Type 0 where
  pub uart : Uart
  pub plic : Plic
  pub mtime : ℕ
  pub mtimecmp : ℕ
  pub stimecmp : ℕ
  pub msip : ℕ

-- The values that `Bus::new` gives them.
abbrev pub new : Devices
new = record {
  uart = UartDefs.new;
  plic = PlicDefs.new;
  mtime = 0;
  mtimecmp = 10000;
  stimecmp = u64_max;
  msip = 0;
}

unfoldable pub tick_timer_by : Devices → ℕ → Devices
tick_timer_by d delta = record d { mtime = (d.mtime + delta) % 2 ^ 64 }

abbrev pub tick_timer : Devices → Devices
tick_timer d = tick_timer_by d 1

abbrev pub uart_irq : ℕ
uart_irq = 10

unfoldable pub update_uart_irq : Devices → Devices
update_uart_irq d =
    if UartDefs.has_pending_interrupt d.uart
    then record d { plic = set_pending d.plic uart_irq }
    else record d { plic = clear_pending d.plic uart_irq }

abbrev pub has_external_interrupt : Devices → ℕ → Bool
has_external_interrupt d context = PlicDefs.has_pending_interrupt d.plic context

unfoldable pub has_timer_interrupt : Devices → Bool
has_timer_interrupt d = leb d.mtimecmp d.mtime

unfoldable pub has_s_timer_interrupt : Devices → Bool
has_s_timer_interrupt d = (d.stimecmp != u64_max) && leb d.stimecmp d.mtime

unfoldable pub has_software_interrupt : Devices → ℕ → Bool
has_software_interrupt d hart = bit_and (shr d.msip hart) 1 != 0

abbrev pub interrupts : InterruptBus Devices
interrupts = record {
  update_uart_irq = update_uart_irq;
  has_external_interrupt = has_external_interrupt;
  has_timer_interrupt = has_timer_interrupt;
  has_software_interrupt = has_software_interrupt;
  has_s_timer_interrupt = has_s_timer_interrupt;
}

-- `Cpu::update_timer_by` and `Cpu::update_timer`, which the main loop calls.
abbrev pub update_timer_by : Cpu Devices → ℕ → Cpu Devices
update_timer_by c delta = record c { bus = tick_timer_by c.bus delta }

abbrev pub update_timer : Cpu Devices → Cpu Devices
update_timer c = update_timer_by c 1
