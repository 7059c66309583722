-- ===== src/Cpu/Interrupts.antt =====
-- src/cpu.rs, `check_interrupt`: the lines of the devices enter MIP, and the pending interrupts are
-- tried in order.
pub mod Lines
pub mod Order
use qemu_rust_risc_v.Prelude.{ℕ, ◌+◌, ◌-◌, ◌<◌, ◌≡◌, Bool, true, false, not, ◌&&◌, ◌||◌}
use qemu_rust_risc_v.Prelude.{◌==◌, ◌!=◌, if◌then◌else◌, bit_and, bit_or, Option, none, some}
use qemu_rust_risc_v.Bits.{shl, shr, bit_not}
use qemu_rust_risc_v.Trap.{Trap, interrupt, Interrupt, Mode}
use qemu_rust_risc_v.Trap.{
  supervisor_software_interrupt, machine_software_interrupt, supervisor_timer_interrupt,
  machine_timer_interrupt,
}
use qemu_rust_risc_v.Trap.{supervisor_external_interrupt, machine_external_interrupt}
use qemu_rust_risc_v.Csr.Addr
use qemu_rust_risc_v.Csr.Defs.{read, write}
use qemu_rust_risc_v.Mmu.Entry.{is_machine, is_supervisor, is_user}
use qemu_rust_risc_v.Cpu.Defs.{Cpu}
use mathlib.Core.Option

-- What `check_interrupt` calls of the bus.
pub record InterruptBus (B : Type 0) : Type 0 where
  pub update_uart_irq : B → B
  pub has_external_interrupt : B → ℕ → Bool
  pub has_timer_interrupt : B → Bool
  pub has_software_interrupt : B → ℕ → Bool
  pub has_s_timer_interrupt : B → Bool

-- Bit `k` of MIP follows a line.
unfoldable pub follow : ℕ → Bool → ℕ → ℕ
follow k line mip = if line then bit_or mip (shl 64 1 k) else bit_and mip (bit_not 64 (shl 64 1 k))

module _ {B : Type 0} (ops : InterruptBus B) where
  -- Step 2: MEIP, MTIP, MSIP, SEIP and STIP, in the order of the source.
  unfoldable pub sample : B → ℕ → ℕ
  unfolding follow
  sample bus mip =
      let m1 = follow 11 (ops.has_external_interrupt bus 0) mip in
      let m2 = follow 7 (ops.has_timer_interrupt bus) m1 in
      let m3 = follow 3 (ops.has_software_interrupt bus 0) m2 in
      let m4 = follow 9 (ops.has_external_interrupt bus 1) m3 in
      follow 5 (ops.has_s_timer_interrupt bus) m4

-- `(word & (1 << k)) != 0`
unfoldable pub has_bit : ℕ → ℕ → Bool
has_bit word k = bit_and word (shl 64 1 k) != 0

unfoldable pub machine_interrupt : ℕ → Option Interrupt
unfolding has_bit
machine_interrupt pending =
    if has_bit pending 11
    then some machine_external_interrupt
    else if has_bit pending 3
    then some machine_software_interrupt
    else if has_bit pending 7
    then some machine_timer_interrupt
    else none

unfoldable pub supervisor_interrupt : ℕ → ℕ → Option Interrupt
unfolding has_bit
supervisor_interrupt pending mideleg =
    if has_bit pending 9 && has_bit mideleg 9
    then some supervisor_external_interrupt
    else if has_bit pending 1 && has_bit mideleg 1
    then some supervisor_software_interrupt
    else if has_bit pending 5 && has_bit mideleg 5
    then some supervisor_timer_interrupt
    else none

-- An early return if there is one, or else what follows.
abbrev pub or_else : Option Interrupt → Option Interrupt → Option Interrupt
or_else (some i) _ = some i
or_else none rest = rest

-- Steps 3 to 6.
unfoldable pub select : Mode → Bool → Bool → ℕ → ℕ → Option Interrupt
unfolding machine_interrupt supervisor_interrupt
select mode mie_enabled sie_enabled pending mideleg =
    if pending == 0
    then none
    else or_else (if is_machine mode && mie_enabled then machine_interrupt pending else none) (
        or_else
          (if is_supervisor mode && sie_enabled then supervisor_interrupt pending mideleg else none)
          (or_else (if not (is_machine mode) then machine_interrupt pending else none)
            (if is_user mode then supervisor_interrupt pending mideleg else none)))

module _ {B : Type 0} (ops : InterruptBus B) where
  -- `none` is `Ok(())`, and `some trap` is `Err(trap)`.
  unfoldable pub check_interrupt : Cpu B → Cpu B × Option Trap
  unfolding sample select
  check_interrupt c =
      let bus = ops.update_uart_irq c.bus in
      let mstatus = read c.csr Addr.mstatus in
      let mip = sample ops bus (read c.csr Addr.mip) in
      let csr = write c.csr Addr.mip mip in
      let pending = bit_and mip (read csr Addr.mie) in
      let chosen =
        select c.mode (bit_and (shr mstatus 3) 0x1 == 1) (bit_and (shr mstatus 1) 0x1 == 1) pending
          (read csr Addr.mideleg) in
      (record c { bus = bus; csr = csr }, Option.map interrupt chosen)
