-- ===== src/Uart/Line.antt =====
-- src/uart.rs: the interrupt line against the interrupt status register.
use qemu_rust_risc_v.Prelude.{ℕ, ◌≡◌, ◌≢◌, arith, true, ◌&&◌}
use qemu_rust_risc_v.Prelude.{◌!=◌, bit_and}
use qemu_rust_risc_v.Uart.Defs.{
  Uart, isr, thr, ier_offset, has_input, read8, write8, has_pending_interrupt,
}

-- The line is up exactly when a read of ISR reports an interrupt, that is, does not return 1.
pub has_pending-read_isr : (u : Uart) → has_pending_interrupt u ≡ ((read8 u isr).1 != 1)
unfolding has_pending_interrupt read8
has_pending-read_isr u = ground arith

-- After a read of ISR the line is up only if received data is waiting with its interrupt enabled.
pub has_pending-after_isr :
    (u : Uart)
    → has_pending_interrupt (read8 u isr).0
      ≡ (has_input u.input_buffer && (bit_and u.ier 0x01 != 0))
unfolding has_pending_interrupt read8
has_pending-after_isr u = ground arith

-- With the transmit interrupt enabled the line is up after every byte sent.
has_pending-after_thr :
    (u : Uart) (value : ℕ)
    → bit_and u.ier 0x02 ≢ 0
    → has_pending_interrupt (write8 u thr value) ≡ true
unfolding has_pending_interrupt write8
has_pending-after_thr u value enabled = ground arith

-- Enabling the transmit interrupt raises the line.
has_pending-after_enable :
    (u : Uart) (value : ℕ)
    → bit_and u.ier 0x02 ≡ 0
    → bit_and value 0x02 ≢ 0
    → has_pending_interrupt (write8 u ier_offset value) ≡ true
unfolding has_pending_interrupt write8
has_pending-after_enable u value off on = ground arith
