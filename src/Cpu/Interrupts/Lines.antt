-- ===== src/Cpu/Interrupts/Lines.antt =====
-- src/cpu.rs, `check_interrupt`: the lines of the devices in MIP.
use qemu_rust_risc_v.Prelude.{ℕ, ◌<◌, ◌^◌, ◌≡◌, arith, Bool, ◌||◌}
use qemu_rust_risc_v.Prelude.{◌==◌, if◌then◌else◌, bit_or}
use qemu_rust_risc_v.Bits.{shl, test_bit, test_bit-or, test_bit-clear}
use qemu_rust_risc_v.Bits.{test_bit-pow, test_bit_single}
use qemu_rust_risc_v.Csr.Addr
use qemu_rust_risc_v.Csr.Defs.{read, mip_writable}
use qemu_rust_risc_v.Csr.Flags.{mip-write-mip}
use qemu_rust_risc_v.Cpu.Defs.{Cpu}
use qemu_rust_risc_v.Cpu.Interrupts.{InterruptBus, follow, sample}
use qemu_rust_risc_v.Cpu.Interrupts.{check_interrupt}
use mathlib.Core.Bool.{xor}

follow_bits :
    (k : ℕ) (line : Bool) (mip i : ℕ)
    → i < 64
    → test_bit (follow k line mip) i ≡ (if i == k then line else test_bit mip i)
unfolding follow xor
follow_bits k line mip i h = ground (
  arith,
  test_bit-or mip (shl 64 1 k) i,
  test_bit-clear 64 mip (shl 64 1 k) i,
  test_bit_single k i,
)

pub sample_bits :
    {B : Type 0} (ops : InterruptBus B) (bus : B) (mip i : ℕ)
    → i < 64
    → test_bit (sample ops bus mip) i ≡ (
        if i == 11
        then ops.has_external_interrupt bus 0
        else if i == 7
        then ops.has_timer_interrupt bus
        else if i == 3
        then ops.has_software_interrupt bus 0
        else if i == 9
        then ops.has_external_interrupt bus 1
        else if i == 5
        then ops.has_s_timer_interrupt bus
        else test_bit mip i)
unfolding sample
sample_bits ops bus mip i h =
    let m1 = follow 11 (ops.has_external_interrupt bus 0) mip in
    let m2 = follow 7 (ops.has_timer_interrupt bus) m1 in
    let m3 = follow 3 (ops.has_software_interrupt bus 0) m2 in
    let m4 = follow 9 (ops.has_external_interrupt bus 1) m3 in
    ground (
      arith,
      follow_bits 11 (ops.has_external_interrupt bus 0) mip i h,
      follow_bits 7 (ops.has_timer_interrupt bus) m1 i h,
      follow_bits 3 (ops.has_software_interrupt bus 0) m2 i h,
      follow_bits 9 (ops.has_external_interrupt bus 1) m3 i h,
      follow_bits 5 (ops.has_s_timer_interrupt bus) m4 i h,
    )

-- SSIP, STIP and SEIP are the bits of MIP that a write changes.
writable : (i : ℕ) → test_bit mip_writable i ≡ ((i == 1) || ((i == 5) || (i == 9)))
writable i = ground (
  arith,
  test_bit-or (2 ^ 1) (bit_or (2 ^ 5) (2 ^ 9)) i,
  test_bit-or (2 ^ 5) (2 ^ 9) i,
  test_bit-pow 1 i,
  test_bit-pow 5 i,
  test_bit-pow 9 i,
)

module _ {B : Type 0} (ops : InterruptBus B) where
  -- After `check_interrupt`, SEIP and STIP of MIP show their lines and every other bit of the 64 is
  -- as it was; so MEIP, MTIP and MSIP never reach the register.
  pub mip-check_interrupt :
      (c : Cpu B) (i : ℕ)
      → i < 64
      → test_bit (read (check_interrupt ops c).0.csr Addr.mip) i ≡ (
          if i == 9
          then ops.has_external_interrupt (ops.update_uart_irq c.bus) 1
          else if i == 5
          then ops.has_s_timer_interrupt (ops.update_uart_irq c.bus)
          else test_bit (read c.csr Addr.mip) i)
  unfolding check_interrupt
  mip-check_interrupt c i h =
      let bus = ops.update_uart_irq c.bus in
      let mip = sample ops bus (read c.csr Addr.mip) in
      ground (
        arith,
        mip-write-mip c.csr mip i,
        sample_bits ops bus (read c.csr Addr.mip) i h,
        writable i,
      )
