-- ===== src/Cpu/Registers.antt =====
-- src/cpu.rs: the integer registers and the reservation.
use qemu_rust_risc_v.Prelude.{ℕ, ◌-◌, ◌*◌, ◌/◌, ◌^◌, ◌<◌, ◌≡◌, refl, arith, false, ◌&&◌}
use qemu_rust_risc_v.Prelude.{
  ◌==◌, if◌then◌else◌, bit_and, length, get_or-set_self, get_or-set_ne, Bool-cases, inl, inr, not,
}
use qemu_rust_risc_v.Mmu.Entry.{is_machine}
use qemu_rust_risc_v.Cpu.Defs.{should_delegate}
use qemu_rust_risc_v.Bits.{
  bit_not, test_bit-clear, test_bit-mul, test_bit-shr, test_bit-ext, test_bit_ones, test_bit_beyond,
}
use qemu_rust_risc_v.Trap.{Trap}
use qemu_rust_risc_v.Cpu.Defs.{
  Cpu, read_reg, write_reg, set_reservation, check_reservation, clear_reservation, handle_trap,
}
use qemu_rust_risc_v.Cpu.Defs.{mret, sret, take_trap, take_s_trap}
use mathlib.Core.Bool.{xor}

-- `addr & !0x7` is the start of the eight bytes that `addr` lies in.
align : (addr : ℕ) → addr < 2 ^ 64 → bit_and addr (bit_not 64 0x7) ≡ addr / 8 * 8
align addr small = test_bit-ext (bit_and addr (bit_not 64 0x7)) (addr / 8 * 8) (λ i.
    unfold xor in
    ground (
      arith,
      test_bit-clear 64 addr 0x7 i,
      test_bit_ones 3 i,
      test_bit-mul 3 (addr / 8) i,
      test_bit-shr 3 addr (i - 3),
      test_bit_beyond 64 addr i small,
    ))

module _ {B : Type 0} where
  -- A reservation made at one 64-bit address is held for another exactly when both lie in the same eight
  -- aligned bytes.
  pub check_reservation-set_reservation :
      (c : Cpu B) (a b : ℕ)
      → a < 2 ^ 64
      → b < 2 ^ 64
      → check_reservation (set_reservation c a) b ≡ (b / 8 == a / 8)
  unfolding check_reservation set_reservation
  check_reservation-set_reservation c a b a_small b_small =
      rw (align a a_small, align b b_small) (ground arith)

  -- No reservation is held after a trap, MRET or SRET.
  pub check_reservation-trap :
      (c : Cpu B) (trap : Trap) (tval b : ℕ)
      → (check_reservation (handle_trap c trap tval) b ≡ false)
        × (check_reservation (mret c) b ≡ false)
        × (check_reservation (sret c) b ≡ false)
  unfolding check_reservation handle_trap mret sret clear_reservation take_trap take_s_trap
  check_reservation-trap c trap tval b = (
    elim (Bool-cases (should_delegate c.csr trap && not (is_machine c.mode))) [
      | inl e ↦ rw e refl
      | inr e ↦ rw e refl
    ],
    refl,
    refl,
  )

  -- With 32 registers and an index below 32: a read after a write gives the value at the same index
  -- and 0 at index 0, and a write changes no other
  -- register.
  pub read_reg-write_reg :
      (c : Cpu B) (i j value : ℕ)
      → length c.regs ≡ 32
      → i < 32
      → read_reg (write_reg c i value) j
        ≡ (if j == 0 then 0 else if j == i then value else read_reg c j)
  unfolding read_reg write_reg
  read_reg-write_reg c i j value len h =
      ground (arith, get_or-set_self c.regs i value 0, get_or-set_ne c.regs i j value 0)
