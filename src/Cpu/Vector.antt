-- ===== src/Cpu/Vector.antt =====
-- src/cpu.rs: where a trap goes, by the numbers of the traps: `should_delegate` and the vector of
-- `take_trap` and `take_s_trap`.
use qemu_rust_risc_v.Prelude.{
  ℕ, ◌+◌, ◌-◌, ◌*◌, ◌/◌, ◌%◌, ◌^◌, ◌≡◌, arith, ap, Bool, if◌then◌else◌, bit_and,
}
use mathlib.Core.Bool.{xor}
use qemu_rust_risc_v.Bits.{
  test_bit, test_bit-clear, test_bit-ext, test_bit_ones, test_bit-mul, test_bit-shr, test_bit-mod,
  bit_and-pow-test, shl, shr_bit, bit_not, bit_and_mask,
}
use qemu_rust_risc_v.Trap.{
  Trap, Exception, Interrupt, exception, interrupt, exception_number, interrupt_number, code,
  is_interrupt, exception_number-lt, interrupt_number-lt, interrupt-code, exception-code,
}
use qemu_rust_risc_v.Csr.Addr
use qemu_rust_risc_v.Csr.Defs.{Csr, read}
use qemu_rust_risc_v.Cpu.Defs.{should_delegate, vector}

-- The bit of MIDELEG with the number of an interrupt, and of MEDELEG with that of an exception.
abbrev pub delegated : Csr → Trap → Bool
delegated csr (interrupt i) = test_bit (read csr Addr.mideleg) (interrupt_number i)
delegated csr (exception e) = test_bit (read csr Addr.medeleg) (exception_number e)

-- The multiple of four below the vector register; with its bit 0 set, four times the number further
-- for an interrupt, in 64 bits.
abbrev pub target : ℕ → Trap → ℕ
target tvec (interrupt i) =
    if test_bit tvec 0
    then (tvec % 2 ^ 64 / 4 * 4 + 4 * interrupt_number i) % 2 ^ 64
    else tvec % 2 ^ 64 / 4 * 4
target tvec (exception e) = tvec % 2 ^ 64 / 4 * 4

exception_code_interrupt :
    (i : Interrupt) → bit_and (code (interrupt i)) (bit_not 64 (shl 64 1 63)) ≡ interrupt_number i
exception_code_interrupt i =
    omega (arith, bit_and_mask 63 (code (interrupt i)), interrupt-code i, interrupt_number-lt i)

exception_code_exception :
    (e : Exception) → bit_and (code (exception e)) (bit_not 64 (shl 64 1 63)) ≡ exception_number e
exception_code_exception e =
    omega (arith, bit_and_mask 63 (code (exception e)), exception-code e, exception_number-lt e)

pub should_delegate_lem : (csr : Csr) (t : Trap) → should_delegate csr t ≡ delegated csr t
unfolding should_delegate
should_delegate_lem csr (interrupt i) =
    rw (exception_code_interrupt i)
      (ground (arith, shr_bit (interrupt_number i) (read csr Addr.mideleg)))
should_delegate_lem csr (exception e) =
    rw (exception_code_exception e)
      (ground (arith, shr_bit (exception_number e) (read csr Addr.medeleg)))

base_lem : (tvec : ℕ) → bit_and tvec (bit_not 64 0x3) ≡ tvec % 2 ^ 64 / 4 * 4
unfolding xor
base_lem tvec = test_bit-ext (bit_and tvec (bit_not 64 0x3)) (tvec % 2 ^ 64 / 4 * 4) (λ i. ground (
  arith,
  test_bit-clear 64 tvec 0x3 i,
  test_bit_ones 2 i,
  test_bit-mul 2 (tvec % 2 ^ 64 / 4) i,
  test_bit-shr 2 (tvec % 2 ^ 64) (i - 2),
  test_bit-mod 64 tvec i,
  ap (test_bit (tvec % 2 ^ 64)) {x = i - 2 + 2} {y = i},
))

number_lem : (i : Interrupt) → bit_and (code (interrupt i)) 0x3F ≡ interrupt_number i
number_lem i =
    omega (arith, bit_and_mask 6 (code (interrupt i)), interrupt-code i, interrupt_number-lt i)

pub vector_lem : (tvec : ℕ) (t : Trap) → vector tvec t ≡ target tvec t
unfolding vector is_interrupt
vector_lem tvec (interrupt i) =
    rw (base_lem tvec, number_lem i) (ground (arith, bit_and-pow-test 0 tvec))
vector_lem tvec (exception e) = base_lem tvec
