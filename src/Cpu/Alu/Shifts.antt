-- ===== src/Cpu/Alu/Shifts.antt =====
-- src/cpu.rs: the bits of the shifts and the rotations of OP.
use qemu_rust_risc_v.Prelude.{
  ℕ, ◌+◌, ◌%◌, ◌-◌, ◌^◌, ◌<◌, ◌≡◌, refl, arith, ap, ◌∙◌, ltb, leb, ◌&&◌, if◌then◌else◌, bit_and,
  some,
}
use qemu_rust_risc_v.Bits.{
  test_bit, shr, shl, bit_and_mask, test_bit-shl, test_bit-shr, test_bit-or, test_bit_beyond,
}
use qemu_rust_risc_v.Signed.Bits.{test_bit-arithmetic}
use qemu_rust_risc_v.Cpu.Words.{rotate_left, rotate_right}
use qemu_rust_risc_v.Cpu.Alu.Defs.{op, op_base, op_m, op_bits, shift_right_signed}

rotate_left_bits :
    (x s i : ℕ)
    → x < 2 ^ 64
    → s < 64
    → i < 64
    → test_bit (rotate_left 64 x s) i
      ≡ (if ltb i s then test_bit x (i + 64 - s) else test_bit x (i - s))
rotate_left_bits x s i hx hs hi = ground (
  arith,
  test_bit-or (shl 64 x s) (shr x (64 - s)) i,
  test_bit-shl 64 s x i,
  test_bit-shr (64 - s) x i,
  test_bit_beyond 64 x (i + (64 - s)) hx,
  ap (test_bit x) {x = i + (64 - s)} {y = i + 64 - s},
)

rotate_right_bits :
    (x s i : ℕ)
    → x < 2 ^ 64
    → s < 64
    → i < 64
    → test_bit (rotate_right 64 x s) i
      ≡ (if ltb (i + s) 64 then test_bit x (i + s) else test_bit x (i + s - 64))
rotate_right_bits x s i hx hs hi = ground (
  arith,
  test_bit-or (shr x s) (shl 64 x (64 - s)) i,
  test_bit-shl 64 (64 - s) x i,
  test_bit-shr s x i,
  test_bit_beyond 64 x (i + s) hx,
  ap (test_bit x) {x = i - (64 - s)} {y = i + s - 64},
)

-- The arms of OP with funct3 1 and 5 that shift and rotate.
shift_arms :
    (x y : ℕ)
    → (op 0x00 1 x y ≡ some (shl 64 x (bit_and y 0x3F)))
      × (op 0x00 5 x y ≡ some (shr x (bit_and y 0x3F)))
      × (op 0x20 5 x y ≡ some (shift_right_signed 64 x (bit_and y 0x3F)))
      × (op 0x30 1 x y ≡ some (rotate_left 64 x (bit_and y 0x3F)))
      × (op 0x30 5 x y ≡ some (rotate_right 64 x (bit_and y 0x3F)))
unfolding op op_base op_m op_bits
shift_arms x y = (refl, refl, refl, refl, refl)

-- With `s` the second operand modulo 64 and `i` below 64, bit `i` of SLL, SRL, SRA, ROL and ROR of a
-- 64-bit word: bit `i - s` or zero, bit `i + s` or zero, bit `i + s` or the sign, and the bits `i - s`
-- and `i + s` modulo 64.
pub shifts_lem :
    (x y i : ℕ)
    → x < 2 ^ 64
    → i < 64
    → let s = y % 64 in
      (sll srl sra rol ror : ℕ) × (op 0x00 1 x y ≡ some sll)
      × (op 0x00 5 x y ≡ some srl)
      × (op 0x20 5 x y ≡ some sra)
      × (op 0x30 1 x y ≡ some rol)
      × (op 0x30 5 x y ≡ some ror)
      × (test_bit sll i ≡ (leb s i && test_bit x (i - s)))
      × (test_bit srl i ≡ (ltb (i + s) 64 && test_bit x (i + s)))
      × (test_bit sra i ≡ (if ltb (i + s) 63 then test_bit x (i + s) else test_bit x 63))
      × (test_bit rol i ≡ (if ltb i s then test_bit x (i + 64 - s) else test_bit x (i - s)))
      × (test_bit ror i ≡ (if ltb (i + s) 64 then test_bit x (i + s) else test_bit x (i + s - 64)))
shifts_lem x y i hx hi =
    let s = y % 64 in
    let small : s < 64 = omega arith in
    let masked : bit_and y 0x3F ≡ s = bit_and_mask 6 y in
    let arms = shift_arms x y in
    let at : (f : ℕ → ℕ) → some (f (bit_and y 0x3F)) ≡ some (f s) =
      λ f. ap (λ n. some (f n)) masked in
    (
      shl 64 x s,
      shr x s,
      shift_right_signed 64 x s,
      rotate_left 64 x s,
      rotate_right 64 x s,
      arms.0 ∙ at (shl 64 x),
      arms.1 ∙ at (shr x),
      arms.2 ∙ at (shift_right_signed 64 x),
      arms.3 ∙ at (rotate_left 64 x),
      arms.4 ∙ at (rotate_right 64 x),
      ground (arith, test_bit-shl 64 s x i),
      ground (arith, test_bit-shr s x i, test_bit_beyond 64 x (i + s) hx),
      ground (arith, test_bit-arithmetic 63 x s i (omega arith)),
      rotate_left_bits x s i hx small hi,
      rotate_right_bits x s i hx small hi,
    )
