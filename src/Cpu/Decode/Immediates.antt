-- ===== src/Cpu/Decode/Immediates.antt =====
-- src/cpu.rs: every bit of the five immediates, as a bit of the instruction word.
use qemu_rust_risc_v.Prelude.{
  ℕ, ◌+◌, ◌-◌, ◌^◌, ◌<◌, ◌≡◌, arith, ap, ◌∙◌, Bool, true, false, ◌&&◌, ◌==◌, ltb, leb,
  if◌then◌else◌, bit_and, bit_or,
}
use qemu_rust_risc_v.Bits.{
  test_bit, shr, shl, test_bit-and, test_bit-or, test_bit-shr, test_bit-shl, test_bit_ones,
  test_bit-pow,
}
use qemu_rust_risc_v.Signed.Bits.{test_bit-arithmetic, test_bit-sign_extend}
use qemu_rust_risc_v.Cpu.Decode.{imm_i, imm_s, imm_b, imm_u, imm_j, arithmetic}

-- Bit `i` of each immediate by the formats of the ISA manual: the sign, bit 31 of the word, from
-- some position on.
abbrev pub bit_i : ℕ → ℕ → Bool
bit_i inst i = if ltb i 11 then test_bit inst (i + 20) else test_bit inst 31

abbrev pub bit_s : ℕ → ℕ → Bool
bit_s inst i =
    if ltb i 5
    then test_bit inst (i + 7)
    else if ltb i 11
    then test_bit inst (i + 20)
    else test_bit inst 31

abbrev pub bit_b : ℕ → ℕ → Bool
bit_b inst i =
    if i == 0
    then false
    else if ltb i 5
    then test_bit inst (i + 7)
    else if ltb i 11
    then test_bit inst (i + 20)
    else if i == 11
    then test_bit inst 7
    else test_bit inst 31

abbrev pub bit_u : ℕ → ℕ → Bool
bit_u inst i = if ltb i 12 then false else if ltb i 31 then test_bit inst i else test_bit inst 31

abbrev pub bit_j : ℕ → ℕ → Bool
bit_j inst i =
    if i == 0
    then false
    else if ltb i 11
    then test_bit inst (i + 20)
    else if i == 11
    then test_bit inst 20
    else if ltb i 20
    then test_bit inst i
    else test_bit inst 31

-- A mask of `n` ones from bit `k` on.
mask_bits :
    (n k i : ℕ) → test_bit (shl 64 (2 ^ n - 1) k) i ≡ (ltb i 64 && (leb k i && ltb (i - k) n))
mask_bits n k i = test_bit-shl 64 k (2 ^ n - 1) i ∙ ground (arith, test_bit_ones n (i - k))

imm_i_bits : (inst i : ℕ) → test_bit (imm_i inst) i ≡ (ltb i 64 && bit_i inst i)
unfolding imm_i
imm_i_bits inst i = ground (
  arith,
  test_bit-arithmetic 31 inst 20 i (omega arith),
  ap (test_bit inst) {x = i + 20} {y = 31},
)

imm_s_bits : (inst i : ℕ) → test_bit (imm_s inst) i ≡ (ltb i 64 && bit_s inst i)
unfolding imm_s
imm_s_bits inst i = ground (
  arith,
  test_bit-or (arithmetic (bit_and inst 0xFE000000) 20) (bit_and (shr inst 7) 0x1F) i,
  test_bit-arithmetic 31 (bit_and inst 0xFE000000) 20 i (omega arith),
  test_bit-and inst 0xFE000000 (i + 20),
  test_bit-and inst 0xFE000000 31,
  mask_bits 7 25 (i + 20),
  mask_bits 7 25 31,
  test_bit-and (shr inst 7) 0x1F i,
  test_bit-shr 7 inst i,
  test_bit_ones 5 i,
  ap (test_bit inst) {x = i + 20} {y = 31},
)

-- The sign of a word masked to bit 31.
sign_bits :
    (inst k i : ℕ)
    → 0 < k
    → test_bit (arithmetic (bit_and inst 0x80000000) k) i
      ≡ (ltb i 64 && (leb 31 (i + k) && test_bit inst 31))
sign_bits inst k i some = ground (
  arith,
  test_bit-arithmetic 31 (bit_and inst 0x80000000) k i (omega arith),
  test_bit-and inst 0x80000000 (i + k),
  test_bit-and inst 0x80000000 31,
  test_bit-pow 31 (i + k),
  test_bit-pow 31 31,
)

imm_b_bits : (inst i : ℕ) → test_bit (imm_b inst) i ≡ (ltb i 64 && bit_b inst i)
unfolding imm_b
imm_b_bits inst i =
    let sign = arithmetic (bit_and inst 0x80000000) 19 in
    let bit_11 = shl 32 (bit_and inst 0x80) 4 in
    let high = bit_and (shr inst 20) 0x7E0 in
    ground (
      arith,
      test_bit-or (bit_or (bit_or sign bit_11) high) (bit_and (shr inst 7) 0x1E) i,
      test_bit-or (bit_or sign bit_11) high i,
      test_bit-or sign bit_11 i,
      sign_bits inst 19 i (omega arith),
      test_bit-shl 32 4 (bit_and inst 0x80) i,
      test_bit-and inst 0x80 (i - 4),
      test_bit-pow 7 (i - 4),
      test_bit-and (shr inst 20) 0x7E0 i,
      mask_bits 6 5 i,
      test_bit-shr 20 inst i,
      test_bit-and (shr inst 7) 0x1E i,
      mask_bits 4 1 i,
      test_bit-shr 7 inst i,
      ap (test_bit inst) {x = i - 4} {y = 7},
    )

imm_u_bits : (inst i : ℕ) → test_bit (imm_u inst) i ≡ (ltb i 64 && bit_u inst i)
unfolding imm_u
imm_u_bits inst i = ground (
  arith,
  test_bit-sign_extend 31 (bit_and inst 0xFFFFF000) i (omega arith),
  test_bit-and inst 0xFFFFF000 i,
  test_bit-and inst 0xFFFFF000 31,
  mask_bits 20 12 i,
  mask_bits 20 12 31,
)

imm_j_bits : (inst i : ℕ) → test_bit (imm_j inst) i ≡ (ltb i 64 && bit_j inst i)
unfolding imm_j
imm_j_bits inst i =
    let sign = arithmetic (bit_and inst 0x80000000) 11 in
    let middle = bit_and inst 0xFF000 in
    let bit_11 = bit_and (shr inst 9) 0x800 in
    ground (
      arith,
      test_bit-or (bit_or (bit_or sign middle) bit_11) (bit_and (shr inst 20) 0x7FE) i,
      test_bit-or (bit_or sign middle) bit_11 i,
      test_bit-or sign middle i,
      sign_bits inst 11 i (omega arith),
      test_bit-and inst 0xFF000 i,
      mask_bits 8 12 i,
      test_bit-and (shr inst 9) 0x800 i,
      test_bit-pow 11 i,
      test_bit-shr 9 inst i,
      test_bit-and (shr inst 20) 0x7FE i,
      mask_bits 10 1 i,
      test_bit-shr 20 inst i,
      ap (test_bit inst) {x = i + 9} {y = 20},
    )

-- Bit `i` below 64 of each of the five immediates of an instruction word is the bit that the format
-- names: bits of the word at its positions, zero below them, and copies of bit 31 above.
pub immediates_lem :
    (inst i : ℕ)
    → i < 64
    → (test_bit (imm_i inst) i ≡ bit_i inst i)
      × (test_bit (imm_s inst) i ≡ bit_s inst i)
      × (test_bit (imm_b inst) i ≡ bit_b inst i)
      × (test_bit (imm_u inst) i ≡ bit_u inst i)
      × (test_bit (imm_j inst) i ≡ bit_j inst i)
immediates_lem inst i h =
    let below : ltb i 64 ≡ true = ground arith in
    let keep : (b : Bool) → (ltb i 64 && b) ≡ b = λ b. ap (λ t. t && b) below in
    (
      imm_i_bits inst i ∙ keep (bit_i inst i),
      imm_s_bits inst i ∙ keep (bit_s inst i),
      imm_b_bits inst i ∙ keep (bit_b inst i),
      imm_u_bits inst i ∙ keep (bit_u inst i),
      imm_j_bits inst i ∙ keep (bit_j inst i),
    )
