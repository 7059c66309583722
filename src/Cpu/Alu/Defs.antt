-- ===== src/Cpu/Alu/Defs.antt =====
-- src/cpu.rs: the results of the arms OP-IMM and OP of `execute`, on 64 bits. `none` is the illegal
-- instruction.
use qemu_rust_risc_v.Prelude.{
  ℕ, ◌*◌, ◌%◌, ◌/◌, ◌-◌, ◌^◌, ◌&&◌, ◌==◌, ltb, min, max, if◌then◌else◌, bit_and, bit_or, bit_xor,
  Option, none, some,
}
use qemu_rust_risc_v.Bits.{shr, shl, bit_not}
use qemu_rust_risc_v.Signed.{ℤ, pos, to_signed, of_signed, sign_extend, shrz, mulz, divz, remz}
use qemu_rust_risc_v.Cpu.Words.{
  wrapping_add, wrapping_sub, rotate_left, rotate_right, leading_zeros, trailing_zeros, count_ones,
  swap_bytes, signed_less, or_combine, xor_rows,
}

-- `1u64 << k`
abbrev pub bit : ℕ → ℕ
bit k = shl 64 1 k

-- `((x as i64) >> k) as u64`
abbrev pub shift_right_signed : ℕ → ℕ → ℕ → ℕ
shift_right_signed w x k = of_signed w (shrz (to_signed w x) k)

-- funct3 1: the shift left, with CLZ, CTZ, CPOP, SEXT.B, SEXT.H and BCLRI, BINVI, BSETI.
unfoldable pub op_imm_left : ℕ → ℕ → ℕ → ℕ
unfolding leading_zeros trailing_zeros count_ones
op_imm_left imm12 shamt rs1_val =
    let funct7_like = bit_and (shr imm12 5) 0x7F in
    if imm12 == 0x600
    then leading_zeros 64 rs1_val
    else if imm12 == 0x601
    then trailing_zeros 64 rs1_val
    else if imm12 == 0x602
    then count_ones 64 rs1_val
    else if imm12 == 0x604
    then sign_extend 8 rs1_val
    else if imm12 == 0x605
    then sign_extend 16 rs1_val
    else if funct7_like == 0x24
    then bit_and rs1_val (bit_not 64 (bit shamt))
    else if funct7_like == 0x34
    then bit_xor rs1_val (bit shamt)
    else if funct7_like == 0x14
    then bit_or rs1_val (bit shamt)
    else shl 64 rs1_val shamt

-- funct3 5: the shifts right, with ORC.B, REV8, BEXTI and RORI.
unfoldable pub op_imm_right : ℕ → ℕ → ℕ → ℕ → ℕ
unfolding or_combine swap_bytes
op_imm_right inst imm12 shamt rs1_val =
    let funct7_like = bit_and (shr imm12 5) 0x7F in
    if imm12 == 0x287
    then or_combine rs1_val 8 0 0
    else if imm12 == 0x6B8
    then swap_bytes 8 rs1_val
    else if funct7_like == 0x24
    then bit_and (shr rs1_val shamt) 1
    else if funct7_like == 0x30
    then rotate_right 64 rs1_val shamt
    else if bit_and (shr inst 30) 1 == 0
    then shr rs1_val shamt
    else shift_right_signed 64 rs1_val shamt

unfoldable pub op_imm : ℕ → ℕ → ℕ → ℕ → Option ℕ
unfolding op_imm_left op_imm_right
op_imm inst funct3 imm_i rs1_val =
    let shamt = bit_and imm_i 0x3F in
    let imm12 = bit_and (shr inst 20) 0xFFF in
    if funct3 == 0x0
    then some (wrapping_add 64 rs1_val imm_i)
    else if funct3 == 0x1
    then some (op_imm_left imm12 shamt rs1_val)
    else if funct3 == 0x2
    then some (if signed_less 64 rs1_val imm_i then 1 else 0)
    else if funct3 == 0x3
    then some (if ltb rs1_val imm_i then 1 else 0)
    else if funct3 == 0x4
    then some (if imm12 == 0x287 then bit_and rs1_val 0xFFFF else bit_xor rs1_val imm_i)
    else if funct3 == 0x5
    then some (op_imm_right inst imm12 shamt rs1_val)
    else if funct3 == 0x6
    then some (bit_or rs1_val imm_i)
    else if funct3 == 0x7
    then some (bit_and rs1_val imm_i)
    else none

-- `i64::MIN` and `-1`, as words.
abbrev pub lowest : ℕ → ℕ
lowest w = 2 ^ (w - 1)

abbrev pub minus_one : ℕ → ℕ
minus_one w = 2 ^ w - 1

-- DIV and REM, and DIVW and REMW, by the width of the type.
unfoldable pub div : ℕ → ℕ → ℕ → ℕ
div w a b =
    if b == 0
    then minus_one w
    else if (a == lowest w) && (b == minus_one w)
    then a
    else of_signed w (divz (to_signed w a) (to_signed w b))

unfoldable pub rem : ℕ → ℕ → ℕ → ℕ
rem w a b =
    if b == 0
    then a
    else if (a == lowest w) && (b == minus_one w)
    then 0
    else of_signed w (remz (to_signed w a) (to_signed w b))

unfoldable pub divu : ℕ → ℕ → ℕ → ℕ
divu w a b = if b == 0 then minus_one w else a / b

unfoldable pub remu : ℕ → ℕ → ℕ
remu a b = if b == 0 then a else a % b

-- `(product >> 64) as u64` of a signed product of 128 bits.
abbrev pub high_half : ℤ → ℕ
high_half product = of_signed 64 (shrz product 64)

-- The multiplications and divisions, funct7 1.
unfoldable pub op_m : ℕ → ℕ → ℕ → Option ℕ
unfolding div rem divu remu
op_m funct3 rs1_val rs2_val =
    if funct3 == 0x0
    then some (of_signed 64 (mulz (to_signed 64 rs1_val) (to_signed 64 rs2_val)))
    else if funct3 == 0x1
    then some (high_half (mulz (to_signed 64 rs1_val) (to_signed 64 rs2_val)))
    else if funct3 == 0x2
    then some (high_half (mulz (to_signed 64 rs1_val) (pos rs2_val)))
    else if funct3 == 0x3
    then some (shr (rs1_val * rs2_val) 64)
    else if funct3 == 0x4
    then some (div 64 rs1_val rs2_val)
    else if funct3 == 0x5
    then some (divu 64 rs1_val rs2_val)
    else if funct3 == 0x6
    then some (rem 64 rs1_val rs2_val)
    else if funct3 == 0x7
    then some (remu rs1_val rs2_val)
    else none

-- CLMUL, CLMULH and CLMULR.
unfoldable pub clmul : ℕ → ℕ → ℕ
unfolding xor_rows
clmul a b = xor_rows (λ i. shl 64 a i) b 64 0 0

unfoldable pub clmulh : ℕ → ℕ → ℕ
unfolding xor_rows
clmulh a b = xor_rows (λ i. shr a (64 - i)) b 63 1 0

unfoldable pub clmulr : ℕ → ℕ → ℕ
unfolding xor_rows
clmulr a b = xor_rows (λ i. shr a (63 - i)) b 64 0 0

-- The tests of a pair (funct7, funct3), arm by arm: the base instructions.
unfoldable pub op_base : ℕ → ℕ → ℕ → ℕ → Option ℕ
op_base funct7 funct3 rs1_val rs2_val =
    let shamt = bit_and rs2_val 0x3F in
    if (funct7 == 0x00) && (funct3 == 0x0)
    then some (wrapping_add 64 rs1_val rs2_val)
    else if (funct7 == 0x20) && (funct3 == 0x0)
    then some (wrapping_sub 64 rs1_val rs2_val)
    else if (funct7 == 0x00) && (funct3 == 0x1)
    then some (shl 64 rs1_val shamt)
    else if (funct7 == 0x00) && (funct3 == 0x2)
    then some (if signed_less 64 rs1_val rs2_val then 1 else 0)
    else if (funct7 == 0x00) && (funct3 == 0x3)
    then some (if ltb rs1_val rs2_val then 1 else 0)
    else if (funct7 == 0x00) && (funct3 == 0x4)
    then some (bit_xor rs1_val rs2_val)
    else if (funct7 == 0x00) && (funct3 == 0x5)
    then some (shr rs1_val shamt)
    else if (funct7 == 0x20) && (funct3 == 0x5)
    then some (shift_right_signed 64 rs1_val shamt)
    else if (funct7 == 0x00) && (funct3 == 0x6)
    then some (bit_or rs1_val rs2_val)
    else if (funct7 == 0x00) && (funct3 == 0x7)
    then some (bit_and rs1_val rs2_val)
    else none

-- The arms of the extensions Zbb, Zba, Zbs and Zbc.
unfoldable pub op_bits : ℕ → ℕ → ℕ → ℕ → Option ℕ
unfolding clmul clmulh clmulr
op_bits funct7 funct3 rs1_val rs2_val =
    let shamt = bit_and rs2_val 0x3F in
    if (funct7 == 0x20) && (funct3 == 0x4)
    then some (bit_xor (bit_not 64 rs1_val) rs2_val)
    else if (funct7 == 0x20) && (funct3 == 0x6)
    then some (bit_or rs1_val (bit_not 64 rs2_val))
    else if (funct7 == 0x20) && (funct3 == 0x7)
    then some (bit_and rs1_val (bit_not 64 rs2_val))
    else if (funct7 == 0x05) && (funct3 == 0x4)
    then some (if signed_less 64 rs2_val rs1_val then rs2_val else rs1_val)
    else if (funct7 == 0x05) && (funct3 == 0x5)
    then some (min rs1_val rs2_val)
    else if (funct7 == 0x05) && (funct3 == 0x6)
    then some (if signed_less 64 rs2_val rs1_val then rs1_val else rs2_val)
    else if (funct7 == 0x05) && (funct3 == 0x7)
    then some (max rs1_val rs2_val)
    else if (funct7 == 0x30) && (funct3 == 0x1)
    then some (rotate_left 64 rs1_val shamt)
    else if (funct7 == 0x30) && (funct3 == 0x5)
    then some (rotate_right 64 rs1_val shamt)
    else if (funct7 == 0x10) && (funct3 == 0x2)
    then some (wrapping_add 64 (shl 64 rs1_val 1) rs2_val)
    else if (funct7 == 0x10) && (funct3 == 0x4)
    then some (wrapping_add 64 (shl 64 rs1_val 2) rs2_val)
    else if (funct7 == 0x10) && (funct3 == 0x6)
    then some (wrapping_add 64 (shl 64 rs1_val 3) rs2_val)
    else if (funct7 == 0x24) && (funct3 == 0x1)
    then some (bit_and rs1_val (bit_not 64 (bit shamt)))
    else if (funct7 == 0x24) && (funct3 == 0x5)
    then some (bit_and (shr rs1_val shamt) 1)
    else if (funct7 == 0x34) && (funct3 == 0x1)
    then some (bit_xor rs1_val (bit shamt))
    else if (funct7 == 0x14) && (funct3 == 0x1)
    then some (bit_or rs1_val (bit shamt))
    else if (funct7 == 0x05) && (funct3 == 0x1)
    then some (clmul rs1_val rs2_val)
    else if (funct7 == 0x05) && (funct3 == 0x3)
    then some (clmulh rs1_val rs2_val)
    else if (funct7 == 0x05) && (funct3 == 0x2)
    then some (clmulr rs1_val rs2_val)
    else none

-- The arms in the order of the source; no two of the three groups share a pair.
unfoldable pub op : ℕ → ℕ → ℕ → ℕ → Option ℕ
unfolding op_base op_m op_bits
op funct7 funct3 rs1_val rs2_val = elim (op_base funct7 funct3 rs1_val rs2_val) [
  | some v ↦ some v
  | none ↦
      if funct7 == 0x01 then op_m funct3 rs1_val rs2_val else op_bits funct7 funct3 rs1_val rs2_val
]
