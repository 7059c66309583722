-- ===== src/Cpu/Alu/Word.antt =====
-- src/cpu.rs: the results of the arms OP-IMM-32 and OP-32 of `execute`. An arm that returns its
-- result at once gives 64 bits; the others give 32 bits that are then sign-extended.
use qemu_rust_risc_v.Prelude.{ℕ, ◌&&◌, ◌==◌, if◌then◌else◌, bit_and, Option, none, some}
use qemu_rust_risc_v.Bits.{shr, shl, as_u32}
use qemu_rust_risc_v.Signed.{to_signed, of_signed, sign_extend, mulz}
use qemu_rust_risc_v.Cpu.Words.{
  wrapping_add, wrapping_sub, rotate_left, rotate_right, leading_zeros, trailing_zeros, count_ones,
}
use qemu_rust_risc_v.Cpu.Alu.Defs.{shift_right_signed, div, rem, divu, remu}

-- `... as i32 as i64 as u64`
abbrev pub widen : ℕ → ℕ
widen v = sign_extend 32 v

-- OP-IMM-32; `rs1_full` is the whole register.
unfoldable pub op_imm_32 : ℕ → ℕ → ℕ → ℕ → Option ℕ
unfolding leading_zeros trailing_zeros count_ones
op_imm_32 inst funct3 imm_i rs1_full =
    let rs1_val = as_u32 rs1_full in
    let shamt = bit_and imm_i 0x1F in
    let imm12 = bit_and (shr inst 20) 0xFFF in
    let funct7_like = bit_and (shr imm12 5) 0x7F in
    if funct3 == 0x0
    then some (widen (wrapping_add 32 rs1_val (as_u32 imm_i)))
    else if funct3 == 0x1
    then some (
        if imm12 == 0x600
        then widen (leading_zeros 32 rs1_val)
        else if imm12 == 0x601
        then widen (trailing_zeros 32 rs1_val)
        else if imm12 == 0x602
        then widen (count_ones 32 rs1_val)
        else if funct7_like == 0x04
        then shl 64 (as_u32 rs1_full) (bit_and imm_i 0x3F)
        else widen (shl 32 rs1_val shamt))
    else if funct3 == 0x5
    then (if imm12 == 0x604
        then none
        else if imm12 == 0x605
        then none
        else if imm12 == 0x698
        then some (widen (rotate_right 32 rs1_val (bit_and shamt 0x1F)))
        else if bit_and (shr inst 30) 1 == 0
        then some (widen (shr rs1_val shamt))
        else some (widen (shift_right_signed 32 rs1_val shamt)))
    else none

-- OP-32; `rs1_full` and `rs2_full` are the whole registers.
unfoldable pub op_32 : ℕ → ℕ → ℕ → ℕ → Option ℕ
unfolding div rem divu remu
op_32 funct7 funct3 rs1_full rs2_full =
    let rs1_val = as_u32 rs1_full in
    let rs2_val = as_u32 rs2_full in
    let shamt = bit_and rs2_val 0x1F in
    if (funct7 == 0x00) && (funct3 == 0x0)
    then some (widen (wrapping_add 32 rs1_val rs2_val))
    else if (funct7 == 0x20) && (funct3 == 0x0)
    then some (widen (wrapping_sub 32 rs1_val rs2_val))
    else if (funct7 == 0x00) && (funct3 == 0x1)
    then some (widen (shl 32 rs1_val shamt))
    else if (funct7 == 0x00) && (funct3 == 0x5)
    then some (widen (shr rs1_val shamt))
    else if (funct7 == 0x20) && (funct3 == 0x5)
    then some (widen (shift_right_signed 32 rs1_val shamt))
    else if (funct7 == 0x01) && (funct3 == 0x0)
    then some (widen (as_u32 (of_signed 64 (mulz (to_signed 32 rs1_val) (to_signed 32 rs2_val)))))
    else if (funct7 == 0x01) && (funct3 == 0x4)
    then some (widen (div 32 rs1_val rs2_val))
    else if (funct7 == 0x01) && (funct3 == 0x5)
    then some (widen (divu 32 rs1_val rs2_val))
    else if (funct7 == 0x01) && (funct3 == 0x6)
    then some (widen (rem 32 rs1_val rs2_val))
    else if (funct7 == 0x01) && (funct3 == 0x7)
    then some (widen (remu rs1_val rs2_val))
    else if (funct7 == 0x30) && (funct3 == 0x1)
    then some (widen (rotate_left 32 rs1_val shamt))
    else if (funct7 == 0x30) && (funct3 == 0x5)
    then some (widen (rotate_right 32 rs1_val shamt))
    else if (funct7 == 0x04) && (funct3 == 0x0)
    then some (wrapping_add 64 rs1_val rs2_full)
    else if (funct7 == 0x10) && (funct3 == 0x2)
    then some (wrapping_add 64 (shl 64 rs1_val 1) rs2_full)
    else if (funct7 == 0x10) && (funct3 == 0x4)
    then some (wrapping_add 64 (shl 64 rs1_val 2) rs2_full)
    else if (funct7 == 0x10) && (funct3 == 0x6)
    then some (wrapping_add 64 (shl 64 rs1_val 3) rs2_full)
    else none
