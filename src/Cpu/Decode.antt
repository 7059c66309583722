-- ===== src/Cpu/Decode.antt =====
-- src/cpu.rs: the fields and the immediates of a 32-bit instruction word, as `execute` takes them
-- apart, and where the bits of each immediate come from.
pub mod Immediates
use qemu_rust_risc_v.Prelude.{
  ℕ, ◌+◌, ◌*◌, ◌%◌, ◌/◌, ◌-◌, ◌^◌, ◌<◌, ◌≡◌, refl, arith, ap, ◌∙◌, Bool, true, false, not, ◌&&◌,
  ◌||◌, ◌==◌, ltb, leb, in_range, if◌then◌else◌, bit_and, bit_or,
}
use qemu_rust_risc_v.Bits.{test_bit, shr, shl, as_u32}
use qemu_rust_risc_v.Signed.{of_signed, to_signed, shrz, sign_extend}

abbrev pub opcode : ℕ → ℕ
opcode inst = bit_and inst 0x7F

abbrev pub rd : ℕ → ℕ
rd inst = bit_and (shr inst 7) 0x1F

abbrev pub funct3 : ℕ → ℕ
funct3 inst = bit_and (shr inst 12) 0x07

abbrev pub rs1 : ℕ → ℕ
rs1 inst = bit_and (shr inst 15) 0x1F

abbrev pub rs2 : ℕ → ℕ
rs2 inst = bit_and (shr inst 20) 0x1F

abbrev pub funct7 : ℕ → ℕ
funct7 inst = bit_and (shr inst 25) 0x7F

-- `(x as i32 >> k) as i64`, as the word of 64 bits.
abbrev pub arithmetic : ℕ → ℕ → ℕ
arithmetic x k = of_signed 64 (shrz (to_signed 32 x) k)

unfoldable pub imm_i : ℕ → ℕ
imm_i inst = arithmetic inst 20

unfoldable pub imm_s : ℕ → ℕ
imm_s inst = bit_or (arithmetic (bit_and inst 0xFE000000) 20) (bit_and (shr inst 7) 0x1F)

unfoldable pub imm_b : ℕ → ℕ
imm_b inst =
    bit_or
      (bit_or (bit_or (arithmetic (bit_and inst 0x80000000) 19) (shl 32 (bit_and inst 0x80) 4))
        (bit_and (shr inst 20) 0x7E0))
      (bit_and (shr inst 7) 0x1E)

unfoldable pub imm_u : ℕ → ℕ
imm_u inst = sign_extend 32 (bit_and inst 0xFFFFF000)

unfoldable pub imm_j : ℕ → ℕ
imm_j inst =
    bit_or
      (bit_or (bit_or (arithmetic (bit_and inst 0x80000000) 11) (bit_and inst 0xFF000))
        (bit_and (shr inst 9) 0x800))
      (bit_and (shr inst 20) 0x7FE)
