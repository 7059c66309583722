-- ===== src/Cpu/Exec/Compressed/Fields.antt =====
-- src/cpu.rs: the registers and the immediates of the compressed instructions.
use qemu_rust_risc_v.Prelude.{ℕ, ◌+◌, bit_and, bit_or}
use qemu_rust_risc_v.Bits.{shr, shl}
use qemu_rust_risc_v.Signed.{of_signed, to_signed, shrz}

-- `(inst >> k) & mask`
abbrev pub field : ℕ → ℕ → ℕ → ℕ
field inst k mask = bit_and (shr inst k) mask

abbrev pub or3 : ℕ → ℕ → ℕ → ℕ
or3 x y z = bit_or (bit_or x y) z

-- `((imm as i32) << k >> k) as i64 as u64`
abbrev pub extend : ℕ → ℕ → ℕ
extend k imm = of_signed 64 (shrz (to_signed 32 (shl 32 imm k)) k)

-- The register of a field of three bits, and of one of five.
abbrev pub reg_2 : ℕ → ℕ
reg_2 inst = field inst 2 0x7 + 8

abbrev pub reg_7 : ℕ → ℕ
reg_7 inst = field inst 7 0x7 + 8

abbrev pub full_2 : ℕ → ℕ
full_2 inst = field inst 2 0x1F

abbrev pub full_7 : ℕ → ℕ
full_7 inst = field inst 7 0x1F

unfoldable pub imm_addi4spn : ℕ → ℕ
imm_addi4spn inst =
    bit_or
      (or3 (shl 16 (field inst 11 0x3) 4) (shl 16 (field inst 7 0xF) 6)
        (shl 16 (field inst 6 0x1) 2))
      (shl 16 (field inst 5 0x1) 3)

-- C.LW and C.SW.
unfoldable pub imm_word : ℕ → ℕ
imm_word inst =
    or3 (shl 16 (field inst 10 0x7) 3) (shl 16 (field inst 6 0x1) 2) (shl 16 (field inst 5 0x1) 6)

-- C.LD, C.SD, C.FLD and C.FSD.
unfoldable pub imm_double : ℕ → ℕ
imm_double inst = bit_or (shl 16 (field inst 10 0x7) 3) (shl 16 (field inst 5 0x3) 6)

-- Six bits, as an unsigned shift amount and sign-extended.
unfoldable pub imm_six : ℕ → ℕ
imm_six inst = bit_or (shl 16 (field inst 12 0x1) 5) (field inst 2 0x1F)

unfoldable pub imm_small : ℕ → ℕ
unfolding imm_six
imm_small inst = extend 26 (imm_six inst)

unfoldable pub imm_addi16sp : ℕ → ℕ
imm_addi16sp inst = extend 22 (
    or3
      (or3 (shl 16 (field inst 12 0x1) 9) (shl 16 (field inst 6 0x1) 4)
        (shl 16 (field inst 5 0x1) 6))
      (shl 16 (field inst 3 0x3) 7) (shl 16 (field inst 2 0x1) 5))

unfoldable pub imm_lui : ℕ → ℕ
imm_lui inst = extend 14 (bit_or (shl 32 (field inst 12 0x1) 17) (shl 32 (field inst 2 0x1F) 12))

unfoldable pub imm_jump : ℕ → ℕ
imm_jump inst = extend 20 (
    or3
      (or3
        (or3 (bit_or (shl 16 (field inst 12 0x1) 11) (shl 16 (field inst 11 0x1) 4))
          (shl 16 (field inst 9 0x3) 8) (shl 16 (field inst 8 0x1) 10))
        (shl 16 (field inst 7 0x1) 6) (shl 16 (field inst 6 0x1) 7))
      (shl 16 (field inst 3 0x7) 1) (shl 16 (field inst 2 0x1) 5))

unfoldable pub imm_branch : ℕ → ℕ
imm_branch inst = extend 23 (
    or3
      (or3 (shl 16 (field inst 12 0x1) 8) (shl 16 (field inst 10 0x3) 3)
        (shl 16 (field inst 5 0x3) 6))
      (shl 16 (field inst 3 0x3) 1) (shl 16 (field inst 2 0x1) 5))

-- The offsets from the stack pointer.
unfoldable pub imm_ldsp : ℕ → ℕ
imm_ldsp inst =
    or3 (shl 16 (field inst 12 0x1) 5) (shl 16 (field inst 5 0x3) 3) (shl 16 (field inst 2 0x7) 6)

unfoldable pub imm_lwsp : ℕ → ℕ
imm_lwsp inst =
    or3 (shl 16 (field inst 12 0x1) 5) (shl 16 (field inst 4 0x7) 2) (shl 16 (field inst 2 0x3) 6)

unfoldable pub imm_sdsp : ℕ → ℕ
imm_sdsp inst = bit_or (shl 16 (field inst 10 0x7) 3) (shl 16 (field inst 7 0x7) 6)

unfoldable pub imm_swsp : ℕ → ℕ
imm_swsp inst = bit_or (shl 16 (field inst 9 0xF) 2) (shl 16 (field inst 7 0x3) 6)
