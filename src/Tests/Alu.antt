-- ===== src/Tests/Alu.antt =====
-- Instruction words and operands for the decoder and the arithmetic.
use qemu_rust_risc_v.Prelude.{
  ◌+◌, ◌-◌, ◌*◌, ◌%◌, ◌^◌, ◌<◌, ◌≡◌, ◌⊎◌, arith, if◌then◌else◌, ltb, leb, ◌&&◌, ℕ, some,
}
use qemu_rust_risc_v.Bits.{test_bit}
use qemu_rust_risc_v.Signed.{abs, to_signed}
use qemu_rust_risc_v.Cpu.Decode.{imm_i, imm_s, imm_b, imm_u, imm_j}
use qemu_rust_risc_v.Cpu.Decode.Immediates.{bit_i, bit_s, bit_b, bit_u, bit_j, immediates_lem}
use qemu_rust_risc_v.Cpu.Alu.Defs.{op, op_imm_left, div, rem}
use qemu_rust_risc_v.Cpu.Alu.Division.{div-rem}
use qemu_rust_risc_v.Cpu.Alu.Shifts.{shifts_lem}
use qemu_rust_risc_v.Cpu.Alu.SingleBit.{single_bit_lem}

immediates_lem_example :
    (test_bit (imm_i 0xFF010113) 40 ≡ bit_i 0xFF010113 40)
    × (test_bit (imm_s 0xFF010113) 40 ≡ bit_s 0xFF010113 40)
    × (test_bit (imm_b 0xFF010113) 40 ≡ bit_b 0xFF010113 40)
    × (test_bit (imm_u 0xFF010113) 40 ≡ bit_u 0xFF010113 40)
    × (test_bit (imm_j 0xFF010113) 40 ≡ bit_j 0xFF010113 40)
immediates_lem_example = immediates_lem 0xFF010113 40 (omega arith)

-- Minus seven by two.
div-rem_example :
    ((div 64 0xFFFFFFFFFFFFFFF9 2 * 2 + rem 64 0xFFFFFFFFFFFFFFF9 2) % 2 ^ 64 ≡ 0xFFFFFFFFFFFFFFF9)
    × ((◌≡◌ {A = ℕ} 2 0)
        ⊎ (abs (to_signed 64 (rem 64 0xFFFFFFFFFFFFFFF9 2)) < abs (to_signed 64 2)))
div-rem_example = div-rem 63 0xFFFFFFFFFFFFFFF9 2 (omega arith) (omega arith)

shifts_lem_example :
    (sll srl sra rol ror : ℕ) × (op 0x00 1 0x8000000000000001 65 ≡ some sll)
    × (op 0x00 5 0x8000000000000001 65 ≡ some srl)
    × (op 0x20 5 0x8000000000000001 65 ≡ some sra)
    × (op 0x30 1 0x8000000000000001 65 ≡ some rol)
    × (op 0x30 5 0x8000000000000001 65 ≡ some ror)
    × (test_bit sll 0 ≡ (leb 1 0 && test_bit 0x8000000000000001 (0 - 1)))
    × (test_bit srl 0 ≡ (ltb (0 + 1) 64 && test_bit 0x8000000000000001 (0 + 1)))
    × (test_bit sra 0 ≡ (
        if ltb (0 + 1) 63
        then test_bit 0x8000000000000001 (0 + 1)
        else test_bit 0x8000000000000001 63))
    × (test_bit rol 0 ≡ (
        if ltb 0 1
        then test_bit 0x8000000000000001 (0 + 64 - 1)
        else test_bit 0x8000000000000001 (0 - 1)))
    × (test_bit ror 0 ≡ (
        if ltb (0 + 1) 64
        then test_bit 0x8000000000000001 (0 + 1)
        else test_bit 0x8000000000000001 (0 + 1 - 64)))
shifts_lem_example = shifts_lem 0x8000000000000001 65 0 (omega arith) (omega arith)

-- An amount from 32 on, which gives a shift.
single_bit_lem_example :
    (some (op_imm_left (0x12 * 64 + 40) 40 0xFF) ≡ op 0x00 1 0xFF 40)
    × (some (op_imm_left (0x1A * 64 + 40) 40 0xFF) ≡ op 0x00 1 0xFF 40)
    × (some (op_imm_left (0x0A * 64 + 40) 40 0xFF) ≡ op 0x00 1 0xFF 40)
single_bit_lem_example = single_bit_lem 40 0xFF (omega arith)
