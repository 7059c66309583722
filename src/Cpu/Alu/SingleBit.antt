-- ===== src/Cpu/Alu/SingleBit.antt =====
-- src/cpu.rs: the single-bit instructions of OP-IMM, BCLRI, BINVI and BSETI, against those of OP.
use qemu_rust_risc_v.Prelude.{
  ℕ, ◌+◌, ◌*◌, ◌<◌, ◌≡◌, refl, arith, ap, ◌∙◌, true, false, ltb, ◌==◌, ◌||◌, bit_or, bit_xor,
  if◌then◌else◌, bit_and, Bool-cases, inl, inr, some,
}
use qemu_rust_risc_v.Bits.{shr, shl, bit_not, bit_and_mask}
use qemu_rust_risc_v.Cpu.Alu.Defs.{op, op_base, op_m, op_bits, op_imm_left, bit}

-- The seven high bits of the immediate, which the source compares with 0x24, 0x34 and 0x14: a shift
-- amount of 32 or more adds one to them.
high_bits :
    (f s : ℕ)
    → f < 64
    → s < 64
    → bit_and (shr (f * 64 + s) 5) 0x7F ≡ (if ltb s 32 then 2 * f else 2 * f + 1)
high_bits f s hf hs = bit_and_mask 7 (shr (f * 64 + s) 5) ∙ ground (arith, hf, hs)

-- The register forms with the amount in the register.
amount : (s : ℕ) → s < 64 → bit_and s 0x3F ≡ s
amount s h = bit_and_mask 6 s ∙ omega (arith, h)

-- Outside the five unary encodings the arm looks at the seven high bits only.
by_high_bits : ℕ → ℕ → ℕ → ℕ
by_high_bits f7 s x =
    if f7 == 0x24
    then bit_and x (bit_not 64 (bit s))
    else if f7 == 0x34
    then bit_xor x (bit s)
    else if f7 == 0x14
    then bit_or x (bit s)
    else shl 64 x s

left_arm :
    (imm s x f7 : ℕ)
    → ltb imm 0x600 || ltb 0x605 imm ≡ true
    → bit_and (shr imm 5) 0x7F ≡ f7
    → op_imm_left imm s x ≡ by_high_bits f7 s x
unfolding op_imm_left by_high_bits
left_arm imm s x f7 other high =
    let e0 : (imm == 0x600) ≡ false = ground (arith, other) in
    let e1 : (imm == 0x601) ≡ false = ground (arith, other) in
    let e2 : (imm == 0x602) ≡ false = ground (arith, other) in
    let e4 : (imm == 0x604) ≡ false = ground (arith, other) in
    let e5 : (imm == 0x605) ≡ false = ground (arith, other) in rw (e0, e1, e2, e4, e5, high) refl

single_bit :
    (f s x : ℕ)
    → f < 64
    → s < 64
    → ltb (f * 64 + s) 0x600 || ltb 0x605 (f * 64 + s) ≡ true
    → op_imm_left (f * 64 + s) s x
      ≡ (if ltb s 32 then by_high_bits (2 * f) s x else by_high_bits (2 * f + 1) s x)
single_bit f s x hf hs other =
    left_arm (f * 64 + s) s x (if ltb s 32 then 2 * f else 2 * f + 1) other (high_bits f s hf hs)
    ∙ elim (Bool-cases (ltb s 32)) [ inl t ↦ rw t refl | inr t ↦ rw t refl ]

-- The register forms.
register_arms :
    (x s : ℕ)
    → s < 64
    → (some (by_high_bits 0x24 s x) ≡ op 0x24 1 x s)
      × (some (by_high_bits 0x34 s x) ≡ op 0x34 1 x s)
      × (some (by_high_bits 0x14 s x) ≡ op 0x14 1 x s)
      × (some (shl 64 x s) ≡ op 0x00 1 x s)
unfolding op op_base op_m op_bits by_high_bits
register_arms x s h = rw (amount s h) (refl, refl, refl, refl)

by_amount :
    (f7 v w x s : ℕ)
    → some v ≡ op f7 1 x s
    → some w ≡ op 0x00 1 x s
    → some (if ltb s 32 then v else w) ≡ op (if ltb s 32 then f7 else 0x00) 1 x s
by_amount f7 v w x s h k = elim (Bool-cases (ltb s 32)) [ inl t ↦ rw t h | inr t ↦ rw t k ]

-- BCLRI, BINVI and BSETI, whose encodings have 0x12, 0x1A and 0x0A in the six bits above the shift
-- amount, give for an amount below 32 what BCLR, BINV and BSET give with the amount in a register.
-- For an amount from 32 to 63 each gives what SLL gives.
pub single_bit_lem :
    (s x : ℕ)
    → s < 64
    → (some (op_imm_left (0x12 * 64 + s) s x) ≡ op (if ltb s 32 then 0x24 else 0x00) 1 x s)
      × (some (op_imm_left (0x1A * 64 + s) s x) ≡ op (if ltb s 32 then 0x34 else 0x00) 1 x s)
      × (some (op_imm_left (0x0A * 64 + s) s x) ≡ op (if ltb s 32 then 0x14 else 0x00) 1 x s)
unfolding by_high_bits
single_bit_lem s x h =
    let arms = register_arms x s h in
    (
      ap some (single_bit 0x12 s x (omega arith) h (ground (arith, h)))
          ∙ by_amount 0x24 (by_high_bits 0x24 s x) (shl 64 x s) x s arms.0 arms.3,
      ap some (single_bit 0x1A s x (omega arith) h (ground (arith, h)))
          ∙ by_amount 0x34 (by_high_bits 0x34 s x) (shl 64 x s) x s arms.1 arms.3,
      ap some (single_bit 0x0A s x (omega arith) h (ground (arith, h)))
          ∙ by_amount 0x14 (by_high_bits 0x14 s x) (shl 64 x s) x s arms.2 arms.3,
    )
