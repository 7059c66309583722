-- ===== src/Bits/Fields.antt =====
-- Fields of a word: the idioms by which the source reads, forces and merges them.
use qemu_rust_risc_v.Prelude.{ℕ, zero, suc, ◌+◌, ◌-◌, ◌^◌, ◌<◌, ◌≡◌, refl}
use qemu_rust_risc_v.Prelude.{arith, ap, ◌∙◌, ◌&&◌, ◌||◌, ◌==◌, ltb, in_range}
use qemu_rust_risc_v.Prelude.{if◌then◌else◌, bit_and, bit_or}
use mathlib.Core.Bool.{xor}
use qemu_rust_risc_v.Bits.Test.{test_bit, test_bit-and, test_bit-or, test_bit-shr}
use qemu_rust_risc_v.Bits.Test.{test_bit_beyond}
use qemu_rust_risc_v.Bits.Words.{bit_not, shr, shl, test_bit-bit_not, test_bit-shl, test_bit_ones}
use qemu_rust_risc_v.Bits.Words.{bit_and_mask, test_bit_one, test_bit-pow}

-- `x & !mask` on a word of `w` bits.
pub test_bit-clear :
    (w x mask i : ℕ)
    → test_bit (bit_and x (bit_not w mask)) i ≡ (test_bit x i && xor (test_bit mask i) (ltb i w))
test_bit-clear w x mask i =
    test_bit-and x (bit_not w mask) i ∙ ap (◌&&◌ (test_bit x i)) (test_bit-bit_not w mask i)

-- `(old & !mask) | (value & mask)` takes the bits under a mask of `w` bits from `value`, and the
-- others from `old`.
pub test_bit-merge :
    (w mask old value i : ℕ)
    → mask < 2 ^ w
    → test_bit (bit_or (bit_and old (bit_not w mask)) (bit_and value mask)) i
      ≡ (if test_bit mask i then test_bit value i else (ltb i w && test_bit old i))
unfolding xor
test_bit-merge w mask old value i h = ground (
  arith,
  test_bit-or (bit_and old (bit_not w mask)) (bit_and value mask) i,
  test_bit-clear w old mask i,
  test_bit-and value mask i,
  test_bit_beyond w mask i h,
)

-- `(x >> k) & 3 == 3` asks for two bits.
pub two_bits_set : (k x : ℕ) → (bit_and (shr x k) 3 == 3) ≡ (test_bit x k && test_bit x (1 + k))
unfolding test_bit
two_bits_set k x = ground (arith, bit_and_mask 2 (shr x k), test_bit-shr k x 0, test_bit-shr k x 1)

-- Bit `i` of the constants `0xF << k`, `0xA << k`, `3 << k`, `2 << k` and `1 << k`.
pub test_bit_nibble : (k i : ℕ) → test_bit (shl 64 0xF k) i ≡ (ltb i 64 && in_range k (k + 3) i)
test_bit_nibble k i = ground (arith, test_bit-shl 64 k 0xF i, test_bit_ones 4 (i - k))

pub test_bit_three : (k i : ℕ) → test_bit (shl 64 0x3 k) i ≡ (ltb i 64 && in_range k (k + 1) i)
test_bit_three k i = ground (arith, test_bit-shl 64 k 0x3 i, test_bit_ones 2 (i - k))

pub test_bit_two : (k i : ℕ) → test_bit (shl 64 2 k) i ≡ (ltb i 64 && (i == k + 1))
test_bit_two k i = ground (arith, test_bit-shl 64 k 2 i, test_bit-pow 1 (i - k))

pub test_bit_single : (k i : ℕ) → test_bit (shl 64 1 k) i ≡ (ltb i 64 && (i == k))
test_bit_single k i = ground (arith, test_bit-shl 64 k 1 i, test_bit_one (i - k))

ten : (i : ℕ) → test_bit 0xA i ≡ ((i == 1) || (i == 3))
unfolding test_bit
ten zero = refl
ten (suc zero) = refl
ten (suc (suc zero)) = refl
ten (suc (suc (suc zero))) = refl
ten (suc (suc (suc (suc i)))) =
    test_bit_beyond 4 0xA (suc (suc (suc (suc i)))) (omega arith) (omega arith) ∙ ground arith

pub test_bit_ten :
    (k i : ℕ) → test_bit (shl 64 0xA k) i ≡ (ltb i 64 && ((i == k + 1) || (i == k + 3)))
test_bit_ten k i = ground (arith, test_bit-shl 64 k 0xA i, ten (i - k))
