-- ===== src/Bits/Test.antt =====
-- The bit of a word at a position, and what each operation does to it.
use Prim.Native.Nat.{differ}
use qemu_rust_risc_v.Prelude.{ℕ, zero, suc, ◌+◌, ◌*◌, ◌/◌, ◌%◌, ◌^◌, ◌≤◌, ◌<◌, ◌≡◌, refl}
use qemu_rust_risc_v.Prelude.{arith, ap, ◌∙◌, Bool, false, ◌&&◌, ◌||◌, ◌==◌, ltb}
use qemu_rust_risc_v.Prelude.{bit_and, bit_or, bit_xor}
use mathlib.Core.Bool.{xor}
use qemu_rust_risc_v.Bits.Step.{bit_and_step, bit_or_step, bit_xor_step}
use native.Mathlib.Nat.{pow-suc, pow-succ', add-zero, add-suc, div-one}
use native.Mathlib.Nat.{div-div-eq-div-mul, mod-eq-sub-mul-div, mul-div-le}

-- Whether bit `i` of `a` is set.
unfoldable pub test_bit : ℕ → ℕ → Bool
test_bit a zero = a % 2 == 1
test_bit a (suc i) = test_bit (a / 2) i

differ_digits : (x y : ℕ) → x < 2 → y < 2 → (differ x y == 1) ≡ xor (x == 1) (y == 1)
unfolding xor
differ_digits zero zero p q = refl
differ_digits zero (suc zero) p q = refl
differ_digits (suc zero) zero p q = refl
differ_digits (suc zero) (suc zero) p q = refl
differ_digits zero (suc (suc y)) p q = absurd (omega arith)
differ_digits (suc zero) (suc (suc y)) p q = absurd (omega arith)
differ_digits (suc (suc x)) y p q = absurd (omega arith)

differ_lt : (x y : ℕ) → x < 2 → y < 2 → differ x y < 2
differ_lt zero y p q = q
differ_lt (suc zero) zero p q = omega arith
differ_lt (suc zero) (suc zero) p q = omega arith
differ_lt (suc zero) (suc (suc y)) p q = absurd (omega arith)
differ_lt (suc (suc x)) y p q = absurd (omega arith)

pub test_bit-and : (a b i : ℕ) → test_bit (bit_and a b) i ≡ (test_bit a i && test_bit b i)
unfolding test_bit
test_bit-and a b zero = ground (arith, bit_and_step a b)
test_bit-and a b (suc i) =
    let half : bit_and a b / 2 ≡ bit_and (a / 2) (b / 2) = omega (arith, bit_and_step a b) in
    rw half (test_bit-and (a / 2) (b / 2) i)

pub test_bit-or : (a b i : ℕ) → test_bit (bit_or a b) i ≡ (test_bit a i || test_bit b i)
unfolding test_bit
test_bit-or a b zero = ground (arith, bit_or_step a b)
test_bit-or a b (suc i) =
    let half : bit_or a b / 2 ≡ bit_or (a / 2) (b / 2) = omega (arith, bit_or_step a b) in
    rw half (test_bit-or (a / 2) (b / 2) i)

pub test_bit-xor : (a b i : ℕ) → test_bit (bit_xor a b) i ≡ xor (test_bit a i) (test_bit b i)
unfolding test_bit
test_bit-xor a b zero =
    let d : differ (a % 2) (b % 2) < 2 = differ_lt (a % 2) (b % 2) (omega arith) (omega arith) in
    let e : bit_xor a b % 2 ≡ differ (a % 2) (b % 2) = omega (arith, bit_xor_step a b) in
    rw e (differ_digits (a % 2) (b % 2) (omega arith) (omega arith))
test_bit-xor a b (suc i) =
    let d : differ (a % 2) (b % 2) < 2 = differ_lt (a % 2) (b % 2) (omega arith) (omega arith) in
    let half : bit_xor a b / 2 ≡ bit_xor (a / 2) (b / 2) = omega (arith, bit_xor_step a b) in
    rw half (test_bit-xor (a / 2) (b / 2) i)

pub test_bit-shr : (k a i : ℕ) → test_bit (a / 2 ^ k) i ≡ test_bit a (i + k)
unfolding test_bit
test_bit-shr zero a i = cc (div-one a, add-zero i)
test_bit-shr (suc k) a i =
    let halves : a / 2 ^ suc k ≡ a / 2 / 2 ^ k =
      cc (pow-succ' 2 k, div-div-eq-div-mul a 2 (2 ^ k)) in
    rw (halves, add-suc) (test_bit-shr k (a / 2) i)

-- Beyond the width of a word every bit is clear.
pub test_bit_beyond : (w a i : ℕ) → a < 2 ^ w → w ≤ i → test_bit a i ≡ false
unfolding test_bit
test_bit_beyond zero a zero p q = ground arith
test_bit_beyond zero a (suc i) p q = test_bit_beyond zero (a / 2) i (omega arith) (omega arith)
test_bit_beyond (suc w) a zero p q = absurd (omega arith)
test_bit_beyond (suc w) a (suc i) p q =
    test_bit_beyond w (a / 2) i (omega (arith, pow-suc 2 w)) (omega arith)

-- The lowest digit of a remainder by a power of two, and the rest of it.
half_mod_double : (p a : ℕ) → (a % (2 * p) % 2 ≡ a % 2) × (a % (2 * p) / 2 ≡ a / 2 % p)
half_mod_double p a = omega (
  arith,
  mod-eq-sub-mul-div a (2 * p),
  mod-eq-sub-mul-div (a / 2) p,
  mul-div-le a (2 * p),
  ap (λ (q : ℕ). 2 * p * q) (div-div-eq-div-mul a 2 p),
)

half_mod : (w a : ℕ) → (a % 2 ^ suc w % 2 ≡ a % 2) × (a % 2 ^ suc w / 2 ≡ a / 2 % 2 ^ w)
half_mod w a = rw pow-succ' (half_mod_double (2 ^ w) a)

-- The low bits of a remainder.
pub test_bit-mod : (w a i : ℕ) → test_bit (a % 2 ^ w) i ≡ (ltb i w && test_bit a i)
unfolding test_bit
test_bit-mod zero a zero = ground arith
test_bit-mod zero a (suc i) =
    rw (test_bit_beyond zero (a % 1 / 2) i (omega arith) (omega arith)) (ground arith)
test_bit-mod (suc w) a zero = ground (arith, half_mod w a)
test_bit-mod (suc w) a (suc i) = rw (half_mod w a).1 (test_bit-mod w (a / 2) i ∙ ground arith)

-- Two words with the same bits are equal.
ext_fuel : (n a b : ℕ) → a ≤ n → b ≤ n → ((i : ℕ) → test_bit a i ≡ test_bit b i) → a ≡ b
unfolding test_bit
ext_fuel zero a b p q h = omega arith
ext_fuel (suc n) a b p q h =
    let half = ext_fuel n (a / 2) (b / 2) (omega arith) (omega arith) (λ i. h (suc i)) in
    ground (arith, h 0, half)

pub test_bit-ext : (a b : ℕ) → ((i : ℕ) → test_bit a i ≡ test_bit b i) → a ≡ b
test_bit-ext a b h = ext_fuel (a + b) a b (omega arith) (omega arith) h
