-- ===== src/Bits/Words.antt =====
-- Shifts, complement, single bits, masks and bounds, through the bits of a word.
use qemu_rust_risc_v.Prelude.{ℕ, zero, suc, ◌+◌, ◌-◌, ◌*◌, ◌/◌, ◌%◌, ◌^◌, ◌≤◌, ◌<◌, ◌≡◌, refl}
use qemu_rust_risc_v.Prelude.{arith, ap, ◌∙◌, sym, false, ◌&&◌, ◌==◌, ◌!=◌, ltb, leb}
use qemu_rust_risc_v.Prelude.{if◌then◌else◌, Bool-cases, inl, inr}
use qemu_rust_risc_v.Prelude.{bit_and, bit_or, bit_xor}
use mathlib.Core.Bool.{xor}
use qemu_rust_risc_v.Bits.Test.{test_bit, test_bit-and, test_bit-or, test_bit-xor, test_bit-shr}
use qemu_rust_risc_v.Bits.Test.{test_bit_beyond, test_bit-mod, test_bit-ext}
use native.Mathlib.Decide.{dec_lt}
use native.Mathlib.Nat.{pow-succ', one-le-pow, mod-lt}

-- `!x` on a word of `w` bits.
abbrev pub bit_not : ℕ → ℕ → ℕ
bit_not w x = bit_xor x (2 ^ w - 1)

-- `x >> k`, and `x << k` on a word of `w` bits.
abbrev pub shr : ℕ → ℕ → ℕ
shr x k = x / 2 ^ k

abbrev pub shl : ℕ → ℕ → ℕ → ℕ
shl w x k = x * 2 ^ k % 2 ^ w

-- `x as u8` and `x as u32`.
abbrev pub as_u8 : ℕ → ℕ
as_u8 x = x % 2 ^ 8

abbrev pub as_u16 : ℕ → ℕ
as_u16 x = x % 2 ^ 16

abbrev pub as_u32 : ℕ → ℕ
as_u32 x = x % 2 ^ 32

pub test_bit_zero : (i : ℕ) → test_bit 0 i ≡ false
test_bit_zero i = test_bit_beyond 0 0 i (omega arith) (omega arith)

double_shift : (k a : ℕ) → a * 2 ^ suc k ≡ 2 * (a * 2 ^ k)
double_shift k a = omega (arith, ap (λ (t : ℕ). a * t) (pow-succ' 2 k))

pub test_bit-mul : (k a i : ℕ) → test_bit (a * 2 ^ k) i ≡ (leb k i && test_bit a (i - k))
unfolding test_bit
test_bit-mul zero a i = ground arith
test_bit-mul (suc k) a zero = ground (arith, double_shift k a)
test_bit-mul (suc k) a (suc i) =
    let half : a * 2 ^ suc k / 2 ≡ a * 2 ^ k = omega (arith, double_shift k a) in
    rw half (test_bit-mul k a i ∙ ground arith)

pub test_bit-shl :
    (w k a i : ℕ) → test_bit (shl w a k) i ≡ (ltb i w && (leb k i && test_bit a (i - k)))
test_bit-shl w k a i = rw (test_bit-mod w (a * 2 ^ k) i, test_bit-mul k a i)

pub test_bit_ones : (w i : ℕ) → test_bit (2 ^ w - 1) i ≡ ltb i w
unfolding test_bit
test_bit_ones zero i = rw (test_bit_zero i) (ground arith)
test_bit_ones (suc w) zero = ground (arith, pow-succ' 2 w, one-le-pow w 2)
test_bit_ones (suc w) (suc i) =
    let half : (2 ^ suc w - 1) / 2 ≡ 2 ^ w - 1 = omega (arith, pow-succ' 2 w, one-le-pow w 2) in
    rw half (test_bit_ones w i ∙ ground arith)

pub test_bit-bit_not : (w a i : ℕ) → test_bit (bit_not w a) i ≡ xor (test_bit a i) (ltb i w)
test_bit-bit_not w a i = test_bit-xor a (2 ^ w - 1) i ∙ ap (xor (test_bit a i)) (test_bit_ones w i)

pub test_bit_one : (i : ℕ) → test_bit 1 i ≡ (i == 0)
unfolding test_bit
test_bit_one zero = refl
test_bit_one (suc i) = test_bit_zero i ∙ ground arith

pub test_bit-pow : (k i : ℕ) → test_bit (2 ^ k) i ≡ (i == k)
test_bit-pow k i =
    let once : 1 * 2 ^ k ≡ 2 ^ k = omega arith in
    ap (λ (t : ℕ). test_bit t i) (sym once)
    ∙ ground (arith, test_bit-mul k 1 i, test_bit_one (i - k))

-- A word all of whose bits from `w` on are clear is below `2 ^ w`.
pub lt-of-test_bit : (w a : ℕ) → ((i : ℕ) → w ≤ i → test_bit a i ≡ false) → a < 2 ^ w
lt-of-test_bit w a h =
    let same : a % 2 ^ w ≡ a =
      test_bit-ext (a % 2 ^ w) a (λ i. ground (arith, test_bit-mod w a i, h i)) in
    omega (arith, mod-lt a {m = 2 ^ w} (one-le-pow w 2 (omega arith)))

pub bit_and-lt : (w a b : ℕ) → a < 2 ^ w → bit_and a b < 2 ^ w
bit_and-lt w a b h =
    lt-of-test_bit w (bit_and a b)
      (λ i p. ground (arith, test_bit-and a b i, test_bit_beyond w a i h p))

pub bit_and-lt_right : (w a b : ℕ) → b < 2 ^ w → bit_and a b < 2 ^ w
bit_and-lt_right w a b h =
    lt-of-test_bit w (bit_and a b)
      (λ i p. ground (arith, test_bit-and a b i, test_bit_beyond w b i h p))

pub bit_or-lt : (w a b : ℕ) → a < 2 ^ w → b < 2 ^ w → bit_or a b < 2 ^ w
bit_or-lt w a b h k =
    lt-of-test_bit w (bit_or a b) (λ i p.
      ground (arith, test_bit-or a b i, test_bit_beyond w a i h p, test_bit_beyond w b i k p))

-- `x & (2^w - 1)` is the remainder by `2^w`.
pub bit_and_mask : (w a : ℕ) → bit_and a (2 ^ w - 1) ≡ a % 2 ^ w
bit_and_mask w a =
    test_bit-ext (bit_and a (2 ^ w - 1)) (a % 2 ^ w)
      (λ i. ground (arith, test_bit-and a (2 ^ w - 1) i, test_bit_ones w i, test_bit-mod w a i))

-- `x & (1 << k)` is the bit itself, or nothing.
pub bit_and-pow : (k a : ℕ) → bit_and a (2 ^ k) ≡ (if test_bit a k then 2 ^ k else 0)
bit_and-pow k a = elim (Bool-cases (test_bit a k)) [
  | inl set ↦ rw set (
      test_bit-ext (bit_and a (2 ^ k)) (2 ^ k) (λ i.
        ground
          (arith, test_bit-and a (2 ^ k) i, test_bit-pow k i, ap (test_bit a) {x = i} {y = k})))
  | inr clear ↦ rw clear (
      test_bit-ext (bit_and a (2 ^ k)) 0
        (λ i. ground (arith, test_bit-and a (2 ^ k) i, test_bit-pow k i, test_bit_zero i)))
]

pub bit_and-pow-test : (k a : ℕ) → (bit_and a (2 ^ k) != 0) ≡ test_bit a k
bit_and-pow-test k a = ground (arith, bit_and-pow k a, one-le-pow k 2)

-- `(x >> k) & 1`.
pub shr_bit : (k a : ℕ) → bit_and (shr a k) 1 ≡ (if test_bit a k then 1 else 0)
unfolding test_bit
shr_bit k a = ground (arith, bit_and_mask 1 (a / 2 ^ k), test_bit-shr k a 0)

-- `(q << k) | r` is a sum where `r` fits `k` bits.
pub bit_or_fields : (k q r : ℕ) → r < 2 ^ k → bit_or (q * 2 ^ k) r ≡ q * 2 ^ k + r
bit_or_fields k q r h = test_bit-ext (bit_or (q * 2 ^ k) r) (q * 2 ^ k + r) same
  where
    sum_div : (q * 2 ^ k + r) / 2 ^ k ≡ q
    sum_div = grind arith

    sum_mod : (q * 2 ^ k + r) % 2 ^ k ≡ r
    sum_mod = grind arith

    same : (i : ℕ) → test_bit (bit_or (q * 2 ^ k) r) i ≡ test_bit (q * 2 ^ k + r) i
    same i = elim (dec_lt i k) [
      | yes p ↦ ground (
        arith,
        test_bit-or (q * 2 ^ k) r i,
        test_bit-mul k q i,
        test_bit-mod k (q * 2 ^ k + r) i,
        ap (λ (t : ℕ). test_bit t i) sum_mod,
      )
      | no p ↦ ground (
        arith,
        test_bit-or (q * 2 ^ k) r i,
        test_bit-mul k q i,
        test_bit_beyond k r i h (omega arith),
        test_bit-shr k (q * 2 ^ k + r) (i - k),
        ap (λ (t : ℕ). test_bit t (i - k)) sum_div,
      )
    ]
