-- ===== src/Signed/Bits.antt =====
-- The bits of a word that was cast to a signed type, shifted to the right there and cast to 64 bits.
use qemu_rust_risc_v.Prelude.{
  ℕ, zero, suc, ◌+◌, ◌-◌, ◌/◌, ◌%◌, ◌^◌, ◌≤◌, ◌<◌, ◌≡◌, refl, arith, ap, sym, ◌∙◌, not, ◌&&◌, ltb,
  if◌then◌else◌, ltb→lt, Bool-cases, inl, inr,
}
use qemu_rust_risc_v.Bits.{test_bit, test_bit_beyond, test_bit-mod, test_bit-shr, test_bit_zero}
use qemu_rust_risc_v.Signed.{ℤ, pos, negsuc, to_signed, of_signed, sign_extend, shrz}
use native.Mathlib.Nat.{pow-succ', one-le-pow, mod-lt, pow-le-pow_right}

-- The complement of a word.
test_bit_complement :
    (w m i : ℕ) → m < 2 ^ w → test_bit (2 ^ w - 1 - m) i ≡ (ltb i w && not (test_bit m i))
unfolding test_bit
test_bit_complement zero m i h =
    ap (λ (t : ℕ). test_bit t i) (omega arith) ∙ test_bit_zero i ∙ ground arith
test_bit_complement (suc w) m zero h = ground (arith, pow-succ' 2 w)
test_bit_complement (suc w) m (suc i) h =
    let half : (2 ^ suc w - 1 - m) / 2 ≡ 2 ^ w - 1 - m / 2 = omega (arith, pow-succ' 2 w) in
    rw half (test_bit_complement w (m / 2) i (omega (arith, pow-succ' 2 w)) ∙ ground arith)

-- The sign is the highest bit.
high_bit : (v y : ℕ) → y < 2 ^ suc v → test_bit y v ≡ not (ltb y (2 ^ v))
unfolding test_bit
high_bit zero zero h = refl
high_bit zero (suc zero) h = refl
high_bit zero (suc (suc y)) h = absurd (omega arith)
high_bit (suc v) y h =
    high_bit v (y / 2) (omega (arith, pow-succ' 2 (suc v))) ∙ ground (arith, pow-succ' 2 v)

-- The two cases of the cast.
pub to_signed_cases :
    (v x : ℕ)
    → to_signed (suc v) x ≡ (
        if ltb (x % 2 ^ suc v) (2 ^ v)
        then pos (x % 2 ^ suc v)
        else negsuc (2 ^ suc v - 1 - x % 2 ^ suc v))
unfolding to_signed
to_signed_cases v x =
    ap
      (λ (n : ℕ).
        if ltb (x % 2 ^ suc v) (2 ^ n)
        then pos (x % 2 ^ suc v)
        else negsuc (2 ^ suc v - 1 - x % 2 ^ suc v))
      {x = suc v - 1} {y = v} (omega arith)

-- A word of `suc v` bits as a signed integer, shifted right by `k` and cast to 64 bits, has the bits
-- from `k` on, and copies of the sign above them.
pub test_bit-arithmetic :
    (v x k i : ℕ)
    → v < 64
    → test_bit (of_signed 64 (shrz (to_signed (suc v) x) k)) i
      ≡ (ltb i 64 && (if ltb (i + k) v then test_bit x (i + k) else test_bit x v))
unfolding of_signed
test_bit-arithmetic v x k i narrow =
    let y = x % 2 ^ suc v in
    let y_lt : y < 2 ^ suc v = mod-lt x {m = 2 ^ suc v} (one-le-pow (suc v) 2 (omega arith)) in
    let n = 2 ^ suc v - 1 - y in
    let bits = test_bit-mod (suc v) x in
    let sign : test_bit x v ≡ not (ltb y (2 ^ v)) = ground (arith, high_bit v y y_lt, bits v) in
    let small : 2 ^ suc v ≤ 2 ^ 64 =
      pow-le-pow_right {n = 2} (omega arith) {i = suc v} {j = 64} (omega arith) in
    let shifted : n / 2 ^ k % 2 ^ 64 < 2 ^ 64 = mod-lt (n / 2 ^ k) {m = 2 ^ 64} (omega arith) in
    elim (Bool-cases (ltb y (2 ^ v))) [
      | inl up ↦
          rw (to_signed_cases v x, up)
            (ground (
              arith,
              test_bit-mod 64 (y / 2 ^ k) i,
              test_bit-shr k y i,
              bits (i + k),
              test_bit_beyond v y (i + k) (ltb→lt y (2 ^ v) up),
              sign,
            ))
      | inr down ↦
          rw (to_signed_cases v x, down)
            (ground (
              arith,
              test_bit_complement 64 (n / 2 ^ k % 2 ^ 64) i shifted,
              test_bit-mod 64 (n / 2 ^ k) i,
              test_bit-shr k n i,
              test_bit_complement (suc v) y (i + k) y_lt,
              bits (i + k),
              sign,
              ap (test_bit x) {x = i + k} {y = v},
            ))
    ]

shrz_zero : (z : ℤ) → shrz z 0 ≡ z
shrz_zero (pos n) = ap pos (omega arith)
shrz_zero (negsuc n) = ap negsuc (omega arith)

-- Sign extension to 64 bits.
pub test_bit-sign_extend :
    (v x i : ℕ)
    → v < 64
    → test_bit (sign_extend (suc v) x) i
      ≡ (ltb i 64 && (if ltb i v then test_bit x i else test_bit x v))
test_bit-sign_extend v x i narrow =
    let same : i + 0 ≡ i = omega arith in
    ap (λ z. test_bit (of_signed 64 z) i) (sym (shrz_zero (to_signed (suc v) x)))
    ∙ test_bit-arithmetic v x 0 i narrow
    ∙ ap (λ n. ltb i 64 && (if ltb n v then test_bit x n else test_bit x v)) same
