-- ===== src/Cpu/Alu/Division.antt =====
-- src/cpu.rs: DIV and REM, of 64 and of 32 bits.
use qemu_rust_risc_v.Prelude.{
  ℕ, zero, suc, ◌+◌, ◌*◌, ◌-◌, ◌/◌, ◌%◌, ◌^◌, ◌≤◌, ◌<◌, ◌≡◌, arith, ap, sym, ◌∙◌, Bool, true, false,
  ltb, ◌==◌, ◌&&◌, if-cases, subst, ◌⊎◌, Bool-cases, inl, inr,
}
use qemu_rust_risc_v.Signed.{
  ℤ, pos, negsuc, abs, is_negative, with_sign, to_signed, of_signed, divz, remz,
}
use qemu_rust_risc_v.Signed.Bits.{to_signed_cases}
use qemu_rust_risc_v.Cpu.Alu.Defs.{div, rem, lowest, minus_one}
use mathlib.Core.Bool.{xor}
use native.Mathlib.Nat.{
  zero-mod, div-le_self, mod-le, div-add-mod', add-mul-mod_self_left, mod-eq_of_lt, mod-lt,
  pow-succ', one-le-pow,
}

-- Equal up to multiples of the modulus.
congruent : (n x y j k : ℕ) → x + n * j ≡ y + n * k → y < n → x % n ≡ y
congruent n x y j k e small =
    sym (add-mul-mod_self_left x n j)
    ∙ ap (λ t. t % n) e
    ∙ add-mul-mod_self_left y n k
    ∙ mod-eq_of_lt small

-- A word of a modulus stands for an integer.
abbrev Stands : ℕ → ℕ → ℤ → Type 0
Stands n a (pos p) = a ≡ p
Stands n a (negsuc m) = a + suc m ≡ n

-- The word of a negated magnitude.
negative_word : (w m : ℕ) → m < 2 ^ w → (e : ℕ) × (of_signed w (with_sign true m) + m ≡ 2 ^ w * e)
unfolding of_signed
negative_word w zero h = (0, omega (arith, zero-mod (2 ^ w)))
negative_word w (suc m) h =
    (1, omega (arith, mod-eq_of_lt {n = m} {m = 2 ^ w} (omega (arith, h)), h))

-- Quotient and remainder of two integers, as words.
div-rem_words :
    (w a b : ℕ) (x y : ℤ)
    → a < 2 ^ w
    → Stands (2 ^ w) a x
    → Stands (2 ^ w) b y
    → abs x < 2 ^ w
    → 0 < abs y
    → (of_signed w (divz x y) * b + of_signed w (remz x y)) % 2 ^ w ≡ a
unfolding of_signed xor
div-rem_words w a b (pos p) (pos q) h sx sy small some =
    let n = 2 ^ w in
    let quotient : p / q % n ≡ p / q = mod-eq_of_lt (omega (arith, div-le_self p q, small)) in
    let remainder : p % q % n ≡ p % q = mod-eq_of_lt (omega (arith, mod-le p q, small)) in
    congruent n (p / q % n * b + p % q % n) a 0 0
      (rw (quotient, remainder, sy) (grind (arith, div-add-mod' p q, sx))) h
div-rem_words w a b (negsuc k) (pos q) h sx sy small some =
    let n = 2 ^ w in
    let p = suc k in
    let quotient = negative_word w (p / q) (omega (arith, div-le_self p q, small)) in
    let remainder = negative_word w (p % q) (omega (arith, mod-le p q, small)) in
    congruent n (of_signed w (with_sign true (p / q)) * b + of_signed w (with_sign true (p % q))) a
      1 (quotient.0 * q + remainder.0)
      (rw sy (grind (arith, div-add-mod' p q, sx, remainder.1, ap (λ t. t * q) quotient.1))) h
div-rem_words w a b (pos p) (negsuc l) h sx sy small some =
    let n = 2 ^ w in
    let q = suc l in
    let quotient = negative_word w (p / q) (omega (arith, div-le_self p q, small)) in
    let remainder : p % q % n ≡ p % q = mod-eq_of_lt (omega (arith, mod-le p q, small)) in
    congruent n (of_signed w (with_sign true (p / q)) * b + p % q % n) a (quotient.0 * q)
      (of_signed w (with_sign true (p / q)))
      (rw remainder (
        grind (
          arith,
          div-add-mod' p q,
          sx,
          ap (λ t. of_signed w (with_sign true (p / q)) * t) sy,
          ap (λ t. t * q) quotient.1,
        )))
      h
div-rem_words w a b (negsuc k) (negsuc l) h sx sy small some =
    let n = 2 ^ w in
    let p = suc k in
    let q = suc l in
    let quotient : p / q % n ≡ p / q = mod-eq_of_lt (omega (arith, div-le_self p q, small)) in
    let remainder = negative_word w (p % q) (omega (arith, mod-le p q, small)) in
    congruent n (p / q % n * b + of_signed w (with_sign true (p % q))) a 1 (p / q + remainder.0)
      (rw quotient (grind (arith, div-add-mod' p q, sx, remainder.1, ap (λ t. p / q * t) sy))) h

to_signed-Stands : (v a : ℕ) → a < 2 ^ suc v → Stands (2 ^ suc v) a (to_signed (suc v) a)
to_signed-Stands v a h =
    let same : a % 2 ^ suc v ≡ a = mod-eq_of_lt h in
    subst (Stands (2 ^ suc v) a) (sym (to_signed_cases v a)) (
      if-cases (Stands (2 ^ suc v) a) (ltb (a % 2 ^ suc v) (2 ^ v)) (λ up. sym same)
        (λ down. omega (arith, same, h)))

abs-to_signed : (v a : ℕ) → a < 2 ^ suc v → abs (to_signed (suc v) a) ≤ 2 ^ v
abs-to_signed v a h =
    let same : a % 2 ^ suc v ≡ a = mod-eq_of_lt h in
    subst (λ z. abs z ≤ 2 ^ v) (sym (to_signed_cases v a))
      (if-cases (λ z. abs z ≤ 2 ^ v) (ltb (a % 2 ^ suc v) (2 ^ v)) (λ up. ground (arith, up))
        (λ down. ground (arith, down, same, h, pow-succ' 2 v)))

Stands-abs : (n a : ℕ) (z : ℤ) → Stands n a z → 0 < a → a < n → 0 < abs z
Stands-abs n a (pos p) st some h = omega (arith, st, some)
Stands-abs n a (negsuc m) st some h = omega arith

-- A word of a magnitude below the half stands for it.
abs-of_signed :
    (v m : ℕ) (s : Bool)
    → m < 2 ^ v
    → abs (to_signed (suc v) (of_signed (suc v) (with_sign s m))) ≡ m
unfolding of_signed
abs-of_signed v m false h =
    let same : m % 2 ^ suc v ≡ m = mod-eq_of_lt (omega (arith, h, pow-succ' 2 v)) in
    rw (same, to_signed_cases v m, same) (ground (arith, h))
abs-of_signed v zero true h =
    rw (zero-mod (2 ^ suc v), to_signed_cases v 0, zero-mod (2 ^ suc v)) (ground (arith, h))
abs-of_signed v (suc k) true h =
    let same : k % 2 ^ suc v ≡ k = mod-eq_of_lt (omega (arith, h, pow-succ' 2 v)) in
    let word = 2 ^ suc v - 1 - k in
    let whole : word % 2 ^ suc v ≡ word = mod-eq_of_lt (omega (arith, h, pow-succ' 2 v)) in
    rw (same, to_signed_cases v word, whole) (ground (arith, h, pow-succ' 2 v))

-- The branches of DIV and REM: an identity and a bound on the remainder.
abbrev Divided : ℕ → ℕ → ℕ → ℕ → ℕ → Type 0
Divided v a b quotient remainder =
    ((quotient * b + remainder) % 2 ^ suc v ≡ a)
    × ((b ≡ 0) ⊎ (abs (to_signed (suc v) remainder) < abs (to_signed (suc v) b)))

by_zero : (v a b : ℕ) → a < 2 ^ suc v → b ≡ 0 → Divided v a b (minus_one (suc v)) a
by_zero v a b ha zero_b =
    (rw zero_b (ap (λ t. t % 2 ^ suc v) (omega arith) ∙ mod-eq_of_lt ha), inl zero_b)

zero_abs : (v : ℕ) → abs (to_signed (suc v) 0) ≡ 0
zero_abs v =
    rw (to_signed_cases v 0, zero-mod (2 ^ suc v)) (ground (arith, one-le-pow v 2 (omega arith)))

overflowed : (v a b : ℕ) → a ≡ 2 ^ v → b ≡ 2 ^ suc v - 1 → Divided v a b a 0
overflowed v a b low high =
    let n = 2 ^ suc v in
    let whole : b + 1 ≡ n = omega (arith, high, one-le-pow (suc v) 2 (omega arith)) in
    (
      congruent n (a * b + 0) a 1 a (grind (arith, low, pow-succ' 2 v, ap (λ t. a * t) whole))
          (omega (arith, low, pow-succ' 2 v, one-le-pow v 2 (omega arith))),
      inr (
          rw (zero_abs v) (
            Stands-abs n b (to_signed (suc v) b) (to_signed-Stands v b (omega (arith, whole)))
              (omega (arith, high, pow-succ' 2 v, one-le-pow v 2 (omega arith)))
              (omega (arith, whole)))),
    )

divided :
    (v a b : ℕ)
    → a < 2 ^ suc v
    → b < 2 ^ suc v
    → 0 < b
    → let x = to_signed (suc v) a in
      let y = to_signed (suc v) b in
      Divided v a b (of_signed (suc v) (divz x y)) (of_signed (suc v) (remz x y))
divided v a b ha hb some =
    let x = to_signed (suc v) a in
    let y = to_signed (suc v) b in
    let nonzero = Stands-abs (2 ^ suc v) b y (to_signed-Stands v b hb) some hb in
    let smaller : abs x % abs y < abs y = mod-lt (abs x) nonzero in
    let below : abs x % abs y < 2 ^ v = omega (arith, smaller, abs-to_signed v b hb) in
    (
      div-rem_words (suc v) a b x y ha (to_signed-Stands v a ha) (to_signed-Stands v b hb)
          (omega (arith, abs-to_signed v a ha, pow-succ' 2 v, one-le-pow v 2 (omega arith)))
          nonzero,
      inr (rw (abs-of_signed v (abs x % abs y) (is_negative x) below) smaller),
    )

-- The quotient and the remainder of DIV and REM on words of 64 bits, and of DIVW and REMW on words of
-- 32 bits, division by zero and overflow included: the quotient times the divisor plus the remainder
-- is the dividend modulo the size of the word, and unless the divisor is zero the remainder is
-- smaller than it in magnitude.
pub div-rem :
    (v a b : ℕ)
    → a < 2 ^ suc v
    → b < 2 ^ suc v
    → ((div (suc v) a b * b + rem (suc v) a b) % 2 ^ suc v ≡ a)
      × ((b ≡ 0) ⊎ (abs (to_signed (suc v) (rem (suc v) a b)) < abs (to_signed (suc v) b)))
unfolding div rem
div-rem v a b ha hb =
    let half : lowest (suc v) ≡ 2 ^ v =
      ap (λ (n : ℕ). 2 ^ n) {x = suc v - 1} {y = v} (omega arith) in
    elim (Bool-cases (b == 0)) [
      | inl z ↦ rw z (by_zero v a b ha (ground (arith, z)))
      | inr nz ↦ rw nz (elim (Bool-cases ((a == lowest (suc v)) && (b == minus_one (suc v)))) [
        | inl over ↦ rw over (overflowed v a b (ground (arith, over, half)) (ground (arith, over)))
        | inr plain ↦ rw plain (divided v a b ha hb (ground (arith, nz)))
      ])
    ]
