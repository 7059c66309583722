-- ===== src/Signed.antt =====
-- The casts between unsigned and signed machine integers, and the signed operations of the source,
-- over integers on the native numbers. A cast to a signed type of `w` bits is `to_signed w`, a cast
-- from it `of_signed w`, for `w` of 8, 16, 32, 64 and 128.
pub mod Bits
use qemu_rust_risc_v.Prelude.{
  ℕ, zero, suc, ◌+◌, ◌*◌, ◌-◌, ◌/◌, ◌%◌, ◌^◌, ◌≤◌, ◌<◌, ◌≡◌, refl, arith, ap, ◌∙◌, Bool, true,
  false, xor, ltb, if◌then◌else◌,
}

pub data ℤ : Type 0 where
  pos negsuc : ℕ → ℤ

abbrev pub is_negative : ℤ → Bool
is_negative (pos n) = false
is_negative (negsuc n) = true

abbrev pub abs : ℤ → ℕ
abs (pos n) = n
abs (negsuc n) = suc n

abbrev pub with_sign : Bool → ℕ → ℤ
with_sign false n = pos n
with_sign true zero = pos zero
with_sign true (suc n) = negsuc n

abbrev pub ltz : ℤ → ℤ → Bool
ltz (pos m) (pos n) = ltb m n
ltz (pos m) (negsuc n) = false
ltz (negsuc m) (pos n) = true
ltz (negsuc m) (negsuc n) = ltb n m

-- `*`, and `/` and `%` that round towards zero.
abbrev pub mulz : ℤ → ℤ → ℤ
mulz a b = with_sign (xor (is_negative a) (is_negative b)) (abs a * abs b)

abbrev pub divz : ℤ → ℤ → ℤ
divz a b = with_sign (xor (is_negative a) (is_negative b)) (abs a / abs b)

abbrev pub remz : ℤ → ℤ → ℤ
remz a b = with_sign (is_negative a) (abs a % abs b)

-- `>>` on a signed type rounds down.
abbrev pub shrz : ℤ → ℕ → ℤ
shrz (pos n) k = pos (n / 2 ^ k)
shrz (negsuc n) k = negsuc (n / 2 ^ k)

unfoldable pub to_signed : ℕ → ℕ → ℤ
to_signed w x =
    if ltb (x % 2 ^ w) (2 ^ (w - 1)) then pos (x % 2 ^ w) else negsuc (2 ^ w - 1 - x % 2 ^ w)

unfoldable pub of_signed : ℕ → ℤ → ℕ
of_signed w (pos n) = n % 2 ^ w
of_signed w (negsuc n) = 2 ^ w - 1 - n % 2 ^ w

-- `x as iN as i64 as u64`
abbrev pub sign_extend : ℕ → ℕ → ℕ
sign_extend w x = of_signed 64 (to_signed w x)
