-- ===== src/Cpu/Words.antt =====
-- src/cpu.rs: the methods of the unsigned integer types that the arithmetic instructions call, on
-- words of `w` bits, and the loops of ORC.B and of the carry-less products.
use qemu_rust_risc_v.Prelude.{
  ℕ, zero, suc, ◌+◌, ◌*◌, ◌%◌, ◌/◌, ◌-◌, ◌^◌, Bool, ◌==◌, ◌!=◌, if◌then◌else◌, bit_and, bit_or,
  bit_xor,
}
use qemu_rust_risc_v.Bits.{test_bit, shr, shl}
use qemu_rust_risc_v.Signed.{to_signed, ltz}

abbrev pub wrapping_add : ℕ → ℕ → ℕ → ℕ
wrapping_add w x y = (x + y) % 2 ^ w

abbrev pub wrapping_sub : ℕ → ℕ → ℕ → ℕ
wrapping_sub w x y = (x + (2 ^ w - y)) % 2 ^ w

abbrev pub rotate_left : ℕ → ℕ → ℕ → ℕ
rotate_left w x k = bit_or (shl w x k) (shr x (w - k))

abbrev pub rotate_right : ℕ → ℕ → ℕ → ℕ
rotate_right w x k = bit_or (shr x k) (shl w x (w - k))

-- `x.leading_zeros()`: the zeros from bit `w - 1` down to the highest one.
unfoldable pub leading_zeros : ℕ → ℕ → ℕ
leading_zeros zero x = 0
leading_zeros (suc w) x = let below = leading_zeros w x in if test_bit x w then 0 else suc below

-- `x.trailing_zeros()`, which is the width for zero.
unfoldable pub trailing_zeros : ℕ → ℕ → ℕ
trailing_zeros zero x = 0
trailing_zeros (suc w) x =
    let above = trailing_zeros w (x / 2) in if test_bit x 0 then 0 else suc above

unfoldable pub count_ones : ℕ → ℕ → ℕ
count_ones zero x = 0
count_ones (suc w) x = count_ones w x + (if test_bit x w then 1 else 0)

-- `x.swap_bytes()`, on `n` bytes.
unfoldable pub swap_bytes : ℕ → ℕ → ℕ
swap_bytes zero x = 0
swap_bytes (suc n) x = x % 256 * 256 ^ n + swap_bytes n (x / 256)

-- `(x as i64) < (y as i64)`, with the width of the type.
abbrev pub signed_less : ℕ → ℕ → ℕ → Bool
signed_less w x y = ltz (to_signed w x) (to_signed w y)

-- `i` from the one given on, `n` times: bytes that are not zero become ones.
unfoldable pub or_combine : ℕ → ℕ → ℕ → ℕ → ℕ
or_combine x zero i result = result
or_combine x (suc n) i result =
    or_combine x n (i + 1)
      (if bit_and (shr x (i * 8)) 0xFF != 0 then bit_or result (shl 64 0xFF (i * 8)) else result)

-- `i` from the one given on, `n` times: the row of each bit of `y` that is set is added.
unfoldable pub xor_rows : (ℕ → ℕ) → ℕ → ℕ → ℕ → ℕ → ℕ
xor_rows row y zero i result = result
xor_rows row y (suc n) i result =
    xor_rows row y n (i + 1) (if bit_and (shr y i) 1 == 1 then bit_xor result (row i) else result)
