-- ===== src/Flash/Bytes.antt =====
-- src/flash.rs: the number that a read of the array gathers.
use qemu_rust_risc_v.Prelude.{
  ℕ, zero, suc, ◌+◌, ◌*◌, ◌%◌, ◌-◌, ◌^◌, ◌≤◌, ◌<◌, ◌≡◌, refl, arith, ap, ◌∙◌, ltb, leb, false, List,
  length, get_or, ok, bit_or,
}
use qemu_rust_risc_v.Bits.{shl, bit_or_fields, test_bit-ext, test_bit-or}
use qemu_rust_risc_v.Flash.Defs.{Flash, read_array, read, load, gather, read_data}
use qemu_rust_risc_v.Dram.Defs.{of_bytes, overwrite, slice}
use qemu_rust_risc_v.Dram.Access.{slice-overwrite, get_or-overwrite, length-overwrite}
use native.Mathlib.Nat.{pow-succ', mul-le-mul_right, pow-le-pow_right, mod-eq_of_lt}

or_comm : (a b : ℕ) → bit_or a b ≡ bit_or b a
or_comm a b =
    test_bit-ext (bit_or a b) (bit_or b a)
      (λ i. ground (arith, test_bit-or a b i, test_bit-or b a i))

pow_add : (a b : ℕ) → 2 ^ (a + b) ≡ 2 ^ a * 2 ^ b
pow_add zero b =
    let e : 2 ^ (zero + b) ≡ 2 ^ b = ap (λ (n : ℕ). 2 ^ n) (omega arith) in omega (arith, e)
pow_add (suc a) b =
    let grown : 2 ^ (suc a + b) ≡ 2 * 2 ^ (a + b) =
      ap (λ (n : ℕ). 2 ^ n) {x = suc a + b} {y = suc (a + b)} (omega arith) ∙ pow-succ' 2 (a + b) in
    grind (arith, grown, pow_add a b, pow-succ' 2 a)

pow_8_step : (i : ℕ) → 2 ^ ((i + 1) * 8) ≡ 256 * 2 ^ (i * 8)
pow_8_step i =
    ap (λ (n : ℕ). 2 ^ n) {x = (i + 1) * 8} {y = 8 + i * 8} (omega arith) ∙ pow_add 8 (i * 8)

-- Bytes of the list.
abbrev pub AreBytes : List ℕ → Type 0
AreBytes xs = (k : ℕ) → get_or xs k 0 < 256

-- The loop adds the bytes that are left above those that are gathered.
gather_lem :
    (bytes : List ℕ) (addr n i result : ℕ)
    → AreBytes bytes
    → i + n ≤ 8
    → result < 2 ^ (i * 8)
    → gather bytes addr n i result ≡ result + 2 ^ (i * 8) * of_bytes (slice n (addr + i) bytes)
unfolding gather slice
gather_lem bytes addr zero i result small fits below = omega arith
gather_lem bytes addr (suc n) i result small fits below =
    let b = get_or bytes (addr + i) 0 in
    let p = 2 ^ (i * 8) in
    let top : 2 ^ ((i + 1) * 8) ≤ 2 ^ 64 =
      pow-le-pow_right {n = 2} (omega arith) {i = (i + 1) * 8} {j = 64} (omega arith) in
    let small_b : b < 256 = small (addr + i) in
    let step = pow_8_step i in
    let room : b * p + p ≤ 2 ^ ((i + 1) * 8) =
      omega (arith, step, mul-le-mul_right {m = b + 1} {n = 256} p (omega (arith, small_b))) in
    let fits_word : b * p % 2 ^ 64 ≡ b * p = mod-eq_of_lt (omega (arith, room, top, below)) in
    let merged : bit_or result (shl 64 b (i * 8)) ≡ b * p + result =
      rw fits_word (or_comm result (b * p) ∙ bit_or_fields (i * 8) b result below) in
    let rest = of_bytes (slice n (addr + i + 1) bytes) in
    let high : 2 ^ ((i + 1) * 8) * rest ≡ 256 * p * rest = ap (λ (x : ℕ). x * rest) step in
    let same : of_bytes (slice n (addr + (i + 1)) bytes) ≡ rest =
      ap (λ k. of_bytes (slice n k bytes)) (omega arith) in
    rw merged (
      gather_lem bytes addr n (i + 1) (b * p + result) small (omega arith)
        (omega (arith, room, below))
      ∙ rw same (grind (arith, high)))

overwrite-AreBytes :
    (offset : ℕ) (bs xs : List ℕ)
    → offset + length bs ≤ length xs
    → AreBytes bs
    → AreBytes xs
    → AreBytes (overwrite offset bs xs)
overwrite-AreBytes offset bs xs within small_bs small_xs k =
    ground (arith, get_or-overwrite offset k bs xs within, small_bs (k - offset), small_xs k)

-- The contents fill the chip, in bytes, and the chip is smaller than the address space.
pub record IsValid (f : Flash) : Type 0 where
  pub filled : length f.bytes ≡ f.size
  pub small : AreBytes f.bytes
  pub addressable : f.size < 2 ^ 64

-- In a valid device in array mode, a load within the chip succeeds and leaves a valid device; a read
-- of one to eight bytes that lies within the loaded bytes then gives their number, the lowest byte
-- first.
pub read-load :
    (f : Flash) (offset : ℕ) (bs : List ℕ) (a n : ℕ)
    → IsValid f
    → f.state ≡ read_array
    → AreBytes bs
    → offset + length bs ≤ f.size
    → offset ≤ a
    → 0 < n
    → n ≤ 8
    → a + n ≤ offset + length bs
    → (g : Flash) × (load f offset bs ≡ ok g)
      × IsValid g
      × (read g a n ≡ ok (of_bytes (slice n (a - offset) bs)))
unfolding load read read_data
read-load f offset bs a n valid array small within low some_bytes most high =
    let g : Flash = record f { bytes = overwrite offset bs f.bytes } in
    let room : offset + length bs ≤ length f.bytes = omega (arith, within, valid.filled) in
    let bytes_g = overwrite-AreBytes offset bs f.bytes room small valid.small in
    let no_wrap : leb (2 ^ 64) (offset + length bs) ≡ false = ground (arith, valid.addressable) in
    let no_error : ltb f.size (offset + length bs) ≡ false = ground arith in
    let inside : leb f.size a ≡ false = ground arith in
    let read_fits : leb (2 ^ 64) (a + n) ≡ false = ground (arith, valid.addressable) in
    let read_within : ltb f.size (a + n) ≡ false = ground arith in
    (
      g,
      rw (no_wrap, no_error) refl,
      record {
        filled = length-overwrite offset bs f.bytes ∙ valid.filled;
        small = bytes_g;
        addressable = valid.addressable;
      },
      rw (array, inside, read_fits, read_within)
          (ap ok (
            gather_lem g.bytes a n 0 0 bytes_g (omega arith) (omega arith)
            ∙ omega (
              arith,
              ap (λ k. of_bytes (slice n k g.bytes)) {x = a + 0} {y = a} (omega arith),
              ap of_bytes (slice-overwrite n a offset bs f.bytes room low high),
            ))),
    )
