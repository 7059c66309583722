-- ===== src/Dram/Access.antt =====
-- src/dram.rs: what a write leaves for the reads.
use qemu_rust_risc_v.Prelude.{
  ℕ, zero, suc, ◌+◌, ◌-◌, ◌^◌, ◌≡◌, ◌≤◌, ◌<◌, refl, ap, ap₂, ◌∙◌, arith, ltb, leb, ◌&&◌, false,
  if◌then◌else◌,
}
use qemu_rust_risc_v.Prelude.{
  List, [], ◌∷◌, length, get_or, set, length-set, get_or-set_self, get_or-set_ne, ok,
}
use qemu_rust_risc_v.Dram.Defs.{
  ByteOrder, of_bytes, to_bytes, IsLittleEndian, Dram, size, slice, overwrite, read_slice,
  write_slice, read8, read64, write64,
}

pub length-overwrite : (addr : ℕ) (bs xs : List ℕ) → length (overwrite addr bs xs) ≡ length xs
unfolding overwrite
length-overwrite addr [] xs = refl
length-overwrite addr (b ∷ bs) xs =
    length-overwrite (addr + 1) bs (set xs addr b) ∙ length-set xs addr b

get_or-cons : (b : ℕ) (bs : List ℕ) (k : ℕ) → 0 < k → get_or (b ∷ bs) k 0 ≡ get_or bs (k - 1) 0
get_or-cons b bs zero h = absurd (omega (arith, h))
get_or-cons b bs (suc k) h = ap (λ n. get_or bs n 0) (omega arith)

-- The byte at an address after a slice was overwritten.
pub get_or-overwrite :
    (addr a : ℕ) (bs xs : List ℕ)
    → addr + length bs ≤ length xs
    → get_or (overwrite addr bs xs) a 0
      ≡ (if leb addr a && ltb a (addr + length bs) then get_or bs (a - addr) 0 else get_or xs a 0)
unfolding overwrite
get_or-overwrite addr a [] xs h = ground arith
get_or-overwrite addr a (b ∷ bs) xs h =
    let same : a - (addr + 1) ≡ a - addr - 1 = omega arith in
    ground (
      arith,
      get_or-overwrite (addr + 1) a bs (set xs addr b) (omega (arith, h, length-set xs addr b)),
      get_or-set_self xs addr b 0,
      get_or-set_ne xs addr a b 0,
      get_or-cons b bs (a - addr),
      ap (λ n. get_or bs n 0) same,
      ap (λ n. get_or (b ∷ bs) n 0) {x = a - addr} {y = 0},
      ap (λ n. get_or (set xs addr b) n 0) {x = a} {y = addr},
    )

pub slice_lem :
    (addr : ℕ) (bs ys : List ℕ)
    → ((i : ℕ) → i < length bs → get_or ys (addr + i) 0 ≡ get_or bs i 0)
    → slice (length bs) addr ys ≡ bs
unfolding slice
slice_lem addr [] ys h = refl
slice_lem addr (b ∷ bs) ys h =
    ap₂ (◌∷◌) (ap (λ n. get_or ys n 0) (omega arith) ∙ h 0 (omega arith)) (
      slice_lem (addr + 1) bs ys
        (λ i lt. ap (λ n. get_or ys n 0) (omega arith) ∙ h (suc i) (omega (arith, lt))))

-- A slice inside what was overwritten.
pub slice-overwrite :
    (n a offset : ℕ) (bs xs : List ℕ)
    → offset + length bs ≤ length xs
    → offset ≤ a
    → a + n ≤ offset + length bs
    → slice n a (overwrite offset bs xs) ≡ slice n (a - offset) bs
unfolding slice
slice-overwrite zero a offset bs xs within low high = refl
slice-overwrite (suc n) a offset bs xs within low high =
    let next : a + 1 - offset ≡ a - offset + 1 = omega (arith, low) in
    ap₂ (◌∷◌) (ground (arith, get_or-overwrite offset a bs xs within)) (
      slice-overwrite n (a + 1) offset bs xs within (omega arith) (omega arith)
      ∙ ap (λ k. slice n k bs) next)

pub bytes_8 : (v : ℕ) → v < 2 ^ 64 → of_bytes (to_bytes 8 v) ≡ v
bytes_8 v h = omega (arith, h)

-- What a write of `bytes` at `addr` leaves: the memory keeps its size, the slice reads as the bytes,
-- and a read of one byte sees them and the old bytes elsewhere.
abbrev pub Written : ℕ → List ℕ → Dram → Dram → Type 0
Written addr bytes d d' =
    (size d' ≡ size d)
    × (slice (length bytes) addr d'.memory ≡ bytes)
    × ((a : ℕ)
        → read8 d' a ≡ (
            if leb addr a && ltb a (addr + length bytes)
            then ok (get_or bytes (a - addr) 0)
            else read8 d a))

pub overwrite-Written :
    (addr : ℕ) (bytes : List ℕ) (d : Dram)
    → addr + length bytes ≤ size d
    → Written addr bytes d (record { memory = overwrite addr bytes d.memory })
unfolding read8
overwrite-Written addr bytes d within =
    let ys = overwrite addr bytes d.memory in
    (
      length-overwrite addr bytes d.memory,
      slice_lem addr bytes ys (λ i lt. ground (
        arith,
        get_or-overwrite addr (addr + i) bytes d.memory within,
        ap (λ n. get_or bytes n 0) {x = addr + i - addr} {y = i},
      )),
      λ a. ground (
        arith,
        length-overwrite addr bytes d.memory,
        get_or-overwrite addr a bytes d.memory within,
      ),
    )

-- A write of an eight-byte word within the memory succeeds; a read at the same address then gives
-- the word, the size is as before, and a read of one byte gives the byte of the word inside the
-- eight bytes and what it gave before outside them.
pub read64-write64 :
    (le : ByteOrder) (laws : IsLittleEndian le) (d : Dram) (addr v a : ℕ)
    → addr + 8 < 2 ^ 64
    → addr + 8 ≤ size d
    → v < 2 ^ 64
    → (d' : Dram) × (write64 le d addr v ≡ ok d')
      × (read64 le d' addr ≡ ok v)
      × (size d' ≡ size d)
      × (read8 d' a ≡ (
          if leb addr a && ltb a (addr + 8)
          then ok (get_or (to_bytes 8 v) (a - addr) 0)
          else read8 d a))
unfolding read_slice write_slice
read64-write64 le laws d addr v a fits within word =
    let bytes = to_bytes 8 v in
    let d' : Dram = record { memory = overwrite addr bytes d.memory } in
    let w = overwrite-Written addr bytes d within in
    let in_width : leb (2 ^ 64) (addr + 8) ≡ false = ground arith in
    let in_old : ltb (size d) (addr + 8) ≡ false = ground arith in
    let in_new : ltb (size d') (addr + 8) ≡ false = ground (arith, w.0) in
    (
      d',
      rw (in_width, in_old, laws.write_64 v) refl,
      rw (in_width, in_new, w.1, laws.read_64 bytes refl, bytes_8 v word) refl,
      w.0,
      w.2 a,
    )
