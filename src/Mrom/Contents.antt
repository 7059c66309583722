-- ===== src/Mrom/Contents.antt =====
-- src/mrom.rs: a load leaves the image for the reads, of all four widths.
use qemu_rust_risc_v.Prelude.{
  ℕ, zero, suc, ◌+◌, ◌-◌, ◌^◌, ◌≤◌, ◌<◌, ◌≡◌, refl, arith, ap, ◌∙◌, ltb, leb, false, List, length,
  get_or, ok,
}
use qemu_rust_risc_v.Dram.Defs.{ByteOrder, IsLittleEndian, of_bytes, slice, overwrite, read_slice}
use qemu_rust_risc_v.Dram.Defs
use qemu_rust_risc_v.Dram.Access.{slice-overwrite, length-overwrite, get_or-overwrite}
use qemu_rust_risc_v.Mrom.Defs.{Mrom, load, read8, read16, read32, read64, size, vector}

length-slice : (n addr : ℕ) (xs : List ℕ) → length (slice n addr xs) ≡ n
unfolding slice
length-slice zero addr xs = refl
length-slice (suc n) addr xs = ap suc (length-slice n (addr + 1) xs)

-- A read of `n` bytes by a decoder, inside the image.
read_slice-load :
    (r : Mrom) (offset : ℕ) (bs : List ℕ) (a n : ℕ) (decode : List ℕ → ℕ)
    → offset + length bs ≤ size r
    → size r < 2 ^ 64
    → offset ≤ a
    → a + n ≤ offset + length bs
    → read_slice n decode (vector (record { memory = overwrite offset bs r.memory })) a
      ≡ ok (decode (slice n (a - offset) bs))
unfolding read_slice
read_slice-load r offset bs a n decode within width low high =
    let ys = overwrite offset bs r.memory in
    let same = length-overwrite offset bs r.memory in
    let fits : leb (2 ^ 64) (a + n) ≡ false = ground arith in
    let inside : ltb (length ys) (a + n) ≡ false = ground (arith, same) in
    rw (fits, inside, slice-overwrite n a offset bs r.memory within low high) refl

-- A load of an image that fits a ROM smaller than the address space succeeds and keeps the size of
-- the ROM; at an address with eight bytes of the image from it on, the reads of one, two, four and
-- eight bytes then give the number of the image's bytes there, the lowest byte first.
pub read-load_image :
    (le : ByteOrder) (r : Mrom) (offset : ℕ) (bs : List ℕ) (a : ℕ)
    → IsLittleEndian le
    → offset + length bs ≤ size r
    → size r < 2 ^ 64
    → offset ≤ a
    → a + 8 ≤ offset + length bs
    → (s : Mrom) × (load r offset bs ≡ ok s)
      × (size s ≡ size r)
      × (read8 s a ≡ ok (get_or bs (a - offset) 0))
      × (read16 le s a ≡ ok (of_bytes (slice 2 (a - offset) bs)))
      × (read32 le s a ≡ ok (of_bytes (slice 4 (a - offset) bs)))
      × (read64 le s a ≡ ok (of_bytes (slice 8 (a - offset) bs)))
unfolding load Defs.read8
read-load_image le r offset bs a laws within width low high =
    let s : Mrom = record { memory = overwrite offset bs r.memory } in
    let same = length-overwrite offset bs r.memory in
    let fits : leb (2 ^ 64) (offset + length bs) ≡ false = ground arith in
    let inside : ltb (size r) (offset + length bs) ≡ false = ground arith in
    (
      s,
      rw (fits, inside) refl,
      same,
      ground (arith, same, get_or-overwrite offset a bs r.memory within),
      read_slice-load r offset bs a 2 le.read_u16 within width low (omega arith)
          ∙ ap ok (laws.read_16 (slice 2 (a - offset) bs) (length-slice 2 (a - offset) bs)),
      read_slice-load r offset bs a 4 le.read_u32 within width low (omega arith)
          ∙ ap ok (laws.read_32 (slice 4 (a - offset) bs) (length-slice 4 (a - offset) bs)),
      read_slice-load r offset bs a 8 le.read_u64 within width low (omega arith)
          ∙ ap ok (laws.read_64 (slice 8 (a - offset) bs) (length-slice 8 (a - offset) bs)),
    )
