-- ===== src/Virtio/Block/Transfer.antt =====
-- src/virtio.rs: the bytes that a request writes to a buffer are those that a later request gathers
-- from it.
use qemu_rust_risc_v.Prelude.{
  ℕ, zero, suc, ◌+◌, ◌-◌, ◌^◌, ◌≤◌, ◌≡◌, refl, arith, ap, ◌∙◌, sym, subst, ◌||◌, ltb, leb, false,
  List, [], ◌∷◌, ◌++◌, length, get_or, set, take, length-set, ok,
}
use qemu_rust_risc_v.Dram.Defs
use qemu_rust_risc_v.Dram.Defs.{ByteOrder, Dram, size, overwrite, slice}
use qemu_rust_risc_v.Dram.Access.{length-overwrite, overwrite-Written}
use qemu_rust_risc_v.Virtio.Guest.{Guest, read_u8, write_u8, write_bytes}
use qemu_rust_risc_v.Virtio.Block.Requests.{DiskFile, DataBuffer, scatter, gather_buffer, gather}

take_all : (xs : List ℕ) → take (length xs) xs ≡ xs
take_all [] = refl
take_all (x ∷ xs) = ap (◌∷◌ x) (take_all xs)

append_nil : (xs : List ℕ) → xs ++ [] ≡ xs
append_nil [] = refl
append_nil (x ∷ xs) = ap (◌∷◌ x) (append_nil xs)

-- A buffer lies in the memory.
abbrev pub Within : {H : Type 0} → ℕ → ℕ → ℕ → Guest H → Type 0
Within dram_base addr n g =
    (dram_base ≤ addr) × (addr + n ≤ dram_base + size g.dram) × (addr + n ≤ 2 ^ 64)

module _ {H : Type 0} (le : ByteOrder) (dram_base : ℕ) (file : DiskFile H) where
  -- The memory with bytes at an address.
  abbrev pub with_bytes : ℕ → List ℕ → Guest H → Guest H
  with_bytes addr bs g = record g {
    dram = record { memory = overwrite (addr - dram_base) bs g.dram.memory };
  }

  write_bytes_lem :
      (addr : ℕ) (bs : List ℕ) (g : Guest H)
      → Within dram_base addr (length bs) g
      → write_bytes le dram_base addr bs g ≡ (ok tt, with_bytes addr bs g)
  unfolding write_bytes overwrite write_u8 Defs.write8
  write_bytes_lem addr [] g h = refl
  write_bytes_lem addr (b ∷ bs) g (low, high, fits) =
      let a = addr - dram_base in
      let in_range : leb (2 ^ 64) addr || ltb addr dram_base ≡ false = ground (arith, low, fits) in
      let inside : leb (size g.dram) a ≡ false = ground (arith, low, high) in
      let next : addr + 1 - dram_base ≡ a + 1 = omega (arith, low) in
      let g1 : Guest H = record g { dram = record { memory = set g.dram.memory a b } } in
      rw (in_range, inside)
        (write_bytes_lem (addr + 1) bs g1 (
          omega (arith, low),
          omega (arith, high, length-set g.dram.memory a b),
          omega (arith, fits),
        )
          ∙ ap
              (λ n. (
                ok tt,
                record g { dram = record { memory = overwrite n bs (set g.dram.memory a b) } },
              ))
              next)

  gather_buffer_lem :
      (addr n : ℕ) (g : Guest H)
      → Within dram_base addr n g
      → gather_buffer le dram_base file addr n g
        ≡ (ok (slice n (addr - dram_base) g.dram.memory), g)
  unfolding gather_buffer slice read_u8 Defs.read8
  gather_buffer_lem addr zero g h = refl
  gather_buffer_lem addr (suc n) g (low, high, fits) =
      let a = addr - dram_base in
      let in_range : leb (2 ^ 64) addr || ltb addr dram_base ≡ false = ground (arith, low, fits) in
      let inside : leb (size g.dram) a ≡ false = ground (arith, low, high) in
      let next : addr + 1 - dram_base ≡ a + 1 = omega (arith, low) in
      rw
        (
          in_range,
          inside,
          gather_buffer_lem (addr + 1) n g
              (omega (arith, low), omega (arith, high), omega (arith, fits)),
        )
        (ap (λ k. (ok (get_or g.dram.memory a 0 ∷ slice n k g.dram.memory), g)) next)

  -- For a buffer in the memory and as many bytes from the disk as it holds: scattering them to it
  -- succeeds, keeps the size of the memory and the disk, and gathering the buffer then gives the same bytes.
  pub gather-scatter :
      (b : DataBuffer) (data_bytes : List ℕ) (g : Guest H)
      → Within dram_base b.addr b.len g
      → length data_bytes ≡ b.len
      → (g1 : Guest H) × (scatter le dram_base file (b ∷ []) data_bytes g ≡ (ok 0, g1))
        × (size g1.dram ≡ size g.dram)
        × (g1.host ≡ g.host)
        × (gather le dram_base file (b ∷ []) g1 ≡ (ok data_bytes, g1))
  unfolding scatter gather
  gather-scatter b data_bytes g within len =
      let bs = data_bytes in
      let at_bytes : Within dram_base b.addr (length bs) g =
        subst (λ n. Within dram_base b.addr n g) (sym len) within in
      let a = b.addr - dram_base in
      let room : a + length bs ≤ size g.dram = omega (arith, at_bytes.0, at_bytes.1) in
      let g1 = with_bytes b.addr bs g in
      let same : size g1.dram ≡ size g.dram = length-overwrite a bs g.dram.memory in
      let back : Within dram_base b.addr b.len g1 =
        (within.0, omega (arith, within.1, same), within.2) in
      let enough : ltb (length bs) b.len ≡ false = ground (arith, len) in
      let whole : take b.len bs ≡ bs = ap (λ n. take n bs) (sym len) ∙ take_all bs in
      let contents : slice b.len a g1.dram.memory ≡ bs =
        ap (λ n. slice n a g1.dram.memory) (sym len) ∙ (overwrite-Written a bs g.dram room).1 in
      (
        g1,
        rw (enough, whole, write_bytes_lem b.addr bs g at_bytes) refl,
        same,
        refl,
        rw (gather_buffer_lem b.addr b.len g1 back, contents, append_nil bs) refl,
      )
