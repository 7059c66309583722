-- ===== src/Virtio/Indices.antt =====
-- src/virtio.rs and src/virtio_rng.rs: a half-word that is read from a memory of bytes fits 16 bits.
use qemu_rust_risc_v.Prelude.{
  ℕ, ◌+◌, ◌-◌, ◌^◌, ◌<◌, ◌≡◌, ◌⊎◌, inl, inr, refl, arith, ◌||◌, ltb, leb, if-cases, get_or, ok, err,
}
use qemu_rust_risc_v.Dram.Defs.{ByteOrder, IsLittleEndian, slice, read_slice, size}
use qemu_rust_risc_v.Virtio.Guest.{Guest, Answer, QueueError, read_u16, loaded}

-- The memory holds bytes.
abbrev pub AreBytes : {H : Type 0} → Guest H → Type 0
AreBytes g = (k : ℕ) → get_or g.dram.memory k 0 < 256

-- A read that leaves the memory alone and gives a word of 16 bits, or fails.
abbrev pub Read : {H : Type 0} → Guest H → Answer H ℕ → Type 0
Read g a = ((x : ℕ) × (x < 2 ^ 16) × (a ≡ (ok x, g))) ⊎ ((e : QueueError) × (a ≡ (err e, g)))

module _ {H : Type 0} (le : ByteOrder) (laws : IsLittleEndian le) (dram_base : ℕ) where
  half_word : (a : ℕ) (g : Guest H) → AreBytes g → le.read_u16 (slice 2 a g.dram.memory) < 2 ^ 16
  unfolding slice
  half_word a g small =
      let value = laws.read_16 (slice 2 a g.dram.memory) refl in
      omega (arith, value, small a, small (a + 1))

  pub read_u16-Read : (addr : ℕ) (g : Guest H) → AreBytes g → Read g (read_u16 le dram_base addr g)
  unfolding read_u16 read_slice
  read_u16-Read addr g small =
      let a = addr - dram_base in
      if-cases (Read g) (leb (2 ^ 64) addr || ltb addr dram_base) (λ _. inr (_, refl))
        (λ _.
          if-cases (λ r. Read g (loaded g r)) (leb (2 ^ 64) (a + 2)) (λ _. inr (_, refl))
            (λ _.
              if-cases (λ r. Read g (loaded g r)) (ltb (size g.dram) (a + 2)) (λ _. inr (_, refl))
                (λ _. inl (_, half_word a g small, refl))))
