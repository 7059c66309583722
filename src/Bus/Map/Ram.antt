-- ===== src/Bus/Map/Ram.antt =====
-- src/bus.rs and src/dram.rs: the memory behind the bus is what the walk over page tables asks for.
use qemu_rust_risc_v.Prelude.{
  ℕ, zero, suc, ◌+◌, ◌-◌, ◌%◌, ◌^◌, ◌≤◌, ◌<◌, ◌≡◌, ◌≢◌, refl, arith, ap, ap₂, ◌∙◌, Bool, true,
  false, ◌&&◌, ◌==◌, ltb, leb, if◌then◌else◌, Bool-cases, inl, inr, List, ◌∷◌, get_or, Option, none,
  some, ok, ==_refl, ==_false,
}
use qemu_rust_risc_v.Dram.Defs.{
  ByteOrder, IsLittleEndian, Dram, size, slice, overwrite, of_bytes, to_bytes, read_slice,
  write_slice,
}
use qemu_rust_risc_v.Dram.Access.{length-overwrite, get_or-overwrite, overwrite-Written, bytes_8}
use qemu_rust_risc_v.Mmu.Memory.{IsMemory}
use qemu_rust_risc_v.Bus.Map.Regions.{dram_base, is_dram}
use qemu_rust_risc_v.Bus.Map.Defs.{Bus, HostOps}
use qemu_rust_risc_v.Bus.Map.Reads as Reads
use qemu_rust_risc_v.Bus.Map.Writes as Writes
use qemu_rust_risc_v.Bus.Map.Hart.{word_bus}
use qemu_rust_risc_v.Bus.Map.Loads.{read64_dram, write64_dram}
use native.Mathlib.Decide.{ℕ_discrete}

-- Eight bytes at an address lie in the memory.
abbrev inside : Dram → ℕ → Bool
inside d a = is_dram a && leb (a + 8) (dram_base + size d)

abbrev word : Dram → ℕ → ℕ
word d a = of_bytes (slice 8 (a - dram_base) d.memory)

abbrev pub peek : {H : Type 0} → Bus H → ℕ → Option ℕ
peek b a =
    if inside b.dram a
    then (if ltb (word b.dram a) (2 ^ 64) then some (word b.dram a) else none)
    else none

abbrev pub written : {H : Type 0} → ℕ → ℕ → Bus H → Bus H
written a v b = record b {
  dram = record { memory = overwrite (a - dram_base) (to_bytes 8 v) b.dram.memory };
}

guarded :
    (p q : Bool) (w v : ℕ)
    → (if p then (if q then some w else none) else none) ≡ some v
    → (p ≡ true) × (q ≡ true) × (w ≡ v)
guarded p q w v h = ground (arith, h)

slice_same :
    (n a : ℕ) (xs ys : List ℕ)
    → ((k : ℕ) → a ≤ k → k < a + n → get_or ys k 0 ≡ get_or xs k 0)
    → slice n a ys ≡ slice n a xs
unfolding slice
slice_same zero a xs ys h = refl
slice_same (suc n) a xs ys h =
    ap₂ (◌∷◌) (h a (omega arith) (omega arith))
      (slice_same n (a + 1) xs ys (λ k low high. h k (omega (arith, low)) (omega (arith, high))))

-- A word that does not meet the eight bytes written is as before.
word-apart :
    (d : Dram) (a a' v : ℕ)
    → inside d a ≡ true
    → inside d a' ≡ true
    → a % 8 ≡ 0
    → a' % 8 ≡ 0
    → a' ≢ a
    → slice 8 (a' - dram_base) (overwrite (a - dram_base) (to_bytes 8 v) d.memory)
      ≡ slice 8 (a' - dram_base) d.memory
word-apart d a a' v h h' al al' ne =
    slice_same 8 (a' - dram_base) d.memory (overwrite (a - dram_base) (to_bytes 8 v) d.memory)
      (λ k low high. ground (
        arith,
        get_or-overwrite (a - dram_base) k (to_bytes 8 v) d.memory,
        h,
        h',
        al,
        al',
        ne,
        low,
        high,
      ))

module _ {H : Type 0} (le : ByteOrder) (laws : IsLittleEndian le) (ops : HostOps H) where
  pub read_word : (a w : ℕ) (b : Bus H) → peek b a ≡ some w → Reads.read64 le ops a b ≡ (ok w, b)
  unfolding read_slice
  read_word a w b h =
      let e = guarded (inside b.dram a) (ltb (word b.dram a) (2 ^ 64)) (word b.dram a) w h in
      let there : is_dram a ≡ true = ground (arith, e.0) in
      let fits : leb (2 ^ 64) (a - dram_base + 8) ≡ false = ground (arith, e.0) in
      let room : ltb (size b.dram) (a - dram_base + 8) ≡ false = ground (arith, e.0) in
      read64_dram le ops a b there
      ∙ rw (fits, room, laws.read_64 (slice 8 (a - dram_base) b.dram.memory) refl, e.2) refl

  pub write_word :
      (a v w : ℕ) (b : Bus H)
      → peek b a ≡ some w
      → Writes.write64 le ops a v b ≡ (ok tt, written a v b)
  unfolding write_slice
  write_word a v w b h =
      let e = guarded (inside b.dram a) (ltb (word b.dram a) (2 ^ 64)) (word b.dram a) w h in
      let there : is_dram a ≡ true = ground (arith, e.0) in
      let fits : leb (2 ^ 64) (a - dram_base + 8) ≡ false = ground (arith, e.0) in
      let room : ltb (size b.dram) (a - dram_base + 8) ≡ false = ground (arith, e.0) in
      write64_dram le ops a v b there ∙ rw (fits, room, laws.write_64 v) refl

  pub peek-lt : (a w : ℕ) (b : Bus H) → peek b a ≡ some w → w < 2 ^ 64
  peek-lt a w b h =
      let e = guarded (inside b.dram a) (ltb (word b.dram a) (2 ^ 64)) (word b.dram a) w h in
      ground (arith, e.1, e.2)

  inside-written : (a v a' : ℕ) (b : Bus H) → inside (written a v b).dram a' ≡ inside b.dram a'
  inside-written a v a' b =
      ap (λ n. is_dram a' && leb (a' + 8) (dram_base + n))
        (length-overwrite (a - dram_base) (to_bytes 8 v) b.dram.memory)

  peek-written_self :
      (a v : ℕ) (b : Bus H) → inside b.dram a ≡ true → v < 2 ^ 64 → peek (written a v b) a ≡ some v
  peek-written_self a v b h small =
      let within : a - dram_base + 8 ≤ size b.dram = ground (arith, h) in
      let same : word (written a v b).dram a ≡ v =
        ap of_bytes (overwrite-Written (a - dram_base) (to_bytes 8 v) b.dram within).1
        ∙ bytes_8 v small in
      let fits : ltb v (2 ^ 64) ≡ true = ground (arith, small) in
      rw (inside-written a v a b, h, same, fits) refl

  peek-written_apart :
      (a v a' : ℕ) (b : Bus H)
      → inside b.dram a ≡ true
      → a % 8 ≡ 0
      → a' % 8 ≡ 0
      → a' ≢ a
      → peek (written a v b) a' ≡ peek b a'
  peek-written_apart a v a' b h al al' ne = elim (Bool-cases (inside b.dram a')) [
    | inl there ↦
        let same : word (written a v b).dram a' ≡ word b.dram a' =
          ap of_bytes (word-apart b.dram a a' v h there al al' ne) in
        rw (inside-written a v a' b, same) refl
    | inr gone ↦ rw (inside-written a v a' b, gone) refl
  ]

  pub peek-written :
      (a v w a' : ℕ) (b : Bus H)
      → peek b a ≡ some w
      → v < 2 ^ 64
      → a % 8 ≡ 0
      → a' % 8 ≡ 0
      → peek (written a v b) a' ≡ (if a' == a then some v else peek b a')
  peek-written a v w a' b h small al al' =
      let e = guarded (inside b.dram a) (ltb (word b.dram a) (2 ^ 64)) (word b.dram a) w h in
      elim (ℕ_discrete a' a) [
        | yes same ↦ rw (same, ==_refl a) (peek-written_self a v b e.0 small)
        | no apart ↦ rw (==_false a' a apart) (peek-written_apart a v a' b e.0 al al' apart)
      ]

  -- Where the DRAM of the bus holds eight bytes they are a word of RAM.
  abbrev pub dram_laws : IsMemory (word_bus le ops)
  dram_laws = record {
    peek = peek;
    peek-lt = peek-lt;
    read_word = read_word;
    written = written;
    write_word = write_word;
    peek-written = peek-written;
  }
