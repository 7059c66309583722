-- ===== src/Virtio/Rng/Termination.antt =====
-- src/virtio_rng.rs: `process_queue` of the entropy device ends.
use qemu_rust_risc_v.Prelude.{
  ℕ, ◌+◌, ◌^◌, ◌<◌, ◌≡◌, refl, arith, ap, ◌==◌, if-cases, Bool, List, ok, err, Option, some, inl,
  inr,
}
use qemu_rust_risc_v.Dram.Defs.{ByteOrder, IsLittleEndian}
use qemu_rust_risc_v.Virtio.Guest.{Guest, Answer}
use qemu_rust_risc_v.Virtio.Indices.{AreBytes, read_u16-Read}
use qemu_rust_risc_v.Virtio.Rounds.{serve_all-Ends}
use qemu_rust_risc_v.Virtio.Rng.Defs.{VirtioRng}
use qemu_rust_risc_v.Virtio.Rng.Queue.{
  Layout, layout, serve, finish, read_indices, process_requests, process_queue,
}
use mathlib.Core.Option

module _ {H : Type 0} (le : ByteOrder) (laws : IsLittleEndian le) (dram_base : ℕ) where
  -- The indices that are read fit 16 bits.
  abbrev pub Indices : Answer H (ℕ × ℕ × ℕ) → Type 0
  Indices (ok (flags, avail_idx, used_idx), g) = (avail_idx < 2 ^ 16) × (used_idx < 2 ^ 16)
  Indices (err e, g) = Unit {0}

  pub read_indices-Indices :
      (l : Layout) (g : Guest H) → AreBytes g → Indices (read_indices le dram_base l g)
  unfolding read_indices
  read_indices-Indices l g small =
      elim (read_u16-Read le laws dram_base (l.queue_addr + l.avail_offset) g small) [
        | inr (e, h) ↦ rw h tt
        | inl (flags, _, h) ↦
            rw h
              (elim (read_u16-Read le laws dram_base (l.queue_addr + l.avail_offset + 2) g small) [
                | inr (e, h1) ↦ rw h1 tt
                | inl (avail_idx, ha, h1) ↦
                    rw h1
                      (elim (read_u16-Read le laws dram_base (l.queue_addr + l.used_offset + 2) g
                        small) [ inr (e, h2) ↦ rw h2 tt | inl (used_idx, hu, h2) ↦ rw h2 (ha, hu) ])
              ])
      ]

module _ {H : Type 0} (le : ByteOrder) (laws : IsLittleEndian le) (dram_base : ℕ)
    (random : ℕ → H → List ℕ × H) where
  abbrev Total : Option (Answer H (VirtioRng × Bool)) → Type 0
  Total o = (a : Answer H (VirtioRng × Bool)) × (o ≡ some a)

  requests-Total :
      (v : VirtioRng) (l : Layout) (a : Answer H (ℕ × ℕ × ℕ))
      → Indices le laws dram_base a
      → Total (process_requests le dram_base random (2 ^ 16) v l a)
  unfolding process_requests
  requests-Total v l (err e, g) h = (_, refl)
  requests-Total v l (ok (flags, avail_idx, used_idx), g) (ha, hu) =
      if-cases Total (avail_idx == used_idx) (λ _. (_, refl))
        (λ _.
          let ends =
            serve_all-Ends (serve le dram_base random l) avail_idx (2 ^ 16) used_idx g ha hu
              (omega arith) in
          (_, ap (Option.map (finish le dram_base v l flags used_idx)) ends.1))

  -- In a memory of bytes, processing the queue ends within 65,536 requests, whatever the queue, its
  -- descriptors and the source of random bytes are.
  pub process_queue-Total :
      (v : VirtioRng) (g : Guest H)
      → AreBytes g
      → (a : Answer H (VirtioRng × Bool)) × (process_queue le dram_base random (2 ^ 16) v g
          ≡ some a)
  unfolding process_queue
  process_queue-Total v g small =
      if-cases Total (v.queue_pfn == 0) (λ _. (_, refl))
        (λ _.
          if-cases Total (v.queue_num == 0) (λ _. (_, refl))
            (λ _.
              requests-Total v (layout v) (read_indices le dram_base (layout v) g)
                (read_indices-Indices le laws dram_base (layout v) g small)))
