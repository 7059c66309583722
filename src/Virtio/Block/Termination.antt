-- ===== src/Virtio/Block/Termination.antt =====
-- src/virtio.rs: `process_queue` of the block device ends.
use qemu_rust_risc_v.Prelude.{
  ℕ, ◌^◌, ◌≡◌, refl, arith, ap, ◌==◌, if-cases, Bool, ok, err, Option, some,
}
use qemu_rust_risc_v.Dram.Defs.{ByteOrder, IsLittleEndian}
use qemu_rust_risc_v.Virtio.Guest.{Guest, Answer}
use qemu_rust_risc_v.Virtio.Indices.{AreBytes}
use qemu_rust_risc_v.Virtio.Rounds.{serve_all-Ends}
use qemu_rust_risc_v.Virtio.Rng.Queue.{Layout, read_indices}
use qemu_rust_risc_v.Virtio.Rng.Termination.{Indices, read_indices-Indices}
use qemu_rust_risc_v.Virtio.Block.Defs.{VirtioBlock}
use qemu_rust_risc_v.Virtio.Block.Requests.{DiskFile}
use qemu_rust_risc_v.Virtio.Block.Queue.{layout, serve, finish, process_requests, process_queue}
use mathlib.Core.Option

module _ {H : Type 0} (le : ByteOrder) (laws : IsLittleEndian le) (dram_base : ℕ)
    (file : DiskFile H) where
  abbrev Total : Option (Answer H (VirtioBlock × Bool)) → Type 0
  Total o = (a : Answer H (VirtioBlock × Bool)) × (o ≡ some a)

  requests-Total :
      (v : VirtioBlock) (l : Layout) (a : Answer H (ℕ × ℕ × ℕ))
      → Indices le laws dram_base a
      → Total (process_requests le dram_base file (2 ^ 16) v l a)
  unfolding process_requests
  requests-Total v l (err e, g) h = (_, refl)
  requests-Total v l (ok (flags, avail_idx, used_idx), g) (ha, hu) =
      if-cases Total (avail_idx == used_idx) (λ _. (_, refl))
        (λ _.
          let ends =
            serve_all-Ends (serve le dram_base file v l) avail_idx (2 ^ 16) used_idx g ha hu
              (omega arith) in
          (_, ap (Option.map (finish le dram_base v l flags used_idx)) ends.1))

  -- In a memory of bytes, processing the queue ends within 65,536 requests, whatever the queue, its
  -- descriptors and the disk image are.
  pub block_queue-Total :
      (v : VirtioBlock) (g : Guest H)
      → AreBytes g
      → (a : Answer H (VirtioBlock × Bool)) × (process_queue le dram_base file (2 ^ 16) v g
          ≡ some a)
  unfolding process_queue
  block_queue-Total v g small =
      if-cases Total (v.queue_pfn == 0) (λ _. (_, refl))
        (λ _.
          if-cases Total (v.queue_align == 0) (λ _. (_, refl))
            (λ _.
              requests-Total v (layout v) (read_indices le dram_base (layout v) g)
                (read_indices-Indices le laws dram_base (layout v) g small)))
