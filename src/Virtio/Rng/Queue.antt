-- ===== src/Virtio/Rng/Queue.antt =====
-- src/virtio_rng.rs: `process_queue` of the entropy device. The source of random bytes is a
-- parameter. The loop over the requests is on fuel; `none` is that the fuel ran out.
use qemu_rust_risc_v.Prelude.{
  ℕ, zero, suc, ◌+◌, ◌*◌, ◌/◌, ◌%◌, ◌^◌, Bool, true, false, ◌==◌, ◌!=◌, leb, if◌then◌else◌, bit_and,
  List, ok, err, Option, some,
}
use qemu_rust_risc_v.Bits.{shl}
use qemu_rust_risc_v.Dram.Defs.{ByteOrder}
use qemu_rust_risc_v.Virtio.Guest.{
  Guest, Answer, ◌>>=◌, done, panic, VirtqDesc, read_u16, write_u16, write_u32, read_descriptor,
  write_bytes,
}
use qemu_rust_risc_v.Virtio.Rounds.{serve_all}
use mathlib.Core.Option
use qemu_rust_risc_v.Virtio.Rng.Defs.{VirtioRng, trigger_interrupt}

-- The addresses of the queue.
pub record Layout : Type 0 where
  pub queue_addr : ℕ
  pub queue_num : ℕ
  pub avail_offset : ℕ
  pub used_offset : ℕ

abbrev pub layout : VirtioRng → Layout
layout v =
    let avail = v.queue_num * 16 in
    record {
      queue_addr = shl 64 v.queue_pfn 12;
      queue_num = v.queue_num;
      avail_offset = avail;
      used_offset = (avail + 4 + 2 * v.queue_num + 2 + 4095) / 4096 * 4096;
    }

module _ {H : Type 0} (le : ByteOrder) (dram_base : ℕ) (random : ℕ → H → List ℕ × H)
    (l : Layout) where
  -- `if desc.flags & VIRTQ_DESC_F_WRITE != 0`: the bytes and the new total.
  unfoldable pub fill : VirtqDesc → ℕ → Guest H → Answer H ℕ
  unfolding write_bytes
  fill desc total g =
      if bit_and desc.flags 2 != 0
      then (let (bytes, host) = random desc.len g.host in
          do
            (_, g1) ← write_bytes le dram_base desc.addr bytes (record g { host = host })
            (if leb (2 ^ 32) (total + desc.len) then panic g1 else (ok (total + desc.len), g1)))
      else (ok total, g)

  -- The chain from a descriptor on, cut after `n` more of them.
  unfoldable pub chain : ℕ → ℕ → ℕ → Guest H → Answer H ℕ
  unfolding read_descriptor fill
  chain zero current_idx total g = (ok total, g)
  chain (suc n) current_idx total g = do
    (desc, g1) ← read_descriptor le dram_base (l.queue_addr + current_idx * 16) g
    (total1, g2) ← fill desc total g1
    elim (bit_and desc.flags 1 == 0) [
      | true ↦ (ok total1, g2)
      | false ↦ chain n desc.next total1 g2
    ]

  -- One request: its chain, and the entry of the used ring.
  unfoldable pub serve : ℕ → Guest H → Answer H (Unit {0})
  unfolding chain read_u16 write_u32
  serve used_idx g =
      let entry = l.queue_addr + l.used_offset + 4 + used_idx % l.queue_num * 8 in
      do
        (head, g1) ←
            read_u16 le dram_base (l.queue_addr + l.avail_offset + 4 + used_idx % l.queue_num * 2) g
        (total, g2) ← chain 64 head 0 g1
        (_, g3) ← write_u32 le dram_base entry head g2
        write_u32 le dram_base (entry + 4) total g3

module _ {H : Type 0} (le : ByteOrder) (dram_base : ℕ) where
  -- After the loop: the index is stored and the driver interrupted, unless it asked not to be;
  -- the flag tells whether the interrupt callback was called.
  unfoldable pub complete : VirtioRng → ℕ → ℕ → ℕ → ℕ → Guest H → Answer H (VirtioRng × Bool)
  unfolding write_u16 trigger_interrupt
  complete v flags used_idx_addr start used_idx g = do
    (_, g1) ← if used_idx != start then write_u16 le dram_base used_idx_addr used_idx g else done g
    (ok (if bit_and flags 1 == 0 then (trigger_interrupt v, true) else (v, false)), g1)

  -- The three words that `process_queue` reads first: the flags and the two indices.
  unfoldable pub read_indices : Layout → Guest H → Answer H (ℕ × ℕ × ℕ)
  unfolding read_u16
  read_indices l g = do
    (flags, g1) ← read_u16 le dram_base (l.queue_addr + l.avail_offset) g
    (avail_idx, g2) ← read_u16 le dram_base (l.queue_addr + l.avail_offset + 2) g1
    (used_idx, g3) ← read_u16 le dram_base (l.queue_addr + l.used_offset + 2) g2
    (ok (flags, avail_idx, used_idx), g3)

  unfoldable pub finish : VirtioRng → Layout → ℕ → ℕ → Answer H ℕ → Answer H (VirtioRng × Bool)
  unfolding complete
  finish v l flags start (ok used_idx, g) =
      complete v flags (l.queue_addr + l.used_offset + 2) start used_idx g
  finish v l flags start (err e, g) = (err e, g)

module _ {H : Type 0} (le : ByteOrder) (dram_base : ℕ) (random : ℕ → H → List ℕ × H) where
  -- The requests, where there are any.
  unfoldable pub process_requests :
      ℕ → VirtioRng → Layout → Answer H (ℕ × ℕ × ℕ) → Option (Answer H (VirtioRng × Bool))
  unfolding serve finish serve_all
  process_requests fuel v l (err e, g) = some (err e, g)
  process_requests fuel v l (ok (flags, avail_idx, used_idx), g) =
      if avail_idx == used_idx
      then some (ok (v, false), g)
      else Option.map (finish le dram_base v l flags used_idx)
          (serve_all (serve le dram_base random l) avail_idx fuel used_idx g)

  unfoldable pub process_queue : ℕ → VirtioRng → Guest H → Option (Answer H (VirtioRng × Bool))
  unfolding read_indices process_requests
  process_queue fuel v g =
      if v.queue_pfn == 0
      then some (ok (v, false), g)
      else if v.queue_num == 0
      then some (ok (v, false), g)
      else process_requests fuel v (layout v) (read_indices le dram_base (layout v) g)
