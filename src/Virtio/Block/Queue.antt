-- ===== src/Virtio/Block/Queue.antt =====
-- src/virtio.rs: `process_queue` of the block device. The loop over the requests is on fuel; `none` is
-- that the fuel ran out.
use qemu_rust_risc_v.Prelude.{
  ℕ, zero, suc, ◌+◌, ◌*◌, ◌-◌, ◌/◌, ◌%◌, ◌^◌, Bool, true, false, ◌==◌, ◌!=◌, leb, if◌then◌else◌,
  bit_and, List, [], ◌∷◌, Option, some, ok, err,
}
use qemu_rust_risc_v.Bits.{shl}
use qemu_rust_risc_v.Dram.Defs.{ByteOrder}
use qemu_rust_risc_v.Virtio.Guest.{
  Guest, Answer, ◌>>=◌, done, panic, VirtqDesc, chain_too_long, chain_too_short, read_u16, write_u8,
  write_u16, write_u32, read_descriptor,
}
use qemu_rust_risc_v.Virtio.Rounds.{serve_all}
use qemu_rust_risc_v.Virtio.Rng.Queue.{Layout, read_indices}
use qemu_rust_risc_v.Virtio.Block.Defs.{VirtioBlock, trigger_interrupt}
use qemu_rust_risc_v.Virtio.Block.Requests.{
  DiskFile, DataBuffer, RequestHeader, total_len, read_request_header, handle_read_request_sg,
  handle_write_request_sg, handle_flush_request, handle_get_id_request,
}
use mathlib.Core.Option

-- The used ring starts at the next multiple of the alignment, which is not zero.
abbrev pub layout : VirtioBlock → Layout
layout v =
    let avail = v.queue_num * 16 in
    let ring_end = avail + (4 + 2 * v.queue_num + 2) in
    record {
      queue_addr = shl 64 v.queue_pfn 12;
      queue_num = v.queue_num;
      avail_offset = avail;
      used_offset = (ring_end + v.queue_align - 1) / v.queue_align * v.queue_align;
    }

-- The descriptors between the first and the last as buffers, with the last.
abbrev pub split_last : VirtqDesc → List VirtqDesc → List DataBuffer × VirtqDesc
split_last d [] = ([], d)
split_last d (e ∷ ds) =
    let (buffers, last) = split_last e ds in (record { addr = d.addr; len = d.len } ∷ buffers, last)

module _ {H : Type 0} (le : ByteOrder) (dram_base : ℕ) (file : DiskFile H) (v : VirtioBlock)
    (l : Layout) where
  -- The chain from a descriptor on; it may have `n` more.
  unfoldable pub read_chain : ℕ → ℕ → Guest H → Answer H (List VirtqDesc)
  unfolding read_descriptor
  read_chain zero current_idx g = (err chain_too_long, g)
  read_chain (suc n) current_idx g = do
    (desc, g1) ← read_descriptor le dram_base (l.queue_addr + current_idx * 16) g
    elim (bit_and desc.flags 1 == 0) [
      | true ↦ (ok (desc ∷ []), g1)
      | false ↦ do (descs, g2) ← read_chain n desc.next g1; (ok (desc ∷ descs), g2)
    ]

  -- The status byte with the length for the used ring.
  abbrev pub with_len : ℕ → Answer H ℕ → Answer H (ℕ × ℕ)
  with_len len (ok status, g) = (ok (status, len), g)
  with_len len (err e, g) = (err e, g)

  -- A length of 32 bits plus one; the sum panics where it does not fit.
  abbrev pub one_more : ℕ → Answer H ℕ → Answer H (ℕ × ℕ)
  one_more len (ok status, g) =
      if leb (2 ^ 32) (len + 1) then panic g else (ok (status, len + 1), g)
  one_more len (err e, g) = (err e, g)

  abbrev pub get_id : List DataBuffer → Guest H → Answer H (ℕ × ℕ)
  get_id [] g = (ok (2, 1), g)
  get_id (b ∷ bs) g = one_more b.len (handle_get_id_request le dram_base file b.addr b.len g)

  -- The sum of the lengths is taken in 32 bits and panics where it does not fit.
  unfoldable pub dispatch : RequestHeader → List DataBuffer → Guest H → Answer H (ℕ × ℕ)
  unfolding handle_read_request_sg handle_write_request_sg handle_flush_request
      handle_get_id_request
  dispatch header buffers g =
      if leb (2 ^ 32) (total_len buffers)
      then panic g
      else if header.req_type == 0
      then one_more (total_len buffers)
          (handle_read_request_sg le dram_base file v header.sector buffers g)
      else if header.req_type == 1
      then with_len 1 (handle_write_request_sg le dram_base file v header.sector buffers g)
      else if header.req_type == 4
      then with_len 1 (handle_flush_request le dram_base file g)
      else if header.req_type == 8
      then get_id buffers g
      else (ok (2, 1), g)

  -- A request of at least two descriptors: the header, the buffers and the status.
  unfoldable pub handle_chain : ℕ → List VirtqDesc → Guest H → Answer H ℕ
  unfolding read_request_header dispatch write_u8
  handle_chain used_idx [] g = (err chain_too_short, g)
  handle_chain used_idx (d ∷ []) g = (err chain_too_short, g)
  handle_chain used_idx (d ∷ (e ∷ ds)) g =
      let (buffers, last) = split_last e ds in
      do
        (header, g1) ← read_request_header le dram_base file d.addr g
        (answer, g2) ← dispatch header buffers g1
        (_, g3) ← write_u8 le dram_base last.addr answer.0 g2
        (ok answer.1, g3)

  unfoldable pub serve : ℕ → Guest H → Answer H (Unit {0})
  unfolding read_chain handle_chain read_u16 write_u32
  serve used_idx g =
      let entry = l.queue_addr + l.used_offset + 4 + used_idx % l.queue_num * 8 in
      if l.queue_num == 0 then panic g else (do
        (head, g1) ←
            read_u16 le dram_base (l.queue_addr + l.avail_offset + 4 + used_idx % l.queue_num * 2) g
        (descs, g2) ← read_chain 256 head g1
        (used_len, g3) ← handle_chain used_idx descs g2
        (_, g4) ← write_u32 le dram_base entry head g3
        write_u32 le dram_base (entry + 4) used_len g4)

module _ {H : Type 0} (le : ByteOrder) (dram_base : ℕ) where
  -- After the loop: the index is stored and the driver interrupted, unless it asked not to be;
  -- the flag tells whether the interrupt callback was called.
  unfoldable pub complete : VirtioBlock → ℕ → ℕ → ℕ → ℕ → Guest H → Answer H (VirtioBlock × Bool)
  unfolding write_u16 trigger_interrupt
  complete v flags used_idx_addr start used_idx g = do
    (_, g1) ← if used_idx != start then write_u16 le dram_base used_idx_addr used_idx g else done g
    (ok (if bit_and flags 1 == 0 then (trigger_interrupt v, true) else (v, false)), g1)

  unfoldable pub finish : VirtioBlock → Layout → ℕ → ℕ → Answer H ℕ → Answer H (VirtioBlock × Bool)
  unfolding complete
  finish v l flags start (ok used_idx, g) =
      complete v flags (l.queue_addr + l.used_offset + 2) start used_idx g
  finish v l flags start (err e, g) = (err e, g)

module _ {H : Type 0} (le : ByteOrder) (dram_base : ℕ) (file : DiskFile H) where
  -- The requests, where there are any.
  unfoldable pub process_requests :
      ℕ → VirtioBlock → Layout → Answer H (ℕ × ℕ × ℕ) → Option (Answer H (VirtioBlock × Bool))
  unfolding serve finish serve_all
  process_requests fuel v l (err e, g) = some (err e, g)
  process_requests fuel v l (ok (flags, avail_idx, used_idx), g) =
      if avail_idx == used_idx
      then some (ok (v, false), g)
      else Option.map (finish le dram_base v l flags used_idx)
          (serve_all (serve le dram_base file v l) avail_idx fuel used_idx g)

  -- An alignment of zero is a division by zero.
  unfoldable pub process_queue : ℕ → VirtioBlock → Guest H → Option (Answer H (VirtioBlock × Bool))
  unfolding read_indices process_requests
  process_queue fuel v g =
      if v.queue_pfn == 0
      then some (ok (v, false), g)
      else if v.queue_align == 0
      then some (panic g)
      else process_requests fuel v (layout v) (read_indices le dram_base (layout v) g)
