-- ===== src/Tests/Virtio.antt =====
-- Queues with one request in guest memory at 0x1000, and a disk that fails.
use qemu_rust_risc_v.Prelude.{
  ℕ, zero, suc, ◌^◌, ◌<◌, ◌≡◌, refl, arith, Bool, true, false, ◌&&◌, ltb, List, [], ◌∷◌, ◌++◌,
  get_or, replicate, none, some, ok,
}
use qemu_rust_risc_v.Dram.Defs.{size}
use qemu_rust_risc_v.Virtio.Guest.{Guest, Answer}
use qemu_rust_risc_v.Virtio.Indices.{AreBytes}
use qemu_rust_risc_v.Virtio.Rng.Defs as RngDefs
use qemu_rust_risc_v.Virtio.Rng.Defs.{VirtioRng}
use qemu_rust_risc_v.Virtio.Rng.Queue as RngQueue
use qemu_rust_risc_v.Virtio.Rng.Termination.{process_queue-Total}
use qemu_rust_risc_v.Virtio.Block.Defs as BlockDefs
use qemu_rust_risc_v.Virtio.Block.Defs.{VirtioBlock}
use qemu_rust_risc_v.Virtio.Block.Requests.{DiskFile, DataBuffer, scatter, gather}
use qemu_rust_risc_v.Virtio.Block.Queue as BlockQueue
use qemu_rust_risc_v.Virtio.Block.Termination.{block_queue-Total}
use qemu_rust_risc_v.Virtio.Block.Transfer.{gather-scatter}
use qemu_rust_risc_v.Tests.Dram.{little, little_laws}

-- A descriptor of a buffer of four bytes that the device writes, and the available ring with it.
abbrev ring : List ℕ
ring =
    0x48 ∷ 0x10 ∷ 0 ∷ 0 ∷ 0 ∷ 0 ∷ 0 ∷ 0 ∷ 4 ∷ 0 ∷ 0 ∷ 0 ∷ 2 ∷ 0 ∷ 0 ∷ 0 ∷ 0 ∷ 0 ∷ 1 ∷ 0 ∷ 0 ∷ 0 ∷ []

abbrev guest : Guest (Unit {0})
guest = record { dram = record { memory = ring ++ replicate 4200 0 }; host = tt }

abbrev all_bytes : List ℕ → Bool
all_bytes [] = true
all_bytes (x ∷ xs) = ltb x 256 && all_bytes xs

zeros_small : (n k : ℕ) → get_or (replicate n 0) k 0 < 256
zeros_small zero k = omega arith
zeros_small (suc n) zero = omega arith
zeros_small (suc n) (suc k) = zeros_small n k

extended : (xs : List ℕ) (n k : ℕ) → all_bytes xs ≡ true → get_or (xs ++ replicate n 0) k 0 < 256
extended [] n k h = zeros_small n k
extended (x ∷ xs) n zero h = ground (arith, h)
extended (x ∷ xs) n (suc k) h = extended xs n k (ground (arith, h))

guest-AreBytes : AreBytes guest
guest-AreBytes k = extended ring 4200 k refl

abbrev pub random : ℕ → Unit {0} → List ℕ × Unit {0}
random n h = (replicate n 9, h)

abbrev pub no_disk : DiskFile (Unit {0})
no_disk = record {
  seek = λ offset h. (false, h);
  read_exact = λ n h. (none, h);
  write_all = λ bs h. (false, h);
  sync_all = λ h. (false, h);
}

abbrev rng : VirtioRng
rng = record RngDefs.new { queue_num = 1; queue_pfn = 1 }

abbrev block : VirtioBlock
block = record (BlockDefs.new 4096) { queue_num = 1; queue_pfn = 1 }

process_queue-Total_example :
    (a : Answer (Unit {0}) (VirtioRng × Bool)) × (RngQueue.process_queue little 0x1000 random
        (2 ^ 16)
        rng
        guest
      ≡ some a)
process_queue-Total_example =
    process_queue-Total little little_laws 0x1000 random rng guest guest-AreBytes

block_queue-Total_example :
    (a : Answer (Unit {0}) (VirtioBlock × Bool)) × (BlockQueue.process_queue little 0x1000 no_disk
        (2 ^ 16)
        block
        guest
      ≡ some a)
block_queue-Total_example =
    block_queue-Total little little_laws 0x1000 no_disk block guest guest-AreBytes

abbrev small_guest : Guest (Unit {0})
small_guest = record { dram = record { memory = replicate 16 0 }; host = tt }

abbrev buffer : DataBuffer
buffer = record { addr = 0x1004; len = 3 }

gather-scatter_example :
    (g1 : Guest (Unit {0})) × (scatter little 0x1000 no_disk
        (buffer ∷ [])
        (7 ∷ 8 ∷ 9 ∷ [])
        small_guest
      ≡ (ok 0, g1))
    × (size g1.dram ≡ size small_guest.dram)
    × (g1.host ≡ small_guest.host)
    × (gather little 0x1000 no_disk (buffer ∷ []) g1 ≡ (ok (7 ∷ 8 ∷ 9 ∷ []), g1))
gather-scatter_example =
    gather-scatter little 0x1000 no_disk buffer (7 ∷ 8 ∷ 9 ∷ []) small_guest
      (omega arith, omega arith, omega arith) refl
