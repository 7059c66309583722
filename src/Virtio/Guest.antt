-- ===== src/Virtio/Guest.antt =====
-- src/virtio.rs and src/virtio_rng.rs: the memory helpers at the end of both files, which are the
-- same, and the descriptors. The state is the memory and what the device has of the host, the disk
-- image or the source of random bytes. Sums and differences that leave 64 bits panic.
use qemu_rust_risc_v.Prelude.{
  ℕ, ◌+◌, ◌-◌, ◌^◌, ◌||◌, ltb, leb, if◌then◌else◌, List, [], ◌∷◌, Result, ok, err,
}
use qemu_rust_risc_v.Dram.Defs
use qemu_rust_risc_v.Dram.Defs.{ByteOrder, Dram, Failure, panicked}

pub data QueueError : Type 0 where
  memory_failed : Failure → QueueError
  chain_too_long chain_too_short : QueueError

pub record Guest (H : Type 0) : Type 0 where
  pub dram : Dram
  pub host : H

abbrev pub Answer : Type 0 → Type 0 → Type 0
Answer H A = Result A QueueError × Guest H

module _ {H : Type 0} where
  infixl 5 ◌>>=◌
  abbrev pub ◌>>=◌ : {A C : Type 0} → Answer H A → (A × Guest H → Answer H C) → Answer H C
  (ok a, g) >>= k = k (a, g)
  (err e, g) >>= k = (err e, g)

  abbrev pub done : Guest H → Answer H (Unit {0})
  done g = (ok tt, g)

  abbrev pub panic : {A : Type 0} → Guest H → Answer H A
  panic g = (err (memory_failed panicked), g)

  abbrev pub loaded : Guest H → Result ℕ Failure → Answer H ℕ
  loaded g (ok v) = (ok v, g)
  loaded g (err e) = (err (memory_failed e), g)

  abbrev pub stored : Guest H → Result Dram Failure → Answer H (Unit {0})
  stored g (ok d) = (ok tt, record g { dram = d })
  stored g (err e) = (err (memory_failed e), g)

-- `struct VirtqDesc`
pub record VirtqDesc : Type 0 where
  pub addr : ℕ
  pub len : ℕ
  pub flags : ℕ
  pub next : ℕ

-- `addr - dram_base` of an address that was computed in 64 bits.
abbrev pub at_guest : {H A : Type 0} → ℕ → ℕ → Guest H → (ℕ → Answer H A) → Answer H A
at_guest dram_base addr g k =
    if leb (2 ^ 64) addr || ltb addr dram_base then panic g else k (addr - dram_base)

module _ {H : Type 0} (le : ByteOrder) (dram_base : ℕ) where
  unfoldable pub read_u8 : ℕ → Guest H → Answer H ℕ
  read_u8 addr g = at_guest dram_base addr g (λ a. loaded g (Defs.read8 g.dram a))

  unfoldable pub write_u8 : ℕ → ℕ → Guest H → Answer H (Unit {0})
  write_u8 addr value g = at_guest dram_base addr g (λ a. stored g (Defs.write8 g.dram a value))

  unfoldable pub read_u16 : ℕ → Guest H → Answer H ℕ
  read_u16 addr g = at_guest dram_base addr g (λ a. loaded g (Defs.read16 le g.dram a))

  unfoldable pub write_u16 : ℕ → ℕ → Guest H → Answer H (Unit {0})
  write_u16 addr value g =
      at_guest dram_base addr g (λ a. stored g (Defs.write16 le g.dram a value))

  unfoldable pub read_u32 : ℕ → Guest H → Answer H ℕ
  read_u32 addr g = at_guest dram_base addr g (λ a. loaded g (Defs.read32 le g.dram a))

  unfoldable pub write_u32 : ℕ → ℕ → Guest H → Answer H (Unit {0})
  write_u32 addr value g =
      at_guest dram_base addr g (λ a. stored g (Defs.write32 le g.dram a value))

  unfoldable pub read_u64 : ℕ → Guest H → Answer H ℕ
  read_u64 addr g = at_guest dram_base addr g (λ a. loaded g (Defs.read64 le g.dram a))

  unfoldable pub read_descriptor : ℕ → Guest H → Answer H VirtqDesc
  unfolding read_u16 read_u32 read_u64
  read_descriptor addr g = do
    (addr_val, g1) ← read_u64 addr g
    (len, g2) ← read_u32 (addr + 8) g1
    (flags, g3) ← read_u16 (addr + 12) g2
    (next, g4) ← read_u16 (addr + 14) g3
    (ok (record { addr = addr_val; len = len; flags = flags; next = next }), g4)

  -- The loops that write the bytes of a buffer one by one.
  unfoldable pub write_bytes : ℕ → List ℕ → Guest H → Answer H (Unit {0})
  unfolding write_u8
  write_bytes addr [] g = done g
  write_bytes addr (b ∷ bs) g = do (_, g1) ← write_u8 addr b g; write_bytes (addr + 1) bs g1
