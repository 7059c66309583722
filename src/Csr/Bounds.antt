-- ===== src/Csr/Bounds.antt =====
-- src/csr.rs: the width of the words that `write` stores and `read` shows.
use qemu_rust_risc_v.Prelude.{ℕ, ◌^◌, ◌<◌, ◌≡◌, refl, arith}
use qemu_rust_risc_v.Prelude.{◌==◌, if◌then◌else◌}
use qemu_rust_risc_v.Prelude.{bit_and, bit_or}
use qemu_rust_risc_v.Bits.{shl}
use qemu_rust_risc_v.Bits.{bit_not, bit_and-lt, bit_and-lt_right, bit_or-lt}
use qemu_rust_risc_v.Csr.Addr
use qemu_rust_risc_v.Csr.Defs.{Csr, stored, insert, read, write, merge, mideleg_force}
use qemu_rust_risc_v.Csr.Defs.{mideleg_writable, sstatus_mask, sie_mask, sip_writable, mip_writable}
use qemu_rust_risc_v.Csr.Defs.{force_xlen, read_mstatus}
use qemu_rust_risc_v.Bits.{lt-of-test_bit}
use qemu_rust_risc_v.Csr.Status.{read_mstatus_bits}

merge-lt : (mask old value : ℕ) → old < 2 ^ 64 → mask < 2 ^ 64 → merge mask old value < 2 ^ 64
unfolding merge
merge-lt mask old value h k =
    bit_or-lt 64 (bit_and old (bit_not 64 mask)) (bit_and value mask)
      (bit_and-lt 64 old (bit_not 64 mask) h) (bit_and-lt_right 64 value mask k)

-- The words that `write` inserts, each named and bounded.
frm_word-lt :
    (old value : ℕ)
    → old < 2 ^ 64
    → bit_or (bit_and old (bit_not 64 0xE0)) (shl 64 (bit_and value 0x7) 5) < 2 ^ 64
frm_word-lt old value h =
    bit_or-lt 64 (bit_and old (bit_not 64 0xE0)) (shl 64 (bit_and value 0x7) 5)
      (bit_and-lt 64 old (bit_not 64 0xE0) h) (omega arith)

mideleg_word-lt : (value : ℕ) → bit_or (bit_and value mideleg_writable) mideleg_force < 2 ^ 64
mideleg_word-lt value =
    bit_or-lt 64 (bit_and value mideleg_writable) mideleg_force
      (bit_and-lt_right 64 value mideleg_writable (omega arith)) (omega arith)

stored-insert :
    (c : Csr) (addr value a : ℕ)
    → stored (insert c addr value) a ≡ (if a == addr then value else stored c a)
unfolding stored
stored-insert c addr value a = ground arith

read-mip : (c : Csr) → read c Addr.mip ≡ stored c Addr.mip
unfolding read
read-mip c = refl

pub write-words :
    (c : Csr) (addr value a : ℕ)
    → ((b : ℕ) → stored c b < 2 ^ 64)
    → value < 2 ^ 64
    → stored (write c addr value) a < 2 ^ 64
unfolding write
write-words c addr value a h k = ground (
  arith,
  h a,
  stored-insert c addr (bit_and value (bit_not 64 (shl 64 1 63))) a,
  bit_and-lt 64 value (bit_not 64 (shl 64 1 63)) k,
  stored-insert c Addr.mstatus status_word a,
  bit_and-lt 64 (merge sstatus_mask (stored c Addr.mstatus) value) (bit_not 64 (shl 64 1 63))
      (merge-lt sstatus_mask (stored c Addr.mstatus) value (h Addr.mstatus) (omega arith)),
  stored-insert c addr value a,
  stored-insert c Addr.fcsr (merge 0x1F (stored c Addr.fcsr) value) a,
  merge-lt 0x1F (stored c Addr.fcsr) value (h Addr.fcsr) (omega arith),
  stored-insert c Addr.fcsr frm_word a,
  frm_word-lt (stored c Addr.fcsr) value (h Addr.fcsr),
  stored-insert c Addr.mie (merge sie_mask (stored c Addr.mie) value) a,
  merge-lt sie_mask (stored c Addr.mie) value (h Addr.mie) (omega arith),
  stored-insert c Addr.mip (merge sip_writable (stored c Addr.mip) value) a,
  merge-lt sip_writable (stored c Addr.mip) value (h Addr.mip) (omega arith),
  stored-insert c addr (bit_or (bit_and value mideleg_writable) mideleg_force) a,
  mideleg_word-lt value,
  stored-insert c addr (merge mip_writable (read c addr) value) a,
  mip_word addr,
)
  where
    status_word : ℕ
    status_word =
        bit_and (merge sstatus_mask (stored c Addr.mstatus) value) (bit_not 64 (shl 64 1 63))

    frm_word : ℕ
    frm_word =
        bit_or (bit_and (stored c Addr.fcsr) (bit_not 64 0xE0)) (shl 64 (bit_and value 0x7) 5)

    mip_word : (b : ℕ) → b ≡ Addr.mip → merge mip_writable (read c b) value < 2 ^ 64
    mip_word b e =
        merge-lt mip_writable (read c b) value (rw (e, read-mip c) (h Addr.mip)) (omega arith)

pub mstatus-lt : (c : Csr) → read_mstatus c < 2 ^ 64
mstatus-lt c = lt-of-test_bit 64 (read_mstatus c) (λ i p. ground (arith, read_mstatus_bits c i))

pub force_xlen-lt : (k raw : ℕ) → raw < 2 ^ 64 → force_xlen k raw < 2 ^ 64
unfolding force_xlen
force_xlen-lt k raw h =
    bit_or-lt 64 (bit_and raw (bit_not 64 (shl 64 0x3 k))) (shl 64 2 k)
      (bit_and-lt 64 raw (bit_not 64 (shl 64 0x3 k)) h) (omega arith)
