-- ===== src/Csr/Status.antt =====
-- src/csr.rs: MSTATUS and its view SSTATUS, bit by bit.
use qemu_rust_risc_v.Prelude.{ℕ, ◌<◌, ◌≡◌, arith, Bool, false, ◌&&◌, ◌||◌}
use qemu_rust_risc_v.Prelude.{ltb, ◌==◌, in_range, if◌then◌else◌, bit_and, bit_or}
use qemu_rust_risc_v.Bits.{test_bit, test_bit-and, test_bit-or, test_bit-clear, test_bit-merge}
use qemu_rust_risc_v.Bits.{test_bit_nibble, test_bit_ten, test_bit_single, two_bits_set}
use qemu_rust_risc_v.Bits.{bit_not, shl, test_bit_zero}
use qemu_rust_risc_v.Csr.Addr
use qemu_rust_risc_v.Csr.Defs.{Csr, stored, sstatus_mask, read_mstatus, read, write, merge}
use mathlib.Core.Bool.{xor}

-- FS (bits 14:13) or VS (bits 10:9) is in the state Dirty.
abbrev pub dirty : ℕ → Bool
dirty raw = test_bit raw 13 && test_bit raw 14 || test_bit raw 9 && test_bit raw 10

-- What a read of MSTATUS shows at each bit of the stored word.
abbrev pub shown : ℕ → ℕ → Bool
shown raw i =
    if i == 63
    then dirty raw
    else if in_range 32 35 i
    then (i == 33) || (i == 35)
    else (ltb i 64 && test_bit raw i)

pub read_mstatus_bits :
    (c : Csr) (i : ℕ) → test_bit (read_mstatus c) i ≡ shown (stored c Addr.mstatus) i
unfolding read_mstatus stored xor
read_mstatus_bits c i =
    let raw = stored c Addr.mstatus in
    let hole = bit_and raw (bit_not 64 (shl 64 0xF 32)) in
    let value = bit_or hole (shl 64 0xA 32) in
    let low = bit_and value (bit_not 64 (shl 64 1 63)) in
    ground (
      arith,
      two_bits_set 13 raw,
      two_bits_set 9 raw,
      test_bit-or low (shl 64 1 63) i,
      test_bit-or low 0 i,
      test_bit_zero i,
      test_bit-clear 64 value (shl 64 1 63) i,
      test_bit_single 63 i,
      test_bit-or hole (shl 64 0xA 32) i,
      test_bit_ten 32 i,
      test_bit-clear 64 raw (shl 64 0xF 32) i,
      test_bit_nibble 32 i,
    )

-- A write to SSTATUS, as seen in MSTATUS: the bits under the mask come from the value and the
-- others stay, apart from SD (bit 63), which is computed, and SXL and UXL (bits 35 to 32), which
-- are fixed.
pub mstatus-write-sstatus :
    (c : Csr) (value i : ℕ)
    → i < 63
    → in_range 32 35 i ≡ false
    → test_bit (read (write c Addr.sstatus value) Addr.mstatus) i
      ≡ (if test_bit sstatus_mask i then test_bit value i else test_bit (read c Addr.mstatus) i)
unfolding read write merge stored xor
mstatus-write-sstatus c value i below other =
    let old = stored c Addr.mstatus in
    let merged = bit_or (bit_and old (bit_not 64 sstatus_mask)) (bit_and value sstatus_mask) in
    ground (
      arith,
      read_mstatus_bits (write c Addr.sstatus value) i,
      read_mstatus_bits c i,
      test_bit-clear 64 merged (shl 64 1 63) i,
      test_bit_single 63 i,
      test_bit-merge 64 sstatus_mask old value i,
    )

-- SSTATUS shows exactly the bits of MSTATUS that lie under the mask.
pub sstatus_bits :
    (c : Csr) (i : ℕ)
    → test_bit (read c Addr.sstatus) i
      ≡ (test_bit (read c Addr.mstatus) i && test_bit sstatus_mask i)
unfolding read
sstatus_bits c i = test_bit-and (read_mstatus c) sstatus_mask i

-- A write to MSTATUS is read back, apart from the same five bits.
pub mstatus-write-mstatus :
    (c : Csr) (value i : ℕ)
    → i < 63
    → in_range 32 35 i ≡ false
    → test_bit (read (write c Addr.mstatus value) Addr.mstatus) i ≡ test_bit value i
unfolding read write stored xor
mstatus-write-mstatus c value i below other = ground (
  arith,
  read_mstatus_bits (write c Addr.mstatus value) i,
  test_bit-clear 64 value (shl 64 1 63) i,
  test_bit_single 63 i,
)
