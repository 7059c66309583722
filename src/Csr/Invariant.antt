-- ===== src/Csr/Invariant.antt =====
-- src/csr.rs: the invariant of the register file under `write`.
use qemu_rust_risc_v.Prelude.{ℕ, ◌^◌, ◌<◌, ◌≡◌, arith}
use qemu_rust_risc_v.Prelude.{true, false}
use qemu_rust_risc_v.Prelude.{bit_and}
use qemu_rust_risc_v.Bits.{test_bit, test_bit-clear, test_bit_single, shl, shr}
use qemu_rust_risc_v.Bits.{bit_and-lt, bit_and-lt_right}
use qemu_rust_risc_v.Csr.Addr
use qemu_rust_risc_v.Csr.Defs.{Csr, stored, read, write, merge, is_supported}
use qemu_rust_risc_v.Csr.Defs.{sstatus_mask, sie_mask}
use qemu_rust_risc_v.Csr.Defs.{read_mstatus}
use mathlib.Core.Bool.{xor}
use qemu_rust_risc_v.Csr.Bounds.{write-words, mstatus-lt, force_xlen-lt}

-- The stored words fit 64 bits, SD is never stored, SATP holds a mode that the walker knows, and
-- TSELECT names a trigger.
pub record IsValid (c : Csr) : Type 0 where
  pub words : (a : ℕ) → stored c a < 2 ^ 64
  pub sd_clear : test_bit (stored c Addr.mstatus) 63 ≡ false
  pub satp_mode : is_supported (bit_and (shr (stored c Addr.satp) 60) 0xF) ≡ true
  pub trigger : stored c Addr.tselect < c.num_triggers

-- The stored MSTATUS has SD clear after any write.
write-sd_clear :
    (c : Csr) (addr value : ℕ)
    → test_bit (stored c Addr.mstatus) 63 ≡ false
    → test_bit (stored (write c addr value) Addr.mstatus) 63 ≡ false
unfolding write stored xor
write-sd_clear c addr value h = ground (
  arith,
  test_bit-clear 64 value (shl 64 1 63) 63,
  test_bit-clear 64 (merge sstatus_mask (stored c Addr.mstatus) value) (shl 64 1 63) 63,
  test_bit_single 63 63,
)

write-satp_mode :
    (c : Csr) (addr value : ℕ)
    → is_supported (bit_and (shr (stored c Addr.satp) 60) 0xF) ≡ true
    → is_supported (bit_and (shr (stored (write c addr value) Addr.satp) 60) 0xF) ≡ true
unfolding write stored
write-satp_mode c addr value h = ground arith

write-trigger :
    (c : Csr) (addr value : ℕ)
    → stored c Addr.tselect < c.num_triggers
    → stored (write c addr value) Addr.tselect < (write c addr value).num_triggers
unfolding write stored
write-trigger c addr value h = ground arith

-- Every write of a 64-bit word to any address keeps the invariant.
pub write-IsValid :
    (c : Csr) (addr value : ℕ) → value < 2 ^ 64 → IsValid c → IsValid (write c addr value)
write-IsValid c addr value k v = record {
  words = λ a. write-words c addr value a v.words k;
  sd_clear = write-sd_clear c addr value v.sd_clear;
  satp_mode = write-satp_mode c addr value v.satp_mode;
  trigger = write-trigger c addr value v.trigger;
}

-- In a register file with the invariant, a read of any address gives a 64-bit word.
pub read-lt : (c : Csr) (addr : ℕ) → IsValid c → read c addr < 2 ^ 64
unfolding read
read-lt c addr v = ground (
  arith,
  v.words addr,
  v.words Addr.menvcfg,
  mstatus-lt c,
  force_xlen-lt 62 (stored c addr) (v.words addr),
  force_xlen-lt 32 (stored c addr) (v.words addr),
  bit_and-lt 64 (read_mstatus c) sstatus_mask (mstatus-lt c),
  bit_and-lt 64 (stored c Addr.mie) sie_mask (v.words Addr.mie),
  bit_and-lt 64 (stored c Addr.mip) sie_mask (v.words Addr.mip),
  bit_and-lt 64 (stored c Addr.fcsr) 0x1F (v.words Addr.fcsr),
  bit_and-lt_right 64 (shr (stored c Addr.fcsr) 5) 0x7 (omega arith),
)
