-- ===== src/Csr/Flags.antt =====
-- src/csr.rs: the narrow views (FFLAGS and FRM over FCSR, SIE over MIE, SIP over MIP), and the
-- registers whose writes are filtered (MIDELEG, MIP, TSELECT and SATP).
use qemu_rust_risc_v.Prelude.{ℕ, ◌+◌, ◌-◌, ◌%◌, ◌≡◌, ◌≢◌, arith, ap}
use qemu_rust_risc_v.Prelude.{◌&&◌, ◌||◌, ltb, ◌==◌, if◌then◌else◌}
use qemu_rust_risc_v.Prelude.{bit_and, bit_or}
use qemu_rust_risc_v.Bits.{test_bit, test_bit-and, test_bit-or, test_bit-ext, test_bit-merge}
use qemu_rust_risc_v.Bits.{test_bit-shr, test_bit-shl, test_bit-clear, test_bit_ones, test_bit-mod}
use qemu_rust_risc_v.Bits.{bit_not, test_bit-pow, shr, shl}
use qemu_rust_risc_v.Csr.Addr
use qemu_rust_risc_v.Csr.Defs.{Csr, stored, read, write, merge, is_supported}
use qemu_rust_risc_v.Csr.Defs.{
  sie_mask, sip_writable, mip_writable, mideleg_force, mideleg_writable,
}
use mathlib.Core.Bool.{xor}

-- Bit `i` of the mask 0xE0 of the rounding mode.
test_bit_frm_mask : (i : ℕ) → test_bit 0xE0 i ≡ (ltb i 64 && (ltb 4 i && ltb i 8))
test_bit_frm_mask i = ground (arith, test_bit-shl 64 5 0x7 i, test_bit_ones 3 (i - 5))

-- Bit `i` of FCSR after a write of FRM.
frm_merge_bits :
    (old value i : ℕ)
    → test_bit (bit_or (bit_and old (bit_not 64 0xE0)) (shl 64 (bit_and value 0x7) 5)) i
      ≡ (if ltb 4 i && ltb i 8 then test_bit value (i - 5) else (ltb i 64 && test_bit old i))
unfolding xor
frm_merge_bits old value i = ground (
  arith,
  test_bit-or (bit_and old (bit_not 64 0xE0)) (shl 64 (bit_and value 0x7) 5) i,
  test_bit-clear 64 old 0xE0 i,
  test_bit_frm_mask i,
  test_bit-shl 64 5 (bit_and value 0x7) i,
  test_bit-and value 0x7 (i - 5),
  test_bit_ones 3 (i - 5),
)

-- A write to FFLAGS is read back modulo 32, FRM reads as before, and FCSR takes its five low bits
-- from the value and keeps the others (bits 5 to 63).
pub fflags_roundtrip :
    (c : Csr) (value i : ℕ)
    → let d = write c Addr.fflags value in
      (read d Addr.fflags ≡ value % 32)
      × (read d Addr.frm ≡ read c Addr.frm)
      × (test_bit (read d Addr.fcsr) i
          ≡ (if ltb i 5 then test_bit value i else (ltb i 64 && test_bit (read c Addr.fcsr) i)))
unfolding read write merge stored
fflags_roundtrip c value i = (flags, mode, bits i)
  where
    old : ℕ
    old = stored c Addr.fcsr

    new : ℕ
    new = bit_or (bit_and old (bit_not 64 0x1F)) (bit_and value 0x1F)

    bits :
        (i : ℕ)
        → test_bit new i ≡ (if ltb i 5 then test_bit value i else (ltb i 64 && test_bit old i))
    bits i = ground (arith, test_bit-merge 64 0x1F old value i, test_bit_ones 5 i)

    flags : bit_and new 0x1F ≡ value % 32
    flags = test_bit-ext (bit_and new 0x1F) (value % 32) (λ i.
        ground (arith, test_bit-and new 0x1F i, test_bit_ones 5 i, bits i, test_bit-mod 5 value i))

    mode : bit_and (shr new 5) 0x7 ≡ bit_and (shr old 5) 0x7
    mode = test_bit-ext (bit_and (shr new 5) 0x7) (bit_and (shr old 5) 0x7) (λ i. ground (
      arith,
      test_bit-and (shr new 5) 0x7 i,
      test_bit-and (shr old 5) 0x7 i,
      test_bit-shr 5 new i,
      test_bit-shr 5 old i,
      test_bit_ones 3 i,
      bits (i + 5),
    ))

-- A write to FRM is read back modulo 8, FFLAGS reads as before, and FCSR takes bits 7 to 5 from the
-- value and keeps the others (up to bit 63).
pub frm_roundtrip :
    (c : Csr) (value i : ℕ)
    → let d = write c Addr.frm value in
      (read d Addr.frm ≡ value % 8)
      × (read d Addr.fflags ≡ read c Addr.fflags)
      × (test_bit (read d Addr.fcsr) i ≡ (
          if ltb 4 i && ltb i 8
          then test_bit value (i - 5)
          else (ltb i 64 && test_bit (read c Addr.fcsr) i)))
unfolding read write stored
frm_roundtrip c value i = (mode, flags, frm_merge_bits old value i)
  where
    old : ℕ
    old = stored c Addr.fcsr

    new : ℕ
    new = bit_or (bit_and old (bit_not 64 0xE0)) (shl 64 (bit_and value 0x7) 5)

    mode : bit_and (shr new 5) 0x7 ≡ value % 8
    mode = test_bit-ext (bit_and (shr new 5) 0x7) (value % 8) (λ i. ground (
      arith,
      test_bit-and (shr new 5) 0x7 i,
      test_bit-shr 5 new i,
      test_bit_ones 3 i,
      test_bit-mod 3 value i,
      frm_merge_bits old value (i + 5),
      ap (test_bit value) (back i),
    ))
      where
        back : (i : ℕ) → i + 5 - 5 ≡ i
        back i = omega arith

    flags : bit_and new 0x1F ≡ bit_and old 0x1F
    flags = test_bit-ext (bit_and new 0x1F) (bit_and old 0x1F) (λ i. ground (
      arith,
      test_bit-and new 0x1F i,
      test_bit-and old 0x1F i,
      test_bit_ones 5 i,
      frm_merge_bits old value i,
    ))

-- A write to SIE changes the three supervisor bits of MIE and no other.
pub mie-write-sie :
    (c : Csr) (value i : ℕ)
    → test_bit (read (write c Addr.sie value) Addr.mie) i ≡ (
        if test_bit sie_mask i
        then test_bit value i
        else (ltb i 64 && test_bit (read c Addr.mie) i))
unfolding read write merge stored
mie-write-sie c value i = test_bit-merge 64 sie_mask (stored c Addr.mie) value i (omega arith)

-- A write to SIP changes SSIP (bit 1) of MIP and no other bit.
pub mip-write-sip :
    (c : Csr) (value i : ℕ)
    → test_bit (read (write c Addr.sip value) Addr.mip) i
      ≡ (if i == 1 then test_bit value i else (ltb i 64 && test_bit (read c Addr.mip) i))
unfolding read write merge stored
mip-write-sip c value i =
    ground (arith, test_bit-merge 64 sip_writable (stored c Addr.mip) value i, test_bit-pow 1 i)

-- A write to MIP changes SSIP, STIP and SEIP and leaves the bits that hardware drives.
pub mip-write-mip :
    (c : Csr) (value i : ℕ)
    → test_bit (read (write c Addr.mip value) Addr.mip) i ≡ (
        if test_bit mip_writable i
        then test_bit value i
        else (ltb i 64 && test_bit (read c Addr.mip) i))
unfolding read write merge stored
mip-write-mip c value i = test_bit-merge 64 mip_writable (stored c Addr.mip) value i (omega arith)

-- MIDELEG keeps the low sixteen bits of what is written, with the forced bits set.
pub mideleg-write :
    (c : Csr) (value i : ℕ)
    → test_bit (read (write c Addr.mideleg value) Addr.mideleg) i
      ≡ (test_bit mideleg_force i || ltb i 16 && test_bit value i)
unfolding read write stored
mideleg-write c value i = ground (
  arith,
  test_bit-or (bit_and value mideleg_writable) mideleg_force i,
  test_bit-and value mideleg_writable i,
  test_bit_ones 16 i,
)

-- A write of a mode other than Bare, Sv39, Sv48 and Sv57 to SATP changes nothing.
pub satp-write_unsupported :
    (c : Csr) (value : ℕ)
    → let mode = bit_and (shr value 60) 0xF in
      mode ≢ 0 → mode ≢ 8 → mode ≢ 9 → mode ≢ 10 → write c Addr.satp value ≡ c
unfolding write is_supported
satp-write_unsupported c value a b d e = ground arith
