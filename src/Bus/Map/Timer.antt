-- ===== src/Bus/Map/Timer.antt =====
-- src/bus.rs: the comparator of the CLINT, written by halves.
use qemu_rust_risc_v.Prelude.{
  ℕ, ◌+◌, ◌-◌, ◌/◌, ◌%◌, ◌^◌, ◌<◌, ◌≡◌, refl, arith, ap, ◌∙◌, ◌&&◌, ltb, leb, bit_and, bit_or, ok,
}
use qemu_rust_risc_v.Bits.{
  test_bit, shl, shr, as_u32, test_bit-ext, test_bit-and, test_bit-or, test_bit-shl, test_bit-mod,
  test_bit-shr, test_bit_ones, test_bit_beyond,
}
use qemu_rust_risc_v.Dram.Defs.{ByteOrder}
use qemu_rust_risc_v.Bus.Lines.{has_timer_interrupt}
use qemu_rust_risc_v.Bus.Map.Regions.{write_clint32}
use qemu_rust_risc_v.Bus.Map.Defs.{Bus, HostOps, read_clint64, read_clint32}
use qemu_rust_risc_v.Bus.Map.Reads.{read64, read32}
use qemu_rust_risc_v.Bus.Map.Writes.{write32}

-- Bits of the mask of the high half.
high_mask : (i : ℕ) → test_bit 0xFFFFFFFF00000000 i ≡ (ltb i 64 && leb 32 i)
high_mask i = test_bit-shl 64 32 0xFFFFFFFF i ∙ ground (arith, test_bit_ones 32 (i - 32))

-- A word from its halves, over any old word.
halves :
    (old v : ℕ)
    → v < 2 ^ 64
    → bit_or
        (bit_and (bit_or (bit_and old 0xFFFFFFFF00000000) (as_u32 v)) 0x00000000FFFFFFFF)
        (shl 64 (shr v 32) 32)
      ≡ v
halves old v h =
    let low = bit_or (bit_and old 0xFFFFFFFF00000000) (as_u32 v) in
    test_bit-ext (bit_or (bit_and low 0x00000000FFFFFFFF) (shl 64 (shr v 32) 32)) v (λ i. ground (
      arith,
      test_bit-or (bit_and low 0xFFFFFFFF) (shl 64 (shr v 32) 32) i,
      test_bit-and low 0xFFFFFFFF i,
      test_bit_ones 32 i,
      test_bit-or (bit_and old 0xFFFFFFFF00000000) (as_u32 v) i,
      test_bit-and old 0xFFFFFFFF00000000 i,
      high_mask i,
      test_bit-mod 32 v i,
      test_bit-shl 64 32 (shr v 32) i,
      test_bit-shr 32 v (i - 32),
      test_bit_beyond 64 v i h,
      ap (test_bit v) {x = i - 32 + 32} {y = i},
    ))

module _ {H : Type 0} (le : ByteOrder) (ops : HostOps H) where
  -- Writing the low and then the high half of a 64-bit word to the comparator, at 0x2004000 and
  -- 0x2004004, succeeds, and both widths of reads give the word and its halves back; the timer
  -- interrupt is then up exactly when the time has reached the word.
  pub mtimecmp_halves :
      (b : Bus H) (v : ℕ)
      → v < 2 ^ 64
      → (b1 b2 : Bus H) × (write32 le ops 0x2004000 (as_u32 v) b ≡ (ok tt, b1))
        × (write32 le ops 0x2004004 (shr v 32) b1 ≡ (ok tt, b2))
        × (read64 le ops 0x2004000 b2 ≡ (ok v, b2))
        × (read32 le ops 0x2004000 b2 ≡ (ok (v % 2 ^ 32), b2))
        × (read32 le ops 0x2004004 b2 ≡ (ok (v / 2 ^ 32), b2))
        × (has_timer_interrupt b2.devices ≡ leb v b.devices.mtime)
  unfolding write32 read64 read32 write_clint32 read_clint64 read_clint32 has_timer_interrupt
  mtimecmp_halves b v h =
      let joined = halves b.devices.mtimecmp v h in
      let first = bit_or (bit_and b.devices.mtimecmp 0xFFFFFFFF00000000) (as_u32 v) in
      let word = bit_or (bit_and first 0x00000000FFFFFFFF) (shl 64 (shr v 32) 32) in
      let b1 : Bus H = record b { devices = record b.devices { mtimecmp = first } } in
      let b2 : Bus H = record b { devices = record b.devices { mtimecmp = word } } in
      let top : as_u32 (shr v 32) ≡ v / 2 ^ 32 = omega (arith, h) in
      (
        b1,
        b2,
        refl,
        refl,
        ap (λ n. (ok n, b2)) joined,
        ap (λ n. (ok (as_u32 n), b2)) joined,
        ap (λ n. (ok (as_u32 (shr n 32)), b2)) joined ∙ ap (λ n. (ok n, b2)) top,
        ap (λ n. leb n b.devices.mtime) joined,
      )
