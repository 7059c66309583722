-- ===== src/Cpu/StatusBits.antt =====
-- src/cpu.rs: the status words that trap entry and return compute, bit by bit.
use qemu_rust_risc_v.Prelude.{ℕ, ◌+◌, ◌-◌, ◌<◌, ◌≡◌, arith, true, false, not, ◌&&◌, ◌||◌}
use qemu_rust_risc_v.Prelude.{◌==◌, in_range, if◌then◌else◌, bit_and, bit_or}
use qemu_rust_risc_v.Bits.{test_bit, test_bit-and, test_bit-or, test_bit-clear, test_bit-shl}
use qemu_rust_risc_v.Bits.{test_bit_single, test_bit_three, test_bit_zero, test_bit_one, shr_bit}
use qemu_rust_risc_v.Bits.{bit_not, shl, shr, test_bit_beyond}
use qemu_rust_risc_v.Trap.{Mode, mode_number}
use qemu_rust_risc_v.Cpu.Defs.{enter_sstatus, enter_mstatus, leave_mstatus, leave_sstatus}
use mathlib.Core.Bool.{xor}

-- `(x & !(1 << k)) | (((x >> j) & 1) << k)`: bit `k` takes bit `j`.
copy_bit :
    (x j k i : ℕ)
    → i < 64
    → test_bit (bit_or (bit_and x (bit_not 64 (shl 64 1 k))) (shl 64 (bit_and (shr x j) 1) k)) i
      ≡ (if i == k then test_bit x j else test_bit x i)
unfolding xor
copy_bit x j k i h = ground (
  arith,
  test_bit-or (bit_and x (bit_not 64 (shl 64 1 k))) (shl 64 (bit_and (shr x j) 1) k) i,
  test_bit-clear 64 x (shl 64 1 k) i,
  test_bit_single k i,
  test_bit-shl 64 k (bit_and (shr x j) 1) i,
  shr_bit j x,
  test_bit_zero (i - k),
  test_bit_one (i - k),
)

clear_bit :
    (x k i : ℕ)
    → i < 64
    → test_bit (bit_and x (bit_not 64 (shl 64 1 k))) i ≡ (not (i == k) && test_bit x i)
unfolding xor
clear_bit x k i h = ground (arith, test_bit-clear 64 x (shl 64 1 k) i, test_bit_single k i)

clear_two :
    (x k i : ℕ)
    → i < 64
    → test_bit (bit_and x (bit_not 64 (shl 64 0x3 k))) i
      ≡ (not (in_range k (k + 1) i) && test_bit x i)
unfolding xor
clear_two x k i h = ground (arith, test_bit-clear 64 x (shl 64 0x3 k) i, test_bit_three k i)

set_bit : (x k i : ℕ) → i < 64 → test_bit (bit_or x (shl 64 1 k)) i ≡ ((i == k) || test_bit x i)
set_bit x k i h = ground (arith, test_bit-or x (shl 64 1 k) i, test_bit_single k i)

pub mode_number-lt : (m : Mode) → mode_number m < 4
unfolding mode_number
mode_number-lt m = ground arith

pub enter_mstatus_bits :
    (x : ℕ) (m : Mode) (i : ℕ)
    → i < 64
    → test_bit (enter_mstatus x m) i ≡ (
        if i == 3
        then false
        else if i == 7
        then test_bit x 3
        else if in_range 11 12 i
        then test_bit (mode_number m) (i - 11)
        else test_bit x i)
unfolding enter_mstatus
enter_mstatus_bits x m i h =
    let m1 = bit_or (bit_and x (bit_not 64 (shl 64 1 7))) (shl 64 (bit_and (shr x 3) 1) 7) in
    let m2 = bit_and m1 (bit_not 64 (shl 64 1 3)) in
    ground (
      arith,
      copy_bit x 3 7 i h,
      clear_bit m1 3 i h,
      clear_two m2 11 i h,
      test_bit-or (bit_and m2 (bit_not 64 (shl 64 0x3 11))) (shl 64 (mode_number m) 11) i,
      test_bit-shl 64 11 (mode_number m) i,
      test_bit_beyond 2 (mode_number m) (i - 11) (mode_number-lt m),
    )

pub leave_mstatus_bits :
    (x i : ℕ)
    → i < 64
    → test_bit (leave_mstatus x) i ≡ (
        if i == 3
        then test_bit x 7
        else if i == 7
        then true
        else if in_range 11 12 i
        then false
        else test_bit x i)
unfolding leave_mstatus
leave_mstatus_bits x i h =
    let m1 = bit_or (bit_and x (bit_not 64 (shl 64 1 3))) (shl 64 (bit_and (shr x 7) 1) 3) in
    let m2 = bit_or m1 (shl 64 1 7) in
    ground (arith, copy_bit x 7 3 i h, set_bit m1 7 i h, clear_two m2 11 i h)

pub enter_sstatus_bits :
    (x : ℕ) (m : Mode) (i : ℕ)
    → i < 64
    → test_bit (enter_sstatus x m) i ≡ (
        if i == 1
        then false
        else if i == 5
        then test_bit x 1
        else if i == 8
        then test_bit (mode_number m) 0
        else test_bit x i)
unfolding enter_sstatus
enter_sstatus_bits x m i h =
    let spp = bit_and (mode_number m) 1 in
    let s1 = bit_or (bit_and x (bit_not 64 (shl 64 1 5))) (shl 64 (bit_and (shr x 1) 1) 5) in
    let s2 = bit_and s1 (bit_not 64 (shl 64 1 1)) in
    ground (
      arith,
      copy_bit x 1 5 i h,
      clear_bit s1 1 i h,
      clear_bit s2 8 i h,
      test_bit-or (bit_and s2 (bit_not 64 (shl 64 1 8))) (shl 64 spp 8) i,
      test_bit-shl 64 8 spp i,
      test_bit-and (mode_number m) 1 (i - 8),
      test_bit_one (i - 8),
    )

pub leave_sstatus_bits :
    (x i : ℕ)
    → i < 64
    → test_bit (leave_sstatus x) i ≡ (
        if i == 1
        then test_bit x 5
        else if i == 5
        then true
        else if i == 8
        then false
        else test_bit x i)
unfolding leave_sstatus
leave_sstatus_bits x i h =
    let s1 = bit_or (bit_and x (bit_not 64 (shl 64 1 1))) (shl 64 (bit_and (shr x 5) 1) 1) in
    let s2 = bit_or s1 (shl 64 1 5) in
    ground (arith, copy_bit x 5 1 i h, set_bit s1 5 i h, clear_bit s2 8 i h)
