-- ===== src/Mmu/Tables.antt =====
-- src/mmu.rs: page tables in memory as the architecture sees them, and the write-back of the A and
-- D bits.
use qemu_rust_risc_v.Prelude.{ℕ, suc, ◌+◌, ◌*◌, ◌^◌, ◌<◌, ◌≡◌, arith, ap}
use qemu_rust_risc_v.Prelude.{Bool, true, false, not, ◌&&◌, ◌||◌, ◌==◌, bit_and, bit_or}
use qemu_rust_risc_v.Prelude.{Option, some, List, get_or}
use qemu_rust_risc_v.Bits.{
  test_bit, test_bit-and, test_bit-or, test_bit-pow, test_bit-shr, test_bit-ext,
}
use qemu_rust_risc_v.Bits.{bit_and-pow-test, test_bit_beyond, lt-of-test_bit, shr}
use qemu_rust_risc_v.Trap.{Mode}
use qemu_rust_risc_v.Mmu.Entry.{AccessType, is_store, pte_ppn, ppn_mask}
use qemu_rust_risc_v.Mmu.Entry.{updated_pte, needs_update}
use qemu_rust_risc_v.Mmu.Permissions.{mode_allowed, beyond, kind_allowed}

-- V, and R or X; W without R is reserved.
abbrev pub is_leaf : ℕ → Bool
is_leaf pte = test_bit pte 0 && (test_bit pte 1 || test_bit pte 3 && not (test_bit pte 2))

-- V alone: the entry points to the table of the next level.
abbrev pub is_pointer : ℕ → Bool
is_pointer pte =
    test_bit pte 0 && (not (test_bit pte 1) && (not (test_bit pte 2) && not (test_bit pte 3)))

-- `Found peek vpn levels base level addr pte`: from the table at `base`, with that many levels to
-- go, the pointers lead to the leaf `pte`, which stands at `addr` and belongs to `level`.
pub data Found (peek : ℕ → Option ℕ) (vpn : List ℕ) : ℕ → ℕ → ℕ → ℕ → ℕ → Type 0 where
  here :
      {level base addr pte : ℕ}
      → addr ≡ base + get_or vpn level 0 * 8
      → peek addr ≡ some pte
      → is_leaf pte ≡ true
      → Found peek vpn (suc level) base level addr pte
  below :
      {top base next level addr pte : ℕ}
      → peek (base + get_or vpn top 0 * 8) ≡ some next
      → is_pointer next ≡ true
      → Found peek vpn top (pte_ppn next * 4096) level addr pte
      → Found peek vpn (suc top) base level addr pte

-- The access is granted by the entry.
abbrev pub granted : ℕ → AccessType → Mode → ℕ → Bool
granted pte access mode mstatus =
    (mode_allowed pte access mode mstatus || beyond pte mode) && kind_allowed pte access mstatus

-- The write-back sets A, sets D for a store, and changes no other bit.
pub updated_pte_bits :
    (pte : ℕ) (access : AccessType) (i : ℕ)
    → test_bit (updated_pte pte access) i
      ≡ (test_bit pte i || ((i == 6) || is_store access && (i == 7)))
unfolding updated_pte
updated_pte_bits pte access i = ground (
  arith,
  bit_and-pow-test 6 pte,
  bit_and-pow-test 7 pte,
  test_bit-or pte (2 ^ 6) i,
  test_bit-or pte (2 ^ 7) i,
  test_bit-or (bit_or pte (2 ^ 6)) (2 ^ 7) i,
  test_bit-pow 6 i,
  test_bit-pow 7 i,
  ap (test_bit pte) {x = i} {y = 6},
  ap (test_bit pte) {x = i} {y = 7},
)

pub pte_ppn-updated_pte :
    (pte : ℕ) (access : AccessType) → pte_ppn (updated_pte pte access) ≡ pte_ppn pte
unfolding pte_ppn
pte_ppn-updated_pte pte access =
    test_bit-ext (bit_and (shr (updated_pte pte access) 10) ppn_mask)
      (bit_and (shr pte 10) ppn_mask)
      (λ i. ground (
        arith,
        test_bit-and (shr (updated_pte pte access) 10) ppn_mask i,
        test_bit-and (shr pte 10) ppn_mask i,
        test_bit-shr 10 (updated_pte pte access) i,
        test_bit-shr 10 pte i,
        updated_pte_bits pte access (i + 10),
      ))

pub is_leaf-updated_pte :
    (pte : ℕ) (access : AccessType) → is_leaf (updated_pte pte access) ≡ is_leaf pte
is_leaf-updated_pte pte access = ground (
  arith,
  updated_pte_bits pte access 0,
  updated_pte_bits pte access 1,
  updated_pte_bits pte access 2,
  updated_pte_bits pte access 3,
)

pub granted-updated_pte :
    (pte : ℕ) (access : AccessType) (mode : Mode) (mstatus : ℕ)
    → granted (updated_pte pte access) access mode mstatus ≡ granted pte access mode mstatus
granted-updated_pte pte access mode mstatus = ground (
  arith,
  updated_pte_bits pte access 1,
  updated_pte_bits pte access 2,
  updated_pte_bits pte access 3,
  updated_pte_bits pte access 4,
)

-- A second access of the same kind has nothing to write back.
pub needs_update-updated_pte :
    (pte : ℕ) (access : AccessType) → needs_update (updated_pte pte access) access ≡ false
unfolding needs_update
needs_update-updated_pte pte access = ground (
  arith,
  bit_and-pow-test 6 (updated_pte pte access),
  bit_and-pow-test 7 (updated_pte pte access),
  updated_pte_bits pte access 6,
  updated_pte_bits pte access 7,
)

pub updated_pte-lt :
    (pte : ℕ) (access : AccessType) → pte < 2 ^ 64 → updated_pte pte access < 2 ^ 64
updated_pte-lt pte access h =
    lt-of-test_bit 64 (updated_pte pte access)
      (λ i p. ground (arith, updated_pte_bits pte access i, test_bit_beyond 64 pte i h p))

-- An entry that needs no update is the updated one.
pub updated_pte_fresh :
    (pte : ℕ) (access : AccessType) → needs_update pte access ≡ false → updated_pte pte access ≡ pte
unfolding updated_pte needs_update
updated_pte_fresh pte access h = ground (arith, h)
