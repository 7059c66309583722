-- ===== src/Mmu/Leaf.antt =====
-- src/mmu.rs: the address of a leaf in the three formats, against one formula.
use qemu_rust_risc_v.Prelude.{ℕ, zero, suc, ◌+◌, ◌-◌, ◌*◌, ◌/◌, ◌%◌, ◌^◌, ◌<◌, ◌≡◌, arith}
use qemu_rust_risc_v.Prelude.{◌==◌, if◌then◌else◌, bit_and, bit_or, Option, none, some}
use qemu_rust_risc_v.Bits.{shl, bit_and_mask, bit_or_fields}
use qemu_rust_risc_v.Mmu.Entry.{leaf_sv39, leaf_sv48, leaf_sv57}

-- A leaf at a level maps 2 ^ (12 + 9 * level) bytes, and starts at a multiple of that size.
unfoldable pub leaf_address : ℕ → ℕ → ℕ → Option ℕ
leaf_address va level ppn =
    if ppn % 2 ^ (9 * level) == 0 then some (ppn * 4096 + va % 2 ^ (12 + 9 * level)) else none

join :
    (k q ppn va : ℕ)
    → ppn < 2 ^ 44
    → ppn * 4096 ≡ q * 2 ^ k
    → va % 2 ^ k < 2 ^ k
    → bit_or (shl 64 ppn 12) (bit_and va (2 ^ k - 1)) ≡ ppn * 4096 + va % 2 ^ k
join k q ppn va h e small =
    let fits : ppn * 4096 % 2 ^ 64 ≡ q * 2 ^ k = omega arith in
    rw (fits, bit_and_mask k va, bit_or_fields k q (va % 2 ^ k) small, ← e)

module _ (va ppn : ℕ) (small : ppn < 2 ^ 44) where
  page_0 : bit_or (shl 64 ppn 12) (bit_and va 0xFFF) ≡ ppn * 4096 + va % 2 ^ 12
  page_0 = join 12 ppn ppn va small (omega arith) (omega arith)

  page_1 : ppn % 2 ^ 9 ≡ 0 → bit_or (shl 64 ppn 12) (bit_and va 0x1FFFFF) ≡ ppn * 4096 + va % 2 ^ 21
  page_1 h = join 21 (ppn / 2 ^ 9) ppn va small (omega arith) (omega arith)

  page_2 :
      ppn % 2 ^ 18 ≡ 0 → bit_or (shl 64 ppn 12) (bit_and va 0x3FFFFFFF) ≡ ppn * 4096 + va % 2 ^ 30
  page_2 h = join 30 (ppn / 2 ^ 18) ppn va small (omega arith) (omega arith)

  page_3 :
      ppn % 2 ^ 27 ≡ 0 → bit_or (shl 64 ppn 12) (bit_and va 0x7FFFFFFFFF) ≡ ppn * 4096 + va % 2 ^ 39
  page_3 h = join 39 (ppn / 2 ^ 27) ppn va small (omega arith) (omega arith)

  page_4 :
      ppn % 2 ^ 36 ≡ 0
      → bit_or (shl 64 ppn 12) (bit_and va 0xFFFFFFFFFFFF) ≡ ppn * 4096 + va % 2 ^ 48
  page_4 h = join 48 (ppn / 2 ^ 36) ppn va small (omega arith) (omega arith)

  -- Sv39: at its three levels the chain of superpage cases is the formula.
  pub leaf_sv39_lem : (level : ℕ) → level < 3 → leaf_sv39 va level ppn ≡ leaf_address va level ppn
  unfolding leaf_sv39 leaf_address
  leaf_sv39_lem zero h = ground (arith, page_0)
  leaf_sv39_lem (suc zero) h = ground (arith, page_1, bit_and_mask 9 ppn)
  leaf_sv39_lem (suc (suc zero)) h = ground (arith, page_2, bit_and_mask 18 ppn)
  leaf_sv39_lem (suc (suc (suc level))) h = absurd (omega arith)

  -- Sv48: the same at its four levels.
  pub leaf_sv48_lem : (level : ℕ) → level < 4 → leaf_sv48 va level ppn ≡ leaf_address va level ppn
  unfolding leaf_sv48 leaf_address
  leaf_sv48_lem zero h = ground (arith, page_0)
  leaf_sv48_lem (suc zero) h = ground (arith, page_1, bit_and_mask 9 ppn)
  leaf_sv48_lem (suc (suc zero)) h = ground (arith, page_2, bit_and_mask 18 ppn)
  leaf_sv48_lem (suc (suc (suc zero))) h = ground (arith, page_3, bit_and_mask 27 ppn)
  leaf_sv48_lem (suc (suc (suc (suc level)))) h = absurd (omega arith)

  -- Sv57: at each of its five levels, for a 44-bit page number, the chain of superpage cases gives
  -- the page number with the offset within the level's page size, and nothing if the page number is
  -- not a multiple of that size.
  pub leaf_sv57_lem : (level : ℕ) → level < 5 → leaf_sv57 va level ppn ≡ leaf_address va level ppn
  unfolding leaf_sv57 leaf_address
  leaf_sv57_lem zero h = ground (arith, page_0)
  leaf_sv57_lem (suc zero) h = ground (arith, page_1, bit_and_mask 9 ppn)
  leaf_sv57_lem (suc (suc zero)) h = ground (arith, page_2, bit_and_mask 18 ppn)
  leaf_sv57_lem (suc (suc (suc zero))) h = ground (arith, page_3, bit_and_mask 27 ppn)
  leaf_sv57_lem (suc (suc (suc (suc zero)))) h = ground (arith, page_4, bit_and_mask 36 ppn)
  leaf_sv57_lem (suc (suc (suc (suc (suc level))))) h = absurd (omega arith)

-- A leaf at any level keeps the offset within the smallest page and yields a 56-bit address.
pub leaf_address_bounds :
    (va level ppn : ℕ) {pa : ℕ}
    → level < 5
    → ppn < 2 ^ 44
    → leaf_address va level ppn ≡ some pa
    → (pa % 4096 ≡ va % 4096) × (pa < 2 ^ 56)
unfolding leaf_address
leaf_address_bounds va zero ppn h k e = ground arith
leaf_address_bounds va (suc zero) ppn h k e = ground arith
leaf_address_bounds va (suc (suc zero)) ppn h k e = ground arith
leaf_address_bounds va (suc (suc (suc zero))) ppn h k e = ground arith
leaf_address_bounds va (suc (suc (suc (suc zero)))) ppn h k e = ground arith
leaf_address_bounds va (suc (suc (suc (suc (suc level))))) ppn h k e = absurd (omega arith)
