-- ===== src/Tests/Mmu.antt =====
-- The translation on a two-level walk to a two-megabyte page, over a bus whose DRAM has two words.
use qemu_rust_risc_v.Prelude.{
  ℕ, ◌+◌, ◌*◌, ◌%◌, ◌^◌, ◌≡◌, refl, arith, true, some, ◌==◌, ◌&&◌, ◌||◌, ◌++◌, if◌then◌else◌, ok,
  err,
}
use qemu_rust_risc_v.Bits.{test_bit}
use qemu_rust_risc_v.Trap.{user}
use qemu_rust_risc_v.Mmu.Memory.{MemoryBus}
use qemu_rust_risc_v.Dram.Defs.{slice, to_bytes}
use qemu_rust_risc_v.Bus.Map.Defs.{Bus}
use qemu_rust_risc_v.Bus.Map.Hart.{word_bus}
use qemu_rust_risc_v.Bus.Map.Ram.{peek, dram_laws}
use qemu_rust_risc_v.Tests.Dram.{little, little_laws}
use qemu_rust_risc_v.Tests.BusMap.{machine, host}
use qemu_rust_risc_v.Mmu.Entry.{load, store, is_store, page_fault, check_permissions, pte_ppn}
use qemu_rust_risc_v.Mmu.Walk.{walk, translate}
use qemu_rust_risc_v.Mmu.Leaf.{leaf_address}
use qemu_rust_risc_v.Mmu.Permissions.{mode_allowed, beyond, kind_allowed, check_permissions_lem}
use qemu_rust_risc_v.Mmu.Errors.{Translated, translate-Translated}
use qemu_rust_risc_v.Mmu.Tables.{Found, here, below, granted}
use qemu_rust_risc_v.Mmu.Formats.{
  sv39, indices, leaf_of, is_canonical, translate_in, translate_in_lem,
}
use qemu_rust_risc_v.Mmu.Translate.{translate-Found}

-- A pointer to the table that it stands in, and a user page with R, W and X and neither A nor D.
abbrev pointer : ℕ
pointer = 0x80000 * 1024 + 1

abbrev page : ℕ
page = 0x80200 * 1024 + 0x1F

abbrev over : MemoryBus
over = word_bus little host

-- The bus with the two entries at the start of the DRAM.
abbrev booted : Bus (Unit {0})
booted = record machine { dram = record { memory = to_bytes 8 pointer ++ to_bytes 8 page } }

abbrev satp : ℕ
satp = 8 * 2 ^ 60 + 0x80000

found : Found (peek booted) (indices sv39 0x201234) 3 0x80000000 1 0x80000008 page
unfolding test_bit pte_ppn slice
found = below refl refl (here refl refl refl)

page-granted : granted page store user 0 ≡ true
unfolding test_bit
page-granted = refl

page_address : leaf_address 0x201234 1 (pte_ppn page) ≡ some 0x80201234
unfolding leaf_address pte_ppn
page_address = refl

-- The D bit of the entry after a store.
translate-Found_example :
    (b' : Bus (Unit {0})) × (translate over 0x201234 store user satp 0 booted ≡ (ok 0x80201234, b'))
    × (translate over 0x201234 store user satp 0 b' ≡ (ok 0x80201234, b'))
    × (w : ℕ) × (peek b' 0x80000008
        ≡ (if 0x80000008 == 0x80000008 then some w else peek booted 0x80000008))
    × (test_bit w 7 ≡ (test_bit page 7 || ((7 == 6) || is_store store && (7 == 7))))
translate-Found_example =
    translate-Found over (dram_laws little little_laws host) sv39 0x201234 store user satp 0 booted
      {level = 1} {addr = 0x80000008} {pte = page} 0x80201234 7 0x80000008 (omega arith) refl refl
      refl found page-granted page_address refl

translate-Translated_example :
    Translated load 0x201234 (translate over 0x201234 load user satp 0 booted).0
translate-Translated_example = translate-Translated over 0x201234 load user satp 0 booted

check_permissions_lem_example : check_permissions page load user 0 ≡ (
    if (mode_allowed page load user 0 || beyond page user) && kind_allowed page load 0
    then ok tt
    else err (page_fault load))
check_permissions_lem_example = check_permissions_lem page load user 0

translate_in_lem_example : translate_in over sv39 0x201234 load user satp 0 booted ≡ (
    if is_canonical sv39 0x201234
    then walk over
        (leaf_of sv39 0x201234)
        (indices sv39 0x201234)
        load
        user
        0
        3
        (satp % 2 ^ 44 * 4096)
        booted
    else (err (page_fault load), booted))
translate_in_lem_example = translate_in_lem over sv39 0x201234 load user satp 0 booted (omega arith)
