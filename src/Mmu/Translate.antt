-- ===== src/Mmu/Translate.antt =====
-- src/mmu.rs: `translate` as a whole.
use qemu_rust_risc_v.Prelude.{ℕ, ◌*◌, ◌/◌, ◌%◌, ◌^◌, ◌<◌, ◌≡◌, refl, arith, ◌∙◌}
use qemu_rust_risc_v.Prelude.{true, false, not, ◌&&◌, ◌||◌, ◌==◌, if◌then◌else◌}
use qemu_rust_risc_v.Prelude.{Option, some, List, ok, err}
use qemu_rust_risc_v.Bits.{test_bit, bit_and_mask, shr, shr_bit}
use qemu_rust_risc_v.Trap.{Mode, mode_of}
use qemu_rust_risc_v.Mmu.Memory.{MemoryBus, IsMemory}
use qemu_rust_risc_v.Mmu.Entry.{
  AccessType, page_fault, is_store, is_machine, is_instruction, pte_ppn,
}
use qemu_rust_risc_v.Mmu.Walk.{walk, translate, effective_mode}
use qemu_rust_risc_v.Mmu.Leaf.{leaf_address, leaf_sv39_lem, leaf_sv48_lem, leaf_sv57_lem}
use qemu_rust_risc_v.Mmu.Tables.{Found, here, below, granted}
use qemu_rust_risc_v.Mmu.Complete.{after_access}
use qemu_rust_risc_v.Mmu.Again.{walk_again, Found-leaf, after_access-marked}
use qemu_rust_risc_v.Mmu.Errors.{pte_ppn-lt}
use qemu_rust_risc_v.Mmu.Formats.{
  Format, sv39, sv48, sv57, levels, satp_code, is_canonical, indices,
}
use qemu_rust_risc_v.Mmu.Formats.{leaf_of, translate_in, translate_in_lem}

-- The mode under which an access is checked: machine mode with MPRV (bit 17 of MSTATUS) makes its
-- loads and stores as the mode in MPP (bits 12:11); its fetches and all other modes stay.
abbrev pub access_mode : Mode → AccessType → ℕ → Mode
access_mode mode access mstatus =
    if is_machine mode && (not (is_instruction access) && test_bit mstatus 17)
    then mode_of (mstatus / 2 ^ 11 % 4)
    else mode

-- In machine mode (after MPRV), or with SATP in mode 0, addresses pass unchanged and the bus is not
-- touched.
pub translate_identity :
    (m : MemoryBus) (va : ℕ) (access : AccessType) (mode : Mode) (satp mstatus : ℕ) (bus : m.Bus)
    → (is_machine (access_mode mode access mstatus) || (satp / 2 ^ 60 % 16 == 0)) ≡ true
    → translate m va access mode satp mstatus bus ≡ (ok va, bus)
unfolding translate effective_mode
translate_identity m va access mode satp mstatus bus h =
    ground
      (arith, bit_and_mask 4 (shr satp 60), bit_and_mask 2 (shr mstatus 11), shr_bit 17 mstatus)

-- Otherwise the mode field of SATP chooses the walk, under the mode of the access; a mode that is
-- no format is a page fault.
translate_walks :
    (m : MemoryBus) (f : Format) (va : ℕ) (access : AccessType) (mode : Mode) (satp mstatus : ℕ)
    (bus : m.Bus)
    → is_machine (access_mode mode access mstatus) ≡ false
    → satp / 2 ^ 60 % 16 ≡ satp_code f
    → translate m va access mode satp mstatus bus
      ≡ translate_in m f va access (access_mode mode access mstatus) satp mstatus bus
unfolding translate effective_mode
translate_walks m f va access mode satp mstatus bus h k =
    ground
      (arith, bit_and_mask 4 (shr satp 60), bit_and_mask 2 (shr mstatus 11), shr_bit 17 mstatus)

leaf_of_lem :
    (f : Format) (va level ppn : ℕ)
    → level < levels f
    → ppn < 2 ^ 44
    → leaf_of f va level ppn ≡ leaf_address va level ppn
leaf_of_lem sv39 va level ppn h k = leaf_sv39_lem va ppn k level h
leaf_of_lem sv48 va level ppn h k = leaf_sv48_lem va ppn k level h
leaf_of_lem sv57 va level ppn h k = leaf_sv57_lem va ppn k level h

Found-level :
    {peek : ℕ → Option ℕ} {vpn : List ℕ} {n base level addr pte : ℕ}
    → Found peek vpn n base level addr pte
    → level < n
Found-level (here e pk lf) = omega arith
Found-level (below pk ptr rest) = omega (arith, Found-level rest)

-- Where the mode of the access (after MPRV) is not machine mode, a 64-bit virtual address that is
-- not canonical in the format of SATP is the page fault of the access, and the bus is not
-- touched.
pub translate_noncanonical :
    (m : MemoryBus) (f : Format) (va : ℕ) (access : AccessType) (mode : Mode) (satp mstatus : ℕ)
    (bus : m.Bus)
    → va < 2 ^ 64
    → is_machine (access_mode mode access mstatus) ≡ false
    → satp / 2 ^ 60 % 16 ≡ satp_code f
    → is_canonical f va ≡ false
    → translate m va access mode satp mstatus bus ≡ (err (page_fault access), bus)
translate_noncanonical m f va access mode satp mstatus bus lt h k out =
    translate_walks m f va access mode satp mstatus bus h k
    ∙ translate_in_lem m f va access (access_mode mode access mstatus) satp mstatus bus lt
    ∙ rw out refl

-- Where the page tables in memory lead from the root in SATP to a leaf that grants the access and
-- is aligned for its level, and the mode of the access (after MPRV) is not machine mode, a canonical
-- 64-bit address translates to the leaf's page number with the offset, under each of the three
-- formats. Afterwards the memory shows at the leaf's address an entry with the A bit, and for a
-- store the D bit, set and every other bit as it was, at every other multiple of 8 it shows what
-- it showed, and translating again gives the same address and changes nothing.
pub translate-Found :
    (m : MemoryBus) (mem : IsMemory m) (f : Format) (va : ℕ) (access : AccessType) (mode : Mode)
    (satp mstatus : ℕ) (b : m.Bus) {level addr pte : ℕ} (pa i a : ℕ)
    → va < 2 ^ 64
    → is_machine (access_mode mode access mstatus) ≡ false
    → satp / 2 ^ 60 % 16 ≡ satp_code f
    → is_canonical f va ≡ true
    → Found (mem.peek b) (indices f va) (levels f) (satp % 2 ^ 44 * 4096) level addr pte
    → granted pte access (access_mode mode access mstatus) mstatus ≡ true
    → leaf_address va level (pte_ppn pte) ≡ some pa
    → a % 8 ≡ 0
    → (b' : m.Bus) × (translate m va access mode satp mstatus b ≡ (ok pa, b'))
      × (translate m va access mode satp mstatus b' ≡ (ok pa, b'))
      × (w : ℕ) × (mem.peek b' a ≡ (if a == addr then some w else mem.peek b a))
      × (test_bit w i ≡ (test_bit pte i || ((i == 6) || is_store access && (i == 7))))
translate-Found m mem f va access mode satp mstatus b {level} {addr} {pte} pa i a lt h k inside
      found grant at aligned =
    let leaf = Found-leaf found (omega arith) in
    let mark = after_access-marked m mem access addr pte i a b leaf.0 leaf.2 aligned in
    (
      after_access m mem access addr pte b,
      to_walk b ∙ both.0,
      to_walk (after_access m mem access addr pte b) ∙ both.1,
      mark.0,
      mark.1,
      mark.2,
    )
  where
    under : Mode
    under = access_mode mode access mstatus

    root : ℕ
    root = satp % 2 ^ 44 * 4096

    to_walk :
        (bus : m.Bus)
        → translate m va access mode satp mstatus bus
          ≡ walk m (leaf_of f va) (indices f va) access under mstatus (levels f) root bus
    to_walk bus =
        translate_walks m f va access mode satp mstatus bus h k
        ∙ translate_in_lem m f va access under satp mstatus bus lt
        ∙ rw inside refl

    both :
        (walk m (leaf_of f va) (indices f va) access under mstatus (levels f) root b
          ≡ (ok pa, after_access m mem access addr pte b))
        × (walk m
              (leaf_of f va)
              (indices f va)
              access
              under
              mstatus
              (levels f)
              root
              (after_access m mem access addr pte b)
            ≡ (ok pa, after_access m mem access addr pte b))
    both =
        walk_again m mem (leaf_of f va) (indices f va) access under mstatus b pa found (omega arith)
          grant (leaf_of_lem f va level (pte_ppn pte) (Found-level found) (pte_ppn-lt pte) ∙ at)
