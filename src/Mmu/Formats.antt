-- ===== src/Mmu/Formats.antt =====
-- src/mmu.rs: Sv39, Sv48 and Sv57 by their parameters, that is, the number of levels, the code in
-- SATP and the width.
use qemu_rust_risc_v.Prelude.{ℕ, ◌-◌, ◌*◌, ◌/◌, ◌%◌, ◌^◌, ◌<◌, ◌≡◌, arith}
use qemu_rust_risc_v.Prelude.{Bool, ◌||◌, ltb, leb, if◌then◌else◌, bit_and}
use qemu_rust_risc_v.Prelude.{if-not, Option, List, [], ◌∷◌, err}
use qemu_rust_risc_v.Bits.{bit_and_mask, shr, shl}
use qemu_rust_risc_v.Trap.{Mode}
use qemu_rust_risc_v.Mmu.Memory.{MemoryBus}
use qemu_rust_risc_v.Mmu.Entry.{AccessType, canonical, page_fault, ppn_mask, page_shift}
use qemu_rust_risc_v.Mmu.Entry.{vpn_sv39, vpn_sv48, vpn_sv57, leaf_sv39, leaf_sv48, leaf_sv57}
use qemu_rust_risc_v.Mmu.Walk.{Outcome, walk, translate_sv39, translate_sv48, translate_sv57}

pub data Format : Type 0 where
  sv39 sv48 sv57 : Format

abbrev pub levels : Format → ℕ
levels sv39 = 3
levels sv48 = 4
levels sv57 = 5

-- The mode field of SATP.
abbrev pub satp_code : Format → ℕ
satp_code sv39 = 8
satp_code sv48 = 9
satp_code sv57 = 10

-- Half the size of the address space: the canonical addresses are the lowest and the highest
-- `half f` ones.
abbrev pub half : Format → ℕ
half sv39 = 2 ^ 38
half sv48 = 2 ^ 47
half sv57 = 2 ^ 56

abbrev pub is_canonical : Format → ℕ → Bool
is_canonical f va = ltb va (half f) || leb (2 ^ 64 - half f) va

-- The index at each level: nine bits from bit 12 + 9 * level on.
abbrev pub indices : Format → ℕ → List ℕ
indices sv39 va = va / 2 ^ 12 % 512 ∷ va / 2 ^ 21 % 512 ∷ va / 2 ^ 30 % 512 ∷ []
indices sv48 va = va / 2 ^ 12 % 512 ∷ va / 2 ^ 21 % 512 ∷ va / 2 ^ 30 % 512 ∷ va / 2 ^ 39 % 512 ∷ []
indices sv57 va =
    va / 2 ^ 12 % 512
    ∷ va / 2 ^ 21 % 512
    ∷ va / 2 ^ 30 % 512
    ∷ va / 2 ^ 39 % 512
    ∷ va / 2 ^ 48 % 512
    ∷ []

abbrev pub leaf_of : Format → ℕ → ℕ → ℕ → Option ℕ
leaf_of sv39 = leaf_sv39
leaf_of sv48 = leaf_sv48
leaf_of sv57 = leaf_sv57

abbrev pub translate_in :
    (m : MemoryBus) → Format → ℕ → AccessType → Mode → ℕ → ℕ → m.Bus → Outcome m
translate_in m sv39 = translate_sv39 m
translate_in m sv48 = translate_sv48 m
translate_in m sv57 = translate_sv57 m

-- The code's test of the upper bits accepts exactly the canonical addresses.
canonical_sv39 : (va : ℕ) → va < 2 ^ 64 → canonical 38 0x1FFFFFF va ≡ is_canonical sv39 va
unfolding canonical
canonical_sv39 va h = ground (arith, bit_and_mask 1 (shr va 38), bit_and_mask 25 (shr va 39))

canonical_sv48 : (va : ℕ) → va < 2 ^ 64 → canonical 47 0xFFFF va ≡ is_canonical sv48 va
unfolding canonical
canonical_sv48 va h = ground (arith, bit_and_mask 1 (shr va 47), bit_and_mask 16 (shr va 48))

canonical_sv57 : (va : ℕ) → va < 2 ^ 64 → canonical 56 0x7F va ≡ is_canonical sv57 va
unfolding canonical
canonical_sv57 va h = ground (arith, bit_and_mask 1 (shr va 56), bit_and_mask 7 (shr va 57))

nine_bits : (va k : ℕ) → bit_and (shr va k) 0x1FF ≡ va / 2 ^ k % 512
nine_bits va k = bit_and_mask 9 (shr va k)

root_base : (satp : ℕ) → shl 64 (bit_and satp ppn_mask) page_shift ≡ satp % 2 ^ 44 * 4096
root_base satp = omega (arith, bit_and_mask 44 satp)

-- For a 64-bit virtual address, each of the three functions is the canonical test and then the walk with the parameters of its
-- format.
pub translate_in_lem :
    (m : MemoryBus) (f : Format) (va : ℕ) (access : AccessType) (mode : Mode) (satp mstatus : ℕ)
    (bus : m.Bus)
    → va < 2 ^ 64
    → translate_in m f va access mode satp mstatus bus ≡ (
        if is_canonical f va
        then walk m
            (leaf_of f va)
            (indices f va)
            access
            mode
            mstatus
            (levels f)
            (satp % 2 ^ 44 * 4096)
            bus
        else (err (page_fault access), bus))
translate_in_lem m sv39 va access mode satp mstatus bus h =
    unfold translate_sv39 vpn_sv39 in
    rw (canonical_sv39 va h, nine_bits va 12, nine_bits va 21, nine_bits va 30, root_base satp)
      (if-not (is_canonical sv39 va) _ _)
translate_in_lem m sv48 va access mode satp mstatus bus h =
    unfold translate_sv48 vpn_sv48 in
    rw
      (
        canonical_sv48 va h,
        nine_bits va 12,
        nine_bits va 21,
        nine_bits va 30,
        nine_bits va 39,
        root_base satp,
      )
      (if-not (is_canonical sv48 va) _ _)
translate_in_lem m sv57 va access mode satp mstatus bus h =
    unfold translate_sv57 vpn_sv57 in
    rw
      (
        canonical_sv57 va h,
        nine_bits va 12,
        nine_bits va 21,
        nine_bits va 30,
        nine_bits va 39,
        nine_bits va 48,
        root_base satp,
      )
      (if-not (is_canonical sv57 va) _ _)
