-- ===== src/Mmu/Errors.antt =====
-- src/mmu.rs: the results of `translate` over any bus, errors included.
use qemu_rust_risc_v.Prelude.{
  ℕ, zero, suc, ◌+◌, ◌*◌, ◌%◌, ◌^◌, ◌≤◌, ◌<◌, ◌≡◌, refl, arith, sym, ◌∙◌,
}
use qemu_rust_risc_v.Prelude.{
  Bool, true, false, not, ◌&&◌, ◌||◌, ◌==◌, if◌then◌else◌, bit_and, Option, none, some, List,
}
use qemu_rust_risc_v.Prelude.{Result, ok, err, get_or, if-cases}
use qemu_rust_risc_v.Bits.{shl, shr, bit_and-lt_right}
use qemu_rust_risc_v.Trap.{Trap, Mode}
use qemu_rust_risc_v.Mmu.Memory.{MemoryBus}
use qemu_rust_risc_v.Mmu.Entry.{AccessType, page_fault, pte_ppn, ppn_mask, page_shift}
use qemu_rust_risc_v.Mmu.Entry.{
  pte_v, pte_r, pte_w, pte_x, has, needs_update, updated_pte, canonical,
}
use qemu_rust_risc_v.Mmu.Entry.{leaf_sv39, leaf_sv48, leaf_sv57, vpn_sv39, vpn_sv48, vpn_sv57}
use qemu_rust_risc_v.Mmu.Entry.{is_machine, is_instruction}
use qemu_rust_risc_v.Mmu.Walk.{
  Outcome, after_write, use_leaf, check_leaf, visit, walk, effective_mode,
}
use qemu_rust_risc_v.Mmu.Walk.{translate_sv39, translate_sv48, translate_sv57, translate}
use qemu_rust_risc_v.Mmu.Leaf.{
  leaf_address, leaf_address_bounds, leaf_sv39_lem, leaf_sv48_lem, leaf_sv57_lem,
}
use qemu_rust_risc_v.Mmu.Permissions.{check_permissions_lem, mode_allowed, beyond, kind_allowed}

-- An address with the offset of `va` within a page, or the page fault of the access.
abbrev pub Translated : AccessType → ℕ → Result ℕ Trap → Type 0
Translated access va (ok pa) = pa % 4096 ≡ va % 4096
Translated access va (err t) = t ≡ page_fault access

-- A leaf function that keeps the offset at the levels below `n`.
KeepsOffset : (ℕ → ℕ → Option ℕ) → ℕ → ℕ → Type 0
KeepsOffset leaf va n =
    (level ppn : ℕ) (pa : ℕ)
    → level < n
    → ppn < 2 ^ 44
    → leaf level ppn ≡ some pa
    → pa % 4096 ≡ va % 4096

pub pte_ppn-lt : (pte : ℕ) → pte_ppn pte < 2 ^ 44
unfolding pte_ppn
pte_ppn-lt pte = bit_and-lt_right 44 (shr pte 10) ppn_mask (omega arith)

module _ (m : MemoryBus) (access : AccessType) (va : ℕ) where
  abbrev Good : Outcome m → Type 0
  Good r = Translated access va r.0

  after_write-Good :
      (pa : ℕ) (r : Result (Unit {0}) m.Fault × m.Bus)
      → pa % 4096 ≡ va % 4096
      → Good (after_write m access pa r)
  unfolding after_write
  after_write-Good pa (ok _, bus) h = h
  after_write-Good pa (err _, bus) h = refl

  use_leaf-Good :
      (pte_addr pte : ℕ) (pa : Option ℕ) (bus : m.Bus)
      → ((a : ℕ) → pa ≡ some a → a % 4096 ≡ va % 4096)
      → Good (use_leaf m access pte_addr pte pa bus)
  unfolding use_leaf
  use_leaf-Good pte_addr pte none bus h = refl
  use_leaf-Good pte_addr pte (some pa) bus h =
      if-cases Good (needs_update pte access)
        (λ _. after_write-Good pa (m.write64 pte_addr (updated_pte pte access) bus) (h pa refl))
        (λ _. h pa refl)

  check_leaf-Good :
      (pte_addr pte : ℕ) (granted : Bool) (pa : Option ℕ) (bus : m.Bus)
      → ((a : ℕ) → pa ≡ some a → a % 4096 ≡ va % 4096)
      → Good (
          check_leaf m access pte_addr pte
            (if granted then ok tt else err (page_fault access))
            pa
            bus)
  unfolding check_leaf
  check_leaf-Good pte_addr pte true pa bus h = use_leaf-Good pte_addr pte pa bus h
  check_leaf-Good pte_addr pte false pa bus h = refl

  module _ (leaf : ℕ → ℕ → Option ℕ) (vpn : List ℕ) (mode : Mode) (mstatus : ℕ) where
    visit-Good :
        (level pte_addr : ℕ) (next : ℕ → m.Bus → Outcome m) (r : Result ℕ m.Fault × m.Bus)
        → ((ppn pa : ℕ) → ppn < 2 ^ 44 → leaf level ppn ≡ some pa → pa % 4096 ≡ va % 4096)
        → ((base : ℕ) (bus : m.Bus) → Good (next base bus))
        → Good (visit m (leaf level) access mode mstatus pte_addr next r)
    unfolding visit
    visit-Good level pte_addr next (err _, bus) h k = refl
    visit-Good level pte_addr next (ok pte, bus) h k =
        if-cases Good (bit_and pte pte_v == 0) (λ _. refl)
          (λ _.
            if-cases Good (not (has pte pte_r) && has pte pte_w) (λ _. refl)
              (λ _.
                if-cases Good (has pte pte_r || (has pte pte_w || has pte pte_x))
                  (λ _. rw (check_permissions_lem pte access mode mstatus) (
                    check_leaf-Good pte_addr pte
                      ((mode_allowed pte access mode mstatus || beyond pte mode)
                        && kind_allowed pte access mstatus)
                      (leaf level (pte_ppn pte)) bus (λ a e. h (pte_ppn pte) a (pte_ppn-lt pte) e)))
                  (λ _. k (shl 64 (pte_ppn pte) page_shift) bus)))

    walk-Good :
        (n base : ℕ) (bus : m.Bus)
        → KeepsOffset leaf va n
        → Good (walk m leaf vpn access mode mstatus n base bus)
    unfolding walk KeepsOffset
    walk-Good zero base bus h = refl
    walk-Good (suc level) base bus h =
        visit-Good level (base + get_or vpn level 0 * 8) (walk m leaf vpn access mode mstatus level)
          (m.read64 (base + get_or vpn level 0 * 8) bus)
          (λ ppn pa small e. h level ppn pa (omega arith) small e)
          (λ b c. walk-Good level b c (λ l ppn pa lt small e. h l ppn pa (omega arith) small e))

keeps_offset :
    (leaf : ℕ → ℕ → Option ℕ) (va n : ℕ)
    → n ≤ 5
    → ((level ppn : ℕ) → level < n → ppn < 2 ^ 44 → leaf level ppn ≡ leaf_address va level ppn)
    → KeepsOffset leaf va n
unfolding KeepsOffset
keeps_offset leaf va n small same level ppn pa h k e =
    (leaf_address_bounds va level ppn (omega arith) k (sym (same level ppn h k) ∙ e)).0

module _ (m : MemoryBus) (access : AccessType) (va : ℕ) (mode : Mode) (satp mstatus : ℕ)
    (bus : m.Bus) where
  sv39-Good : Good m access va (translate_sv39 m va access mode satp mstatus bus)
  unfolding translate_sv39
  sv39-Good =
      if-cases (Good m access va) (not (canonical 38 0x1FFFFFF va)) (λ _. refl)
        (λ _.
          walk-Good m access va (leaf_sv39 va) (vpn_sv39 va) mode mstatus 3
            (shl 64 (bit_and satp ppn_mask) page_shift) bus
            (keeps_offset (leaf_sv39 va) va 3 (omega arith) (λ l p h k. leaf_sv39_lem va p k l h)))

  sv48-Good : Good m access va (translate_sv48 m va access mode satp mstatus bus)
  unfolding translate_sv48
  sv48-Good =
      if-cases (Good m access va) (not (canonical 47 0xFFFF va)) (λ _. refl)
        (λ _.
          walk-Good m access va (leaf_sv48 va) (vpn_sv48 va) mode mstatus 4
            (shl 64 (bit_and satp ppn_mask) page_shift) bus
            (keeps_offset (leaf_sv48 va) va 4 (omega arith) (λ l p h k. leaf_sv48_lem va p k l h)))

  sv57-Good : Good m access va (translate_sv57 m va access mode satp mstatus bus)
  unfolding translate_sv57
  sv57-Good =
      if-cases (Good m access va) (not (canonical 56 0x7F va)) (λ _. refl)
        (λ _.
          walk-Good m access va (leaf_sv57 va) (vpn_sv57 va) mode mstatus 5
            (shl 64 (bit_and satp ppn_mask) page_shift) bus
            (keeps_offset (leaf_sv57 va) va 5 (omega arith) (λ l p h k. leaf_sv57_lem va p k l h)))

-- Over any bus, `translate` gives an address that agrees with the virtual one modulo 4096, or the
-- page fault of the kind of access, and no other trap.
pub translate-Translated :
    (m : MemoryBus) (va : ℕ) (access : AccessType) (mode : Mode) (satp mstatus : ℕ) (bus : m.Bus)
    → Translated access va (translate m va access mode satp mstatus bus).0
unfolding translate
translate-Translated m va access mode satp mstatus bus =
    if-cases Ok (is_machine mode && is_instruction access) (λ _. refl)
      (λ _.
        if-cases Ok (is_machine effective) (λ _. refl)
          (λ _.
            if-cases Ok (satp_mode == 0) (λ _. refl)
              (λ _.
                if-cases Ok (satp_mode == 8) (λ _. sv39-Good m access va effective satp mstatus bus)
                  (λ _.
                    if-cases Ok (satp_mode == 9)
                      (λ _. sv48-Good m access va effective satp mstatus bus)
                      (λ _.
                        if-cases Ok (satp_mode == 10)
                          (λ _. sv57-Good m access va effective satp mstatus bus) (λ _. refl))))))
  where
    Ok : Outcome m → Type 0
    Ok r = Translated access va r.0

    effective : Mode
    effective = effective_mode mode mstatus

    satp_mode : ℕ
    satp_mode = bit_and (shr satp 60) 0xF
