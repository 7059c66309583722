-- ===== src/Mmu/Walk.antt =====
-- src/mmu.rs: `translate` and the three walks, over any bus.
use qemu_rust_risc_v.Prelude.{ℕ, zero, suc, ◌+◌, ◌*◌, not, ◌&&◌, ◌||◌}
use qemu_rust_risc_v.Prelude.{◌==◌, if◌then◌else◌, bit_and, Option, none, some}
use qemu_rust_risc_v.Prelude.{List, get_or, Result, ok, err}
use qemu_rust_risc_v.Bits.{shl, shr}
use qemu_rust_risc_v.Trap.{Trap, Mode, mode_of}
use qemu_rust_risc_v.Mmu.Memory.{MemoryBus}
use qemu_rust_risc_v.Mmu.Entry.{page_shift, ppn_mask, pte_v, pte_r, pte_w, pte_x, AccessType, has}
use qemu_rust_risc_v.Mmu.Entry.{
  is_instruction, is_machine, page_fault, check_permissions, canonical,
}
use qemu_rust_risc_v.Mmu.Entry.{leaf_sv39, leaf_sv48, leaf_sv57, vpn_sv39, vpn_sv48, vpn_sv57}
use qemu_rust_risc_v.Mmu.Entry.{updated_pte, needs_update, pte_ppn}

-- MPRV (bit 17) lets a data access of machine mode use the mode in MPP (bits 12:11).
unfoldable pub effective_mode : Mode → ℕ → Mode
effective_mode mode mstatus =
    if is_machine mode
    then (if bit_and (shr mstatus 17) 0x1 == 1
        then mode_of (bit_and (shr mstatus 11) 0x3)
        else Mode.machine)
    else mode

module _ (m : MemoryBus) where
  open m use {Bus, Fault, read64, write64}

  abbrev pub Outcome : Type 0
  Outcome = Result ℕ Trap × Bus

  unfoldable pub after_write : AccessType → ℕ → Result (Unit {0}) Fault × Bus → Outcome
  after_write access pa (ok _, bus) = (ok pa, bus)
  after_write access pa (err _, bus) = (err (page_fault access), bus)

  -- A leaf that grants the access: the address, and the write-back of a changed entry, whose
  -- failure is a page fault.
  unfoldable pub use_leaf : AccessType → ℕ → ℕ → Option ℕ → Bus → Outcome
  unfolding after_write
  use_leaf access pte_addr pte none bus = (err (page_fault access), bus)
  use_leaf access pte_addr pte (some pa) bus =
      if needs_update pte access
      then after_write access pa (write64 pte_addr (updated_pte pte access) bus)
      else (ok pa, bus)

  -- The permissions come first, then the alignment and the write-back.
  unfoldable pub check_leaf : AccessType → ℕ → ℕ → Result (Unit {0}) Trap → Option ℕ → Bus → Outcome
  unfolding use_leaf
  check_leaf access pte_addr pte (err e) pa bus = (err e, bus)
  check_leaf access pte_addr pte (ok _) pa bus = use_leaf access pte_addr pte pa bus

  -- One round of a walk, after the read of the entry; `next` is the round of the level below.
  unfoldable pub visit :
      (ℕ → Option ℕ)
      → AccessType
      → Mode
      → ℕ
      → ℕ
      → (ℕ → Bus → Outcome)
      → Result ℕ Fault × Bus
      → Outcome
  unfolding check_leaf
  visit leaf access mode mstatus pte_addr next (err _, bus) = (err (page_fault access), bus)
  visit leaf access mode mstatus pte_addr next (ok pte, bus) =
      if bit_and pte pte_v == 0
      then (err (page_fault access), bus)
      else if not (has pte pte_r) && has pte pte_w
      then (err (page_fault access), bus)
      else if has pte pte_r || (has pte pte_w || has pte pte_x)
      then check_leaf access pte_addr pte (check_permissions pte access mode mstatus)
          (leaf (pte_ppn pte)) bus
      else next (shl 64 (pte_ppn pte) page_shift) bus

  -- The loop over the levels, from the given number of levels down.
  unfoldable pub walk : (ℕ → ℕ → Option ℕ) → List ℕ → AccessType → Mode → ℕ → ℕ → ℕ → Bus → Outcome
  unfolding visit
  walk leaf vpn access mode mstatus zero base bus = (err (page_fault access), bus)
  walk leaf vpn access mode mstatus (suc level) base bus =
      let pte_addr = base + get_or vpn level 0 * 8 in
      visit (leaf level) access mode mstatus pte_addr (walk leaf vpn access mode mstatus level)
        (read64 pte_addr bus)

  unfoldable pub translate_sv39 : ℕ → AccessType → Mode → ℕ → ℕ → Bus → Outcome
  unfolding walk canonical leaf_sv39 vpn_sv39
  translate_sv39 va access mode satp mstatus bus =
      if not (canonical 38 0x1FFFFFF va)
      then (err (page_fault access), bus)
      else walk (leaf_sv39 va) (vpn_sv39 va) access mode mstatus 3
          (shl 64 (bit_and satp ppn_mask) page_shift) bus

  unfoldable pub translate_sv48 : ℕ → AccessType → Mode → ℕ → ℕ → Bus → Outcome
  unfolding walk canonical leaf_sv48 vpn_sv48
  translate_sv48 va access mode satp mstatus bus =
      if not (canonical 47 0xFFFF va)
      then (err (page_fault access), bus)
      else walk (leaf_sv48 va) (vpn_sv48 va) access mode mstatus 4
          (shl 64 (bit_and satp ppn_mask) page_shift) bus

  unfoldable pub translate_sv57 : ℕ → AccessType → Mode → ℕ → ℕ → Bus → Outcome
  unfolding walk canonical leaf_sv57 vpn_sv57
  translate_sv57 va access mode satp mstatus bus =
      if not (canonical 56 0x7F va)
      then (err (page_fault access), bus)
      else walk (leaf_sv57 va) (vpn_sv57 va) access mode mstatus 5
          (shl 64 (bit_and satp ppn_mask) page_shift) bus

  unfoldable pub translate : ℕ → AccessType → Mode → ℕ → ℕ → Bus → Outcome
  unfolding effective_mode
  translate va access mode satp mstatus bus =
      let satp_mode = bit_and (shr satp 60) 0xF in
      if is_machine mode && is_instruction access
      then (ok va, bus)
      else (let effective = effective_mode mode mstatus in
          if is_machine effective
          then (ok va, bus)
          else if satp_mode == 0
          then (ok va, bus)
          else if satp_mode == 8
          then translate_sv39 va access effective satp mstatus bus
          else if satp_mode == 9
          then translate_sv48 va access effective satp mstatus bus
          else if satp_mode == 10
          then translate_sv57 va access effective satp mstatus bus
          else (err (page_fault access), bus))
