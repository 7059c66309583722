-- ===== src/Mmu/Complete.antt =====
-- src/mmu.rs: the walks over page tables in memory.
use qemu_rust_risc_v.Prelude.{ℕ, ◌+◌, ◌*◌, ◌≡◌, refl, arith, sym, ◌∙◌}
use qemu_rust_risc_v.Prelude.{true, false, not, ◌&&◌, ◌||◌, ◌==◌, if◌then◌else◌, bit_and}
use qemu_rust_risc_v.Prelude.{Option, some, List, get_or, Bool-cases, ◌⊎◌, inl, inr, ok}
use qemu_rust_risc_v.Bits.{bit_and-pow-test, shl}
use qemu_rust_risc_v.Trap.{Mode}
use qemu_rust_risc_v.Mmu.Memory.{MemoryBus, IsMemory}
use qemu_rust_risc_v.Mmu.Entry.{AccessType, pte_ppn, pte_v, pte_r, pte_w, pte_x}
use qemu_rust_risc_v.Mmu.Entry.{has, needs_update, updated_pte, page_shift}
use qemu_rust_risc_v.Mmu.Walk.{Outcome, after_write, use_leaf, check_leaf, visit, walk}
use qemu_rust_risc_v.Mmu.Permissions.{check_permissions_lem}
use qemu_rust_risc_v.Mmu.Errors.{pte_ppn-lt}
use qemu_rust_risc_v.Mmu.Tables.{Found, here, below, is_leaf, is_pointer, granted}

-- The memory after a granted access through the entry `pte` at `addr`.
abbrev pub after_access : (m : MemoryBus) → IsMemory m → AccessType → ℕ → ℕ → m.Bus → m.Bus
after_access m mem access addr pte b =
    if needs_update pte access then mem.written addr (updated_pte pte access) b else b

table_base : (pte : ℕ) → shl 64 (pte_ppn pte) page_shift ≡ pte_ppn pte * 4096
table_base pte = omega (arith, pte_ppn-lt pte)

module _ (m : MemoryBus) (mem : IsMemory m) (leaf : ℕ → ℕ → Option ℕ) (vpn : List ℕ)
    (access : AccessType) (mode : Mode) (mstatus : ℕ) where
  visit-leaf :
      (level addr pte pa : ℕ) (next : ℕ → m.Bus → Outcome m) (b : m.Bus)
      → mem.peek b addr ≡ some pte
      → is_leaf pte ≡ true
      → granted pte access mode mstatus ≡ true
      → leaf level (pte_ppn pte) ≡ some pa
      → visit m (leaf level) access mode mstatus addr next (ok pte, b)
        ≡ (ok pa, after_access m mem access addr pte b)
  unfolding visit
  visit-leaf level addr pte pa next b pk lf ok_here at =
      rw (tests.0, tests.1, tests.2, check_permissions_lem pte access mode mstatus, ok_here, at)
        (finish (Bool-cases (needs_update pte access)))
    where
      tests :
          ((bit_and pte pte_v == 0) ≡ false)
          × ((not (has pte pte_r) && has pte pte_w) ≡ false)
          × ((has pte pte_r || (has pte pte_w || has pte pte_x)) ≡ true)
      tests = ground (
        arith,
        bit_and-pow-test 0 pte,
        bit_and-pow-test 1 pte,
        bit_and-pow-test 2 pte,
        bit_and-pow-test 3 pte,
      )

      finish :
          (needs_update pte access ≡ true) ⊎ (needs_update pte access ≡ false)
          → check_leaf m access addr pte (ok tt) (some pa) b
            ≡ (ok pa, after_access m mem access addr pte b)
      finish (inl stale) =
          unfold check_leaf use_leaf after_write in
          rw (stale, mem.write_word addr (updated_pte pte access) pte b pk) refl
      finish (inr fresh) = unfold check_leaf use_leaf after_write in rw fresh refl

  visit-pointer :
      (level addr pte : ℕ) (next : ℕ → m.Bus → Outcome m) (b : m.Bus)
      → is_pointer pte ≡ true
      → visit m (leaf level) access mode mstatus addr next (ok pte, b) ≡ next (pte_ppn pte * 4096) b
  unfolding visit
  visit-pointer level addr pte next b ptr = rw (tests.0, tests.1, tests.2, table_base pte)
    where
      tests :
          ((bit_and pte pte_v == 0) ≡ false)
          × ((not (has pte pte_r) && has pte pte_w) ≡ false)
          × ((has pte pte_r || (has pte pte_w || has pte pte_x)) ≡ false)
      tests = ground (
        arith,
        bit_and-pow-test 0 pte,
        bit_and-pow-test 1 pte,
        bit_and-pow-test 2 pte,
        bit_and-pow-test 3 pte,
      )

  -- The walk ends at the leaf that the tables hold.
  pub walk-Found :
      (b : m.Bus) {n base level addr pte : ℕ} (pa : ℕ)
      → Found (mem.peek b) vpn n base level addr pte
      → granted pte access mode mstatus ≡ true
      → leaf level (pte_ppn pte) ≡ some pa
      → walk m leaf vpn access mode mstatus n base b ≡ (ok pa, after_access m mem access addr pte b)
  unfolding walk
  walk-Found b pa (here {level = l} {base = at_base} {addr = a} {pte = w} e pk lf) ok_here at =
      rw (sym e, mem.read_word a w b pk)
        (visit-leaf l a w pa (walk m leaf vpn access mode mstatus l) b pk lf ok_here at)
  walk-Found b pa (below {top = t} {base = at_base} {next = w} pk ptr rest) ok_here at =
      rw (mem.read_word (at_base + get_or vpn t 0 * 8) w b pk) (
        visit-pointer t (at_base + get_or vpn t 0 * 8) w (walk m leaf vpn access mode mstatus t) b
          ptr
        ∙ walk-Found b pa rest ok_here at)
