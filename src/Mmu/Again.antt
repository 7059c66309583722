-- ===== src/Mmu/Again.antt =====
-- src/mmu.rs: a walk repeated after the write-back of the A and D bits.
use qemu_rust_risc_v.Prelude.{ℕ, ◌+◌, ◌*◌, ◌%◌, ◌≡◌, refl, arith, ap, sym, ◌∙◌}
use qemu_rust_risc_v.Prelude.{Bool, true, false, ◌||◌, ◌&&◌, ◌==◌, if◌then◌else◌}
use qemu_rust_risc_v.Bits.{test_bit}
use qemu_rust_risc_v.Prelude.{
  Option, some, List, get_or, Bool-cases, ◌⊎◌, inl, inr, ok, ==_refl, ==_false,
}
use qemu_rust_risc_v.Trap.{Mode}
use qemu_rust_risc_v.Mmu.Memory.{MemoryBus, IsMemory}
use qemu_rust_risc_v.Mmu.Entry.{AccessType, is_store, pte_ppn, needs_update, updated_pte}
use qemu_rust_risc_v.Mmu.Walk.{walk, Outcome}
use qemu_rust_risc_v.Mmu.Tables.{Found, here, below, is_leaf, is_pointer, granted}
use qemu_rust_risc_v.Mmu.Tables.{
  pte_ppn-updated_pte, is_leaf-updated_pte, granted-updated_pte, needs_update-updated_pte,
  updated_pte-lt, updated_pte_fresh, updated_pte_bits,
}
use qemu_rust_risc_v.Mmu.Complete.{after_access, walk-Found}
use native.Mathlib.Decide.{ℕ_discrete}

leaf_not_pointer : (pte : ℕ) → is_leaf pte ≡ true → ¬ (is_pointer pte ≡ true)
leaf_not_pointer pte h k = ground arith

-- The leaf that a walk ends at stands in memory, at a multiple of 8.
pub Found-leaf :
    {peek : ℕ → Option ℕ} {vpn : List ℕ} {n base level addr pte : ℕ}
    → Found peek vpn n base level addr pte
    → base % 8 ≡ 0
    → (peek addr ≡ some pte) × (is_leaf pte ≡ true) × (addr % 8 ≡ 0)
Found-leaf (here e pk lf) aligned = (pk, lf, omega arith)
Found-leaf (below {next = w} pk ptr rest) aligned = Found-leaf rest (omega arith)

module _ (m : MemoryBus) (mem : IsMemory m) (vpn : List ℕ) (access : AccessType) where
  -- A pointer on the way does not stand where the leaf stands.
  pointer_kept :
      (b : m.Bus) (at addr pte next : ℕ)
      → mem.peek b addr ≡ some pte
      → is_leaf pte ≡ true
      → addr % 8 ≡ 0
      → mem.peek b at ≡ some next
      → is_pointer next ≡ true
      → at % 8 ≡ 0
      → mem.peek (mem.written addr (updated_pte pte access) b) at ≡ some next
  pointer_kept b at addr pte next pk lf aligned pk' ptr aligned' = elim (ℕ_discrete at addr) [
    | yes same ↦
        let one : some pte ≡ some next = sym pk ∙ ap (mem.peek b) (sym same) ∙ pk' in
        let entry : pte ≡ next = cc one in
        absurd (leaf_not_pointer next (ap is_leaf (sym entry) ∙ lf) ptr)
    | no apart ↦
        mem.peek-written addr (updated_pte pte access) pte at b pk
          (updated_pte-lt pte access (mem.peek-lt addr pte b pk)) aligned aligned'
        ∙ rw (==_false at addr apart) pk'
  ]

  Found-written :
      (b : m.Bus) {n base level addr pte : ℕ}
      → Found (mem.peek b) vpn n base level addr pte
      → base % 8 ≡ 0
      → Found
          (mem.peek (mem.written addr (updated_pte pte access) b))
          vpn
          n
          base
          level
          addr
          (updated_pte pte access)
  Found-written b (here {addr = a} {pte = w} e pk lf) aligned =
      here e
        (mem.peek-written a (updated_pte w access) w a b pk
            (updated_pte-lt w access (mem.peek-lt a w b pk)) (omega arith) (omega arith)
          ∙ rw (==_refl a))
        (is_leaf-updated_pte w access ∙ lf)
  Found-written b (below {top = t} {base = at_base} {next = w} {addr = a} {pte = l} pk ptr rest)
        aligned =
      let end = Found-leaf rest (omega arith) in
      below
        (pointer_kept b (at_base + get_or vpn t 0 * 8) a l w end.0 end.1 end.2 pk ptr (omega arith))
        ptr (Found-written b rest (omega arith))

-- The entry with the A bit, and for a store the D bit, as bit `i` shows it.
abbrev pub marked : ℕ → AccessType → ℕ → Bool
marked pte access i = test_bit pte i || ((i == 6) || is_store access && (i == 7))

-- The memory after a granted access: at the address of the leaf the entry with its A and D bits set,
-- and elsewhere what was there.
pub after_access-marked :
    (m : MemoryBus) (mem : IsMemory m) (access : AccessType) (addr pte i a : ℕ) (b : m.Bus)
    → mem.peek b addr ≡ some pte
    → addr % 8 ≡ 0
    → a % 8 ≡ 0
    → (w : ℕ) × (mem.peek (after_access m mem access addr pte b) a
        ≡ (if a == addr then some w else mem.peek b a))
      × (test_bit w i ≡ marked pte access i)
after_access-marked m mem access addr pte i a b pk aligned aligned' = (
  updated_pte pte access,
  memory (Bool-cases (needs_update pte access)),
  updated_pte_bits pte access i,
)
  where
    upd : ℕ
    upd = updated_pte pte access

    kept :
        updated_pte pte access ≡ pte → mem.peek b a ≡ (if a == addr then some upd else mem.peek b a)
    kept same = elim (ℕ_discrete a addr) [
      | yes here_it_is ↦ rw (here_it_is, ==_refl addr) (pk ∙ ap some (sym same))
      | no apart ↦ rw (==_false a addr apart) refl
    ]

    memory :
        (needs_update pte access ≡ true) ⊎ (needs_update pte access ≡ false)
        → mem.peek (after_access m mem access addr pte b) a
          ≡ (if a == addr then some upd else mem.peek b a)
    memory (inl stale) = rw stale (
        mem.peek-written addr upd pte a b pk (updated_pte-lt pte access (mem.peek-lt addr pte b pk))
          aligned aligned')
    memory (inr fresh) = rw fresh (kept (updated_pte_fresh pte access fresh))

-- Over tables in memory, a granted walk to a leaf gives its address and leaves a memory in which
-- the same walk gives the same address and changes nothing.
pub walk_again :
    (m : MemoryBus) (mem : IsMemory m) (leaf : ℕ → ℕ → Option ℕ) (vpn : List ℕ)
    (access : AccessType) (mode : Mode) (mstatus : ℕ) (b : m.Bus) {n base level addr pte : ℕ}
    (pa : ℕ)
    → Found (mem.peek b) vpn n base level addr pte
    → base % 8 ≡ 0
    → granted pte access mode mstatus ≡ true
    → leaf level (pte_ppn pte) ≡ some pa
    → let b' = after_access m mem access addr pte b in
      (walk m leaf vpn access mode mstatus n base b ≡ (ok pa, b'))
      × (walk m leaf vpn access mode mstatus n base b' ≡ (ok pa, b'))
walk_again m mem leaf vpn access mode mstatus b {n} {base} {level} {addr} {pte} pa found aligned
      grant at =
    (
      walk-Found m mem leaf vpn access mode mstatus b pa found grant at,
      second (Bool-cases (needs_update pte access)),
    )
  where
    upd : ℕ
    upd = updated_pte pte access

    second :
        (needs_update pte access ≡ true) ⊎ (needs_update pte access ≡ false)
        → walk m leaf vpn access mode mstatus n base (after_access m mem access addr pte b)
          ≡ (ok pa, after_access m mem access addr pte b)
    second (inl stale) = rw stale (
        walk-Found m mem leaf vpn access mode mstatus (mem.written addr upd b) pa
          (Found-written m mem vpn access b found aligned)
          (granted-updated_pte pte access mode mstatus ∙ grant)
          (ap (leaf level) (pte_ppn-updated_pte pte access) ∙ at)
        ∙ settled)
      where
        settled :
            ◌≡◌ {A = Outcome m}
              (ok pa, after_access m mem access addr upd (mem.written addr upd b))
              (ok pa, mem.written addr upd b)
        settled = rw (needs_update-updated_pte pte access) refl
    second (inr fresh) =
        rw fresh (walk-Found m mem leaf vpn access mode mstatus b pa found grant at ∙ rw fresh refl)
