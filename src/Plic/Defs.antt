-- ===== src/Plic/Defs.antt =====
-- src/plic.rs: the state of the controller, and its interrupt queries. The fixed-size arrays are
-- lists; every index that the code forms is within the array.
use qemu_rust_risc_v.Prelude.{ℕ, zero, suc, ◌+◌, ◌*◌, ◌/◌, ◌%◌, Bool, true, false, List, []}
use qemu_rust_risc_v.Prelude.{ltb, leb, ◌==◌, ◌!=◌, if◌then◌else◌, bit_and, bit_or, ◌&&◌}
use qemu_rust_risc_v.Prelude.{get_or, set, replicate}
use qemu_rust_risc_v.Bits.{shl, bit_not}

abbrev pub max_irqs : ℕ
max_irqs = 1024

abbrev pub max_contexts : ℕ
max_contexts = 2

pub record Plic : Type 0 where
  pub priority : List ℕ
  pub priority_threshold : List ℕ
  pub claim_complete : List ℕ
  pub pending : List ℕ
  pub enable : List (List ℕ)

unfoldable pub new : Plic
new = record {
  priority = replicate max_irqs 0;
  priority_threshold = replicate max_contexts 0;
  claim_complete = replicate max_contexts 0;
  pending = replicate 32 0;
  enable = replicate max_contexts (replicate 32 0);
}

-- `self.pending[idx] & self.enable[context_id][idx]`
unfoldable pub active_bits : Plic → ℕ → ℕ → ℕ
active_bits p context idx =
    bit_and (get_or p.pending idx 0) (get_or (get_or p.enable context []) idx 0)

-- The inner loop of `has_pending_interrupt`, from `bit` on with `left` rounds to go: whether it
-- returns.
unfoldable pub any_bit : Plic → ℕ → ℕ → ℕ → ℕ → ℕ → Bool
any_bit p threshold idx active zero bit = false
any_bit p threshold idx active (suc left) bit =
    let rest = any_bit p threshold idx active left (bit + 1) in
    if bit_and active (shl 32 1 bit) != 0
    then (let irq = idx * 32 + bit in
        if irq == 0
        then rest
        else if ltb irq max_irqs
        then (if ltb threshold (get_or p.priority irq 0) then true else rest)
        else rest)
    else rest

-- The outer loop.
unfoldable pub any_word : Plic → ℕ → ℕ → ℕ → ℕ → Bool
any_word p context threshold zero idx = false
any_word p context threshold (suc left) idx =
    let rest = any_word p context threshold left (idx + 1) in
    let active = active_bits p context idx in
    if active == 0 then rest else if any_bit p threshold idx active 32 0 then true else rest

unfoldable pub has_pending_interrupt : Plic → ℕ → Bool
has_pending_interrupt p context =
    if leb max_contexts context
    then false
    else any_word p context (get_or p.priority_threshold context 0) 32 0

-- `best_irq` and `best_priority`.
pub record Best : Type 0 where
  pub irq : ℕ
  pub priority : ℕ

-- The inner loop of `claim_interrupt`.
unfoldable pub best_bit : Plic → ℕ → ℕ → ℕ → ℕ → ℕ → Best → Best
best_bit p threshold idx active zero bit b = b
best_bit p threshold idx active (suc left) bit b = best_bit p threshold idx active left (bit + 1) (
    if bit_and active (shl 32 1 bit) != 0
    then (let irq = idx * 32 + bit in
        if irq == 0
        then b
        else if ltb irq max_irqs
        then (let prio = get_or p.priority irq 0 in
            if ltb threshold prio && ltb b.priority prio
            then record { irq = irq; priority = prio }
            else b)
        else b)
    else b)

-- The outer loop.
unfoldable pub best_word : Plic → ℕ → ℕ → ℕ → ℕ → Best → Best
best_word p context threshold zero idx b = b
best_word p context threshold (suc left) idx b =
    let active = active_bits p context idx in
    best_word p context threshold left (idx + 1)
      (if active == 0 then b else best_bit p threshold idx active 32 0 b)

-- `self.pending[idx] &= !(1 << bit)`, and `|= 1 << bit`, at the bit of `irq`.
unfoldable pub clear_bit : Plic → ℕ → Plic
clear_bit p irq = record p {
  pending =
      set p.pending (irq / 32)
        (bit_and (get_or p.pending (irq / 32) 0) (bit_not 32 (shl 32 1 (irq % 32))));
}

unfoldable pub set_bit : Plic → ℕ → Plic
set_bit p irq = record p {
  pending = set p.pending (irq / 32) (bit_or (get_or p.pending (irq / 32) 0) (shl 32 1 (irq % 32)));
}

unfoldable pub claim_interrupt : Plic → ℕ → ℕ × Plic
claim_interrupt p context =
    if leb max_contexts context
    then (0, p)
    else (let best =
          best_word p context (get_or p.priority_threshold context 0) 32 0
            (record { irq = 0; priority = 0 }) in
        (best.irq, (if ltb 0 best.irq then clear_bit p best.irq else p)))

-- `complete_interrupt` has an empty body.
unfoldable pub complete_interrupt : Plic → ℕ → ℕ → Plic
complete_interrupt p context irq = p

unfoldable pub set_pending : Plic → ℕ → Plic
set_pending p irq = if ltb 0 irq && leb irq 1023 then set_bit p irq else p

unfoldable pub clear_pending : Plic → ℕ → Plic
clear_pending p irq = if ltb 0 irq && leb irq 1023 then clear_bit p irq else p
