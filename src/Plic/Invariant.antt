-- ===== src/Plic/Invariant.antt =====
-- src/plic.rs: the sizes of the arrays and the widths of the words, under every operation.
use qemu_rust_risc_v.Prelude.{ℕ, zero, suc, ◌-◌, ◌/◌, ◌%◌, ◌^◌, ◌<◌, ◌≡◌, refl, arith, ap, ◌∙◌}
use qemu_rust_risc_v.Prelude.{
  Bool, true, false, ◌&&◌, ltb, leb, ◌==◌, if◌then◌else◌, bit_and, bit_or,
}
use qemu_rust_risc_v.Prelude.{
  Bool-cases, if-cases, inl, inr, List, [], length, get_or, set, length-set, in_range,
}
use qemu_rust_risc_v.Prelude.{
  get_or-set-lt, get_or-set_self, get_or-set_ne, length-replicate, get_or-replicate, replicate,
}
use qemu_rust_risc_v.Bits.{shl, bit_not, bit_and-lt, bit_and-lt_right, bit_or-lt}
use qemu_rust_risc_v.Plic.Defs.{
  Plic, max_irqs, max_contexts, new, clear_bit, set_bit, claim_interrupt,
}
use qemu_rust_risc_v.Plic.Defs.{set_pending, clear_pending, complete_interrupt, best_word}
use qemu_rust_risc_v.Plic.Registers.{read32, write32}
use native.Mathlib.Decide.{ℕ_discrete}

abbrev pub enable_row : Plic → ℕ → List ℕ
enable_row p context = get_or p.enable context []

pub record IsValid (p : Plic) : Type 0 where
  pub priorities : length p.priority ≡ 1024
  pub thresholds : length p.priority_threshold ≡ 2
  pub words : length p.pending ≡ 32
  pub contexts : length p.enable ≡ 2
  pub rows : (c : ℕ) → c < 2 → length (enable_row p c) ≡ 32
  pub priority_lt : (i : ℕ) → get_or p.priority i 0 < 8
  pub threshold_lt : (i : ℕ) → get_or p.priority_threshold i 0 < 8
  pub pending_lt : (i : ℕ) → get_or p.pending i 0 < 2 ^ 32
  pub enable_lt : (c i : ℕ) → get_or (enable_row p c) i 0 < 2 ^ 32

zeros-lt : (n b i : ℕ) → 0 < b → get_or (replicate n 0) i 0 < b
zeros-lt n b i h = rw (get_or-replicate {A = ℕ} n 0 i) h

new_rows : (c : ℕ) → c < 2 → enable_row new c ≡ replicate 32 0
unfolding new
new_rows zero h = refl
new_rows (suc zero) h = refl
new_rows (suc (suc c)) h = absurd (omega arith)

new_row-lt : (c i : ℕ) → get_or (enable_row new c) i 0 < 2 ^ 32
unfolding new
new_row-lt zero i = zeros-lt 32 (2 ^ 32) i (omega arith)
new_row-lt (suc zero) i = zeros-lt 32 (2 ^ 32) i (omega arith)
new_row-lt (suc (suc c)) i = omega arith

-- The controller at reset is valid.
pub new-IsValid : IsValid new
unfolding new
new-IsValid = record {
  priorities = length-replicate {A = ℕ} 1024 0;
  thresholds = refl;
  words = refl;
  contexts = refl;
  rows = λ c h. ap (length {A = ℕ}) (new_rows c h);
  priority_lt = λ i. zeros-lt 1024 8 i (omega arith);
  threshold_lt = λ i. zeros-lt 2 8 i (omega arith);
  pending_lt = λ i. zeros-lt 32 (2 ^ 32) i (omega arith);
  enable_lt = λ c i. new_row-lt c i;
}

module _ {p : Plic} (v : IsValid p) where
  -- A new word of `pending`, and a new word of a row of `enable`.
  pending-IsValid :
      (idx word : ℕ) → word < 2 ^ 32 → IsValid (record p { pending = set p.pending idx word })
  pending-IsValid idx word h = record {
    priorities = v.priorities;
    thresholds = v.thresholds;
    words = length-set p.pending idx word ∙ v.words;
    contexts = v.contexts;
    rows = v.rows;
    priority_lt = v.priority_lt;
    threshold_lt = v.threshold_lt;
    pending_lt = λ i. get_or-set-lt p.pending idx word (2 ^ 32) i v.pending_lt h;
    enable_lt = v.enable_lt;
  }

  priority-IsValid :
      (irq word : ℕ) → word < 8 → IsValid (record p { priority = set p.priority irq word })
  priority-IsValid irq word h = record {
    priorities = length-set p.priority irq word ∙ v.priorities;
    thresholds = v.thresholds;
    words = v.words;
    contexts = v.contexts;
    rows = v.rows;
    priority_lt = λ i. get_or-set-lt p.priority irq word 8 i v.priority_lt h;
    threshold_lt = v.threshold_lt;
    pending_lt = v.pending_lt;
    enable_lt = v.enable_lt;
  }

  threshold-IsValid :
      (context word : ℕ)
      → word < 8
      → IsValid (record p { priority_threshold = set p.priority_threshold context word })
  threshold-IsValid context word h = record {
    priorities = v.priorities;
    thresholds = length-set p.priority_threshold context word ∙ v.thresholds;
    words = v.words;
    contexts = v.contexts;
    rows = v.rows;
    priority_lt = v.priority_lt;
    threshold_lt = λ i. get_or-set-lt p.priority_threshold context word 8 i v.threshold_lt h;
    pending_lt = v.pending_lt;
    enable_lt = v.enable_lt;
  }

  enable-IsValid :
      (context idx word : ℕ)
      → context < 2
      → word < 2 ^ 32
      → IsValid (record p { enable = set p.enable context (set (enable_row p context) idx word) })
  enable-IsValid context idx word c h = record {
    priorities = v.priorities;
    thresholds = v.thresholds;
    words = v.words;
    contexts = length-set p.enable context (set (enable_row p context) idx word) ∙ v.contexts;
    rows = λ d hd. elim (ℕ_discrete context d) [
      | yes e ↦
          rw (← e, get_or-set_self p.enable context row [] (rw v.contexts c))
            (length-set (enable_row p context) idx word ∙ v.rows context c)
      | no ne ↦ rw (get_or-set_ne p.enable context d row [] ne) (v.rows d hd)
    ];
    priority_lt = v.priority_lt;
    threshold_lt = v.threshold_lt;
    pending_lt = v.pending_lt;
    enable_lt = λ d i. elim (ℕ_discrete context d) [
      | yes e ↦
          rw (← e, get_or-set_self p.enable context row [] (rw v.contexts c))
            (get_or-set-lt (enable_row p context) idx word (2 ^ 32) i (v.enable_lt context) h)
      | no ne ↦ rw (get_or-set_ne p.enable context d row [] ne) (v.enable_lt d i)
    ];
  }
    where
      row : List ℕ
      row = set (enable_row p context) idx word

  clear_bit-IsValid : (irq : ℕ) → IsValid (clear_bit p irq)
  unfolding clear_bit
  clear_bit-IsValid irq =
      pending-IsValid (irq / 32)
        (bit_and (get_or p.pending (irq / 32) 0) (bit_not 32 (shl 32 1 (irq % 32))))
        (bit_and-lt 32 (get_or p.pending (irq / 32) 0) (bit_not 32 (shl 32 1 (irq % 32)))
          (v.pending_lt (irq / 32)))

  set_bit-IsValid : (irq : ℕ) → IsValid (set_bit p irq)
  unfolding set_bit
  set_bit-IsValid irq =
      pending-IsValid (irq / 32) (bit_or (get_or p.pending (irq / 32) 0) (shl 32 1 (irq % 32))) (
        bit_or-lt 32 (get_or p.pending (irq / 32) 0) (shl 32 1 (irq % 32)) (v.pending_lt (irq / 32))
          (omega arith))

  if-IsValid : (b : Bool) {q : Plic} → IsValid q → IsValid (if b then q else p)
  if-IsValid true h = h
  if-IsValid false h = v

  pub set_pending-IsValid : (irq : ℕ) → IsValid (set_pending p irq)
  unfolding set_pending
  set_pending-IsValid irq = if-IsValid (ltb 0 irq && leb irq 1023) (set_bit-IsValid irq)

  pub clear_pending-IsValid : (irq : ℕ) → IsValid (clear_pending p irq)
  unfolding clear_pending
  clear_pending-IsValid irq = if-IsValid (ltb 0 irq && leb irq 1023) (clear_bit-IsValid irq)

  pub claim-IsValid : (context : ℕ) → IsValid (claim_interrupt p context).1
  unfolding claim_interrupt
  claim-IsValid context = elim (Bool-cases (leb max_contexts context)) [
    | inl out ↦ rw out v
    | inr there ↦ rw there (if-IsValid (ltb 0 best) (clear_bit-IsValid best))
  ]
    where
      best : ℕ
      best =
          (best_word p context (get_or p.priority_threshold context 0) 32 0
            (record { irq = 0; priority = 0 })).irq

  seven-lt : (value : ℕ) → bit_and value 0x7 < 8
  seven-lt value = bit_and-lt_right 3 value 0x7 (omega arith)

  -- A read of any register keeps the invariant; a read of a claim register claims.
  pub read32-IsValid : (offset : ℕ) → IsValid (read32 p offset).1
  unfolding read32
  read32-IsValid offset =
      if-cases Ok (in_range 0x000000 0x000FFF offset) (λ _. v)
        (λ _.
          if-cases Ok (in_range 0x001000 0x00107F offset) (λ _. v)
            (λ _.
              if-cases Ok (in_range 0x002000 0x01FFFF offset) (λ _. v)
                (λ _.
                  if-cases Ok (offset == 0x200000) (λ _. v)
                    (λ _.
                      if-cases Ok (offset == 0x200004) (λ _. claim-IsValid 0)
                        (λ _.
                          if-cases Ok (offset == 0x201000) (λ _. v)
                            (λ _.
                              if-cases Ok (offset == 0x201004) (λ _. claim-IsValid 1) (λ _. v)))))))
    where
      Ok : ℕ × Plic → Type 0
      Ok r = IsValid r.1

  -- A write of a 32-bit word to any register of a valid controller keeps the invariant.
  pub write32-IsValid : (offset value : ℕ) → value < 2 ^ 32 → IsValid (write32 p offset value)
  unfolding write32 complete_interrupt
  write32-IsValid offset value h =
      if-cases IsValid (in_range 0x000000 0x000FFF offset)
        (λ _.
          if-IsValid (ltb (offset / 4) max_irqs)
            (priority-IsValid (offset / 4) (bit_and value 0x7) (seven-lt value)))
        (λ _.
          if-cases IsValid (in_range 0x001000 0x00107F offset)
            (λ _. if-IsValid (ltb word (length p.pending)) (
              pending-IsValid word (bit_and (get_or p.pending word 0) (bit_not 32 value))
                (bit_and-lt 32 (get_or p.pending word 0) (bit_not 32 value) (v.pending_lt word))))
            (λ _.
              if-cases IsValid (in_range 0x002000 0x01FFFF offset)
                (λ _.
                  if-cases IsValid (ltb context max_contexts && ltb row 32)
                    (λ t. enable-IsValid context row value (ground arith) h) (λ _. v))
                (λ _.
                  if-cases IsValid (offset == 0x200000)
                    (λ _. threshold-IsValid 0 (bit_and value 0x7) (seven-lt value))
                    (λ _.
                      if-cases IsValid (offset == 0x200004) (λ _. v)
                        (λ _.
                          if-cases IsValid (offset == 0x201000)
                            (λ _. threshold-IsValid 1 (bit_and value 0x7) (seven-lt value))
                            (λ _. if-IsValid (offset == 0x201004) v))))))
    where
      word : ℕ
      word = (offset - 0x001000) / 4

      context : ℕ
      context = (offset - 0x002000) / 0x80

      row : ℕ
      row = (offset - 0x002000) % 0x80 / 4
