-- ===== src/Plic/Query.antt =====
-- src/plic.rs: `has_pending_interrupt` against the eligible interrupts.
use qemu_rust_risc_v.Prelude.{
  ℕ, zero, suc, ◌+◌, ◌*◌, ◌/◌, ◌%◌, ◌≤◌, ◌<◌, ◌≡◌, ◌≢◌, refl, arith, ap, sym, ◌∙◌,
}
use qemu_rust_risc_v.Prelude.{Bool, true, ltb, ◌==◌, ◌!=◌, if◌then◌else◌, bit_and}
use qemu_rust_risc_v.Prelude.{Bool-cases, inl, inr, ◌↔◌}
use qemu_rust_risc_v.Bits.{shl}
use qemu_rust_risc_v.Plic.Defs.{Plic, max_irqs, active_bits}
use qemu_rust_risc_v.Plic.Defs.{any_bit, any_word, claim_interrupt, has_pending_interrupt}
use qemu_rust_risc_v.Plic.Pending.{eligible, priority_of, threshold_of, scan_test, idle_word}
use qemu_rust_risc_v.Plic.Best.{eligible-lt, eligible_pos}
use qemu_rust_risc_v.Plic.Claim.{claim-eligible, claim-highest}
use native.Mathlib.Decide.{dec_lt, ℕ_discrete}

module _ (p : Plic) (context : ℕ) where
  -- What the test of one round amounts to.
  hit : ℕ → ℕ → Bool → Bool
  hit idx bit rest =
      if bit_and (active_bits p context idx) (shl 32 1 bit) != 0
      then (let irq = idx * 32 + bit in
          if irq == 0
          then rest
          else if ltb irq max_irqs
          then (if ltb (threshold_of p context) (priority_of p irq) then true else rest)
          else rest)
      else rest

  hit_lem :
      (idx bit : ℕ) (rest : Bool)
      → bit < 32
      → hit idx bit rest ≡ (if eligible p context (idx * 32 + bit) then true else rest)
  unfolding hit eligible
  hit_lem idx bit rest h = ground (arith, scan_test p context idx bit h)

  any_bit_step :
      (left idx bit : ℕ)
      → bit < 32
      → any_bit p (threshold_of p context) idx (active_bits p context idx) (suc left) bit ≡ (
          if eligible p context (idx * 32 + bit)
          then true
          else any_bit p (threshold_of p context) idx (active_bits p context idx) left (bit + 1))
  unfolding any_bit hit
  any_bit_step left idx bit h =
      hit_lem idx bit
        (any_bit p (threshold_of p context) idx (active_bits p context idx) left (bit + 1)) h

  any_bit_sound :
      (left idx bit : ℕ)
      → bit + left ≡ 32
      → any_bit p (threshold_of p context) idx (active_bits p context idx) left bit ≡ true
      → (j : ℕ) × (eligible p context j ≡ true)
  any_bit_sound zero idx bit e h = unfold any_bit in cc h
  any_bit_sound (suc left) idx bit e h = elim (Bool-cases (eligible p context (idx * 32 + bit))) [
    | inl here ↦ (idx * 32 + bit, here)
    | inr not_here ↦
        any_bit_sound left idx (bit + 1) (omega arith) (ground (arith, any_bit_step left idx bit))
  ]

  any_bit_complete :
      (left idx bit k : ℕ)
      → bit + left ≡ 32
      → bit ≤ k
      → k < 32
      → eligible p context (idx * 32 + k) ≡ true
      → any_bit p (threshold_of p context) idx (active_bits p context idx) left bit ≡ true
  any_bit_complete zero idx bit k e lo hi h = absurd (omega arith)
  any_bit_complete (suc left) idx bit k e lo hi h = elim (ℕ_discrete bit k) [
    | yes same ↦ rw (any_bit_step left idx bit (omega arith), same, h)
    | no later ↦ ground (
      arith,
      any_bit_step left idx bit,
      any_bit_complete left idx (bit + 1) k (omega arith) (omega arith) hi h,
    )
  ]

  any_word_sound :
      (left idx : ℕ)
      → any_word p context (threshold_of p context) left idx ≡ true
      → (j : ℕ) × (eligible p context j ≡ true)
  unfolding any_word
  any_word_sound zero idx h = cc
  any_word_sound (suc left) idx h =
      elim (Bool-cases (any_bit p (threshold_of p context) idx (active_bits p context idx) 32 0)) [
        | inl here ↦ any_bit_sound 32 idx 0 refl here
        | inr not_here ↦ any_word_sound left (idx + 1) (ground arith)
      ]

  any_word_complete :
      (left idx j : ℕ)
      → idx + left ≡ 32
      → idx ≤ j / 32
      → eligible p context j ≡ true
      → any_word p context (threshold_of p context) left idx ≡ true
  unfolding any_word
  any_word_complete zero idx j e lo h = absurd (omega (arith, eligible-lt p context j h))
  any_word_complete (suc left) idx j e lo h = elim (ℕ_discrete idx (j / 32)) [
    | yes same ↦ ground (arith, found same, idle_word p context j, ap (active_bits p context) same)
    | no later ↦ ground (arith, any_word_complete left (idx + 1) j (omega arith) (omega arith) h)
  ]
    where
      found :
          idx ≡ j / 32
          → any_bit p (threshold_of p context) idx (active_bits p context idx) 32 0 ≡ true
      found same =
          let split : idx * 32 + j % 32 ≡ j = omega arith in
          any_bit_complete 32 idx 0 (j % 32) refl (omega arith) (omega arith) (rw split h)

-- The query answers true exactly if a claim would return an interrupt.
pub has_pending-claim :
    (p : Plic) (context : ℕ)
    → (has_pending_interrupt p context ≡ true) ↔ ((claim_interrupt p context).0 ≢ 0)
has_pending-claim p context = elim (dec_lt context 2) [
  | yes h ↦ (to p context h, from p context h)
  | no h ↦ unfold has_pending_interrupt claim_interrupt in ground arith
]
  where
    query :
        (p : Plic) (context : ℕ)
        → context < 2
        → has_pending_interrupt p context ≡ any_word p context (threshold_of p context) 32 0
    query p context h = unfold has_pending_interrupt in ground arith

    to :
        (p : Plic) (context : ℕ)
        → context < 2
        → has_pending_interrupt p context ≡ true
        → (claim_interrupt p context).0 ≢ 0
    to p context h e z =
        let (j, ej) = any_word_sound p context 32 0 (sym (query p context h) ∙ e) in
        let top = claim-highest p context j h ej in
        omega (arith, eligible_pos p context (claim_interrupt p context).0 top.0)

    from :
        (p : Plic) (context : ℕ)
        → context < 2
        → (claim_interrupt p context).0 ≢ 0
        → has_pending_interrupt p context ≡ true
    from p context h ne = query p context h ∙ elim (claim-eligible p context) [
      | inl z ↦ absurd (ne z)
      | inr e ↦ any_word_complete p context 32 0 (claim_interrupt p context).0 refl (omega arith) e
    ]
