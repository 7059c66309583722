-- ===== src/Plic/Claim.antt =====
-- src/plic.rs: `claim_interrupt` against the eligible interrupts.
use qemu_rust_risc_v.Prelude.{ℕ, ◌≤◌, ◌<◌, ◌≡◌, ◌≢◌, arith}
use qemu_rust_risc_v.Prelude.{true, false, ◌&&◌, ltb, leb, ◌==◌, if◌then◌else◌}
use qemu_rust_risc_v.Prelude.{Bool-cases, inl, inr, length, ◌⊎◌}
use qemu_rust_risc_v.Plic.Defs.{Plic, max_contexts}
use qemu_rust_risc_v.Plic.Defs.{claim_interrupt, clear_bit}
use qemu_rust_risc_v.Plic.Pending.{eligible, priority_of, is_pending}
use qemu_rust_risc_v.Plic.Pending.{is_pending-clear_bit}
use qemu_rust_risc_v.Plic.Best.{the_best, the_best-IsBest, eligible_pos, eligible-lt}
use native.Mathlib.Decide.{dec_lt, ℕ_discrete}

lt→leb : (context : ℕ) → context < 2 → leb max_contexts context ≡ false
lt→leb context h = ground arith

-- A claim, by the best interrupt.
claim_by_best :
    (p : Plic) (context : ℕ)
    → context < 2
    → claim_interrupt p context ≡ (
      (the_best p context).irq,
      (if ltb 0 (the_best p context).irq then clear_bit p (the_best p context).irq else p),
    )
unfolding claim_interrupt the_best
claim_by_best p context h = rw (lt→leb context h)

-- If some interrupt is eligible for one of the two contexts, the claimed one is eligible, none eligible has a
-- higher priority, and among those of the same priority it has the lowest number.
pub claim-highest :
    (p : Plic) (context j : ℕ)
    → context < 2
    → eligible p context j ≡ true
    → let irq = (claim_interrupt p context).0 in
      (eligible p context irq ≡ true)
      × (priority_of p j ≤ priority_of p irq)
      × ((priority_of p j < priority_of p irq) ⊎ (irq ≤ j))
claim-highest p context j h e =
    let v = the_best-IsBest p context in
    let t = v.top j (eligible-lt p context j e) e in
    let pos = eligible_pos p context j e in
    let ne : (the_best p context).irq ≢ 0 = λ z. absurd (omega (arith, v.nothing z)) in
    let f = v.found ne in rw (claim_by_best p context h) (f.0, omega arith, ground arith)

-- A claim returns 0 or an eligible interrupt, also for a context that does not exist.
pub claim-eligible :
    (p : Plic) (context : ℕ)
    → let irq = (claim_interrupt p context).0 in (irq ≡ 0) ⊎ (eligible p context irq ≡ true)
claim-eligible p context = elim (dec_lt context 2) [
  | yes h ↦ rw (claim_by_best p context h) (zero_or p context)
  | no h ↦ inl (unfold claim_interrupt in ground arith)
]
  where
    zero_or :
        (p : Plic) (context : ℕ)
        → ((the_best p context).irq ≡ 0) ⊎ (eligible p context (the_best p context).irq ≡ true)
    zero_or p context = elim (ℕ_discrete (the_best p context).irq 0) [
      | yes z ↦ inl z
      | no ne ↦ inr ((the_best-IsBest p context).found ne).0
    ]

-- With 32 words of pending bits, the claim clears the pending bit of the interrupt that it returns,
-- and changes no other.
pub is_pending-claim :
    (p : Plic) (context j : ℕ)
    → length p.pending ≡ 32
    → let (irq, p') = claim_interrupt p context in
      is_pending p' j ≡ (if ltb 0 irq && (j == irq) then false else is_pending p j)
is_pending-claim p context j len = elim (dec_lt context 2) [
  | yes h ↦ rw (claim_by_best p context h) (cleared p context len)
  | no h ↦ unfold claim_interrupt in ground arith
]
  where
    bound : (p : Plic) (context : ℕ) → (the_best p context).irq < 1024
    bound p context = elim (ℕ_discrete (the_best p context).irq 0) [
      | yes z ↦ omega arith
      | no ne ↦ ((the_best-IsBest p context).found ne).1
    ]

    cleared :
        (p : Plic) (context : ℕ)
        → length p.pending ≡ 32
        → is_pending
            (if ltb 0 (the_best p context).irq then clear_bit p (the_best p context).irq else p)
            j
          ≡ (if ltb 0 (the_best p context).irq && (j == (the_best p context).irq)
              then false
              else is_pending p j)
    cleared p context len = elim (Bool-cases (ltb 0 (the_best p context).irq)) [
      | inl found ↦
          rw found (is_pending-clear_bit p (the_best p context).irq j len (bound p context))
      | inr nothing ↦ rw nothing
    ]

eligible_pending :
    (p : Plic) (context irq : ℕ)
    → eligible p context irq ≡ true
    → (0 < irq) × (is_pending p irq ≡ true)
unfolding eligible
eligible_pending p context irq e = ground arith

-- With 32 words of pending bits, the next claim after a claim returns nothing or an interrupt other
-- than the one that was claimed.
pub claim_twice :
    (p : Plic) (context : ℕ)
    → length p.pending ≡ 32
    → let (irq, p') = claim_interrupt p context in
      ((claim_interrupt p' context).0 ≡ 0) ⊎ ((claim_interrupt p' context).0 ≢ irq)
claim_twice p context len =
    again p context len (claim-eligible (claim_interrupt p context).1 context)
  where
    pending_clash :
        (p : Plic) (context : ℕ)
        → length p.pending ≡ 32
        → ¬ (eligible (claim_interrupt p context).1 context (claim_interrupt p context).0 ≡ true)
    pending_clash p context len e = ground (
      arith,
      eligible_pending (claim_interrupt p context).1 context (claim_interrupt p context).0 e,
      is_pending-claim p context (claim_interrupt p context).0 len,
    )

    again :
        (p : Plic) (context : ℕ)
        → length p.pending ≡ 32
        → (let irq = (claim_interrupt (claim_interrupt p context).1 context).0 in
            (irq ≡ 0) ⊎ (eligible (claim_interrupt p context).1 context irq ≡ true))
        → let (irq, p') = claim_interrupt p context in
          ((claim_interrupt p' context).0 ≡ 0) ⊎ ((claim_interrupt p' context).0 ≢ irq)
    again p context len (inl z) = inl z
    again p context len (inr e) = inr (λ same. pending_clash p context len (rw same at e))
