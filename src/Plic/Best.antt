-- ===== src/Plic/Best.antt =====
-- src/plic.rs: the loops of `claim_interrupt`, round by round.
use qemu_rust_risc_v.Prelude.{ℕ, zero, suc, ◌+◌, ◌*◌, ◌/◌, ◌≤◌, ◌<◌, ◌≡◌, ◌≢◌, refl, arith, ap}
use qemu_rust_risc_v.Prelude.{true, false, ◌&&◌, ltb, ◌==◌, ◌!=◌, if◌then◌else◌, bit_and}
use qemu_rust_risc_v.Prelude.{Bool-cases, inl, inr}
use qemu_rust_risc_v.Bits.{shl}
use qemu_rust_risc_v.Plic.Defs.{Plic, Best, max_irqs, active_bits, best_bit, best_word}
use qemu_rust_risc_v.Plic.Pending.{eligible, priority_of, threshold_of}
use qemu_rust_risc_v.Plic.Pending.{scan_test, idle_word}

-- `b` is the right answer among the interrupts below `n`.
pub record IsBest (p : Plic) (context n : ℕ) (b : Best) : Type 0 where
  pub nothing : b.irq ≡ 0 → b.priority ≡ 0
  pub found :
      b.irq ≢ 0
      → (eligible p context b.irq ≡ true) × (b.irq < n) × (b.priority ≡ priority_of p b.irq)
  pub top :
      (j : ℕ)
      → j < n
      → eligible p context j ≡ true
      → (priority_of p j ≤ b.priority) × (priority_of p j ≡ b.priority → b.irq ≤ j)

-- One round, as the specification sees it.
consider : Plic → ℕ → ℕ → Best → Best
consider p context irq b =
    if eligible p context irq && ltb b.priority (priority_of p irq)
    then record { irq = irq; priority = priority_of p irq }
    else b

module _ (p : Plic) (context : ℕ) where
  pub eligible_pos : (j : ℕ) → eligible p context j ≡ true → (0 < j) × (0 < priority_of p j)
  unfolding eligible
  eligible_pos j h = ground arith

  IsBest-skip :
      (n : ℕ) (b : Best)
      → eligible p context n ≡ false
      → IsBest p context n b
      → IsBest p context (suc n) b
  IsBest-skip n b idle v = record {
    nothing = v.nothing;
    found = λ ne. ground (arith, v.found ne);
    top = λ j lt e. elim (Bool-cases (j == n)) [
      | inl same ↦ absurd (clash j e (ground arith))
      | inr other ↦ v.top j (ground arith) e
    ];
  }
    where
      clash : (j : ℕ) → eligible p context j ≡ true → j ≡ n → ⊥
      clash j e same = cc (ap (eligible p context) same)

  -- The interrupt `n` is taken: its priority is above the best so far.
  IsBest-take :
      (n : ℕ) (b : Best)
      → eligible p context n ≡ true
      → b.priority < priority_of p n
      → IsBest p context n b
      → IsBest p context (suc n) (record { irq = n; priority = priority_of p n })
  IsBest-take n b e above v = record {
    nothing = λ z. absurd (omega (arith, eligible_pos n e));
    found = λ ne. (e, omega arith, refl);
    top = λ j lt ej. elim (Bool-cases (j == n)) [
      | inl same ↦ let at : j ≡ n = ground arith in (rw at (omega arith), λ q. omega arith)
      | inr other ↦
          let before = v.top j (ground arith) ej in (omega arith, λ q. absurd (omega arith))
    ];
  }

  -- The interrupt `n` is not above the best so far.
  IsBest-keep :
      (n : ℕ) (b : Best)
      → priority_of p n ≤ b.priority
      → IsBest p context n b
      → IsBest p context (suc n) b
  IsBest-keep n b below v = record {
    nothing = v.nothing;
    found = λ ne. ground (arith, v.found ne);
    top = λ j lt ej. elim (Bool-cases (j == n)) [
      | inl same ↦ let at : j ≡ n = ground arith in (rw at below, λ q. rw at (earlier b v))
      | inr other ↦ v.top j (ground arith) ej
    ];
  }
    where
      earlier : (b : Best) → IsBest p context n b → b.irq ≤ n
      earlier b v = elim (Bool-cases (b.irq == 0)) [
        | inl z ↦ ground arith
        | inr nz ↦ let f = v.found (ground arith) in omega arith
      ]

  IsBest-consider :
      (n : ℕ) (b : Best) → IsBest p context n b → IsBest p context (suc n) (consider p context n b)
  unfolding consider
  IsBest-consider n b v = elim (Bool-cases (eligible p context n)) [
    | inl e ↦ elim (Bool-cases (ltb b.priority (priority_of p n))) [
      | inl above ↦ rw (e, above) (IsBest-take n b e (ground arith) v)
      | inr below ↦ rw (e, below) (IsBest-keep n b (ground arith) v)
    ]
    | inr idle ↦ rw idle (IsBest-skip n b idle v)
  ]

  -- The body of the inner loop does what the specification says.
  round : ℕ → ℕ → Best → Best
  round idx bit b =
      if bit_and (active_bits p context idx) (shl 32 1 bit) != 0
      then (let irq = idx * 32 + bit in
          if irq == 0
          then b
          else if ltb irq max_irqs
          then (let prio = priority_of p irq in
              if ltb (threshold_of p context) prio && ltb b.priority prio
              then record { irq = irq; priority = prio }
              else b)
          else b)
      else b

  round_lem :
      (idx bit : ℕ) (b : Best) → bit < 32 → round idx bit b ≡ consider p context (idx * 32 + bit) b
  unfolding round consider eligible
  round_lem idx bit b h = ground (arith, scan_test p context idx bit h)

  IsBest-best_bit :
      (left idx bit : ℕ) (b : Best)
      → bit + left ≡ 32
      → IsBest p context (idx * 32 + bit) b
      → IsBest p context
          (idx * 32 + 32)
          (best_bit p (threshold_of p context) idx (active_bits p context idx) left bit b)
  unfolding best_bit round
  IsBest-best_bit zero idx bit b e v = let last : bit ≡ 32 = omega arith in rw last at v
  IsBest-best_bit (suc left) idx bit b e v =
      let next = IsBest-consider (idx * 32 + bit) b v in
      let at : suc (idx * 32 + bit) ≡ idx * 32 + (bit + 1) = omega arith in
      IsBest-best_bit left idx (bit + 1) (round idx bit b) (omega arith)
        (rw (round_lem idx bit b (omega arith)) (rw at at next))

  -- The interrupts of a word with no active bit are passed over.
  IsBest-idle :
      (left idx bit : ℕ) (b : Best)
      → bit + left ≡ 32
      → active_bits p context idx ≡ 0
      → IsBest p context (idx * 32 + bit) b
      → IsBest p context (idx * 32 + 32) b
  IsBest-idle zero idx bit b e idle v = let last : bit ≡ 32 = omega arith in rw last at v
  IsBest-idle (suc left) idx bit b e idle v =
      let word : (idx * 32 + bit) / 32 ≡ idx = omega arith in
      let at : suc (idx * 32 + bit) ≡ idx * 32 + (bit + 1) = omega arith in
      let none_here : eligible p context (idx * 32 + bit) ≡ false =
        idle_word p context (idx * 32 + bit) (rw word idle) in
      IsBest-idle left idx (bit + 1) b (omega arith) idle
        (rw at at (IsBest-skip (idx * 32 + bit) b none_here v))

  IsBest-best_word :
      (left idx : ℕ) (b : Best)
      → idx + left ≡ 32
      → IsBest p context (idx * 32) b
      → IsBest p context 1024 (best_word p context (threshold_of p context) left idx b)
  unfolding best_word
  IsBest-best_word zero idx b e v = let last : idx * 32 ≡ 1024 = omega arith in rw last at v
  IsBest-best_word (suc left) idx b e v =
      let start : idx * 32 + 0 ≡ idx * 32 = omega arith in
      let next : idx * 32 + 32 ≡ (idx + 1) * 32 = omega arith in
      elim (Bool-cases (active_bits p context idx == 0)) [
        | inl idle ↦ rw idle (
            IsBest-best_word left (idx + 1) b (omega arith)
              (rw next at (IsBest-idle 32 idx 0 b refl (ground arith) (rw start v))))
        | inr busy ↦ rw busy (
            IsBest-best_word left (idx + 1)
              (best_bit p (threshold_of p context) idx (active_bits p context idx) 32 0 b)
              (omega arith) (rw next at (IsBest-best_bit 32 idx 0 b refl (rw start v))))
      ]

  unfoldable pub the_best : Best
  the_best = best_word p context (threshold_of p context) 32 0 (record { irq = 0; priority = 0 })

  pub the_best-IsBest : IsBest p context 1024 the_best
  unfolding the_best
  the_best-IsBest =
      IsBest-best_word 32 0 (record { irq = 0; priority = 0 }) refl
        (record {
          nothing = λ e. refl;
          found = λ ne. absurd (ne refl);
          top = λ j lt e. absurd (omega arith);
        })

pub eligible-lt : (p : Plic) (context j : ℕ) → eligible p context j ≡ true → j < 1024
unfolding eligible
eligible-lt p context j e = ground arith
