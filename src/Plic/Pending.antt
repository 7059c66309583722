-- ===== src/Plic/Pending.antt =====
-- src/plic.rs: the pending and enable bits by interrupt number, and what an eligible interrupt is.
use qemu_rust_risc_v.Prelude.{ℕ, ◌+◌, ◌-◌, ◌*◌, ◌/◌, ◌%◌, ◌^◌, ◌<◌, ◌≤◌, ◌≡◌, arith, ap, ◌∙◌}
use qemu_rust_risc_v.Prelude.{
  Bool, true, false, ◌&&◌, ltb, leb, ◌==◌, ◌!=◌, if◌then◌else◌, bit_and, bit_or,
}
use qemu_rust_risc_v.Prelude.{[], length, get_or, get_or-set_self, get_or-set_ne}
use qemu_rust_risc_v.Bits.{
  test_bit, test_bit-and, test_bit-or, test_bit-clear, test_bit-shl, shl, bit_not,
}
use qemu_rust_risc_v.Bits.{bit_and-pow-test, test_bit_one, test_bit_zero}
use qemu_rust_risc_v.Plic.Defs.{
  Plic, max_irqs, active_bits, set_bit, clear_bit, set_pending, clear_pending,
}
use mathlib.Core.Bool.{xor}
use native.Mathlib.Decide.{dec_lt, ℕ_discrete}
use native.Mathlib.Nat.{pow-le-pow_right, mod-eq_of_lt}

abbrev pub is_pending : Plic → ℕ → Bool
is_pending p irq = test_bit (get_or p.pending (irq / 32) 0) (irq % 32)

abbrev pub is_enabled : Plic → ℕ → ℕ → Bool
is_enabled p context irq = test_bit (get_or (get_or p.enable context []) (irq / 32) 0) (irq % 32)

abbrev pub priority_of : Plic → ℕ → ℕ
priority_of p irq = get_or p.priority irq 0

abbrev pub threshold_of : Plic → ℕ → ℕ
threshold_of p context = get_or p.priority_threshold context 0

-- The specification of the two queries: an interrupt other than 0 that is pending, enabled for the
-- context, and above the context's threshold.
unfoldable pub eligible : Plic → ℕ → ℕ → Bool
eligible p context irq =
    ltb 0 irq
    && (ltb irq max_irqs
        && (is_pending p irq
            && (is_enabled p context irq && ltb (threshold_of p context) (priority_of p irq))))

-- `1 << bit` is a power of two while it fits the word.
pub shl_one : (bit : ℕ) → bit < 32 → shl 32 1 bit ≡ 2 ^ bit
shl_one bit h =
    let small : 2 ^ bit ≤ 2 ^ 31 =
      pow-le-pow_right {n = 2} (omega arith) {i = bit} {j = 31} (omega arith) in
    ap (λ (t : ℕ). t % 2 ^ 32) (omega arith) ∙ mod-eq_of_lt (omega arith)

-- The test of one bit of the word that the loops scan.
pub scan_test :
    (p : Plic) (context idx bit : ℕ)
    → bit < 32
    → (bit_and (active_bits p context idx) (shl 32 1 bit) != 0)
      ≡ (is_pending p (idx * 32 + bit) && is_enabled p context (idx * 32 + bit))
unfolding active_bits
scan_test p context idx bit h =
    let word : (idx * 32 + bit) / 32 ≡ idx = omega arith in
    let at : (idx * 32 + bit) % 32 ≡ bit = omega arith in
    rw (shl_one bit h, word, at)
      (bit_and-pow-test bit (active_bits p context idx)
        ∙ test_bit-and (get_or p.pending idx 0) (get_or (get_or p.enable context []) idx 0) bit)

-- A word with no active bit holds no eligible interrupt.
pub idle_word :
    (p : Plic) (context irq : ℕ)
    → active_bits p context (irq / 32) ≡ 0
    → eligible p context irq ≡ false
unfolding active_bits eligible
idle_word p context irq h = ground (
  arith,
  test_bit-and (get_or p.pending (irq / 32) 0) (get_or (get_or p.enable context []) (irq / 32) 0)
      (irq % 32),
  ap (λ (t : ℕ). test_bit t (irq % 32)) h,
  test_bit_zero (irq % 32),
)

test_bit_single32 : (k i : ℕ) → k < 32 → test_bit (shl 32 1 k) i ≡ (i == k)
test_bit_single32 k i h = ground (arith, test_bit-shl 32 k 1 i, test_bit_one (i - k))

same_irq : (i j : ℕ) → i / 32 ≡ j / 32 → i % 32 ≡ j % 32 → i ≡ j
same_irq i j h k = omega arith

-- `set_bit` and `clear_bit` change the one bit.
pub is_pending-set_bit :
    (p : Plic) (irq j : ℕ)
    → length p.pending ≡ 32
    → irq < 1024
    → is_pending (set_bit p irq) j ≡ (if j == irq then true else is_pending p j)
unfolding set_bit
is_pending-set_bit p irq j len h = elim (ℕ_discrete (irq / 32) (j / 32)) [
  | yes e ↦
      rw (← e, get_or-set_self p.pending (irq / 32) new 0 (omega arith))
        (ground (
          arith,
          test_bit-or (get_or p.pending (irq / 32) 0) (shl 32 1 (irq % 32)) (j % 32),
          test_bit_single32 (irq % 32) (j % 32) (omega arith),
          same_irq irq j e,
        ))
  | no ne ↦ rw (get_or-set_ne p.pending (irq / 32) (j / 32) new 0 ne) (ground arith)
]
  where
    new : ℕ
    new = bit_or (get_or p.pending (irq / 32) 0) (shl 32 1 (irq % 32))

pub is_pending-clear_bit :
    (p : Plic) (irq j : ℕ)
    → length p.pending ≡ 32
    → irq < 1024
    → is_pending (clear_bit p irq) j ≡ (if j == irq then false else is_pending p j)
unfolding clear_bit xor
is_pending-clear_bit p irq j len h = elim (ℕ_discrete (irq / 32) (j / 32)) [
  | yes e ↦
      rw (← e, get_or-set_self p.pending (irq / 32) new 0 (omega arith))
        (ground (
          arith,
          test_bit-clear 32 (get_or p.pending (irq / 32) 0) (shl 32 1 (irq % 32)) (j % 32),
          test_bit_single32 (irq % 32) (j % 32) (omega arith),
          same_irq irq j e,
        ))
  | no ne ↦ rw (get_or-set_ne p.pending (irq / 32) (j / 32) new 0 ne) (ground arith)
]
  where
    new : ℕ
    new = bit_and (get_or p.pending (irq / 32) 0) (bit_not 32 (shl 32 1 (irq % 32)))

-- `set_pending` sets the bit of an interrupt from 1 to 1023, does nothing for any other number, and
-- leaves the other bits.
pub set_pending_lem :
    (p : Plic) (irq j : ℕ)
    → length p.pending ≡ 32
    → is_pending (set_pending p irq) j
      ≡ (if ltb 0 irq && (leb irq 1023 && (j == irq)) then true else is_pending p j)
unfolding set_pending
set_pending_lem p irq j len = elim (dec_lt irq 1024) [
  | yes h ↦ ground (arith, is_pending-set_bit p irq j len h)
  | no h ↦ ground arith
]

-- `clear_pending` is the inverse on the same bit.
pub clear_pending_lem :
    (p : Plic) (irq j : ℕ)
    → length p.pending ≡ 32
    → is_pending (clear_pending p irq) j
      ≡ (if ltb 0 irq && (leb irq 1023 && (j == irq)) then false else is_pending p j)
unfolding clear_pending
clear_pending_lem p irq j len = elim (dec_lt irq 1024) [
  | yes h ↦ ground (arith, is_pending-clear_bit p irq j len h)
  | no h ↦ ground arith
]
