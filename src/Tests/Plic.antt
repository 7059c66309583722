-- ===== src/Tests/Plic.antt =====
-- The interrupt controller with three sources of different priorities for context 1.
use qemu_rust_risc_v.Prelude.{◌≡◌, ◌≢◌, ◌<◌, ◌≤◌, ◌⊎◌, ◌↔◌, refl, arith, true}
use qemu_rust_risc_v.Bits.{test_bit}
use qemu_rust_risc_v.Plic.Defs.{
  Plic, new, set_pending, claim_interrupt, has_pending_interrupt, set_bit, best_word, best_bit,
  active_bits,
}
use qemu_rust_risc_v.Plic.Registers.{write32}
use qemu_rust_risc_v.Plic.Pending.{is_enabled, priority_of, threshold_of, eligible}
use qemu_rust_risc_v.Plic.Claim.{claim-highest, claim_twice}
use qemu_rust_risc_v.Plic.Query.{has_pending-claim}
use qemu_rust_risc_v.Plic.Invariant.{IsValid, new-IsValid, write32-IsValid, set_pending-IsValid}
use qemu_rust_risc_v.Plic.Delivery.{delivered}

-- Sources 3 and 10 at priority 5 and source 7 at priority 2, all enabled for context 1.
abbrev pub configured : Plic
configured = write32 (write32 (write32 (write32 new 12 5) 40 5) 28 2) 0x002080 0x488

-- Sources 3, 7 and 10 pending.
abbrev raised : Plic
raised = set_pending (set_pending (set_pending configured 10) 7) 3

pub configured-IsValid : IsValid configured
configured-IsValid =
    write32-IsValid
      (write32-IsValid
        (write32-IsValid (write32-IsValid new-IsValid 12 5 (omega arith)) 40 5 (omega arith)) 28 2
        (omega arith))
      0x002080 0x488 (omega arith)

raised-IsValid : IsValid raised
raised-IsValid =
    set_pending-IsValid (set_pending-IsValid (set_pending-IsValid configured-IsValid 10) 7) 3

ten_eligible : eligible raised 1 10 ≡ true
unfolding eligible set_pending set_bit write32 new test_bit
ten_eligible = refl

claim-highest_example :
    let irq = (claim_interrupt raised 1).0 in
    (eligible raised 1 irq ≡ true)
    × (priority_of raised 10 ≤ priority_of raised irq)
    × ((priority_of raised 10 < priority_of raised irq) ⊎ (irq ≤ 10))
claim-highest_example = claim-highest raised 1 10 (omega arith) ten_eligible

-- Of the two sources of priority 5 the lower one is claimed.
claim_test : (claim_interrupt raised 1).0 ≡ 3
unfolding claim_interrupt set_pending set_bit write32 new best_word best_bit active_bits
claim_test = refl

has_pending-claim_example :
    (has_pending_interrupt raised 1 ≡ true) ↔ ((claim_interrupt raised 1).0 ≢ 0)
has_pending-claim_example = has_pending-claim raised 1

claim_twice_example :
    let (irq, p') = claim_interrupt raised 1 in
    ((claim_interrupt p' 1).0 ≡ 0) ⊎ ((claim_interrupt p' 1).0 ≢ irq)
claim_twice_example = claim_twice raised 1 raised-IsValid.words

pub ten_enabled : is_enabled configured 1 10 ≡ true
unfolding write32 new test_bit
ten_enabled = refl

pub ten_above : threshold_of configured 1 < priority_of configured 10
unfolding write32 new
ten_above = omega arith

delivered_example :
    let q = set_pending configured 10 in
    (has_pending_interrupt q 1 ≡ true) × (priority_of q 10 ≤ priority_of q (claim_interrupt q 1).0)
delivered_example =
    delivered configured 1 10 configured-IsValid (omega arith) (omega arith) (omega arith)
      ten_enabled ten_above

write32-IsValid_example : IsValid (write32 configured 0x200004 1)
write32-IsValid_example = write32-IsValid configured-IsValid 0x200004 1 (omega arith)
