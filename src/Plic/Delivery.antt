-- ===== src/Plic/Delivery.antt =====
-- src/plic.rs: the signal of a device and the register writes of a driver.
use qemu_rust_risc_v.Prelude.{ℕ, ◌+◌, ◌-◌, ◌*◌, ◌/◌, ◌%◌, ◌≤◌, ◌<◌, ◌≡◌, ◌≢◌, arith, ap}
use qemu_rust_risc_v.Prelude.{true, ◌&&◌, ◌==◌, if◌then◌else◌, bit_and}
use qemu_rust_risc_v.Prelude.{List, [], length, get_or, set, get_or-set_self, get_or-set_ne}
use qemu_rust_risc_v.Bits.{bit_and_mask, test_bit}
use qemu_rust_risc_v.Plic.Defs.{Plic, set_pending}
use qemu_rust_risc_v.Plic.Defs.{has_pending_interrupt, claim_interrupt, set_bit}
use qemu_rust_risc_v.Plic.Registers.{read32, write32}
use qemu_rust_risc_v.Plic.Pending.{eligible, is_enabled, priority_of, threshold_of, set_pending_lem}
use qemu_rust_risc_v.Plic.Best.{eligible_pos}
use qemu_rust_risc_v.Plic.Claim.{claim-highest}
use qemu_rust_risc_v.Plic.Query.{has_pending-claim}
use qemu_rust_risc_v.Plic.Invariant.{IsValid, enable_row}

eligible-set_pending :
    (p : Plic) (context irq : ℕ)
    → length p.pending ≡ 32
    → 0 < irq
    → irq < 1024
    → is_enabled p context irq ≡ true
    → threshold_of p context < priority_of p irq
    → eligible (set_pending p irq) context irq ≡ true
unfolding eligible
eligible-set_pending p context irq len pos lt on above =
    ground (arith, set_pending_lem p irq irq len, same_rest)
  where
    same_rest :
        ((set_pending p irq).enable ≡ p.enable)
        × ((set_pending p irq).priority ≡ p.priority)
        × ((set_pending p irq).priority_threshold ≡ p.priority_threshold)
    same_rest = unfold set_pending set_bit in ground arith

-- In a valid controller, a device's `set_pending` of an interrupt from 1 to 1023 that is enabled for
-- one of the two contexts and above its threshold makes the query of that context true, and
-- the next claim returns an interrupt of at least its priority.
pub delivered :
    (p : Plic) (context irq : ℕ)
    → IsValid p
    → context < 2
    → 0 < irq
    → irq < 1024
    → is_enabled p context irq ≡ true
    → threshold_of p context < priority_of p irq
    → let q = set_pending p irq in
      (has_pending_interrupt q context ≡ true)
      × (priority_of q irq ≤ priority_of q (claim_interrupt q context).0)
delivered p context irq v c pos lt on above =
    let q = set_pending p irq in
    let e = eligible-set_pending p context irq v.words pos lt on above in
    let top = claim-highest q context irq c e in
    let ne : (claim_interrupt q context).0 ≢ 0 =
      λ z. omega (arith, eligible_pos q context (claim_interrupt q context).0 top.0) in
    ((has_pending-claim q context).1 ne, top.1)

-- A priority register keeps the low three bits of what is written.
pub priority_roundtrip :
    (p : Plic) (irq value : ℕ)
    → IsValid p
    → irq < 1024
    → (read32 (write32 p (irq * 4) value) (irq * 4)).0 ≡ value % 8
unfolding read32 write32
priority_roundtrip p irq value v h = ground (
  arith,
  get_or-set_self p.priority irq (bit_and value 0x7) 0,
  v.priorities,
  bit_and_mask 3 value,
  at,
)
  where
    at : irq * 4 / 4 ≡ irq
    at = omega arith

abbrev enable_offset : ℕ → ℕ → ℕ
enable_offset context idx = 0x002000 + context * 0x80 + idx * 4

-- The offset of an enable register leads back to the context and the word.
enable_offset_lem :
    (context idx : ℕ)
    → context < 2
    → idx < 32
    → ((enable_offset context idx - 0x002000) / 0x80 ≡ context)
      × ((enable_offset context idx - 0x002000) % 0x80 / 4 ≡ idx)
      × (0x002000 ≤ enable_offset context idx)
      × (enable_offset context idx ≤ 0x01FFFF)
enable_offset_lem context idx c h = omega arith

write32_enable :
    (p : Plic) (context idx value : ℕ)
    → context < 2
    → idx < 32
    → write32 p (enable_offset context idx) value
      ≡ record p { enable = set p.enable context (set (enable_row p context) idx value) }
unfolding write32
write32_enable p context idx value c h = ground (arith, enable_offset_lem context idx c h)

-- In a valid controller, a write to the enable register of word `idx` (below 32) of a context sets the enable bits of its thirty-two
-- interrupts from the value, and leaves every other bit of both contexts.
pub is_enabled-write32 :
    (p : Plic) (context idx value context' irq : ℕ)
    → IsValid p
    → context < 2
    → idx < 32
    → is_enabled (write32 p (0x002000 + context * 0x80 + idx * 4) value) context' irq ≡ (
        if (context' == context) && (irq / 32 == idx)
        then test_bit value (irq % 32)
        else is_enabled p context' irq)
is_enabled-write32 p context idx value context' irq v c h =
    rw (write32_enable p context idx value c h) (
      ground (
        arith,
        get_or-set_self p.enable context row [],
        get_or-set_ne p.enable context context' row [],
        get_or-set_self (enable_row p context) idx value 0,
        get_or-set_ne (enable_row p context) idx (irq / 32) value 0,
        v.contexts,
        v.rows context,
        ap
            (λ (t : ℕ).
              test_bit (get_or (get_or (set p.enable context row) t []) (irq / 32) 0) (irq % 32))
            {x = context'} {y = context},
        ap (λ (t : ℕ). test_bit (get_or row t 0) (irq % 32)) {x = irq / 32} {y = idx},
      ))
  where
    row : List ℕ
    row = set (enable_row p context) idx value
