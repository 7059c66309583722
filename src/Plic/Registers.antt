-- ===== src/Plic/Registers.antt =====
-- src/plic.rs `read32` and `write32`: the memory-mapped registers. Neither returns an error.
use qemu_rust_risc_v.Prelude.{ℕ, ◌-◌, ◌/◌, ◌%◌, ltb, ◌==◌, if◌then◌else◌, in_range, bit_and}
use qemu_rust_risc_v.Prelude.{get_or, set, length, [], ◌&&◌}
use qemu_rust_risc_v.Bits.{bit_not}
use qemu_rust_risc_v.Plic.Defs.{Plic, max_irqs, max_contexts, claim_interrupt, complete_interrupt}

-- The value read, with the controller after the read: reading a claim register claims.
unfoldable pub read32 : Plic → ℕ → ℕ × Plic
read32 p offset =
    if in_range 0x000000 0x000FFF offset
    then (let irq = offset / 4 in ((if ltb irq max_irqs then get_or p.priority irq 0 else 0), p))
    else if in_range 0x001000 0x00107F offset
    then (let idx = (offset - 0x001000) / 4 in
        ((if ltb idx (length p.pending) then get_or p.pending idx 0 else 0), p))
    else if in_range 0x002000 0x01FFFF offset
    then (let rel_offset = offset - 0x002000 in
        let context = rel_offset / 0x80 in
        let idx = rel_offset % 0x80 / 4 in
        (
          (if ltb context max_contexts && ltb idx 32
              then get_or (get_or p.enable context []) idx 0
              else 0),
          p,
        ))
    else if offset == 0x200000
    then (get_or p.priority_threshold 0 0, p)
    else if offset == 0x200004
    then claim_interrupt p 0
    else if offset == 0x201000
    then (get_or p.priority_threshold 1 0, p)
    else if offset == 0x201004
    then claim_interrupt p 1
    else (0, p)

unfoldable pub write32 : Plic → ℕ → ℕ → Plic
write32 p offset value =
    if in_range 0x000000 0x000FFF offset
    then (let irq = offset / 4 in
        if ltb irq max_irqs
        then record p { priority = set p.priority irq (bit_and value 0x7) }
        else p)
    else if in_range 0x001000 0x00107F offset
    then (let idx = (offset - 0x001000) / 4 in
        if ltb idx (length p.pending)
        then record p {
          pending = set p.pending idx (bit_and (get_or p.pending idx 0) (bit_not 32 value));
        }
        else p)
    else if in_range 0x002000 0x01FFFF offset
    then (let rel_offset = offset - 0x002000 in
        let context = rel_offset / 0x80 in
        let idx = rel_offset % 0x80 / 4 in
        if ltb context max_contexts && ltb idx 32
        then record p { enable = set p.enable context (set (get_or p.enable context []) idx value) }
        else p)
    else if offset == 0x200000
    then record p { priority_threshold = set p.priority_threshold 0 (bit_and value 0x7) }
    else if offset == 0x200004
    then complete_interrupt p 0 value
    else if offset == 0x201000
    then record p { priority_threshold = set p.priority_threshold 1 (bit_and value 0x7) }
    else if offset == 0x201004
    then complete_interrupt p 1 value
    else p
