-- ===== src/Cpu/Exec/Atomic.antt =====
-- src/cpu.rs: the AMO arm of `execute`: LR, SC and the read-modify-write instructions, on words of
-- 32 and of 64 bits.
use qemu_rust_risc_v.Prelude.{
  ℕ, Bool, true, false, ◌==◌, min, max, if◌then◌else◌, bit_and, bit_or, bit_xor, Option, none, some,
}
use qemu_rust_risc_v.Bits.{shr, as_u32}
use qemu_rust_risc_v.Signed.{sign_extend}
use qemu_rust_risc_v.Trap.{load_access_fault, store_amo_access_fault}
use qemu_rust_risc_v.Mmu.Entry.{AccessType, load, store}
use qemu_rust_risc_v.Cpu.Defs.{
  read_reg, write_reg, clear_reservation, set_reservation, check_reservation,
}
use qemu_rust_risc_v.Cpu.Decode.{rd, rs1, rs2, funct3, funct7}
use qemu_rust_risc_v.Cpu.Words.{wrapping_add, signed_less}
use qemu_rust_risc_v.Cpu.Memory.{SystemBus, Hart, Run, ◌>>=◌, done, illegal, translate_va, faulted}
use qemu_rust_risc_v.Cpu.Exec.Base.{next_pc}

-- The new value of an AMO from the old one and the operand, on `w` bits, by funct5.
unfoldable pub amo_op : ℕ → ℕ → Option (ℕ → ℕ → ℕ)
amo_op w funct5 =
    if funct5 == 0x01
    then some (λ old value. value)
    else if funct5 == 0x00
    then some (wrapping_add w)
    else if funct5 == 0x04
    then some bit_xor
    else if funct5 == 0x0C
    then some bit_and
    else if funct5 == 0x08
    then some bit_or
    else if funct5 == 0x10
    then some (λ old value. if signed_less w value old then value else old)
    else if funct5 == 0x14
    then some (λ old value. if signed_less w value old then old else value)
    else if funct5 == 0x18
    then some min
    else if funct5 == 0x1C
    then some max
    else none

-- What a register receives of a word of `w` bits.
abbrev pub to_reg : Bool → ℕ → ℕ
to_reg wide v = if wide then v else sign_extend 32 v

-- What of a register an access of the width uses.
abbrev pub of_reg : Bool → ℕ → ℕ
of_reg wide v = if wide then v else as_u32 v

abbrev pub amo_width : Bool → ℕ
amo_width wide = if wide then 64 else 32

module _ (s : SystemBus) where
  -- `self.bus.read32(pa)` and `read64`, with the load fault, and the writes with the store fault.
  abbrev pub amo_read : Bool → ℕ → ℕ → Hart s → Run s ℕ
  amo_read wide va pa c =
      faulted s load_access_fault va c (if wide then s.words.read64 pa c.bus else s.read32 pa c.bus)

  abbrev pub amo_write : Bool → ℕ → ℕ → ℕ → Hart s → Run s (Unit {0})
  amo_write wide va pa value c =
      faulted s store_amo_access_fault va c
        (if wide then s.words.write64 pa value c.bus else s.write32 pa value c.bus)

  unfoldable pub load_reserved : Bool → Hart s → ℕ → ℕ → ℕ → Run s (Unit {0})
  unfolding write_reg set_reservation
  load_reserved wide c inst va pa = do
    (value, c1) ← amo_read wide va pa c
    done (record (set_reservation (write_reg c1 (rd inst) (to_reg wide value)) pa) {
      pc = next_pc c;
    })

  -- The end of SC: the result to the register, and no reservation.
  abbrev pub conditional_done : Hart s → ℕ → ℕ → Run s (Unit {0})
  conditional_done c inst result =
      done (record (clear_reservation (write_reg c (rd inst) result)) { pc = next_pc c })

  unfoldable pub store_conditional : Bool → Hart s → ℕ → ℕ → ℕ → Run s (Unit {0})
  unfolding read_reg write_reg check_reservation clear_reservation
  store_conditional wide c inst va pa =
      if check_reservation c pa
      then (do
        (_, c1) ← amo_write wide va pa (of_reg wide (read_reg c (rs2 inst))) c
        conditional_done c1 inst 0)
      else conditional_done c inst 1

  unfoldable pub read_modify_write : Bool → (ℕ → ℕ → ℕ) → Hart s → ℕ → ℕ → ℕ → Run s (Unit {0})
  unfolding read_reg write_reg clear_reservation
  read_modify_write wide f c inst va pa = do
    (old, c1) ← amo_read wide va pa c
    (_, c2) ← amo_write wide va pa (f old (of_reg wide (read_reg c1 (rs2 inst)))) c1
    done (record (clear_reservation (write_reg c2 (rd inst) (to_reg wide old))) { pc = next_pc c })

  -- The arms of one width, by funct5.
  unfoldable pub amo_arms : Bool → Hart s → ℕ → ℕ → ℕ → Run s (Unit {0})
  unfolding load_reserved store_conditional read_modify_write amo_op
  amo_arms wide c inst va pa =
      let funct5 = shr (funct7 inst) 2 in
      if funct5 == 0x02
      then load_reserved wide c inst va pa
      else if funct5 == 0x03
      then store_conditional wide c inst va pa
      else elim (amo_op (amo_width wide) funct5) [
        | some f ↦ read_modify_write wide f c inst va pa
        | none ↦ illegal c inst
      ]

  -- Only LR is translated as a load.
  abbrev pub amo_access : ℕ → AccessType
  amo_access inst = if shr (funct7 inst) 2 == 0x02 then load else store

  unfoldable pub amo : Hart s → ℕ → Run s (Unit {0})
  unfolding read_reg translate_va amo_arms
  amo c inst = do
    (pa, c1) ← translate_va s c (amo_access inst) (read_reg c (rs1 inst)) (read_reg c (rs1 inst))
    if funct3 inst == 0x2
        then amo_arms false c1 inst (read_reg c (rs1 inst)) pa
        else if funct3 inst == 0x3
        then amo_arms true c1 inst (read_reg c (rs1 inst)) pa
        else illegal c1 inst
