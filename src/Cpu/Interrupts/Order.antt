-- ===== src/Cpu/Interrupts/Order.antt =====
-- src/cpu.rs, `check_interrupt`: the order of the interrupts, against a list of candidates per
-- mode.
use qemu_rust_risc_v.Bits.{test_bit_zero}
use qemu_rust_risc_v.Prelude.{ℕ, ◌<◌, ◌≡◌, arith, Bool, true, false, not, ◌&&◌, ◌||◌, refl, ◌∙◌}
use qemu_rust_risc_v.Prelude.{
  ◌==◌, if◌then◌else◌, bit_and, Option, none, some, List, [], ◌∷◌, ◌++◌, Bool-cases, inl, inr,
  if-cases, sym, ap, ap₂,
}
use qemu_rust_risc_v.Bits.{shr, test_bit, test_bit-and}
use qemu_rust_risc_v.Bits.{bit_and-pow-test, test_bit_zero, shr_bit}
use qemu_rust_risc_v.Trap.{
  interrupt, Interrupt, Mode, user, supervisor, hypervisor, machine, interrupt_number,
}
use qemu_rust_risc_v.Trap.{supervisor_software_interrupt, machine_software_interrupt}
use qemu_rust_risc_v.Trap.{supervisor_timer_interrupt, machine_timer_interrupt}
use qemu_rust_risc_v.Trap.{supervisor_external_interrupt, machine_external_interrupt}
use qemu_rust_risc_v.Csr.Addr
use qemu_rust_risc_v.Csr.Defs.{Csr, read, write, stored}
use qemu_rust_risc_v.Mmu.Entry.{is_machine, is_supervisor, is_user}
use qemu_rust_risc_v.Cpu.Defs.{Cpu}
use qemu_rust_risc_v.Cpu.Interrupts.{InterruptBus, sample, has_bit, machine_interrupt}
use qemu_rust_risc_v.Cpu.Interrupts.{supervisor_interrupt, or_else, select, check_interrupt}
use mathlib.Core.Option
use qemu_rust_risc_v.Cpu.Interrupts.Lines.{sample_bits}

-- The first of a list that passes a test.
unfoldable pub first : (Interrupt → Bool) → List Interrupt → Option Interrupt
first test [] = none
first test (i ∷ rest) = if test i then some i else first test rest

-- The two levels, each in the order external, software, timer.
abbrev pub machine_level : List Interrupt
machine_level =
    machine_external_interrupt ∷ machine_software_interrupt ∷ machine_timer_interrupt ∷ []

abbrev pub supervisor_level : List Interrupt
supervisor_level =
    supervisor_external_interrupt ∷ supervisor_software_interrupt ∷ supervisor_timer_interrupt ∷ []

-- The candidates in each mode, given MIE and SIE, the first to be tried first.
unfoldable pub candidates : Mode → Bool → Bool → List Interrupt
candidates machine mie sie = if mie then machine_level else []
candidates supervisor mie sie = if sie then supervisor_level ++ machine_level else machine_level
candidates hypervisor mie sie = machine_level
candidates user mie sie = machine_level ++ supervisor_level

abbrev pub is_supervisor_level : Interrupt → Bool
is_supervisor_level supervisor_external_interrupt = true
is_supervisor_level supervisor_software_interrupt = true
is_supervisor_level supervisor_timer_interrupt = true
is_supervisor_level _ = false

-- Pending, and for an interrupt of the supervisor level also delegated.
unfoldable pub ready : ℕ → ℕ → Interrupt → Bool
ready pending mideleg i =
    test_bit pending (interrupt_number i)
    && (not (is_supervisor_level i) || test_bit mideleg (interrupt_number i))

machine_lem :
    (pending mideleg : ℕ) → machine_interrupt pending ≡ first (ready pending mideleg) machine_level
unfolding machine_interrupt has_bit first ready interrupt_number
machine_lem pending mideleg =
    ground
      (arith, bit_and-pow-test 11 pending, bit_and-pow-test 3 pending, bit_and-pow-test 7 pending)

supervisor_lem :
    (pending mideleg : ℕ)
    → supervisor_interrupt pending mideleg ≡ first (ready pending mideleg) supervisor_level
unfolding supervisor_interrupt has_bit first ready interrupt_number
supervisor_lem pending mideleg = ground (
  arith,
  bit_and-pow-test 9 pending,
  bit_and-pow-test 1 pending,
  bit_and-pow-test 5 pending,
  bit_and-pow-test 9 mideleg,
  bit_and-pow-test 1 mideleg,
  bit_and-pow-test 5 mideleg,
)

first-++ :
    (test : Interrupt → Bool) (xs ys : List Interrupt)
    → first test (xs ++ ys) ≡ or_else (first test xs) (first test ys)
unfolding first
first-++ test [] ys = refl
first-++ test (i ∷ rest) ys = elim (Bool-cases (test i)) [
  | inl e ↦ rw e refl
  | inr e ↦ rw e (first-++ test rest ys)
]

first-none :
    (test : Interrupt → Bool) (xs : List Interrupt)
    → ((i : Interrupt) → test i ≡ false)
    → first test xs ≡ none
unfolding first
first-none test [] h = refl
first-none test (i ∷ rest) h = rw (h i) (first-none test rest h)

-- With nothing pending no candidate is ready.
idle :
    (pending mideleg : ℕ) (xs : List Interrupt)
    → (pending == 0) ≡ true
    → first (ready pending mideleg) xs ≡ none
unfolding ready
idle pending mideleg xs h =
    let zero_pending : pending ≡ 0 = ground arith in
    first-none (ready pending mideleg) xs
      (λ i. rw zero_pending (rw (test_bit_zero (interrupt_number i)) refl))

or_else-none : (o : Option Interrupt) → or_else o none ≡ o
or_else-none none = refl
or_else-none (some i) = refl

-- One level after another.
both :
    (test : Interrupt → Bool) (xs ys : List Interrupt) {a b : Option Interrupt}
    → a ≡ first test xs
    → b ≡ first test ys
    → or_else a b ≡ first test (xs ++ ys)
both test xs ys h k = ap₂ or_else h k ∙ sym (first-++ test xs ys)

-- The conditional of `select` once something is pending.
busy :
    (mode : Mode) (mie sie : Bool) (pending mideleg : ℕ)
    → or_else (if is_machine mode && mie then machine_interrupt pending else none) (
        or_else (if is_supervisor mode && sie then supervisor_interrupt pending mideleg else none) (
          or_else
            (if not (is_machine mode) then machine_interrupt pending else none)
            (if is_user mode then supervisor_interrupt pending mideleg else none)))
      ≡ first (ready pending mideleg) (candidates mode mie sie)
unfolding candidates
busy machine true sie p d = or_else-none (machine_interrupt p) ∙ machine_lem p d
busy machine false sie p d = unfold first in refl
busy supervisor mie true p d =
    rw (or_else-none (machine_interrupt p))
      (both (ready p d) supervisor_level machine_level (supervisor_lem p d) (machine_lem p d))
busy supervisor mie false p d = or_else-none (machine_interrupt p) ∙ machine_lem p d
busy hypervisor mie sie p d = or_else-none (machine_interrupt p) ∙ machine_lem p d
busy user mie sie p d =
    both (ready p d) machine_level supervisor_level (machine_lem p d) (supervisor_lem p d)

-- The choice is the first candidate of the mode that is ready.
select_lem :
    (mode : Mode) (mie sie : Bool) (pending mideleg : ℕ)
    → select mode mie sie pending mideleg ≡ first (ready pending mideleg) (candidates mode mie sie)
unfolding select
select_lem mode mie sie pending mideleg =
    if-cases (λ v. v ≡ first (ready pending mideleg) (candidates mode mie sie)) (pending == 0)
      (λ e. sym (idle pending mideleg (candidates mode mie sie) e))
      (λ e. busy mode mie sie pending mideleg)

-- `(status >> k) & 1 == 1`
one_bit : (k status : ℕ) → (bit_and (shr status k) 0x1 == 1) ≡ test_bit status k
one_bit k status = ground (arith, shr_bit k status)

first-ext :
    (s t : Interrupt → Bool) (xs : List Interrupt)
    → ((i : Interrupt) → s i ≡ t i)
    → first s xs ≡ first t xs
unfolding first
first-ext s t [] h = refl
first-ext s t (i ∷ rest) h = rw (h i, first-ext s t rest h) refl

module _ {B : Type 0} (ops : InterruptBus B) where
  -- The state of the line behind bit `i` of MIP; the bits without a line are those of MIP.
  abbrev pub line : B → Csr → ℕ → Bool
  line bus csr i =
      if i == 11
      then ops.has_external_interrupt bus 0
      else if i == 7
      then ops.has_timer_interrupt bus
      else if i == 3
      then ops.has_software_interrupt bus 0
      else if i == 9
      then ops.has_external_interrupt bus 1
      else if i == 5
      then ops.has_s_timer_interrupt bus
      else test_bit (read csr Addr.mip) i

  -- The line is up, MIE enables it, and for an interrupt of the supervisor level MIDELEG has it.
  unfoldable pub can_take : B → Csr → Interrupt → Bool
  can_take bus csr i =
      let n = interrupt_number i in
      line bus csr n
      && test_bit (read csr Addr.mie) n
      && (not (is_supervisor_level i) || test_bit (read csr Addr.mideleg) n)

  ready_lem :
      (bus : B) (csr : Csr) (i : Interrupt)
      → ready
          (bit_and (sample ops bus (read csr Addr.mip)) (read csr Addr.mie))
          (read csr Addr.mideleg)
          i
        ≡ can_take bus csr i
  unfolding ready can_take
  ready_lem bus csr i =
      let n = interrupt_number i in
      let mip = sample ops bus (read csr Addr.mip) in
      let small : n < 64 = unfold interrupt_number in ground arith in
      rw (test_bit-and mip (read csr Addr.mie) n, sample_bits ops bus (read csr Addr.mip) n small)
        refl

  -- `check_interrupt` takes the first candidate of the mode that can be taken, and nothing if there
  -- is none; the candidates in machine mode are those of the machine level if MIE is set, in
  -- supervisor mode those of the supervisor level if SIE is set and then those of the machine
  -- level, in user mode those of the machine level and then those of the supervisor level.
  pub check_interrupt_lem :
      (c : Cpu B)
      → (check_interrupt ops c).1
        ≡ Option.map interrupt (
            first (can_take (ops.update_uart_irq c.bus) c.csr) (
              candidates c.mode
                (test_bit (read c.csr Addr.mstatus) 3)
                (test_bit (read c.csr Addr.mstatus) 1)))
  unfolding check_interrupt
  check_interrupt_lem c =
      let bus = ops.update_uart_irq c.bus in
      let status = read c.csr Addr.mstatus in
      let mip = sample ops bus (read c.csr Addr.mip) in
      let pending = bit_and mip (read c.csr Addr.mie) in
      let same_mie : read (write c.csr Addr.mip mip) Addr.mie ≡ read c.csr Addr.mie =
        unfold read write stored in refl in
      let same_mideleg : read (write c.csr Addr.mip mip) Addr.mideleg ≡ read c.csr Addr.mideleg =
        unfold read write stored in refl in
      ap (Option.map interrupt) (
        rw (same_mie, same_mideleg, one_bit 3 status, one_bit 1 status)
          (select_lem c.mode (test_bit status 3) (test_bit status 1) pending
              (read c.csr Addr.mideleg)
            ∙ first-ext (ready pending (read c.csr Addr.mideleg)) (can_take bus c.csr)
                (candidates c.mode (test_bit status 3) (test_bit status 1)) (ready_lem bus c.csr)))
