-- ===== src/Trap.antt =====
-- src/trap.rs: exceptions, interrupts and their codes; and the privilege modes of src/cpu.rs.
use qemu_rust_risc_v.Prelude.{
  ℕ, ◌+◌, ◌-◌, ◌%◌, ◌^◌, ◌<◌, ◌≡◌, refl, arith, Bool, true, false, ap, sym, ◌∙◌, bit_or,
}
use qemu_rust_risc_v.Prelude.{ltb, ◌==◌, if◌then◌else◌}
use qemu_rust_risc_v.Bits.{shl, test_bit, test_bit_beyond, test_bit-or, test_bit-pow, bit_or_fields}

pub data Exception : Type 0 where
  instruction_address_misaligned instruction_access_fault illegal_instruction breakpoint : Exception
  load_address_misaligned load_access_fault : Exception
  store_amo_address_misaligned store_amo_access_fault : Exception
  environment_call_from_u_mode environment_call_from_s_mode environment_call_from_m_mode : Exception
  instruction_page_fault load_page_fault store_amo_page_fault : Exception

pub data Interrupt : Type 0 where
  user_software_interrupt supervisor_software_interrupt machine_software_interrupt : Interrupt
  user_timer_interrupt supervisor_timer_interrupt machine_timer_interrupt : Interrupt
  user_external_interrupt supervisor_external_interrupt machine_external_interrupt : Interrupt

pub data Trap : Type 0 where
  exception : Exception → Trap
  interrupt : Interrupt → Trap

-- `*e as u64`
unfoldable pub exception_number : Exception → ℕ
exception_number instruction_address_misaligned = 0
exception_number instruction_access_fault = 1
exception_number illegal_instruction = 2
exception_number breakpoint = 3
exception_number load_address_misaligned = 4
exception_number load_access_fault = 5
exception_number store_amo_address_misaligned = 6
exception_number store_amo_access_fault = 7
exception_number environment_call_from_u_mode = 8
exception_number environment_call_from_s_mode = 9
exception_number environment_call_from_m_mode = 11
exception_number instruction_page_fault = 12
exception_number load_page_fault = 13
exception_number store_amo_page_fault = 15

unfoldable pub interrupt_number : Interrupt → ℕ
interrupt_number user_software_interrupt = 0
interrupt_number supervisor_software_interrupt = 1
interrupt_number machine_software_interrupt = 3
interrupt_number user_timer_interrupt = 4
interrupt_number supervisor_timer_interrupt = 5
interrupt_number machine_timer_interrupt = 7
interrupt_number user_external_interrupt = 8
interrupt_number supervisor_external_interrupt = 9
interrupt_number machine_external_interrupt = 11

unfoldable pub code : Trap → ℕ
unfolding exception_number interrupt_number
code (exception e) = exception_number e
code (interrupt i) = bit_or (shl 64 1 63) (interrupt_number i)

unfoldable pub is_interrupt : Trap → Bool
is_interrupt (interrupt i) = true
is_interrupt (exception e) = false

unfoldable pub is_exception : Trap → Bool
is_exception (exception e) = true
is_exception (interrupt i) = false

-- `enum Mode` of src/cpu.rs, and `mode as u64`.
pub data Mode : Type 0 where
  user supervisor hypervisor machine : Mode

unfoldable pub mode_number : Mode → ℕ
mode_number user = 0
mode_number supervisor = 1
mode_number hypervisor = 2
mode_number machine = 3

-- `match mpp { 0 => User, 1 => Supervisor, 2 => Hypervisor, _ => Machine }`
unfoldable pub mode_of : ℕ → Mode
mode_of n =
    if n == 0 then user else if n == 1 then supervisor else if n == 2 then hypervisor else machine

pub mode_of-mode_number : (m : Mode) → mode_of (mode_number m) ≡ m
unfolding mode_of mode_number
mode_of-mode_number user = refl
mode_of-mode_number supervisor = refl
mode_of-mode_number hypervisor = refl
mode_of-mode_number machine = refl

-- The inverse of `code`, on the numbers that are codes.
exception_at : ℕ → Exception
exception_at n =
    if n == 0
    then instruction_address_misaligned
    else if n == 1
    then instruction_access_fault
    else if n == 2
    then illegal_instruction
    else if n == 3
    then breakpoint
    else if n == 4
    then load_address_misaligned
    else if n == 5
    then load_access_fault
    else if n == 6
    then store_amo_address_misaligned
    else if n == 7
    then store_amo_access_fault
    else if n == 8
    then environment_call_from_u_mode
    else if n == 9
    then environment_call_from_s_mode
    else if n == 11
    then environment_call_from_m_mode
    else if n == 12
    then instruction_page_fault
    else if n == 13
    then load_page_fault
    else store_amo_page_fault

interrupt_at : ℕ → Interrupt
interrupt_at n =
    if n == 0
    then user_software_interrupt
    else if n == 1
    then supervisor_software_interrupt
    else if n == 3
    then machine_software_interrupt
    else if n == 4
    then user_timer_interrupt
    else if n == 5
    then supervisor_timer_interrupt
    else if n == 7
    then machine_timer_interrupt
    else if n == 8
    then user_external_interrupt
    else if n == 9
    then supervisor_external_interrupt
    else machine_external_interrupt

decode : ℕ → Trap
decode n =
    if ltb n (2 ^ 63) then exception (exception_at n) else interrupt (interrupt_at (n - 2 ^ 63))

decode-code : (t : Trap) → decode (code t) ≡ t
unfolding decode code exception_at interrupt_at
decode-code (exception instruction_address_misaligned) = refl
decode-code (exception instruction_access_fault) = refl
decode-code (exception illegal_instruction) = refl
decode-code (exception breakpoint) = refl
decode-code (exception load_address_misaligned) = refl
decode-code (exception load_access_fault) = refl
decode-code (exception store_amo_address_misaligned) = refl
decode-code (exception store_amo_access_fault) = refl
decode-code (exception environment_call_from_u_mode) = refl
decode-code (exception environment_call_from_s_mode) = refl
decode-code (exception environment_call_from_m_mode) = refl
decode-code (exception instruction_page_fault) = refl
decode-code (exception load_page_fault) = refl
decode-code (exception store_amo_page_fault) = refl
decode-code (interrupt user_software_interrupt) = refl
decode-code (interrupt supervisor_software_interrupt) = refl
decode-code (interrupt machine_software_interrupt) = refl
decode-code (interrupt user_timer_interrupt) = refl
decode-code (interrupt supervisor_timer_interrupt) = refl
decode-code (interrupt machine_timer_interrupt) = refl
decode-code (interrupt user_external_interrupt) = refl
decode-code (interrupt supervisor_external_interrupt) = refl
decode-code (interrupt machine_external_interrupt) = refl

-- Two traps with the same code are the same trap.
pub code-injective : (s t : Trap) → code s ≡ code t → s ≡ t
code-injective s t h = sym (decode-code s) ∙ ap decode h ∙ decode-code t

pub exception_number-lt : (e : Exception) → exception_number e < 16
unfolding exception_number
exception_number-lt e = ground arith

pub interrupt_number-lt : (i : Interrupt) → interrupt_number i < 16
unfolding interrupt_number
interrupt_number-lt i = ground arith

pub interrupt-code : (i : Interrupt) → code (interrupt i) ≡ 2 ^ 63 + interrupt_number i
unfolding code
interrupt-code i = bit_or_fields 63 1 (interrupt_number i) (omega (arith, interrupt_number-lt i))

pub exception-code : (e : Exception) → code (exception e) ≡ exception_number e
unfolding code
exception-code e = refl

-- The code of a trap is a 64-bit word whose bit 63 is set exactly for the interrupts and whose other
-- bits are a number below 16.
pub code_parts :
    (t : Trap)
    → (test_bit (code t) 63 ≡ is_interrupt t) × (code t % 2 ^ 63 < 16) × (code t < 2 ^ 64)
code_parts (exception e) = (
  rw (exception-code e) (
      unfold is_interrupt in
      test_bit_beyond 4 (exception_number e) 63 (exception_number-lt e) (omega arith)),
  omega (arith, exception-code e, exception_number-lt e),
  omega (arith, exception-code e, exception_number-lt e),
)
code_parts (interrupt i) = (
  unfold code is_interrupt in
      ground (arith, test_bit-or (2 ^ 63) (interrupt_number i) 63, test_bit-pow 63 63),
  omega (arith, interrupt-code i, interrupt_number-lt i),
  omega (arith, interrupt-code i, interrupt_number-lt i),
)
