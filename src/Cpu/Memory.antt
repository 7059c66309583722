-- ===== src/Cpu/Memory.antt =====
-- src/cpu.rs: the accesses of the hart to virtual memory, `load_va`, `store_va` and `fetch`, over
-- any bus. An answer is the value or the trap with its trap value, and the hart after it.
use qemu_rust_risc_v.Prelude.{
  ℕ, zero, suc, ◌+◌, ◌*◌, ◌%◌, ◌^◌, ◌==◌, ◌!=◌, leb, if◌then◌else◌, bit_and, bit_or, Result, ok,
  err, ◌≡◌, ◌≢◌, refl, ap, subst,
}
use qemu_rust_risc_v.Bits.{shl, shr, as_u8, as_u16, as_u32}
use qemu_rust_risc_v.Trap.{
  Trap, Exception, exception, load_access_fault, store_amo_access_fault, instruction_access_fault,
  instruction_address_misaligned, illegal_instruction,
}
use qemu_rust_risc_v.Csr.Addr
use qemu_rust_risc_v.Csr.Defs.{read}
use qemu_rust_risc_v.Mmu.Memory.{MemoryBus}
use qemu_rust_risc_v.Mmu.Entry.{AccessType, load, store, instruction}
use qemu_rust_risc_v.Mmu.Walk.{translate}
use qemu_rust_risc_v.Cpu.Defs.{Cpu}

-- What `execute` calls of the bus: the walker's operations, the other widths, and the field
-- `stimecmp`.
pub record SystemBus : Type 1 where
  pub words : MemoryBus
  pub read8 : ℕ → words.Bus → Result ℕ words.Fault × words.Bus
  pub read16 : ℕ → words.Bus → Result ℕ words.Fault × words.Bus
  pub read32 : ℕ → words.Bus → Result ℕ words.Fault × words.Bus
  pub write8 : ℕ → ℕ → words.Bus → Result (Unit {0}) words.Fault × words.Bus
  pub write16 : ℕ → ℕ → words.Bus → Result (Unit {0}) words.Fault × words.Bus
  pub write32 : ℕ → ℕ → words.Bus → Result (Unit {0}) words.Fault × words.Bus
  pub get_stimecmp : words.Bus → ℕ
  pub set_stimecmp : ℕ → words.Bus → words.Bus

abbrev pub Answer : Type 0 → Type 0 → Type 0
Answer B A = Result A (Trap × ℕ) × Cpu B

module _ {B : Type 0} where
  infixl 5 ◌>>=◌
  abbrev pub ◌>>=◌ : {A C : Type 0} → Answer B A → (A × Cpu B → Answer B C) → Answer B C
  (ok a, c) >>= k = k (a, c)
  (err e, c) >>= k = (err e, c)

  abbrev pub done : Cpu B → Answer B (Unit {0})
  done c = (ok tt, c)

  abbrev pub illegal : {A : Type 0} → Cpu B → ℕ → Answer B A
  illegal c inst = (err (exception illegal_instruction, inst), c)

module _ (s : SystemBus) where
  open s use {words, read8, read16, read32, write8, write16, write32}

  abbrev pub Hart : Type 0
  Hart = Cpu words.Bus

  abbrev pub Run : Type 0 → Type 0
  Run A = Answer words.Bus A

  -- `.map_err(|trap| (trap, tval))`, and `.map_err(|_| (Trap::Exception(e), tval))`.
  abbrev pub trapped : ℕ → Hart → Result ℕ Trap × words.Bus → Run ℕ
  trapped tval c (ok a, bus) = (ok a, record c { bus = bus })
  trapped tval c (err t, bus) = (err (t, tval), record c { bus = bus })

  abbrev pub faulted :
      {A : Type 0} → Exception → ℕ → Hart → Result A words.Fault × words.Bus → Run A
  faulted e tval c (ok a, bus) = (ok a, record c { bus = bus })
  faulted e tval c (err f, bus) = (err (exception e, tval), record c { bus = bus })

  -- `Mmu::translate` under the hart's mode, SATP and MSTATUS.
  unfoldable pub translate_va : Hart → AccessType → ℕ → ℕ → Run ℕ
  translate_va c access va tval =
      trapped tval c
        (translate words va access c.mode (read c.csr Addr.satp) (read c.csr Addr.mstatus) c.bus)

  -- The sizes are 1, 2, 4 and 8.
  unfoldable pub read_size : ℕ → ℕ → words.Bus → Result ℕ words.Fault × words.Bus
  read_size size pa bus =
      if size == 1
      then read8 pa bus
      else if size == 2
      then read16 pa bus
      else if size == 4
      then read32 pa bus
      else words.read64 pa bus

  unfoldable pub write_size : ℕ → ℕ → ℕ → words.Bus → Result (Unit {0}) words.Fault × words.Bus
  write_size size pa value bus =
      if size == 1
      then write8 pa (as_u8 value) bus
      else if size == 2
      then write16 pa (as_u16 value) bus
      else if size == 4
      then write32 pa (as_u32 value) bus
      else words.write64 pa value bus

  -- The loop of the slow path: `n` bytes are left, `i` are in `result`.
  unfoldable pub load_bytes : ℕ → ℕ → ℕ → ℕ → Hart → Run ℕ
  unfolding translate_va
  load_bytes va zero i result c = (ok result, c)
  load_bytes va (suc n) i result c = do
    (pa, c1) ← translate_va c load ((va + i) % 2 ^ 64) va
    (byte, c2) ← faulted load_access_fault va c1 (read8 pa c1.bus)
    load_bytes va n (i + 1) (bit_or result (shl 64 byte (i * 8))) c2

  unfoldable pub load_va : Hart → ℕ → ℕ → Run ℕ
  unfolding translate_va read_size load_bytes
  load_va c va size =
      if leb (bit_and va 0xFFF + size) 0x1000
      then (do
        (pa, c1) ← translate_va c load va va
        faulted load_access_fault va c1 (read_size size pa c1.bus))
      else load_bytes va size 0 0 c

  unfoldable pub store_bytes : ℕ → ℕ → ℕ → ℕ → Hart → Run (Unit {0})
  unfolding translate_va
  store_bytes va value zero i c = done c
  store_bytes va value (suc n) i c = do
    (pa, c1) ← translate_va c store ((va + i) % 2 ^ 64) va
    (_, c2) ← faulted store_amo_access_fault va c1 (write8 pa (as_u8 (shr value (i * 8))) c1.bus)
    store_bytes va value n (i + 1) c2

  unfoldable pub store_va : Hart → ℕ → ℕ → ℕ → Run (Unit {0})
  unfolding translate_va write_size store_bytes
  store_va c va value size =
      if leb (bit_and va 0xFFF + size) 0x1000
      then (do
        (pa, c1) ← translate_va c store va va
        faulted store_amo_access_fault va c1 (write_size size pa value c1.bus))
      else store_bytes va value size 0 c

  -- The address of the upper half: translated by itself where it lies in the next page.
  unfoldable pub upper_address : Hart → ℕ → Run ℕ
  unfolding translate_va
  upper_address c pa =
      if leb 0xFFE (bit_and c.pc 0xFFF)
      then translate_va c instruction ((c.pc + 2) % 2 ^ 64) c.pc
      else (ok (pa + 2), c)

  -- A half-word whose low two bits are not both set is a compressed instruction.
  unfoldable pub fetch_rest : Hart → ℕ → ℕ → Run ℕ
  unfolding upper_address
  fetch_rest c pa lower = if bit_and lower 0x3 != 0x3 then (ok lower, c) else (do
    (upper_pa, c1) ← upper_address c pa
    (upper, c2) ← faulted instruction_access_fault c.pc c1 (read16 upper_pa c1.bus)
    (ok (bit_or lower (shl 32 upper 16)), c2))

  unfoldable pub fetch : Hart → Run ℕ
  unfolding translate_va fetch_rest
  fetch c = if c.pc % 2 != 0 then (err (exception instruction_address_misaligned, c.pc), c) else (do
    (pa, c1) ← translate_va c instruction c.pc c.pc
    (lower, c2) ← faulted instruction_access_fault c.pc c1 (read16 pa c1.bus)
    fetch_rest c2 pa lower)

-- A step that succeeds came from a first part that did.
pub bind-ok :
    {B : Type 0} {A C : Type 0} (m : Answer B A) (k : A × Cpu B → Answer B C) (v : C) (d : Cpu B)
    → m >>= k ≡ (ok v, d)
    → (r : A × Cpu B) × (m ≡ (ok r.0, r.1)) × (k r ≡ (ok v, d))
bind-ok (ok a, c) k v d h = ((a, c), refl, h)
bind-ok (err e, c) k v d h = absurd (err_ne_ok e v (ap (λ p. p.0) h))
  where
    err_ne_ok : {E C : Type 0} (e : E) (v : C) → err e ≢ ok v
    err_ne_ok e v h = subst (λ x. elim x [ err _ ↦ Unit {0} | ok _ ↦ ⊥ ]) h tt
