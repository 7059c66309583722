-- ===== src/Flash/Modes.antt =====
-- src/flash.rs: the mode of the device after any writes, and what a read gives in it.
use qemu_rust_risc_v.Prelude.{
  ℕ, ◌/◌, ◌%◌, ◌-◌, ◌^◌, ◌≡◌, refl, arith, ◌||◌, ◌==◌, leb, if◌then◌else◌, List, [], ◌∷◌, Result,
  ok, Option, none, some,
}
use qemu_rust_risc_v.Bits.{bit_and_mask}
use qemu_rust_risc_v.Flash.Defs.{
  Flash, FlashState, read_array, cfi_query, read_id, read, write, read_data, get_cfi_byte,
  get_id_byte, lanes, read_cfi_query, read_id_table,
}
use qemu_rust_risc_v.Dram.Defs.{Failure}

-- A write: its offset, its value and its width.
pub record Command : Type 0 where
  pub offset : ℕ
  pub value : ℕ
  pub width : ℕ

-- The mode that a byte selects, if any.
abbrev pub selected : ℕ → Option FlashState
selected cmd =
    if (cmd == 0xFF) || (cmd == 0xF0)
    then some read_array
    else if cmd == 0x98
    then some cfi_query
    else if cmd == 0x90
    then some read_id
    else none

abbrev pub send : Flash → List Command → Flash
send f [] = f
send f (c ∷ cs) = send (write f c.offset c.value c.width) cs

-- The mode by the last write whose lowest byte selects one.
abbrev pub mode_after : FlashState → List Command → FlashState
mode_after s [] = s
mode_after s (c ∷ cs) = mode_after (elim (selected (c.value % 256)) [ some t ↦ t | none ↦ s ]) cs

write_lem :
    (f : Flash) (offset value width : ℕ)
    → write f offset value width
      ≡ record f { state = elim (selected (value % 256)) [ some t ↦ t | none ↦ f.state ] }
unfolding write
write_lem f offset value width = ground (arith, bit_and_mask 8 value)

pub send_lem :
    (cs : List Command) (f : Flash) → send f cs ≡ record f { state = mode_after f.state cs }
send_lem [] f = refl
send_lem (c ∷ cs) f = rw (write_lem f c.offset c.value c.width) (
    send_lem cs
      (record f { state = elim (selected (c.value % 256)) [ some t ↦ t | none ↦ f.state ] }))

-- What a read gives in each mode: the array with all ones from its end on, the query table and the
-- identity table, which answer at a quarter of the address.
abbrev pub answer : FlashState → Flash → ℕ → ℕ → Result ℕ Failure
answer FlashState.read_array f a n = if leb f.size a then ok (2 ^ 64 - 1) else read_data f a n
answer FlashState.cfi_query f a n = ok (lanes (get_cfi_byte (a / 4)) n)
answer FlashState.read_id f a n = ok (lanes (get_id_byte (a / 4)) n)

answer_lem :
    (f : Flash) (s : FlashState) (a n : ℕ) → read (record f { state = s }) a n ≡ answer s f a n
unfolding read read_data read_cfi_query read_id_table
answer_lem f FlashState.read_array a n = refl
answer_lem f FlashState.cfi_query a n = refl
answer_lem f FlashState.read_id a n = refl

-- After any writes to the device, of any width and at any offsets, a read answers in the mode that
-- the last write whose lowest byte is a mode command selects, or in the mode before them where
-- there is none, from the contents before the writes; the contents have not changed.
pub read-send :
    (f : Flash) (cs : List Command) (a n : ℕ)
    → (read (send f cs) a n ≡ answer (mode_after f.state cs) f a n) × ((send f cs).bytes ≡ f.bytes)
read-send f cs a n = rw (send_lem cs f) (answer_lem f (mode_after f.state cs) a n, refl)
