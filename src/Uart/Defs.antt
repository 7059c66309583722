-- ===== src/Uart/Defs.antt =====
-- src/uart.rs: the state of the UART and its operations. Standard output is the list of the bytes
-- written; writing to it and locking the input buffer are taken to succeed.
use qemu_rust_risc_v.Prelude.{ℕ, ◌+◌, ◌%◌, ◌^◌, Bool, true, false, ◌&&◌, ◌||◌}
use qemu_rust_risc_v.Prelude.{◌==◌, ◌!=◌, ltb, if◌then◌else◌, bit_and, bit_or, List, [], ◌∷◌, ◌++◌}
use qemu_rust_risc_v.Prelude.{length, drop}

abbrev pub rhr : ℕ
rhr = 0x0

abbrev pub thr : ℕ
thr = 0x0

abbrev pub ier_offset : ℕ
ier_offset = 0x1

abbrev pub isr : ℕ
isr = 0x2

abbrev pub fcr : ℕ
fcr = 0x2

abbrev pub lcr_offset : ℕ
lcr_offset = 0x3

abbrev pub mcr_offset : ℕ
mcr_offset = 0x4

abbrev pub lsr : ℕ
lsr = 0x5

abbrev pub msr : ℕ
msr = 0x6

abbrev pub scr_offset : ℕ
scr_offset = 0x7

abbrev pub lsr_dr : ℕ
lsr_dr = 0x01

abbrev pub lsr_idle : ℕ
lsr_idle = 0x60

pub record Uart : Type 0 where
  pub ier : ℕ
  pub lcr : ℕ
  pub mcr : ℕ
  pub scr : ℕ
  pub input_buffer : List ℕ
  pub output_buffer : List ℕ
  pub panic_detected : Bool
  pub panic_post_count : ℕ
  pub thr_ipending : Bool
  pub thre_interrupt_count : ℕ
  pub thr_write_count : ℕ
  pub stdout : List ℕ

abbrev pub new : Uart
new = record {
  ier = 0;
  lcr = 0;
  mcr = 0;
  scr = 0;
  input_buffer = [];
  output_buffer = [];
  panic_detected = false;
  panic_post_count = 0;
  thr_ipending = true;
  thre_interrupt_count = 0;
  thr_write_count = 0;
  stdout = [];
}

abbrev pub check_panic : Uart → Bool
check_panic u = u.panic_detected

unfoldable pub reset_panic : Uart → Uart
reset_panic u = record u { panic_detected = false; panic_post_count = 0 }

unfoldable pub inc_panic_post_count : Uart → Uart
inc_panic_post_count u =
    if u.panic_detected
    then record u { panic_post_count = (u.panic_post_count + 1) % 2 ^ 64 }
    else u

-- `!buffer.is_empty()`
abbrev pub has_input : List ℕ → Bool
has_input [] = false
has_input (b ∷ bs) = true

-- `buffer.pop_front()`, with 0 for an empty buffer.
unfoldable pub read_rhr : Uart → Uart × ℕ
read_rhr u = elim u.input_buffer [
  | [] ↦ (u, 0)
  | ch ∷ rest ↦ (record u { input_buffer = rest }, ch)
]

unfoldable pub read_isr : Uart → Uart × ℕ
read_isr u =
    if has_input u.input_buffer && (bit_and u.ier 0x01 != 0)
    then (u, 0x04)
    else if u.thr_ipending && (bit_and u.ier 0x02 != 0)
    then (
      record u {
        thr_ipending = false;
        thre_interrupt_count = (u.thre_interrupt_count + 1) % 2 ^ 64;
      },
      0x02,
    )
    else (u, 0x01)

unfoldable pub read8 : Uart → ℕ → Uart × ℕ
unfolding read_rhr read_isr
read8 u offset =
    if offset == rhr
    then read_rhr u
    else if offset == ier_offset
    then (u, u.ier)
    else if offset == isr
    then read_isr u
    else if offset == lcr_offset
    then (u, u.lcr)
    else if offset == mcr_offset
    then (u, u.mcr)
    else if offset == lsr
    then (u, if has_input u.input_buffer then bit_or lsr_idle lsr_dr else lsr_idle)
    else if offset == msr
    then (u, 0x00)
    else if offset == scr_offset
    then (u, u.scr)
    else (u, 0)

-- `str::starts_with` and `str::contains`, on ASCII strings.
unfoldable pub starts_with : List ℕ → List ℕ → Bool
starts_with text [] = true
starts_with [] (p ∷ ps) = false
starts_with (t ∷ ts) (p ∷ ps) = (t == p) && starts_with ts ps

unfoldable pub contains : List ℕ → List ℕ → Bool
unfolding starts_with
contains [] pattern = starts_with [] pattern
contains (t ∷ ts) pattern = starts_with (t ∷ ts) pattern || contains ts pattern

-- "ernel panic"
abbrev pub ernel_panic : List ℕ
ernel_panic = 101 ∷ 114 ∷ 110 ∷ 101 ∷ 108 ∷ 32 ∷ 112 ∷ 97 ∷ 110 ∷ 105 ∷ 99 ∷ []

-- "Kernel panic", "kernel panic" and "not syncing".
abbrev pub upper_panic : List ℕ
upper_panic = 75 ∷ ernel_panic

abbrev pub lower_panic : List ℕ
lower_panic = 107 ∷ ernel_panic

abbrev pub not_syncing : List ℕ
not_syncing = 110 ∷ 111 ∷ 116 ∷ 32 ∷ 115 ∷ 121 ∷ 110 ∷ 99 ∷ 105 ∷ 110 ∷ 103 ∷ []

unfoldable pub is_panic : List ℕ → Bool
unfolding contains
is_panic text = contains text upper_panic || contains text lower_panic || contains text not_syncing

-- `push`, then the cut to the text from byte 1024 on if it is longer than 2048 bytes.
unfoldable pub push_output : List ℕ → ℕ → List ℕ
push_output text value =
    let pushed = text ++ (value ∷ []) in
    if ltb 2048 (length pushed) then drop 1024 pushed else pushed

-- `value.is_ascii() && value != 0`
abbrev pub is_text : ℕ → Bool
is_text value = ltb value 128 && (value != 0)

unfoldable pub write_thr : Uart → ℕ → Uart
unfolding push_output is_panic
write_thr u value =
    let text = push_output u.output_buffer value in
    record u {
      stdout = u.stdout ++ (value ∷ []);
      thr_write_count = (u.thr_write_count + 1) % 2 ^ 64;
      output_buffer = if is_text value then text else u.output_buffer;
      panic_detected =
          if is_text value then u.panic_detected || is_panic text else u.panic_detected;
      thr_ipending = true;
    }

unfoldable pub write8 : Uart → ℕ → ℕ → Uart
unfolding write_thr
write8 u offset value =
    if offset == thr
    then write_thr u value
    else if offset == ier_offset
    then record u {
      ier = value;
      thr_ipending =
          if (bit_and u.ier 0x02 == 0) && (bit_and value 0x02 != 0) then true else u.thr_ipending;
    }
    else if offset == fcr
    then u
    else if offset == lcr_offset
    then record u { lcr = value }
    else if offset == mcr_offset
    then record u { mcr = value }
    else if offset == scr_offset
    then record u { scr = value }
    else u

unfoldable pub has_pending_interrupt : Uart → Bool
has_pending_interrupt u =
    if (bit_and u.ier 0x01 != 0) && has_input u.input_buffer
    then true
    else if (bit_and u.ier 0x02 != 0) && u.thr_ipending
    then true
    else false
