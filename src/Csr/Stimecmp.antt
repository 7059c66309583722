-- ===== src/Csr/Stimecmp.antt =====
-- src/csr.rs: STIMECMP after a write, and after the three read-modify-write operations.
use qemu_rust_risc_v.Prelude.{
  ℕ, ◌≡◌, ◌≢◌, refl, arith, sym, ◌∙◌, Bool, ◌!=◌, if◌then◌else◌, bit_or, bit_and, if-cases,
}
use qemu_rust_risc_v.Bits.{bit_not}
use qemu_rust_risc_v.Csr.Addr
use qemu_rust_risc_v.Csr.Defs.{Csr, read, write, stored, csrrw, csrrs, csrrc}
use qemu_rust_risc_v.Csr.Frame.{stored-write}

read_stimecmp : (c : Csr) → read c Addr.stimecmp ≡ stored c Addr.stimecmp
unfolding read
read_stimecmp c = refl

-- STIMECMP after a write.
pub stimecmp-write_self : (c : Csr) (v : ℕ) → read (write c Addr.stimecmp v) Addr.stimecmp ≡ v
unfolding read write stored
stimecmp-write_self c v = refl

pub stimecmp-write_other :
    (c : Csr) (a v : ℕ)
    → a ≢ Addr.stimecmp
    → read (write c a v) Addr.stimecmp ≡ read c Addr.stimecmp
stimecmp-write_other c a v ne =
    read_stimecmp (write c a v)
    ∙ stored-write c a v Addr.stimecmp (λ e. ground (arith, ne, e))
    ∙ sym (read_stimecmp c)

-- A read-modify-write leaves STIMECMP alone at another address.
abbrev pub KeepsOthers : (Csr → ℕ → ℕ → Csr × ℕ) → Type 0
KeepsOthers operation =
    (c : Csr) (a v : ℕ)
    → a ≢ Addr.stimecmp
    → read (operation c a v).0 Addr.stimecmp ≡ read c Addr.stimecmp

pub csrrw-KeepsOthers : KeepsOthers csrrw
unfolding csrrw
csrrw-KeepsOthers c a v ne = stimecmp-write_other c a v ne

-- A conditional write, as CSRRS and CSRRC make it.
keeps_if :
    (b : Bool) (c : Csr) (a v : ℕ)
    → a ≢ Addr.stimecmp
    → read (if b then write c a v else c) Addr.stimecmp ≡ read c Addr.stimecmp
keeps_if b c a v ne =
    if-cases (λ d. read d Addr.stimecmp ≡ read c Addr.stimecmp) b
      (λ _. stimecmp-write_other c a v ne) (λ _. refl)

pub csrrs-KeepsOthers : KeepsOthers csrrs
unfolding csrrs
csrrs-KeepsOthers c a v ne = keeps_if (v != 0) c a (bit_or (read c a) v) ne

pub csrrc-KeepsOthers : KeepsOthers csrrc
unfolding csrrc
csrrc-KeepsOthers c a v ne = keeps_if (v != 0) c a (bit_and (read c a) (bit_not 64 v)) ne

-- An operand of zero changes nothing.
abbrev pub NoOperand : (Csr → ℕ → ℕ → Csr × ℕ) → Type 0
NoOperand operation = (c : Csr) (a : ℕ) → (operation c a 0).0 ≡ c

pub csrrs-NoOperand : NoOperand csrrs
unfolding csrrs
csrrs-NoOperand c a = refl

pub csrrc-NoOperand : NoOperand csrrc
unfolding csrrc
csrrc-NoOperand c a = refl
