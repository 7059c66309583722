-- ===== src/Csr/Frame.antt =====
-- src/csr.rs: which register a write changes; several addresses are views of one register.
use qemu_rust_risc_v.Prelude.{ℕ, refl, ◌≡◌, ◌≢◌, arith, ap, sym, ◌∙◌, ◌==◌, if◌then◌else◌, bit_and}
use qemu_rust_risc_v.Csr.Addr
use qemu_rust_risc_v.Csr.Defs.{Csr, stored, read_mstatus, mstatus_value, force_xlen, read, write}
use qemu_rust_risc_v.Csr.Defs.{sstatus_mask, sie_mask}
use qemu_rust_risc_v.Bits.{shr}

-- The stored register that a write to an address changes.
abbrev pub written : ℕ → ℕ
written addr =
    if addr == Addr.sstatus
    then Addr.mstatus
    else if addr == Addr.sie
    then Addr.mie
    else if addr == Addr.sip
    then Addr.mip
    else if addr == Addr.fflags
    then Addr.fcsr
    else if addr == Addr.frm
    then Addr.fcsr
    else addr

-- The stored register that a read of an address shows.
abbrev pub source : ℕ → ℕ
source addr = if addr == Addr.senvcfg then Addr.menvcfg else written addr

-- A write leaves every other stored register alone.
pub stored-write :
    (c : Csr) (addr value a : ℕ) → a ≢ written addr → stored (write c addr value) a ≡ stored c a
unfolding write stored
stored-write c addr value a ne = ground arith

-- What a read shows of its stored register.
shown_at : ℕ → ℕ → ℕ
shown_at addr raw =
    if addr == Addr.undefined
    then 0
    else if addr == Addr.tinfo
    then 0x44
    else if addr == Addr.misa
    then force_xlen 62 raw
    else if addr == Addr.mstatus
    then mstatus_value raw
    else if addr == Addr.sstatus
    then bit_and (mstatus_value raw) sstatus_mask
    else if addr == Addr.sie
    then bit_and raw sie_mask
    else if addr == Addr.sip
    then bit_and raw sie_mask
    else if addr == Addr.senvcfg
    then raw
    else if addr == Addr.hstatus
    then force_xlen 32 raw
    else if addr == Addr.vsstatus
    then force_xlen 32 raw
    else if addr == Addr.fflags
    then bit_and raw 0x1F
    else if addr == Addr.frm
    then bit_and (shr raw 5) 0x7
    else raw

-- A read depends on its stored register only.
read_mstatus_lem : (c : Csr) → read_mstatus c ≡ mstatus_value (stored c Addr.mstatus)
unfolding read_mstatus
read_mstatus_lem c = refl

read_lem : (c : Csr) (addr : ℕ) → read c addr ≡ shown_at addr (stored c (source addr))
unfolding read shown_at
read_lem c addr = ground (arith, read_mstatus_lem c)

pub read-of_stored :
    (c d : Csr) (addr : ℕ)
    → stored c (source addr) ≡ stored d (source addr)
    → read c addr ≡ read d addr
read-of_stored c d addr h = read_lem c addr ∙ ap (shown_at addr) h ∙ sym (read_lem d addr)

unchanged :
    (c : Csr) (addr value a : ℕ) → source a ≢ written addr → read (write c addr value) a ≡ read c a
unchanged c addr value a ne =
    read-of_stored (write c addr value) c a (stored-write c addr value (source a) ne)

senvcfg-menvcfg : (c : Csr) (v : ℕ) → read (write c Addr.menvcfg v) Addr.senvcfg ≡ v
unfolding read write stored
senvcfg-menvcfg c v = refl

source_not_senvcfg : (a : ℕ) → source a ≢ Addr.senvcfg
source_not_senvcfg a e = ground (arith, e)

-- A write changes what a read shows only if the two addresses share a stored register. SENVCFG
-- shows the word written to MENVCFG, and a write to SENVCFG changes what no read shows.
pub read-write_frame :
    (c : Csr) (addr value a e : ℕ)
    → source a ≢ written addr
    → (read (write c addr value) a ≡ read c a)
      × (read (write c Addr.menvcfg value) Addr.senvcfg ≡ value)
      × (read (write c Addr.senvcfg value) e ≡ read c e)
read-write_frame c addr value a e ne = (
  unchanged c addr value a ne,
  senvcfg-menvcfg c value,
  unchanged c Addr.senvcfg value e (source_not_senvcfg e),
)
