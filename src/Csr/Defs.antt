-- ===== src/Csr/Defs.antt =====
-- src/csr.rs: the register file, `read`, `write` and the read-modify-write instructions. The
-- `HashMap<u16, u64>` is a partial function from addresses to words.
use qemu_rust_risc_v.Prelude.{ℕ, ◌-◌, ◌^◌, Bool}
use qemu_rust_risc_v.Prelude.{◌||◌, not, ltb, ◌==◌, ◌!=◌, if◌then◌else◌, bit_and, bit_or}
use qemu_rust_risc_v.Prelude.{Option, some}
use qemu_rust_risc_v.Bits.{bit_not, shr, shl}
use qemu_rust_risc_v.Csr.Addr
use mathlib.Core.Option

pub record Csr : Type 0 where
  pub regs : ℕ → Option ℕ
  pub num_triggers : ℕ

abbrev pub u64_max : ℕ
u64_max = 2 ^ 64 - 1

-- `*self.regs.get(&addr).unwrap_or(&0)`
unfoldable pub stored : Csr → ℕ → ℕ
stored c addr = Option.get_or (c.regs addr) 0

-- `self.regs.insert(addr, value)`
abbrev pub insert : Csr → ℕ → ℕ → Csr
insert c addr value = record c { regs = λ a. if a == addr then some value else c.regs a }

abbrev pub sstatus_mask : ℕ
sstatus_mask = 0x8000_0003_000D_E762

abbrev pub sie_mask : ℕ
sie_mask = 0x222

abbrev pub sip_writable : ℕ
sip_writable = 0x2

abbrev pub mip_writable : ℕ
mip_writable = 0x222

abbrev pub mideleg_force : ℕ
mideleg_force = 0x1444

abbrev pub mideleg_writable : ℕ
mideleg_writable = 0xFFFF

-- The MSTATUS arm of `read`: SXL and UXL are forced to 2, and SD says whether FS or VS is dirty.
unfoldable pub mstatus_value : ℕ → ℕ
mstatus_value raw =
    let fs = bit_and (shr raw 13) 0x3 in
    let vs = bit_and (shr raw 9) 0x3 in
    let value = bit_or (bit_and raw (bit_not 64 (shl 64 0xF 32))) (shl 64 0xA 32) in
    let sd : ℕ = if (fs == 3) || (vs == 3) then shl 64 1 63 else 0 in
    bit_or (bit_and value (bit_not 64 (shl 64 1 63))) sd

unfoldable pub read_mstatus : Csr → ℕ
unfolding mstatus_value
read_mstatus c = mstatus_value (stored c Addr.mstatus)

-- The two-bit field at `at` is forced to 2, as the MISA, HSTATUS and VSSTATUS arms do.
unfoldable pub force_xlen : ℕ → ℕ → ℕ
force_xlen at raw = bit_or (bit_and raw (bit_not 64 (shl 64 0x3 at))) (shl 64 2 at)

unfoldable pub read : Csr → ℕ → ℕ
read c addr =
    if addr == Addr.undefined
    then 0
    else if addr == Addr.tinfo
    then 0x44
    else if addr == Addr.misa
    then force_xlen 62 (stored c addr)
    else if addr == Addr.mstatus
    then read_mstatus c
    else if addr == Addr.sstatus
    then bit_and (read_mstatus c) sstatus_mask
    else if addr == Addr.sie
    then bit_and (stored c Addr.mie) sie_mask
    else if addr == Addr.sip
    then bit_and (stored c Addr.mip) sie_mask
    else if addr == Addr.senvcfg
    then stored c Addr.menvcfg
    else if addr == Addr.hstatus
    then force_xlen 32 (stored c addr)
    else if addr == Addr.vsstatus
    then force_xlen 32 (stored c addr)
    else if addr == Addr.fflags
    then bit_and (stored c Addr.fcsr) 0x1F
    else if addr == Addr.frm
    then bit_and (shr (stored c Addr.fcsr) 5) 0x7
    else stored c addr

-- `(old & !mask) | (value & mask)`
unfoldable pub merge : ℕ → ℕ → ℕ → ℕ
merge mask old value = bit_or (bit_and old (bit_not 64 mask)) (bit_and value mask)

-- The SATP arm's test of the mode field.
unfoldable pub is_supported : ℕ → Bool
is_supported mode = (mode == 0) || ((mode == 8) || ((mode == 9) || (mode == 10)))

unfoldable pub write : Csr → ℕ → ℕ → Csr
write c addr value =
    if addr == Addr.undefined
    then c
    else if addr == Addr.tinfo
    then c
    else if addr == Addr.mstatus
    then insert c addr (bit_and value (bit_not 64 (shl 64 1 63)))
    else if addr == Addr.sstatus
    then insert c Addr.mstatus
        (bit_and (merge sstatus_mask (stored c Addr.mstatus) value) (bit_not 64 (shl 64 1 63)))
    else if addr == Addr.mie
    then insert c addr value
    else if addr == Addr.fflags
    then insert c Addr.fcsr (merge 0x1F (stored c Addr.fcsr) value)
    else if addr == Addr.frm
    then insert c Addr.fcsr
        (bit_or (bit_and (stored c Addr.fcsr) (bit_not 64 0xE0)) (shl 64 (bit_and value 0x7) 5))
    else if addr == Addr.sie
    then insert c Addr.mie (merge sie_mask (stored c Addr.mie) value)
    else if addr == Addr.sip
    then insert c Addr.mip (merge sip_writable (stored c Addr.mip) value)
    else if addr == Addr.tselect
    then (if ltb value c.num_triggers then insert c addr value else c)
    else if addr == Addr.mideleg
    then insert c addr (bit_or (bit_and value mideleg_writable) mideleg_force)
    else if addr == Addr.mip
    then insert c addr (merge mip_writable (read c addr) value)
    else if addr == Addr.satp
    then (if not (is_supported (bit_and (shr value 60) 0xF)) then c else insert c addr value)
    else if addr == Addr.stvec
    then insert c addr value
    else insert c addr value

-- The three instructions return the new file and the old value.
unfoldable pub csrrw : Csr → ℕ → ℕ → Csr × ℕ
csrrw c addr value = (write c addr value, read c addr)

unfoldable pub csrrs : Csr → ℕ → ℕ → Csr × ℕ
csrrs c addr mask =
    let old = read c addr in ((if mask != 0 then write c addr (bit_or old mask) else c), old)

unfoldable pub csrrc : Csr → ℕ → ℕ → Csr × ℕ
csrrc c addr mask =
    let old = read c addr in
    ((if mask != 0 then write c addr (bit_and old (bit_not 64 mask)) else c), old)
