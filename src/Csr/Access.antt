-- ===== src/Csr/Access.antt =====
-- src/csr.rs: the checks of an access by address and privilege.
use qemu_rust_risc_v.Prelude.{ℕ, ◌/◌, ◌%◌, ◌≤◌, ◌<◌, ◌≡◌, ◌⊎◌, ◌↔◌, arith, Bool, true, false}
use qemu_rust_risc_v.Prelude.{
  ◌&&◌, ◌||◌, ltb, ◌==◌, in_range, if◌then◌else◌, bit_and, List, [], ◌∷◌,
}
use qemu_rust_risc_v.Bits.{shr, bit_and_mask}
use qemu_rust_risc_v.Csr.Addr

unfoldable pub get_csr_privilege : ℕ → ℕ
get_csr_privilege addr = bit_and (shr addr 8) 0x3

unfoldable pub is_csr_readonly : ℕ → Bool
is_csr_readonly addr = bit_and (shr addr 10) 0x3 == 0x3

unfoldable pub check_csr_privilege : ℕ → ℕ → Bool → Bool
check_csr_privilege addr mode is_write =
    let required_priv = get_csr_privilege addr in
    if ltb mode required_priv
    then false
    else if is_write && is_csr_readonly addr
    then false
    else true

-- Whether a number is among those of an or-pattern.
abbrev one_of : ℕ → List ℕ → Bool
one_of a [] = false
one_of a (x ∷ xs) = a == x || one_of a xs

abbrev machine_csrs : List ℕ
machine_csrs =
    Addr.mstatus ∷ Addr.misa ∷ Addr.medeleg ∷ Addr.mideleg ∷ Addr.mie ∷ Addr.mtvec ∷ Addr.mcounteren
    ∷ Addr.menvcfg ∷ Addr.mcountinhibit ∷ Addr.mscratch ∷ Addr.mepc ∷ Addr.mcause ∷ Addr.mtval
    ∷ Addr.mip ∷ Addr.mtinst ∷ Addr.mtval2 ∷ Addr.mvendorid ∷ Addr.marchid ∷ Addr.mimpid
    ∷ Addr.mhartid ∷ []

abbrev supervisor_csrs : List ℕ
supervisor_csrs =
    Addr.sstatus ∷ Addr.sedeleg ∷ Addr.sideleg ∷ Addr.sie ∷ Addr.stvec ∷ Addr.scounteren
    ∷ Addr.senvcfg ∷ Addr.sscratch ∷ Addr.sepc ∷ Addr.scause ∷ Addr.stval ∷ Addr.sip ∷ Addr.stimecmp
    ∷ Addr.satp ∷ []

abbrev hypervisor_csrs : List ℕ
hypervisor_csrs =
    Addr.hstatus ∷ Addr.hedeleg ∷ Addr.hideleg ∷ Addr.hcounteren ∷ Addr.htval ∷ Addr.htinst
    ∷ Addr.vsstatus ∷ Addr.vsie ∷ Addr.vstvec ∷ Addr.vsscratch ∷ Addr.vsepc ∷ Addr.vscause
    ∷ Addr.vstval ∷ Addr.vsip ∷ Addr.vsatp ∷ []

abbrev user_csrs : List ℕ
user_csrs =
    Addr.tselect ∷ Addr.tdata1 ∷ Addr.tdata2 ∷ Addr.tdata3 ∷ Addr.tinfo ∷ Addr.fflags ∷ Addr.frm
    ∷ Addr.fcsr ∷ Addr.cycle ∷ Addr.time ∷ Addr.instret ∷ []

unfoldable pub is_valid_csr : ℕ → Bool
is_valid_csr addr =
    if one_of addr machine_csrs
    then true
    else if in_range 0x323 0x332 addr
    then true
    else if in_range 0x3A0 0x3A3 addr
    then true
    else if in_range 0x3B0 0x3EF addr
    then true
    else if one_of addr supervisor_csrs
    then true
    else if one_of addr hypervisor_csrs
    then true
    else if one_of addr user_csrs
    then true
    else if in_range 0xB03 0xB12 addr
    then true
    else false

-- An access is allowed exactly if the mode is at least bits 9:8 of the address and a write does
-- not go to an address whose bits 11:10 are both set.
pub check_csr_privilege_lem :
    (addr mode : ℕ) (is_write : Bool)
    → (check_csr_privilege addr mode is_write ≡ true)
      ↔ ((addr / 256 % 4 ≤ mode) × ((is_write ≡ false) ⊎ (addr / 1024 % 4 < 3)))
unfolding check_csr_privilege get_csr_privilege is_csr_readonly
check_csr_privilege_lem addr mode is_write =
    ground (arith, bit_and_mask 2 (shr addr 8), bit_and_mask 2 (shr addr 10))

-- A more privileged mode may access whatever a less privileged one may.
pub check_csr_privilege_mono :
    (addr mode mode' : ℕ) (is_write : Bool)
    → mode ≤ mode'
    → check_csr_privilege addr mode is_write ≡ true
    → check_csr_privilege addr mode' is_write ≡ true
unfolding check_csr_privilege
check_csr_privilege_mono addr mode mode' is_write h k = ground arith
