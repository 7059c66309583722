-- ===== src/Mmu/Entry.antt =====
-- src/mmu.rs: page-table entries: flags, `check_permissions`, `page_fault`, the address of a leaf,
-- the A and D bits, canonical addresses and the indices of a walk.
use qemu_rust_risc_v.Prelude.{ℕ, ◌+◌, ◌^◌, Bool, true, false, not, ◌&&◌, ◌||◌}
use qemu_rust_risc_v.Prelude.{◌==◌, ◌!=◌, if◌then◌else◌, bit_and, bit_or, Option, none, some}
use qemu_rust_risc_v.Prelude.{List, [], ◌∷◌, Result, ok, err}
use qemu_rust_risc_v.Bits.{shl, shr}
use qemu_rust_risc_v.Trap.{Trap, Mode, exception}
use qemu_rust_risc_v.Trap.{instruction_page_fault, load_page_fault, store_amo_page_fault}

abbrev pub page_shift : ℕ
page_shift = 12

abbrev pub vpn_mask : ℕ
vpn_mask = 0x1FF

abbrev pub ppn_mask : ℕ
ppn_mask = 0x0FFF_FFFF_FFFF

abbrev pub pte_v : ℕ
pte_v = 2 ^ 0

abbrev pub pte_r : ℕ
pte_r = 2 ^ 1

abbrev pub pte_w : ℕ
pte_w = 2 ^ 2

abbrev pub pte_x : ℕ
pte_x = 2 ^ 3

abbrev pub pte_u : ℕ
pte_u = 2 ^ 4

abbrev pub pte_a : ℕ
pte_a = 2 ^ 6

abbrev pub pte_d : ℕ
pte_d = 2 ^ 7

pub data AccessType : Type 0 where
  instruction load store : AccessType

abbrev pub is_store : AccessType → Bool
is_store store = true
is_store _ = false

abbrev pub is_instruction : AccessType → Bool
is_instruction instruction = true
is_instruction _ = false

-- The trap does not depend on the address.
unfoldable pub page_fault : AccessType → Trap
page_fault instruction = exception instruction_page_fault
page_fault load = exception load_page_fault
page_fault store = exception store_amo_page_fault

abbrev pub is_supervisor : Mode → Bool
is_supervisor Mode.supervisor = true
is_supervisor _ = false

abbrev pub is_user : Mode → Bool
is_user Mode.user = true
is_user _ = false

abbrev pub is_machine : Mode → Bool
is_machine Mode.machine = true
is_machine _ = false

-- `pte & flag != 0`
abbrev pub has : ℕ → ℕ → Bool
has pte flag = bit_and pte flag != 0

-- The second part of `check_permissions`: R, W and X by the kind of access.
unfoldable pub check_access : ℕ → AccessType → Mode → Bool → Result (Unit {0}) Trap
check_access pte instruction mode mxr =
    if has pte pte_u && is_supervisor mode
    then err (exception instruction_page_fault)
    else if not (has pte pte_x)
    then err (exception instruction_page_fault)
    else ok tt
check_access pte load mode mxr =
    if not (has pte pte_r) && not (mxr && has pte pte_x)
    then err (exception load_page_fault)
    else ok tt
check_access pte store mode mxr =
    if not (has pte pte_w) then err (exception store_amo_page_fault) else ok tt

unfoldable pub check_permissions : ℕ → AccessType → Mode → ℕ → Result (Unit {0}) Trap
unfolding check_access
check_permissions pte access mode mstatus =
    let mxr = bit_and (shr mstatus 19) 0x1 != 0 in
    let sum = bit_and (shr mstatus 18) 0x1 != 0 in
    if has pte pte_u
    then (if is_supervisor mode && not sum
        then err (page_fault access)
        else check_access pte access mode mxr)
    else (if is_user mode then err (page_fault access) else check_access pte access mode mxr)

-- The physical address of a leaf at a level; `none` where a superpage is not aligned.
unfoldable pub leaf_sv39 : ℕ → ℕ → ℕ → Option ℕ
leaf_sv39 va level ppn =
    if level == 2
    then (if bit_and ppn 0x3FFFF != 0
        then none
        else some (bit_or (shl 64 ppn page_shift) (bit_and va 0x3FFFFFFF)))
    else if level == 1
    then (if bit_and ppn 0x1FF != 0
        then none
        else some (bit_or (shl 64 ppn page_shift) (bit_and va 0x1FFFFF)))
    else some (bit_or (shl 64 ppn page_shift) (bit_and va 0xFFF))

unfoldable pub leaf_sv48 : ℕ → ℕ → ℕ → Option ℕ
leaf_sv48 va level ppn =
    if level == 3
    then (if bit_and ppn 0x7FFFFFF != 0
        then none
        else some (bit_or (shl 64 ppn page_shift) (bit_and va 0x7FFFFFFFFF)))
    else if level == 2
    then (if bit_and ppn 0x3FFFF != 0
        then none
        else some (bit_or (shl 64 ppn page_shift) (bit_and va 0x3FFFFFFF)))
    else if level == 1
    then (if bit_and ppn 0x1FF != 0
        then none
        else some (bit_or (shl 64 ppn page_shift) (bit_and va 0x1FFFFF)))
    else some (bit_or (shl 64 ppn page_shift) (bit_and va 0xFFF))

unfoldable pub leaf_sv57 : ℕ → ℕ → ℕ → Option ℕ
leaf_sv57 va level ppn =
    if level == 4
    then (if bit_and ppn 0xFFFFFFFFF != 0
        then none
        else some (bit_or (shl 64 ppn page_shift) (bit_and va 0xFFFFFFFFFFFF)))
    else if level == 3
    then (if bit_and ppn 0x7FFFFFF != 0
        then none
        else some (bit_or (shl 64 ppn page_shift) (bit_and va 0x7FFFFFFFFF)))
    else if level == 2
    then (if bit_and ppn 0x3FFFF != 0
        then none
        else some (bit_or (shl 64 ppn page_shift) (bit_and va 0x3FFFFFFF)))
    else if level == 1
    then (if bit_and ppn 0x1FF != 0
        then none
        else some (bit_or (shl 64 ppn page_shift) (bit_and va 0x1FFFFF)))
    else some (bit_or (shl 64 ppn page_shift) (bit_and va 0xFFF))

-- The A bit is set by every access and the D bit by a store: the new entry, and whether it differs.
unfoldable pub updated_pte : ℕ → AccessType → ℕ
updated_pte pte access =
    let accessed : ℕ = if not (has pte pte_a) then bit_or pte pte_a else pte in
    if is_store access && not (has pte pte_d) then bit_or accessed pte_d else accessed

unfoldable pub needs_update : ℕ → AccessType → Bool
needs_update pte access = not (has pte pte_a) || is_store access && not (has pte pte_d)

-- `(pte >> 10) & 0x0FFF_FFFF_FFFF`
unfoldable pub pte_ppn : ℕ → ℕ
pte_ppn pte = bit_and (shr pte 10) ppn_mask

-- The three walks: a virtual address is canonical if the bits above the sign bit copy it.
unfoldable pub canonical : ℕ → ℕ → ℕ → Bool
canonical sign_bit ext_mask va =
    let va_sign = bit_and (shr va sign_bit) 0x1 in
    let va_ext = bit_and (shr va (sign_bit + 1)) ext_mask in
    not ((va_sign == 0) && (va_ext != 0) || (va_sign == 1) && (va_ext != ext_mask))

unfoldable pub vpn_sv39 : ℕ → List ℕ
vpn_sv39 va =
    bit_and (shr va 12) vpn_mask ∷ bit_and (shr va 21) vpn_mask ∷ bit_and (shr va 30) vpn_mask ∷ []

unfoldable pub vpn_sv48 : ℕ → List ℕ
vpn_sv48 va =
    bit_and (shr va 12) vpn_mask
    ∷ bit_and (shr va 21) vpn_mask
    ∷ bit_and (shr va 30) vpn_mask
    ∷ bit_and (shr va 39) vpn_mask
    ∷ []

unfoldable pub vpn_sv57 : ℕ → List ℕ
vpn_sv57 va =
    bit_and (shr va 12) vpn_mask
    ∷ bit_and (shr va 21) vpn_mask
    ∷ bit_and (shr va 30) vpn_mask
    ∷ bit_and (shr va 39) vpn_mask
    ∷ bit_and (shr va 48) vpn_mask
    ∷ []
