-- ===== src/Mmu/Permissions.antt =====
-- src/mmu.rs: `check_permissions` against the permission table of the privileged architecture.
use qemu_rust_risc_v.Prelude.{ℕ, ◌≡◌, arith, Bool, not, ◌&&◌, ◌||◌, false, if◌then◌else◌}
use qemu_rust_risc_v.Prelude.{ok, err}
use qemu_rust_risc_v.Bits.{test_bit, bit_and-pow-test, shr_bit}
use qemu_rust_risc_v.Trap.{Mode}
use qemu_rust_risc_v.Mmu.Entry.{AccessType, instruction, load, store, page_fault, check_permissions}
use qemu_rust_risc_v.Mmu.Entry.{check_access}

-- Whose pages a mode may touch, as the comments of `check_permissions` say: a page with U is for
-- user mode, and for the other modes only under SUM (bit 18 of MSTATUS) and never to execute; a
-- page without U is not for user mode.
abbrev pub mode_allowed : ℕ → AccessType → Mode → ℕ → Bool
mode_allowed pte access Mode.user mstatus = test_bit pte 4
mode_allowed pte instruction mode mstatus = not (test_bit pte 4)
mode_allowed pte access mode mstatus = not (test_bit pte 4) || test_bit mstatus 18

-- The accesses that the code grants although its comments do not: hypervisor and machine mode use
-- every page with U.
abbrev pub beyond : ℕ → Mode → Bool
beyond pte Mode.hypervisor = test_bit pte 4
beyond pte Mode.machine = test_bit pte 4
beyond pte mode = false

-- What the page allows: X to execute, R to load (or X under MXR, bit 19), W to store.
abbrev pub kind_allowed : ℕ → AccessType → ℕ → Bool
kind_allowed pte instruction mstatus = test_bit pte 3
kind_allowed pte load mstatus = test_bit pte 1 || test_bit mstatus 19 && test_bit pte 3
kind_allowed pte store mstatus = test_bit pte 2

-- For every mode the check grants what the comments of the code document for the page and the
-- flags R, W and X allow, and nothing else but one exception: to hypervisor and machine mode it
-- also grants what R, W and X allow on a page with U, under SUM or not. It refuses with the page
-- fault of the access.
pub check_permissions_lem :
    (pte : ℕ) (access : AccessType) (mode : Mode) (mstatus : ℕ)
    → check_permissions pte access mode mstatus ≡ (
        if (mode_allowed pte access mode mstatus || beyond pte mode)
          && kind_allowed pte access mstatus
        then ok tt
        else err (page_fault access))
unfolding check_permissions check_access page_fault
check_permissions_lem pte access mode mstatus = ground (
  arith,
  bit_and-pow-test 1 pte,
  bit_and-pow-test 2 pte,
  bit_and-pow-test 3 pte,
  bit_and-pow-test 4 pte,
  shr_bit 18 mstatus,
  shr_bit 19 mstatus,
)
