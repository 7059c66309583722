-- ===== src/Csr/New.antt =====
-- src/csr.rs `Csr::new`: the register file at reset.
use qemu_rust_risc_v.Prelude.{ℕ, zero, suc, ◌+◌, ◌≡◌, refl, none, List, [], ◌∷◌, ◌++◌}
use qemu_rust_risc_v.Csr.Addr
use qemu_rust_risc_v.Csr.Defs.{Csr, write, read, u64_max, stored, is_supported, merge, read_mstatus}

unfoldable pub empty : Csr
empty = record { regs = λ a. none; num_triggers = 2 }

-- A sequence of `csr.write` calls.
unfoldable pub write_all : Csr → List (ℕ × ℕ) → Csr
write_all c [] = c
write_all c ((addr, value) ∷ rest) = write_all (write c addr value) rest

-- `for addr in 0x323..=0x332 { csr.write(addr, 0) }`
unfoldable pub clear_from : ℕ → ℕ → List (ℕ × ℕ)
clear_from first zero = []
clear_from first (suc n) = (first, 0) ∷ clear_from (first + 1) n

abbrev machine_reset : List (ℕ × ℕ)
machine_reset =
    (Addr.mstatus, 0x0000_000a_0000_0000)
    ∷ (Addr.misa, 0x8000_0000_0014_11ad)
    ∷ (Addr.menvcfg, 0xA000_0000_0000_0000)
    ∷ (Addr.mcountinhibit, 0)
    ∷ []

abbrev delegation_reset : List (ℕ × ℕ)
delegation_reset =
    (Addr.medeleg, 0x0000_0000_00f4_b509)
    ∷ (Addr.mideleg, 0x0000_0000_0000_1666)
    ∷ (Addr.mie, 0)
    ∷ (Addr.mtvec, 0)
    ∷ (Addr.mepc, 0)
    ∷ (Addr.mcause, 0)
    ∷ (Addr.mtval, 0)
    ∷ (Addr.mip, 0x0000_0000_0000_0080)
    ∷ (Addr.mscratch, 0)
    ∷ []

abbrev supervisor_reset : List (ℕ × ℕ)
supervisor_reset =
    (Addr.sstatus, 0)
    ∷ (Addr.sie, 0)
    ∷ (Addr.stvec, 0)
    ∷ (Addr.sepc, 0)
    ∷ (Addr.scause, 0)
    ∷ (Addr.stval, 0)
    ∷ (Addr.sip, 0)
    ∷ (Addr.sscratch, 0)
    ∷ (Addr.stimecmp, u64_max)
    ∷ (Addr.satp, 0)
    ∷ []

abbrev hypervisor_reset : List (ℕ × ℕ)
hypervisor_reset =
    (Addr.hstatus, 0x0000_0002_0000_0000)
    ∷ (Addr.hedeleg, 0)
    ∷ (Addr.hideleg, 0)
    ∷ (Addr.htval, 0)
    ∷ (Addr.htinst, 0)
    ∷ (Addr.vsstatus, 0x0000_000a_0000_0000)
    ∷ (Addr.vsie, 0)
    ∷ (Addr.vstvec, 0)
    ∷ (Addr.vsepc, 0)
    ∷ (Addr.vscause, 0)
    ∷ (Addr.vstval, 0)
    ∷ (Addr.vsip, 0)
    ∷ (Addr.vsscratch, 0)
    ∷ (Addr.vsatp, 0)
    ∷ []

abbrev debug_reset : List (ℕ × ℕ)
debug_reset =
    (Addr.tselect, 0)
    ∷ (Addr.tdata1, 0)
    ∷ (Addr.tdata2, 0)
    ∷ (Addr.tdata3, 0)
    ∷ (Addr.fcsr, 0)
    ∷ (Addr.mhartid, 0)
    ∷ []

unfoldable pub reset_writes : List (ℕ × ℕ)
unfolding clear_from
reset_writes =
    machine_reset
    ++ (clear_from 0x323 16
        ++ (delegation_reset ++ (supervisor_reset ++ (hypervisor_reset ++ debug_reset))))

unfoldable pub new : Csr
unfolding empty write_all reset_writes
new = write_all empty reset_writes

-- The delegation registers after reset; MIP stays 0, since MTIP (bit 7) is not writable.
reset_values :
    (read new Addr.mideleg ≡ 0x1666)
    × (read new Addr.medeleg ≡ 0xf4b509)
    × (read new Addr.mip ≡ 0)
    × (read new Addr.mstatus ≡ 0xa_0000_0000)
unfolding new read write stored is_supported merge read_mstatus
reset_values = (refl, refl, refl, refl)
