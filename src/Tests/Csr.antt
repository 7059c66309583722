-- ===== src/Tests/Csr.antt =====
-- The register file at reset and after writes to it, and the trap codes.
use qemu_rust_risc_v.Prelude.{◌^◌, ◌≡◌, refl, arith, if◌then◌else◌, List, [], ◌∷◌}
use qemu_rust_risc_v.Bits.{test_bit}
use qemu_rust_risc_v.Csr.Addr
use qemu_rust_risc_v.Csr.Defs.{read, write, sstatus_mask}
use qemu_rust_risc_v.Csr.New.{new}
use qemu_rust_risc_v.Csr.Invariant.{IsValid}
use qemu_rust_risc_v.Csr.Run.{Forced, Instruction, rw_op, rs_op, rc_op, run, reachable-IsValid}
use qemu_rust_risc_v.Csr.Status.{mstatus-write-sstatus}
use qemu_rust_risc_v.Csr.Frame.{read-write_frame}

abbrev program : List Instruction
program =
    rw_op Addr.mideleg 0
    ∷ rs_op Addr.sstatus 0x6000
    ∷ rc_op Addr.mie 0x80
    ∷ rw_op Addr.satp (2 ^ 60)
    ∷ []

reachable-IsValid_example : IsValid (run new program) × Forced (run new program)
reachable-IsValid_example =
    reachable-IsValid program (omega arith, (omega arith, (omega arith, (omega arith, tt))))

mstatus-write-sstatus_example :
    test_bit (read (write new Addr.sstatus 0x6002) Addr.mstatus) 13
    ≡ (if test_bit sstatus_mask 13 then test_bit 0x6002 13 else test_bit (read new Addr.mstatus) 13)
mstatus-write-sstatus_example = mstatus-write-sstatus new 0x6002 13 (omega arith) refl

read-write_frame_example :
    (read (write new Addr.sstatus 0x6002) Addr.sie ≡ read new Addr.sie)
    × (read (write new Addr.menvcfg 0x6002) Addr.senvcfg ≡ 0x6002)
    × (read (write new Addr.senvcfg 0x6002) Addr.menvcfg ≡ read new Addr.menvcfg)
read-write_frame_example =
    read-write_frame new Addr.sstatus 0x6002 Addr.sie Addr.menvcfg (λ e. omega (arith, e))
