-- ===== src/Cpu/Exec/Reservation.antt =====
-- src/cpu.rs: LR and SC together.
use qemu_rust_risc_v.Prelude.{ℕ, bit_and}
use qemu_rust_risc_v.Bits.{bit_not}
use qemu_rust_risc_v.Cpu.Memory.{◌>>=◌}

-- The aligned eight bytes around an address.
abbrev pub granule : ℕ → ℕ
granule pa = bit_and pa (bit_not 64 0x7)
