-- ===== src/Mrom/Defs.antt =====
-- src/mrom.rs: the operations of the mask ROM. Its bounds tests and reads are those of the memory,
-- so they are the same functions here, on the ROM's bytes.
use qemu_rust_risc_v.Prelude.{
  ℕ, ◌+◌, ◌^◌, ltb, leb, if◌then◌else◌, List, length, replicate, Result, ok, err,
}
use qemu_rust_risc_v.Dram.Defs
use qemu_rust_risc_v.Dram.Defs.{ByteOrder, Dram, Failure, out_of_range, panicked, overwrite}

pub record Mrom : Type 0 where
  pub memory : List ℕ

abbrev pub new : ℕ → Mrom
new size = record { memory = replicate size 0 }

-- An error value, or the panic of the overflow of `offset + data.len()`.
unfoldable pub load : Mrom → ℕ → List ℕ → Result Mrom Failure
unfolding overwrite
load r offset bytes =
    if leb (2 ^ 64) (offset + length bytes)
    then err panicked
    else if ltb (length r.memory) (offset + length bytes)
    then err out_of_range
    else ok (record { memory = overwrite offset bytes r.memory })

abbrev pub vector : Mrom → Dram
vector r = record { memory = r.memory }

abbrev pub read8 : Mrom → ℕ → Result ℕ Failure
read8 r addr = Defs.read8 (vector r) addr

module _ (le : ByteOrder) where
  abbrev pub read16 : Mrom → ℕ → Result ℕ Failure
  read16 r addr = Defs.read16 le (vector r) addr

  abbrev pub read32 : Mrom → ℕ → Result ℕ Failure
  read32 r addr = Defs.read32 le (vector r) addr

  abbrev pub read64 : Mrom → ℕ → Result ℕ Failure
  read64 r addr = Defs.read64 le (vector r) addr

abbrev pub size : Mrom → ℕ
size r = length r.memory
