-- ===== src/Dram/Defs.antt =====
-- src/dram.rs: reads and writes of one, two, four and eight bytes, over the byte order crate.
use qemu_rust_risc_v.Prelude.{ℕ, zero, suc, ◌+◌, ◌*◌, ◌/◌, ◌%◌, ◌^◌, ◌≡◌, ltb, leb, if◌then◌else◌}
use qemu_rust_risc_v.Prelude.{List, [], ◌∷◌, length, replicate, get_or, set, Result, ok, err}

-- `byteorder::LittleEndian`: what is called of it. A write fills the slice that it is given, whose
-- length is the width.
pub record ByteOrder : Type 0 where
  pub read_u16 : List ℕ → ℕ
  pub read_u32 : List ℕ → ℕ
  pub read_u64 : List ℕ → ℕ
  pub write_u16 : ℕ → List ℕ
  pub write_u32 : ℕ → List ℕ
  pub write_u64 : ℕ → List ℕ

-- A number by its bytes, the lowest first.
abbrev pub of_bytes : List ℕ → ℕ
of_bytes [] = 0
of_bytes (b ∷ bs) = b + 256 * of_bytes bs

abbrev pub to_bytes : ℕ → ℕ → List ℕ
to_bytes zero v = []
to_bytes (suc n) v = v % 256 ∷ to_bytes n (v / 256)

-- What the documentation of the crate says of the six functions.
pub record IsLittleEndian (le : ByteOrder) : Type 0 where
  pub read_16 : (bs : List ℕ) → length bs ≡ 2 → le.read_u16 bs ≡ of_bytes bs
  pub read_32 : (bs : List ℕ) → length bs ≡ 4 → le.read_u32 bs ≡ of_bytes bs
  pub read_64 : (bs : List ℕ) → length bs ≡ 8 → le.read_u64 bs ≡ of_bytes bs
  pub write_16 : (v : ℕ) → le.write_u16 v ≡ to_bytes 2 v
  pub write_32 : (v : ℕ) → le.write_u32 v ≡ to_bytes 4 v
  pub write_64 : (v : ℕ) → le.write_u64 v ≡ to_bytes 8 v

-- An error value, or a panic: of the overflow of `addr + n`, or of the slice that follows it.
pub data Failure : Type 0 where
  out_of_range panicked : Failure

pub record Dram : Type 0 where
  pub memory : List ℕ

-- The mapping of host memory is taken to succeed; it is filled with zeros.
abbrev pub new : ℕ → Dram
new size = record { memory = replicate size 0 }

abbrev pub size : Dram → ℕ
size d = length d.memory

-- `&slice[addr..addr + n]`, and the same bytes overwritten.
unfoldable pub slice : ℕ → ℕ → List ℕ → List ℕ
slice zero addr xs = []
slice (suc n) addr xs = get_or xs addr 0 ∷ slice n (addr + 1) xs

unfoldable pub overwrite : ℕ → List ℕ → List ℕ → List ℕ
overwrite addr [] xs = xs
overwrite addr (b ∷ bs) xs = overwrite (addr + 1) bs (set xs addr b)

-- A read of the slice, after its bounds test.
unfoldable pub read_slice : ℕ → (List ℕ → ℕ) → Dram → ℕ → Result ℕ Failure
unfolding slice
read_slice n decode d addr =
    if leb (2 ^ 64) (addr + n)
    then err panicked
    else if ltb (size d) (addr + n)
    then err out_of_range
    else ok (decode (slice n addr d.memory))

-- A write to the slice, after the same test.
unfoldable pub write_slice : ℕ → List ℕ → Dram → ℕ → Result Dram Failure
unfolding overwrite
write_slice n bytes d addr =
    if leb (2 ^ 64) (addr + n)
    then err panicked
    else if ltb (size d) (addr + n)
    then err out_of_range
    else ok (record { memory = overwrite addr bytes d.memory })

unfoldable pub read8 : Dram → ℕ → Result ℕ Failure
read8 d addr = if leb (size d) addr then err out_of_range else ok (get_or d.memory addr 0)

unfoldable pub write8 : Dram → ℕ → ℕ → Result Dram Failure
write8 d addr value =
    if leb (size d) addr then err out_of_range else ok (record { memory = set d.memory addr value })

module _ (le : ByteOrder) where
  abbrev pub read16 : Dram → ℕ → Result ℕ Failure
  read16 = read_slice 2 le.read_u16

  abbrev pub read32 : Dram → ℕ → Result ℕ Failure
  read32 = read_slice 4 le.read_u32

  abbrev pub read64 : Dram → ℕ → Result ℕ Failure
  read64 = read_slice 8 le.read_u64

  abbrev pub write16 : Dram → ℕ → ℕ → Result Dram Failure
  write16 d addr value = write_slice 2 (le.write_u16 value) d addr

  abbrev pub write32 : Dram → ℕ → ℕ → Result Dram Failure
  write32 d addr value = write_slice 4 (le.write_u32 value) d addr

  abbrev pub write64 : Dram → ℕ → ℕ → Result Dram Failure
  write64 d addr value = write_slice 8 (le.write_u64 value) d addr

-- The data at an offset.
unfoldable pub load : Dram → ℕ → List ℕ → Result Dram Failure
unfolding write_slice
load d offset bytes = write_slice (length bytes) bytes d offset
