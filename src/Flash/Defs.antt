-- ===== src/Flash/Defs.antt =====
-- src/flash.rs: the CFI flash device: its modes, its commands and the reads in each mode.
use qemu_rust_risc_v.Prelude.{
  ℕ, zero, suc, ◌+◌, ◌*◌, ◌/◌, ◌-◌, ◌^◌, ◌||◌, ◌==◌, ltb, leb, if◌then◌else◌, bit_and, bit_or, List,
  length, replicate, get_or, Result, ok, err,
}
use qemu_rust_risc_v.Bits.{shl, as_u8, as_u16, as_u32}
use qemu_rust_risc_v.Dram.Defs.{Failure, out_of_range, panicked, overwrite}

pub data FlashState : Type 0 where
  read_array cfi_query read_id : FlashState

pub record Flash : Type 0 where
  pub bytes : List ℕ
  pub state : FlashState
  pub size : ℕ
  pub sector_size : ℕ

abbrev pub new : ℕ → Flash
new size = record {
  bytes = replicate size 0xFF;
  state = read_array;
  size = size;
  sector_size = 256 * 1024;
}

-- An error value, or the panic of the overflow of `offset + data.len()`.
unfoldable pub load : Flash → ℕ → List ℕ → Result Flash Failure
unfolding overwrite
load f offset data_bytes =
    if leb (2 ^ 64) (offset + length data_bytes)
    then err panicked
    else if ltb f.size (offset + length data_bytes)
    then err out_of_range
    else ok (record f { bytes = overwrite offset data_bytes f.bytes })

-- The loop over the bytes: `n` of them are left, `i` are in `result`.
unfoldable pub gather : List ℕ → ℕ → ℕ → ℕ → ℕ → ℕ
gather bytes addr zero i result = result
gather bytes addr (suc n) i result =
    gather bytes addr n (i + 1) (bit_or result (shl 64 (get_or bytes (addr + i) 0) (i * 8)))

unfoldable pub read_data : Flash → ℕ → ℕ → Result ℕ Failure
unfolding gather
read_data f addr size =
    if leb (2 ^ 64) (addr + size)
    then err panicked
    else if ltb f.size (addr + size)
    then err out_of_range
    else ok (gather f.bytes addr size 0 0)

unfoldable pub get_cfi_byte : ℕ → ℕ
get_cfi_byte logical_addr =
    if logical_addr == 0x10
    then 0x51
    else if logical_addr == 0x11
    then 0x52
    else if logical_addr == 0x12
    then 0x59
    else if logical_addr == 0x13
    then 0x01
    else if logical_addr == 0x1B
    then 0x27
    else if logical_addr == 0x1C
    then 0x36
    else if logical_addr == 0x1F
    then 0x09
    else if logical_addr == 0x21
    then 0x0A
    else if logical_addr == 0x23
    then 0x04
    else if logical_addr == 0x25
    then 0x04
    else if logical_addr == 0x27
    then 0x19
    else if logical_addr == 0x28
    then 0x02
    else if logical_addr == 0x2C
    then 0x01
    else if logical_addr == 0x2D
    then 0x7F
    else if logical_addr == 0x30
    then 0x04
    else 0x00

-- A byte in each of the four lanes for an access of four bytes.
unfoldable pub lanes : ℕ → ℕ → ℕ
lanes val size =
    if size == 4
    then bit_or (bit_or (bit_or val (shl 64 val 8)) (shl 64 val 16)) (shl 64 val 24)
    else val

unfoldable pub read_cfi_query : ℕ → ℕ → Result ℕ Failure
unfolding get_cfi_byte lanes
read_cfi_query addr size = ok (lanes (get_cfi_byte (addr / 4)) size)

unfoldable pub get_id_byte : ℕ → ℕ
get_id_byte logical_addr =
    if logical_addr == 0x00
    then 0x89
    else if logical_addr == 0x01
    then 0x18
    else if logical_addr == 0x02
    then 0x00
    else 0xFF

unfoldable pub read_id_table : ℕ → ℕ → Result ℕ Failure
unfolding get_id_byte lanes
read_id_table addr size = ok (lanes (get_id_byte (addr / 4)) size)

unfoldable pub read : Flash → ℕ → ℕ → Result ℕ Failure
unfolding read_data read_cfi_query read_id_table
read f offset size = elim f.state [
  | FlashState.read_array ↦ if leb f.size offset then ok (2 ^ 64 - 1) else read_data f offset size
  | FlashState.cfi_query ↦ read_cfi_query offset size
  | FlashState.read_id ↦ read_id_table offset size
]

-- Every write succeeds; the offset and the width do not matter.
unfoldable pub write : Flash → ℕ → ℕ → ℕ → Flash
write f offset value size =
    let cmd = as_u8 (bit_and value 0xFF) in
    if (cmd == 0xFF) || (cmd == 0xF0)
    then record f { state = read_array }
    else if cmd == 0x98
    then record f { state = cfi_query }
    else if cmd == 0x90
    then record f { state = read_id }
    else f

-- `.map(|v| v as ...)`
abbrev pub narrow : (ℕ → ℕ) → Result ℕ Failure → Result ℕ Failure
narrow g (ok v) = ok (g v)
narrow g (err e) = err e

abbrev pub read64 : Flash → ℕ → Result ℕ Failure
read64 f offset = read f offset 8

abbrev pub read32 : Flash → ℕ → Result ℕ Failure
read32 f offset = narrow as_u32 (read f offset 4)

abbrev pub read16 : Flash → ℕ → Result ℕ Failure
read16 f offset = narrow as_u16 (read f offset 2)

abbrev pub read8 : Flash → ℕ → Result ℕ Failure
read8 f offset = narrow as_u8 (read f offset 1)

abbrev pub write64 : Flash → ℕ → ℕ → Flash
write64 f offset value = write f offset value 8

abbrev pub write32 : Flash → ℕ → ℕ → Flash
write32 f offset value = write f offset value 4

abbrev pub write16 : Flash → ℕ → ℕ → Flash
write16 f offset value = write f offset value 2

abbrev pub write8 : Flash → ℕ → ℕ → Flash
write8 f offset value = write f offset value 1
