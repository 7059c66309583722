-- ===== src/Virtio/Block/Requests.antt =====
-- src/virtio.rs: the requests of the block device. The file with the disk image is a parameter.
use qemu_rust_risc_v.Prelude.{
  ℕ, zero, suc, ◌+◌, ◌*◌, ◌-◌, ◌/◌, ◌^◌, Bool, ltb, leb, if◌then◌else◌, List, [], ◌∷◌, ◌++◌, length,
  take, drop, replicate, Option, none, some, ok,
}
use qemu_rust_risc_v.Dram.Defs.{ByteOrder}
use qemu_rust_risc_v.Virtio.Guest.{
  Guest, Answer, ◌>>=◌, panic, read_u8, read_u32, read_u64, write_bytes,
}
use qemu_rust_risc_v.Virtio.Block.Defs.{VirtioBlock, sector_size}

-- `std::fs::File`: what is called of it. `read_exact` gives the bytes unless it fails.
pub record DiskFile (H : Type 0) : Type 0 where
  pub seek : ℕ → H → Bool × H
  pub read_exact : ℕ → H → Option (List ℕ) × H
  pub write_all : List ℕ → H → Bool × H
  pub sync_all : H → Bool × H

-- `struct DataBuffer`
pub record DataBuffer : Type 0 where
  pub addr : ℕ
  pub len : ℕ

-- `struct VirtioBlkReqHeader`, without the reserved word.
pub record RequestHeader : Type 0 where
  pub req_type : ℕ
  pub sector : ℕ

abbrev pub total_len : List DataBuffer → ℕ
total_len [] = 0
total_len (b ∷ bs) = b.len + total_len bs

-- The sectors that a transfer needs.
abbrev pub sectors_needed : ℕ → ℕ
sectors_needed len = (len + sector_size - 1) / sector_size

module _ {H : Type 0} (le : ByteOrder) (dram_base : ℕ) (file : DiskFile H) where
  unfoldable pub read_request_header : ℕ → Guest H → Answer H RequestHeader
  unfolding read_u32 read_u64
  read_request_header addr g = do
    (req_type, g1) ← read_u32 le dram_base addr g
    (_, g2) ← read_u32 le dram_base (addr + 4) g1
    (sector, g3) ← read_u64 le dram_base (addr + 8) g2
    (ok (record { req_type = req_type; sector = sector }), g3)

  -- The bytes of the disk go to the buffers one after the other.
  unfoldable pub scatter : List DataBuffer → List ℕ → Guest H → Answer H ℕ
  unfolding write_bytes
  scatter [] data_bytes g = (ok 0, g)
  scatter (b ∷ bs) data_bytes g =
      let rest = scatter bs (drop b.len data_bytes) in
      if ltb (length data_bytes) b.len
      then (ok 2, g)
      else (do (_, g1) ← write_bytes le dram_base b.addr (take b.len data_bytes) g; rest g1)

  -- `disk.read_exact` into a buffer of the total length, after the seek.
  unfoldable pub read_disk : List DataBuffer → Option (List ℕ) × H → Guest H → Answer H ℕ
  unfolding scatter
  read_disk buffers (none, host) g = (ok 2, record g { host = host })
  read_disk buffers (some data_bytes, host) g =
      scatter buffers data_bytes (record g { host = host })

  unfoldable pub handle_read_request_sg : VirtioBlock → ℕ → List DataBuffer → Guest H → Answer H ℕ
  unfolding read_disk
  handle_read_request_sg v sector buffers g =
      let len = total_len buffers in
      let (found, host) = file.seek (sector * sector_size) g.host in
      if leb (2 ^ 64) (sector + sectors_needed len)
      then panic g
      else if ltb v.capacity (sector + sectors_needed len)
      then (ok 2, g)
      else if found
      then read_disk buffers (file.read_exact len host) g
      else (ok 2, record g { host = host })

  -- The bytes of one buffer: `n` are left.
  unfoldable pub gather_buffer : ℕ → ℕ → Guest H → Answer H (List ℕ)
  unfolding read_u8
  gather_buffer addr zero g = (ok [], g)
  gather_buffer addr (suc n) g = do
    (byte, g1) ← read_u8 le dram_base addr g
    (bytes, g2) ← gather_buffer (addr + 1) n g1
    (ok (byte ∷ bytes), g2)

  unfoldable pub gather : List DataBuffer → Guest H → Answer H (List ℕ)
  unfolding gather_buffer
  gather [] g = (ok [], g)
  gather (b ∷ bs) g = do
    (bytes, g1) ← gather_buffer b.addr b.len g
    (rest, g2) ← gather bs g1
    (ok (bytes ++ rest), g2)

  -- A result of the file, as the status byte.
  abbrev pub status_of : Bool × H → Guest H → Answer H ℕ
  status_of (success, host) g = (ok (if success then 0 else 2), record g { host = host })

  -- The seek, and the write of the bytes.
  unfoldable pub write_disk : ℕ → List ℕ → Guest H → Answer H ℕ
  write_disk offset data_bytes g =
      let (found, host) = file.seek offset g.host in
      if found
      then status_of (file.write_all data_bytes host) g
      else (ok 2, record g { host = host })

  unfoldable pub handle_write_request_sg : VirtioBlock → ℕ → List DataBuffer → Guest H → Answer H ℕ
  unfolding gather write_disk
  handle_write_request_sg v sector buffers g =
      let len = total_len buffers in
      if leb (2 ^ 64) (sector + sectors_needed len)
      then panic g
      else if ltb v.capacity (sector + sectors_needed len)
      then (ok 2, g)
      else (do (data_bytes, g1) ← gather buffers g; write_disk (sector * sector_size) data_bytes g1)

  unfoldable pub handle_flush_request : Guest H → Answer H ℕ
  handle_flush_request g = status_of (file.sync_all g.host) g

  -- "MYSIM-VIRTIO-BLK"
  abbrev pub device_serial : List ℕ
  device_serial = 77 ∷ 89 ∷ 83 ∷ 73 ∷ 77 ∷ 45 ∷ 86 ∷ 73 ∷ 82 ∷ 84 ∷ 73 ∷ 79 ∷ 45 ∷ 66 ∷ 76 ∷ 75 ∷ []

  -- The serial number, cut or filled with zeros to the length.
  unfoldable pub handle_get_id_request : ℕ → ℕ → Guest H → Answer H ℕ
  unfolding write_bytes
  handle_get_id_request buffer_addr len g = do
    (_, g1) ←
        write_bytes le dram_base buffer_addr
          (take len device_serial ++ replicate (len - length device_serial) 0) g
    (ok 0, g1)
