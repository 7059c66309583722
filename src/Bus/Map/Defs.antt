-- ===== src/Bus/Map/Defs.antt =====
-- src/bus.rs: the whole bus, and what each region answers. The files and the clock of the host are
-- parameters; the devices of the host are one state of it. The vectors of bytes are smaller than the
-- address space.
use qemu_rust_risc_v.Prelude.{
  ℕ, ◌+◌, ◌^◌, Bool, ◌&&◌, ◌==◌, if◌then◌else◌, List, Option, none, some, Result, ok, err,
}
use qemu_rust_risc_v.Bits.{shr, as_u8, as_u32}
use qemu_rust_risc_v.Dram.Defs.{ByteOrder, Dram, Failure}
use qemu_rust_risc_v.Mrom.Defs.{Mrom}
use qemu_rust_risc_v.Flash.Defs.{Flash}
use qemu_rust_risc_v.Plic.Registers as PlicRegisters
use qemu_rust_risc_v.Uart.Defs as UartDefs
use qemu_rust_risc_v.Virtio.Guest.{Answer, QueueError}
use qemu_rust_risc_v.Virtio.Rng.Defs as RngDefs
use qemu_rust_risc_v.Virtio.Rng.Defs.{VirtioRng}
use qemu_rust_risc_v.Virtio.Rng.Queue as RngQueue
use qemu_rust_risc_v.Virtio.Block.Defs as BlockDefs
use qemu_rust_risc_v.Virtio.Block.Defs.{VirtioBlock}
use qemu_rust_risc_v.Virtio.Block.Requests.{DiskFile}
use qemu_rust_risc_v.Virtio.Block.Queue as BlockQueue
use qemu_rust_risc_v.Bus.Map.Regions.{
  dram_base, clint_mtime_offset, clint_mtimecmp_offset, raise, acknowledge,
}
use qemu_rust_risc_v.Bus.Lines.{Devices, update_uart_irq}

-- What an access fails with: no region, a failure of a memory, or of a queue. `no_fuel` is a queue
-- that does not end within the fuel.
pub data BusError : Type 0 where
  unmapped no_fuel : BusError
  memory : Failure → BusError
  queue : QueueError → BusError

pub record Bus (H : Type 0) : Type 0 where
  pub mrom : Mrom
  pub dram : Dram
  pub flash : Flash
  pub virtio_block : Option VirtioBlock
  pub virtio_rng : VirtioRng
  pub devices : Devices
  pub host : H

-- What the devices need of the host: the disk image, random bytes, and the seconds since the epoch.
pub record HostOps (H : Type 0) : Type 0 where
  pub file : DiskFile H
  pub random : ℕ → H → List ℕ × H
  pub seconds : H → ℕ

abbrev pub Reply : Type 0 → Type 0 → Type 0
Reply H A = Result A BusError × Bus H

module _ {H : Type 0} where
  abbrev pub value : Bus H → ℕ → Reply H ℕ
  value b v = (ok v, b)

  abbrev pub ignored : Bus H → Reply H (Unit {0})
  ignored b = (ok tt, b)

  abbrev pub read_memory : Bus H → Result ℕ Failure → Reply H ℕ
  read_memory b (ok v) = (ok v, b)
  read_memory b (err e) = (err (memory e), b)

  abbrev pub write_dram : Bus H → Result Dram Failure → Reply H (Unit {0})
  write_dram b (ok d) = (ok tt, record b { dram = d })
  write_dram b (err e) = (err (memory e), b)

  -- A register of the UART, and its line to the PLIC after the access.
  unfoldable pub read_uart : Bus H → ℕ → Reply H ℕ
  unfolding UartDefs.read8 update_uart_irq
  read_uart b offset =
      let (u, v) = UartDefs.read8 b.devices.uart offset in
      (ok v, record b { devices = update_uart_irq (record b.devices { uart = u }) })

  unfoldable pub write_uart : Bus H → ℕ → ℕ → Reply H (Unit {0})
  unfolding UartDefs.write8 update_uart_irq
  write_uart b offset v =
      let d = record b.devices { uart = UartDefs.write8 b.devices.uart offset (as_u8 v) } in
      (ok tt, record b { devices = update_uart_irq d })

  unfoldable pub read_plic : Bus H → ℕ → Reply H ℕ
  unfolding PlicRegisters.read32
  read_plic b offset =
      let (v, p) = PlicRegisters.read32 b.devices.plic offset in
      (ok v, record b { devices = record b.devices { plic = p } })

  -- After a write to the PLIC the line of the UART is sampled again.
  unfoldable pub write_plic : Bus H → ℕ → ℕ → Reply H (Unit {0})
  unfolding PlicRegisters.write32 update_uart_irq
  write_plic b offset v =
      let d = record b.devices { plic = PlicRegisters.write32 b.devices.plic offset v } in
      (ok tt, record b { devices = update_uart_irq d })

  -- The CLINT, by 64 and by 32 bits.
  unfoldable pub read_clint64 : Bus H → ℕ → ℕ
  read_clint64 b offset =
      if offset == 0
      then b.devices.msip
      else if offset == clint_mtime_offset
      then b.devices.mtime
      else if offset == clint_mtimecmp_offset
      then b.devices.mtimecmp
      else 0

  unfoldable pub read_clint32 : Bus H → ℕ → ℕ
  read_clint32 b offset =
      if offset == 0
      then as_u32 b.devices.msip
      else if offset == clint_mtime_offset
      then as_u32 b.devices.mtime
      else if offset == clint_mtime_offset + 4
      then as_u32 (shr b.devices.mtime 32)
      else if offset == clint_mtimecmp_offset
      then as_u32 b.devices.mtimecmp
      else if offset == clint_mtimecmp_offset + 4
      then as_u32 (shr b.devices.mtimecmp 32)
      else 0

  -- `process_virtio_rng_queue` and its outcome.
  abbrev pub rng_processed : Bus H → Option (Answer H (VirtioRng × Bool)) → Reply H (Unit {0})
  rng_processed b none = (err no_fuel, b)
  rng_processed b (some (ok (v, raised), g)) = (
    ok tt,
    record b { dram = g.dram; host = g.host; virtio_rng = v; devices = raise b.devices raised 7 },
  )
  rng_processed b (some (err e, g)) = (err (queue e), record b { dram = g.dram; host = g.host })

  abbrev pub block_processed : Bus H → Option (Answer H (VirtioBlock × Bool)) → Reply H (Unit {0})
  block_processed b none = (err no_fuel, b)
  block_processed b (some (ok (v, raised), g)) = (
    ok tt,
    record b {
      dram = g.dram;
      host = g.host;
      virtio_block = some v;
      devices = raise b.devices raised 2;
    },
  )
  block_processed b (some (err e, g)) = (err (queue e), record b { dram = g.dram; host = g.host })

module _ {H : Type 0} (le : ByteOrder) (ops : HostOps H) where
  unfoldable pub process_virtio_rng_queue : Bus H → Reply H (Unit {0})
  unfolding RngQueue.process_queue
  process_virtio_rng_queue b = rng_processed b (
      RngQueue.process_queue le dram_base ops.random (2 ^ 16) b.virtio_rng
        (record { dram = b.dram; host = b.host }))

  unfoldable pub process_virtio_block_queue : Bus H → Reply H (Unit {0})
  unfolding BlockQueue.process_queue
  process_virtio_block_queue b = elim b.virtio_block [
    | none ↦ (ok tt, b)
    | some v ↦ block_processed b (
        BlockQueue.process_queue le dram_base ops.file (2 ^ 16) v
          (record { dram = b.dram; host = b.host }))
  ]

  -- A write to a register: the register, then the queue on a notification of queue 0, then the PLIC
  -- on an acknowledgement.
  unfoldable pub write_rng : Bus H → ℕ → ℕ → Reply H (Unit {0})
  unfolding process_virtio_rng_queue acknowledge RngDefs.read32 RngDefs.write32
  write_rng b offset v =
      let b1 = record b { virtio_rng = RngDefs.write32 b.virtio_rng offset v } in
      if (offset == 0x50) && (v == 0)
      then process_virtio_rng_queue b1
      else if offset == 0x64
      then (
        ok tt,
        record b1 { devices = acknowledge b1.devices 7 (RngDefs.read32 b1.virtio_rng 0x60) },
      )
      else (ok tt, b1)

  unfoldable pub write_block : Bus H → ℕ → ℕ → Reply H (Unit {0})
  unfolding process_virtio_block_queue acknowledge BlockDefs.read32 BlockDefs.write32
  write_block b offset v = elim b.virtio_block [
    | none ↦ (ok tt, b)
    | some vb ↦
        let vb1 = BlockDefs.write32 vb offset v in
        let b1 = record b { virtio_block = some vb1 } in
        if (offset == 0x50) && (v == 0)
        then process_virtio_block_queue b1
        else if offset == 0x64
        then (ok tt, record b1 { devices = acknowledge b1.devices 2 (BlockDefs.read32 vb1 0x60) })
        else (ok tt, b1)
  ]
