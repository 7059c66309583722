-- ===== src/Lib.antt =====
-- A verification library for a RISC-V machine emulator written in Rust.
--
-- The program emulates one 64-bit RISC-V hart with its memory and devices. `Cpu::step` (src/cpu.rs)
-- first asks `check_interrupt` whether an interrupt is to be taken, then fetches and executes one
-- instruction; every trap goes through `handle_trap`. The hart keeps its control and status
-- registers in a `Csr` (src/csr.rs), translates addresses with `Mmu::translate` (src/mmu.rs), and
-- reaches memory and devices through the `Bus` (src/bus.rs): the interrupt controller `Plic`
-- (src/plic.rs), the serial port `Uart` (src/uart.rs), the CLINT timer, flash, DRAM, mask ROM and
-- two VirtIO devices.
--
-- The modules and the code they model:
--   Prelude   numbers, Boolean tests, lists, results; shared by all modules
--   Bits      bitwise operations on words of a width, bit by bit
--   Signed    signed integers, and words of a width read as signed
--   Csr       src/csr.rs: Addr (the addresses), Defs (`read`, `write`, `csrrw`, `csrrs`, `csrrc`),
--             New (`Csr::new`), Access (`is_valid_csr`, `check_csr_privilege`); theorems in Status,
--             Frame, Flags, Bounds, Invariant, Run and Stimecmp
--   Trap      src/trap.rs, and the privilege modes of src/cpu.rs
--   Plic      src/plic.rs: Defs (the queries and the pending bits) and Registers (`read32`,
--             `write32`); theorems in Pending, Best, Claim, Query, Invariant and Delivery
--   Mmu       src/mmu.rs: Entry (page-table entries) and Walk (the walks and `translate`); theorems
--             in Leaf, Permissions, Errors, Tables, Complete, Again, Formats and Translate
--   Uart      src/uart.rs: Defs (the device); theorems in Line, Fifo (interleavings with the input
--             thread of src/main.rs) and Panic (the detector of kernel messages)
--   Cpu       src/cpu.rs: Defs (the hart's state, registers, reservation, `handle_trap`,
--             `take_trap`, `take_s_trap`, and the MRET and SRET arms of `execute`), Interrupts
--             (`check_interrupt`), Decode (the fields and immediates of an instruction), Words
--             and Alu (the arithmetic arms of `execute`), Memory (`load_va`, `store_va`,
--             `fetch`) and Exec (the other arms in Base, Atomic, System and Compressed; Step has
--             `execute` and `step`); theorems in Registers, StatusBits, Vector, Traps, Return,
--             Interrupts, Decode.Immediates, Alu.Division, Alu.Shifts, Alu.SingleBit,
--             Exec.Reservation, Exec.Links and Exec.Access
--   Bus       src/bus.rs: Lines (the timer, and the interrupt queries of the bus) and Map (the
--             address map: Regions, Defs, Reads and Writes); theorems in Delivery, Map.Hart,
--             Map.Timer, Map.Level, Map.Loads and Map.Ram
--   Dram      src/dram.rs: Defs (the reads and writes, over the byte order crate as a parameter with
--             its documented laws, and `load`); theorems in Access
--   Flash     src/flash.rs: Defs; theorems in Modes (the command state machine) and Bytes (the
--             array)
--   Mrom      src/mrom.rs: Defs; theorems in Contents
--   Virtio    src/virtio.rs in Block and src/virtio_rng.rs in Rng: Defs (the registers), Queue
--             (`process_queue`) and Block.Requests (the requests); Guest has the memory helpers
--             of both files, Rounds the loop of both queues; theorems in Rounds, Indices,
--             Termination and Block.Transfer
--   Tests     the theorems at concrete inputs
--
-- How the state corresponds: a Rust struct is a record with the same fields; a fixed-size array is a
-- list; the `HashMap` of the register file is a partial function; a method that changes `self`
-- returns the new state; a 64-bit word is a natural number, with the wrap-around written out and
-- the bound 2 ^ 64 as a hypothesis where a theorem needs it. The walk of the page tables recurses on
-- the number of levels, three to five as in the loops of the code; the scans of the interrupt
-- controller recurse on the 32 words and 32 bits of the loops, and a chain of descriptors on its
-- limit of 256 or 64. The loop of a VirtIO queue runs while two 16-bit indices differ, so it takes
-- fuel; 65,536 rounds are enough because the index of the device goes up by one in each.
--
-- Interfaces: Mmu.Memory is what the walk asks of the bus (`read64`, `write64`), with the laws of
-- RAM as a second record that the completeness theorem assumes, and Bus.Map.Ram fills both with the
-- DRAM behind the bus; Cpu.Interrupts.InterruptBus is
-- what `check_interrupt` asks of the bus, and Bus.Lines fills it with the devices' own queries;
-- Cpu.Memory.SystemBus is what `execute` asks of the bus, and Bus.Map.Hart fills it with the address
-- map; Virtio.Block.Requests.DiskFile is what the block device asks of the disk image.
--
-- A panic of the code, of an overflow or of a slice, is an error value of its own.
--
-- Not modelled: the floating-point arms of `execute`, which compute on the floats of the host and
-- are a parameter of `execute_standard`; `Dram::load_from_reader`, the reading of images from files
-- and the main program, which are host I/O; the log output. The source of random bytes, the disk
-- image, the clock and the byte order crate are parameters. Locks are taken to succeed, and writes
-- to standard output too.
pub mod Prelude
pub mod Bits
pub mod Signed
pub mod Csr
pub mod Plic
pub mod Trap
pub mod Mmu
pub mod Uart
pub mod Cpu
pub mod Bus
pub mod Dram
pub mod Flash
pub mod Mrom
pub mod Virtio
pub mod Tests
