-- ===== src/Bus/Map/Hart.antt =====
-- src/bus.rs and src/cpu.rs: the bus as the interface that the hart calls, and what holds of the two
-- together.
use qemu_rust_risc_v.Prelude.{ℕ, ◌≡◌, refl}
use qemu_rust_risc_v.Csr.Addr
use qemu_rust_risc_v.Csr.Defs.{read}
use qemu_rust_risc_v.Dram.Defs.{ByteOrder}
use qemu_rust_risc_v.Mmu.Memory.{MemoryBus}
use qemu_rust_risc_v.Cpu.Defs.{Cpu}
use qemu_rust_risc_v.Cpu.Memory.{SystemBus}
use qemu_rust_risc_v.Cpu.Exec.System.{system}
use qemu_rust_risc_v.Cpu.Exec.Access.{IsComparator, system-Synced}
use qemu_rust_risc_v.Bus.Map.Defs.{Bus, HostOps, BusError}
use qemu_rust_risc_v.Bus.Map.Reads as Reads
use qemu_rust_risc_v.Bus.Map.Writes as Writes

module _ {H : Type 0} (le : ByteOrder) (ops : HostOps H) where
  abbrev pub word_bus : MemoryBus
  word_bus = record {
    Bus = Bus H;
    Fault = BusError;
    read64 = Reads.read64 le ops;
    write64 = Writes.write64 le ops;
  }

  abbrev pub system_bus : SystemBus
  system_bus = record {
    words = word_bus;
    read8 = Reads.read8 le ops;
    read16 = Reads.read16 le ops;
    read32 = Reads.read32 le ops;
    write8 = Writes.write8 le ops;
    write16 = Writes.write16 le ops;
    write32 = Writes.write32 le ops;
    get_stimecmp = λ b. b.devices.stimecmp;
    set_stimecmp = λ v b. record b { devices = record b.devices { stimecmp = v } };
  }

  comparator : IsComparator system_bus
  unfolding Reads.read64
  comparator = record { get-set = λ v b. refl; get-read = λ b. refl }

  -- A hart over the bus: every instruction of SYSTEM, whether it succeeds or not, leaves the
  -- comparator of the supervisor timer in the bus equal to STIMECMP in the CSR file when it was equal
  -- before.
  pub stimecmp-system :
      (c : Cpu (Bus H)) (inst : ℕ)
      → c.bus.devices.stimecmp ≡ read c.csr Addr.stimecmp
      → let d = (system system_bus c inst).1 in d.bus.devices.stimecmp ≡ read d.csr Addr.stimecmp
  stimecmp-system c inst h = system-Synced system_bus comparator c inst h
