-- ===== src/Bus/Map/Level.antt =====
-- src/bus.rs: the line of the UART at the PLIC after every access that can change either.
use qemu_rust_risc_v.Prelude.{
  ℕ, ◌-◌, ◌^◌, ◌<◌, if-cases, false, ◌≡◌, refl, sym, subst, ◌∙◌, arith, true, length,
}
use qemu_rust_risc_v.Dram.Defs.{ByteOrder}
use qemu_rust_risc_v.Uart.Defs as UartDefs
use qemu_rust_risc_v.Plic.Pending.{is_pending}
use qemu_rust_risc_v.Plic.Invariant as PlicInvariant
use qemu_rust_risc_v.Bus.Lines.{Devices, update_uart_irq, uart_irq}
use qemu_rust_risc_v.Bus.Delivery.{is_pending-update_uart_irq}
use qemu_rust_risc_v.Bus.Map.Regions.{
  is_mrom, is_dram, is_clint, is_uart, is_plic, plic_base, uart_base,
}
use qemu_rust_risc_v.Bus.Map.Defs.{Bus, HostOps, Reply, read_uart, write_uart, write_plic}
use qemu_rust_risc_v.Bus.Map.Reads.{read8, read32, read64}
use qemu_rust_risc_v.Bus.Map.Writes.{write8, write32, write64}

-- Source 10 of the PLIC is pending exactly when the UART asks for an interrupt.
abbrev pub Level : Devices → Type 0
Level d = is_pending d.plic uart_irq ≡ UartDefs.has_pending_interrupt d.uart

-- The accesses to the UART, by 8, 32 and 64 bits, and the writes to the registers of the PLIC.
pub data UartAccess : Type 0 where
  load_8 load_32 load_64 : ℕ → UartAccess
  store_8 store_32 store_64 : ℕ → ℕ → UartAccess
  plic_store : ℕ → ℕ → UartAccess

-- An access at an address of its region, with a value that fits 32 bits for the PLIC.
abbrev pub InRegion : UartAccess → Type 0
InRegion (load_8 addr) = is_uart addr ≡ true
InRegion (load_32 addr) = is_uart addr ≡ true
InRegion (load_64 addr) = is_uart addr ≡ true
InRegion (store_8 addr v) = is_uart addr ≡ true
InRegion (store_32 addr v) = is_uart addr ≡ true
InRegion (store_64 addr v) = is_uart addr ≡ true
InRegion (plic_store addr v) = (is_plic addr ≡ true) × (v < 2 ^ 32)

updated : (d : Devices) → length d.plic.pending ≡ 32 → Level (update_uart_irq d)
unfolding update_uart_irq
updated d len =
    is_pending-update_uart_irq d uart_irq len
    ∙ if-cases
        (λ (e : Devices).
          UartDefs.has_pending_interrupt d.uart ≡ UartDefs.has_pending_interrupt e.uart)
        (UartDefs.has_pending_interrupt d.uart) (λ _. refl) (λ _. refl)

-- The regions that are tried before that of the UART, and before that of the PLIC.
before_uart :
    (addr : ℕ)
    → is_uart addr ≡ true
    → (is_mrom addr ≡ false)
      × (is_dram addr ≡ false)
      × (is_clint addr ≡ false)
      × (is_plic addr ≡ false)
before_uart addr h = (ground (arith, h), ground (arith, h), ground (arith, h), ground (arith, h))

before_plic : (addr : ℕ) → is_plic addr ≡ true → (is_dram addr ≡ false) × (is_clint addr ≡ false)
before_plic addr h = (ground (arith, h), ground (arith, h))

module _ {H : Type 0} (le : ByteOrder) (ops : HostOps H) where
  -- The bus after an access.
  abbrev pub after : UartAccess → Bus H → Bus H
  after (load_8 addr) b = (read8 le ops addr b).1
  after (load_32 addr) b = (read32 le ops addr b).1
  after (load_64 addr) b = (read64 le ops addr b).1
  after (store_8 addr v) b = (write8 le ops addr v b).1
  after (store_32 addr v) b = (write32 le ops addr v b).1
  after (store_64 addr v) b = (write64 le ops addr v b).1
  after (plic_store addr v) b = (write32 le ops addr v b).1

  read8_uart :
      (addr : ℕ) (b : Bus H)
      → is_uart addr ≡ true
      → read8 le ops addr b ≡ read_uart b (addr - uart_base)
  unfolding read8
  read8_uart addr b h = let e = before_uart addr h in rw (e.0, e.1, h) refl

  read32_uart :
      (addr : ℕ) (b : Bus H)
      → is_uart addr ≡ true
      → read32 le ops addr b ≡ read_uart b (addr - uart_base)
  unfolding read32
  read32_uart addr b h = let e = before_uart addr h in rw (e.0, e.1, e.2, e.3, h) refl

  read64_uart :
      (addr : ℕ) (b : Bus H)
      → is_uart addr ≡ true
      → read64 le ops addr b ≡ read_uart b (addr - uart_base)
  unfolding read64
  read64_uart addr b h = let e = before_uart addr h in rw (e.0, e.1, e.2, e.3, h) refl

  write8_uart :
      (addr v : ℕ) (b : Bus H)
      → is_uart addr ≡ true
      → write8 le ops addr v b ≡ write_uart b (addr - uart_base) v
  unfolding write8
  write8_uart addr v b h = let e = before_uart addr h in rw (e.1, h) refl

  write32_uart :
      (addr v : ℕ) (b : Bus H)
      → is_uart addr ≡ true
      → write32 le ops addr v b ≡ write_uart b (addr - uart_base) v
  unfolding write32
  write32_uart addr v b h = let e = before_uart addr h in rw (e.1, e.2, e.3, h) refl

  write64_uart :
      (addr v : ℕ) (b : Bus H)
      → is_uart addr ≡ true
      → write64 le ops addr v b ≡ write_uart b (addr - uart_base) v
  unfolding write64
  write64_uart addr v b h = let e = before_uart addr h in rw (e.1, e.2, e.3, h) refl

  write32_plic :
      (addr v : ℕ) (b : Bus H)
      → is_plic addr ≡ true
      → write32 le ops addr v b ≡ write_plic b (addr - plic_base) v
  unfolding write32
  write32_plic addr v b h = let e = before_plic addr h in rw (e.0, e.1, h) refl

  read_uart-Level :
      (b : Bus H) (offset : ℕ)
      → PlicInvariant.IsValid b.devices.plic
      → Level (read_uart b offset).1.devices
  unfolding read_uart
  read_uart-Level b offset valid = updated _ valid.words

  write_uart-Level :
      (b : Bus H) (offset v : ℕ)
      → PlicInvariant.IsValid b.devices.plic
      → Level (write_uart b offset v).1.devices
  unfolding write_uart
  write_uart-Level b offset v valid = updated _ valid.words

  write_plic-Level :
      (b : Bus H) (offset v : ℕ)
      → v < 2 ^ 32
      → PlicInvariant.IsValid b.devices.plic
      → Level (write_plic b offset v).1.devices
  unfolding write_plic
  write_plic-Level b offset v small valid =
      updated _ (PlicInvariant.write32-IsValid valid offset v small).words

  along :
      {A : Type 0} (r : Reply H A) {r' : Reply H A}
      → r ≡ r'
      → Level r'.1.devices
      → Level r.1.devices
  along r e h = subst (λ q. Level q.1.devices) (sym e) h

  -- With a valid PLIC, after a load from the UART or a store to it, of 8, 32 or 64 bits, and after a
  -- store of 32 bits to the PLIC, source 10 is pending at the PLIC exactly when the UART asks for an
  -- interrupt, whatever was pending before.
  pub after-Level :
      (a : UartAccess) (b : Bus H)
      → InRegion a
      → PlicInvariant.IsValid b.devices.plic
      → Level (after a b).devices
  after-Level (load_8 addr) b h valid =
      along (read8 le ops addr b) (read8_uart addr b h) (read_uart-Level b (addr - uart_base) valid)
  after-Level (load_32 addr) b h valid =
      along (read32 le ops addr b) (read32_uart addr b h)
        (read_uart-Level b (addr - uart_base) valid)
  after-Level (load_64 addr) b h valid =
      along (read64 le ops addr b) (read64_uart addr b h)
        (read_uart-Level b (addr - uart_base) valid)
  after-Level (store_8 addr v) b h valid =
      along (write8 le ops addr v b) (write8_uart addr v b h)
        (write_uart-Level b (addr - uart_base) v valid)
  after-Level (store_32 addr v) b h valid =
      along (write32 le ops addr v b) (write32_uart addr v b h)
        (write_uart-Level b (addr - uart_base) v valid)
  after-Level (store_64 addr v) b h valid =
      along (write64 le ops addr v b) (write64_uart addr v b h)
        (write_uart-Level b (addr - uart_base) v valid)
  after-Level (plic_store addr v) b (h, small) valid =
      along (write32 le ops addr v b) (write32_plic addr v b h)
        (write_plic-Level b (addr - plic_base) v small valid)
