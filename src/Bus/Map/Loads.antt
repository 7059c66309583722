-- ===== src/Bus/Map/Loads.antt =====
-- src/cpu.rs and src/bus.rs: a word that `store_va` puts into the memory through the bus is what
-- `load_va` gets from it, where addresses are not translated.
use qemu_rust_risc_v.Prelude.{
  ℕ, ◌+◌, ◌-◌, ◌%◌, ◌/◌, ◌^◌, ◌≤◌, ◌<◌, ◌≡◌, refl, arith, ap, ◌∙◌, true, false, ◌||◌, ◌&&◌, ◌==◌,
  ltb, leb, if◌then◌else◌, Bool, get_or, Result, ok, err, bit_and,
}
use qemu_rust_risc_v.Bits.{bit_and_mask}
use qemu_rust_risc_v.Trap.{Trap, exception, load_access_fault, store_amo_access_fault}
use qemu_rust_risc_v.Csr.Addr
use qemu_rust_risc_v.Csr.Defs.{read}
use qemu_rust_risc_v.Dram.Defs as DramDefs
use qemu_rust_risc_v.Dram.Defs.{ByteOrder, IsLittleEndian, Failure, to_bytes, size}
use qemu_rust_risc_v.Dram.Access.{read64-write64}
use qemu_rust_risc_v.Mmu.Entry.{AccessType, load, store, is_machine}
use qemu_rust_risc_v.Mmu.Translate.{access_mode, translate_identity}
use qemu_rust_risc_v.Cpu.Defs.{Cpu}
use qemu_rust_risc_v.Cpu.Memory.{translate_va, load_va, store_va, faulted, read_size, write_size}
use qemu_rust_risc_v.Bus.Map.Regions.{dram_base, dram_size, is_dram, is_mrom}
use qemu_rust_risc_v.Bus.Map.Defs.{Bus, HostOps, read_memory, write_dram}
use qemu_rust_risc_v.Bus.Map.Reads as Reads
use qemu_rust_risc_v.Bus.Map.Writes as Writes
use qemu_rust_risc_v.Bus.Map.Hart.{system_bus}

-- The hart's loads and stores are not translated: machine mode after MPRV, or SATP in mode 0.
abbrev pub IsBare : {B : Type 0} → Cpu B → Type 0
IsBare c =
    (is_machine (access_mode c.mode load (read c.csr Addr.mstatus))
      || (read c.csr Addr.satp / 2 ^ 60 % 16 == 0))
    ≡ true

in_page : (va n : ℕ) → va % 4096 + n ≤ 4096 → leb (bit_and va 0xFFF + n) 0x1000 ≡ true
in_page va n h = ground (arith, bit_and_mask 12 va)

outside_mrom : (a : ℕ) → dram_base ≤ a → is_mrom a ≡ false
outside_mrom a low = ground arith

module _ {H : Type 0} (le : ByteOrder) (ops : HostOps H) where
  pub read64_dram :
      (a : ℕ) (b : Bus H)
      → is_dram a ≡ true
      → Reads.read64 le ops a b ≡ read_memory b (DramDefs.read64 le b.dram (a - dram_base))
  unfolding Reads.read64
  read64_dram a b h = rw (outside_mrom a (ground (arith, h)), h) refl

  read8_dram :
      (a : ℕ) (b : Bus H)
      → is_dram a ≡ true
      → Reads.read8 le ops a b ≡ read_memory b (DramDefs.read8 b.dram (a - dram_base))
  unfolding Reads.read8
  read8_dram a b h = rw (outside_mrom a (ground (arith, h)), h) refl

  pub write64_dram :
      (a v : ℕ) (b : Bus H)
      → is_dram a ≡ true
      → Writes.write64 le ops a v b ≡ write_dram b (DramDefs.write64 le b.dram (a - dram_base) v)
  unfolding Writes.write64
  write64_dram a v b h = rw h refl

  translate_bare :
      (c : Cpu (Bus H)) (access : AccessType) (va tval : ℕ)
      → (is_machine (access_mode c.mode access (read c.csr Addr.mstatus))
          || (read c.csr Addr.satp / 2 ^ 60 % 16 == 0))
        ≡ true
      → translate_va (system_bus le ops) c access va tval ≡ (ok va, c)
  unfolding translate_va
  translate_bare c access va tval h =
      rw
        (translate_identity (system_bus le ops).words va access c.mode (read c.csr Addr.satp)
          (read c.csr Addr.mstatus) c.bus h)
        refl

  load_va_bare :
      (c : Cpu (Bus H)) (va n : ℕ)
      → IsBare c
      → va % 4096 + n ≤ 4096
      → load_va (system_bus le ops) c va n
        ≡ faulted
            (system_bus le ops)
            load_access_fault
            va
            c
            (read_size (system_bus le ops) n va c.bus)
  unfolding load_va
  load_va_bare c va n bare page = rw (in_page va n page, translate_bare c load va va bare) refl

  store_va_bare :
      (c : Cpu (Bus H)) (va v n : ℕ)
      → IsBare c
      → va % 4096 + n ≤ 4096
      → store_va (system_bus le ops) c va v n
        ≡ faulted
            (system_bus le ops)
            store_amo_access_fault
            va
            c
            (write_size (system_bus le ops) n va v c.bus)
  unfolding store_va
  store_va_bare c va v n bare page = rw (in_page va n page, translate_bare c store va va bare) refl

-- What a load of a byte answers for what the memory gives.
byte_answer : ℕ → Result ℕ Failure → Result ℕ (Trap × ℕ)
byte_answer a (ok x) = ok x
byte_answer a (err e) = err (exception load_access_fault, a)

byte_answer-if :
    (a x : ℕ) (p : Bool) (r : Result ℕ Failure)
    → byte_answer a (if p then ok x else r) ≡ (if p then ok x else byte_answer a r)
unfolding byte_answer
byte_answer-if a x true r = refl
byte_answer-if a x false r = refl

module _ {H : Type 0} (le : ByteOrder) (ops : HostOps H) where
  answered :
      (c : Cpu (Bus H)) (a : ℕ) (r : Result ℕ Failure)
      → (faulted (system_bus le ops) load_access_fault a c (read_memory c.bus r)).0
        ≡ byte_answer a r
  unfolding byte_answer
  answered c a (ok x) = refl
  answered c a (err e) = refl

  load_byte :
      (c : Cpu (Bus H)) (a : ℕ)
      → IsBare c
      → is_dram a ≡ true
      → (load_va (system_bus le ops) c a 1).0
        ≡ byte_answer a (DramDefs.read8 c.bus.dram (a - dram_base))
  unfolding read_size
  load_byte c a bare h =
      ap (λ r. r.0) (load_va_bare le ops c a 1 bare (omega arith))
      ∙ rw (read8_dram le ops a c.bus h) (answered c a (DramDefs.read8 c.bus.dram (a - dram_base)))

  -- Where addresses are not translated, a store of an eight-byte word within a page and within the
  -- memory succeeds. A load at the same address then gives the word, and a load of a byte anywhere
  -- in the region of the memory gives the byte of the word inside the eight bytes, and outside them
  -- the answer that it gave before the store.
  pub load_va-store_va :
      (c : Cpu (Bus H)) (va v a : ℕ)
      → IsLittleEndian le
      → IsBare c
      → dram_base ≤ va
      → va + 8 ≤ dram_base + size c.bus.dram
      → size c.bus.dram ≤ dram_size
      → va % 4096 + 8 ≤ 4096
      → v < 2 ^ 64
      → is_dram a ≡ true
      → (d : Cpu (Bus H)) × (store_va (system_bus le ops) c va v 8 ≡ (ok tt, d))
        × (load_va (system_bus le ops) d va 8 ≡ (ok v, d))
        × ((load_va (system_bus le ops) d a 1).0 ≡ (
            if leb va a && ltb a (va + 8)
            then ok (get_or (to_bytes 8 v) (a - va) 0)
            else (load_va (system_bus le ops) c a 1).0))
  unfolding read_size write_size
  load_va-store_va c va v a laws bare low high small page word there =
      let base = dram_base in
      let mem = c.bus.dram in
      let inside : is_dram va ≡ true = ground (arith, low, high, small) in
      let w =
        read64-write64 le laws mem (va - base) v (a - base) (omega (arith, low, high, small))
          (omega (arith, low, high)) word in
      let d : Cpu (Bus H) = record c { bus = record c.bus { dram = w.0 } } in
      let from : leb (va - base) (a - base) ≡ leb va a = ground (arith, low, there) in
      let below : ltb (a - base) (va - base + 8) ≡ ltb a (va + 8) = ground (arith, low, there) in
      let at : a - base - (va - base) ≡ a - va = ground (arith, low, there) in
      (
        d,
        store_va_bare le ops c va v 8 bare page
            ∙ rw (write64_dram le ops va v c.bus inside, w.1) refl,
        load_va_bare le ops d va 8 bare page ∙ rw (read64_dram le ops va d.bus inside, w.2) refl,
        load_byte d a bare there
            ∙ ap (byte_answer a) w.4
            ∙ byte_answer-if a (get_or (to_bytes 8 v) (a - base - (va - base)) 0)
                (leb (va - base) (a - base) && ltb (a - base) (va - base + 8))
                (DramDefs.read8 mem (a - base))
            ∙ rw (from, below, at, load_byte c a bare there) refl,
      )
