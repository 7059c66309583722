-- ===== src/Tests/Dram.antt =====
-- Sixteen bytes of memory, over a byte order given by its definition.
use qemu_rust_risc_v.Prelude.{◌+◌, ◌-◌, ◌≡◌, refl, arith, ltb, leb, ◌&&◌, if◌then◌else◌, get_or, ok}
use qemu_rust_risc_v.Dram.Defs.{
  ByteOrder, IsLittleEndian, of_bytes, to_bytes, Dram, new, size, read8, read64, write64,
}
use qemu_rust_risc_v.Dram.Access.{read64-write64}

abbrev pub little : ByteOrder
little = record {
  read_u16 = of_bytes;
  read_u32 = of_bytes;
  read_u64 = of_bytes;
  write_u16 = to_bytes 2;
  write_u32 = to_bytes 4;
  write_u64 = to_bytes 8;
}

abbrev pub little_laws : IsLittleEndian little
little_laws = record {
  read_16 = λ bs h. refl;
  read_32 = λ bs h. refl;
  read_64 = λ bs h. refl;
  write_16 = λ v. refl;
  write_32 = λ v. refl;
  write_64 = λ v. refl;
}

read64-write64_example :
    (d' : Dram) × (write64 little (new 16) 3 0x1122334455667788 ≡ ok d')
    × (read64 little d' 3 ≡ ok 0x1122334455667788)
    × (size d' ≡ size (new 16))
    × (read8 d' 4 ≡ (
        if leb 3 4 && ltb 4 (3 + 8)
        then ok (get_or (to_bytes 8 0x1122334455667788) (4 - 3) 0)
        else read8 (new 16) 4))
read64-write64_example =
    read64-write64 little little_laws (new 16) 3 0x1122334455667788 4 (omega arith) (omega arith)
      (omega arith)
