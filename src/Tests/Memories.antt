-- ===== src/Tests/Memories.antt =====
-- A small flash chip and a small mask ROM.
use qemu_rust_risc_v.Prelude.{ℕ, zero, suc, ◌-◌, ◌≡◌, refl, arith, List, [], ◌∷◌, get_or, ok}
use qemu_rust_risc_v.Dram.Defs.{of_bytes, slice}
use qemu_rust_risc_v.Flash.Defs as FlashDefs
use qemu_rust_risc_v.Flash.Defs.{Flash}
use qemu_rust_risc_v.Flash.Modes.{Command, send, mode_after, answer, read-send}
use qemu_rust_risc_v.Flash.Bytes as Bytes
use qemu_rust_risc_v.Flash.Bytes.{AreBytes, read-load}
use qemu_rust_risc_v.Mrom.Defs as MromDefs
use qemu_rust_risc_v.Mrom.Defs.{Mrom}
use qemu_rust_risc_v.Mrom.Contents.{read-load_image}
use qemu_rust_risc_v.Tests.Dram.{little, little_laws}

abbrev chip : Flash
chip = FlashDefs.new 4

chip-IsValid : Bytes.IsValid chip
chip-IsValid = record { filled = refl; small = λ k. four_small k; addressable = omega arith }
  where
    four_small : AreBytes chip.bytes
    four_small zero = omega arith
    four_small (suc zero) = omega arith
    four_small (suc (suc zero)) = omega arith
    four_small (suc (suc (suc zero))) = omega arith
    four_small (suc (suc (suc (suc k)))) = omega arith

abbrev contents : List ℕ
contents = 0x11 ∷ 0x22 ∷ []

contents-AreBytes : AreBytes contents
contents-AreBytes zero = omega arith
contents-AreBytes (suc zero) = omega arith
contents-AreBytes (suc (suc k)) = omega arith

abbrev commands : List Command
commands =
    record { offset = 0; value = 0x90; width = 4 }
    ∷ record { offset = 0x55; value = 0x198; width = 4 }
    ∷ record { offset = 0; value = 0x40; width = 1 }
    ∷ []

read-send_example :
    (FlashDefs.read (send chip commands) 0x40 4
      ≡ answer (mode_after chip.state commands) chip 0x40 4)
    × ((send chip commands).bytes ≡ chip.bytes)
read-send_example = read-send chip commands 0x40 4

read-load_example :
    (g : Flash) × (FlashDefs.load chip 1 contents ≡ ok g)
    × Bytes.IsValid g
    × (FlashDefs.read g 1 2 ≡ ok (of_bytes (slice 2 (1 - 1) contents)))
read-load_example =
    read-load chip 1 contents 1 2 chip-IsValid refl contents-AreBytes (omega arith) (omega arith)
      (omega arith) (omega arith) (omega arith)

abbrev image : List ℕ
image = 1 ∷ 2 ∷ 3 ∷ 4 ∷ 5 ∷ 6 ∷ 7 ∷ 8 ∷ 9 ∷ []

read-load_image_example :
    (s : Mrom) × (MromDefs.load (MromDefs.new 12) 2 image ≡ ok s)
    × (MromDefs.size s ≡ MromDefs.size (MromDefs.new 12))
    × (MromDefs.read8 s 3 ≡ ok (get_or image (3 - 2) 0))
    × (MromDefs.read16 little s 3 ≡ ok (of_bytes (slice 2 (3 - 2) image)))
    × (MromDefs.read32 little s 3 ≡ ok (of_bytes (slice 4 (3 - 2) image)))
    × (MromDefs.read64 little s 3 ≡ ok (of_bytes (slice 8 (3 - 2) image)))
read-load_image_example =
    read-load_image little (MromDefs.new 12) 2 image 3 little_laws (omega arith) (omega arith)
      (omega arith) (omega arith)
