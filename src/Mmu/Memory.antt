-- ===== src/Mmu/Memory.antt =====
-- What the walker asks of the bus: 64-bit reads and writes that may fail and may change the bus.
use qemu_rust_risc_v.Prelude.{ℕ, ◌%◌, ◌^◌, ◌<◌, ◌≡◌, Option, some, ◌==◌, if◌then◌else◌, Result, ok}

pub record MemoryBus : Type 1 where
  pub Bus : Type 0
  pub Fault : Type 0
  pub read64 : ℕ → Bus → Result ℕ Fault × Bus
  pub write64 : ℕ → ℕ → Bus → Result (Unit {0}) Fault × Bus

-- What RAM behind the bus promises: it holds words of 64 bits, where a word is visible a read gives
-- it and changes nothing, and a write of a word replaces it and no other aligned word.
pub record IsMemory (m : MemoryBus) : Type 1 where
  pub peek : m.Bus → ℕ → Option ℕ
  pub peek-lt : (a w : ℕ) (b : m.Bus) → peek b a ≡ some w → w < 2 ^ 64
  pub read_word : (a w : ℕ) (b : m.Bus) → peek b a ≡ some w → m.read64 a b ≡ (ok w, b)
  pub written : ℕ → ℕ → m.Bus → m.Bus
  pub write_word :
      (a v w : ℕ) (b : m.Bus) → peek b a ≡ some w → m.write64 a v b ≡ (ok tt, written a v b)
  pub peek-written :
      (a v w a' : ℕ) (b : m.Bus)
      → peek b a ≡ some w
      → v < 2 ^ 64
      → a % 8 ≡ 0
      → a' % 8 ≡ 0
      → peek (written a v b) a' ≡ (if a' == a then some v else peek b a')
