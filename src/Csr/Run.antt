-- ===== src/Csr/Run.antt =====
-- src/csr.rs: the register file from reset on, under a sequence of CSR instructions.
use qemu_rust_risc_v.Prelude.{ℕ, ◌^◌, ◌<◌, ◌≡◌, refl, arith, inl, inr}
use qemu_rust_risc_v.Prelude.{true, ◌!=◌, Bool-cases}
use qemu_rust_risc_v.Prelude.{bit_and, bit_or, List, [], ◌∷◌}
use qemu_rust_risc_v.Bits.{test_bit, test_bit-or}
use qemu_rust_risc_v.Bits.{bit_not, bit_and-lt, bit_or-lt}
use qemu_rust_risc_v.Csr.Addr
use qemu_rust_risc_v.Csr.Defs.{Csr, stored, read, write, merge, is_supported, mideleg_force}
use qemu_rust_risc_v.Csr.Defs.{mideleg_writable}
use qemu_rust_risc_v.Csr.Defs.{csrrw, csrrs, csrrc, read_mstatus}
use qemu_rust_risc_v.Csr.New.{empty, write_all, reset_writes, new}
use qemu_rust_risc_v.Bits.{test_bit_zero}
use qemu_rust_risc_v.Csr.Invariant.{IsValid, write-IsValid, read-lt}

-- The forced bits of MIDELEG are set.
abbrev pub Forced : Csr → Type 0
Forced c = (i : ℕ) → test_bit mideleg_force i ≡ true → test_bit (stored c Addr.mideleg) i ≡ true

write-Forced : (c : Csr) (addr value : ℕ) → Forced c → Forced (write c addr value)
unfolding write stored
write-Forced c addr value f i e =
    ground (arith, f i e, test_bit-or (bit_and value mideleg_writable) mideleg_force i)

abbrev pub Words : List (ℕ × ℕ) → Type 0
Words [] = Unit {0}
Words ((addr, value) ∷ rest) = (value < 2 ^ 64) × Words rest

write_all-IsValid : (c : Csr) (ws : List (ℕ × ℕ)) → Words ws → IsValid c → IsValid (write_all c ws)
unfolding write_all
write_all-IsValid c [] w v = v
write_all-IsValid c ((addr, value) ∷ rest) (k, w) v =
    write_all-IsValid (write c addr value) rest w (write-IsValid c addr value k v)

empty-IsValid : IsValid empty
unfolding empty stored is_supported
empty-IsValid = record {
  words = λ a. omega arith;
  sd_clear = test_bit_zero 63;
  satp_mode = refl;
  trigger = omega arith;
}

reset-Words : Words reset_writes
unfolding reset_writes
reset-Words = omega arith

-- The register file at reset keeps the invariant and has the forced bits.
pub new-IsValid : IsValid new × Forced new
unfolding new
new-IsValid = (write_all-IsValid empty reset_writes reset-Words empty-IsValid, forced)
  where
    held : stored new Addr.mideleg ≡ bit_or 0x1666 mideleg_force
    held = unfold stored write is_supported merge read_mstatus read in refl

    forced : Forced new
    forced i e = rw held (ground (arith, test_bit-or 0x1666 mideleg_force i))

-- The three instructions with their address and operand.
pub data Instruction : Type 0 where
  rw_op : ℕ → ℕ → Instruction
  rs_op : ℕ → ℕ → Instruction
  rc_op : ℕ → ℕ → Instruction

abbrev pub operand : Instruction → ℕ
operand (rw_op addr x) = x
operand (rs_op addr x) = x
operand (rc_op addr x) = x

abbrev pub execute : Csr → Instruction → Csr
execute c (rw_op addr x) = (csrrw c addr x).0
execute c (rs_op addr x) = (csrrs c addr x).0
execute c (rc_op addr x) = (csrrc c addr x).0

abbrev pub Operands : List Instruction → Type 0
Operands [] = Unit {0}
Operands (op ∷ ops) = (operand op < 2 ^ 64) × Operands ops

pub run : Csr → List Instruction → Csr
run c [] = c
run c (op ∷ ops) = run (execute c op) ops

execute-IsValid :
    (c : Csr) (op : Instruction) → operand op < 2 ^ 64 → IsValid c → IsValid (execute c op)
unfolding csrrw csrrs csrrc
execute-IsValid c (rw_op addr x) k v = write-IsValid c addr x k v
execute-IsValid c (rs_op addr x) k v = elim (Bool-cases (x != 0)) [
  | inl e ↦ rw e (
      write-IsValid c addr (bit_or (read c addr) x)
        (bit_or-lt 64 (read c addr) x (read-lt c addr v) k) v)
  | inr e ↦ rw e v
]
execute-IsValid c (rc_op addr x) k v = elim (Bool-cases (x != 0)) [
  | inl e ↦ rw e (
      write-IsValid c addr (bit_and (read c addr) (bit_not 64 x))
        (bit_and-lt 64 (read c addr) (bit_not 64 x) (read-lt c addr v)) v)
  | inr e ↦ rw e v
]

execute-Forced : (c : Csr) (op : Instruction) → Forced c → Forced (execute c op)
unfolding csrrw csrrs csrrc
execute-Forced c (rw_op addr x) f = write-Forced c addr x f
execute-Forced c (rs_op addr x) f = elim (Bool-cases (x != 0)) [
  | inl e ↦ rw e (write-Forced c addr (bit_or (read c addr) x) f)
  | inr e ↦ rw e f
]
execute-Forced c (rc_op addr x) f = elim (Bool-cases (x != 0)) [
  | inl e ↦ rw e (write-Forced c addr (bit_and (read c addr) (bit_not 64 x)) f)
  | inr e ↦ rw e f
]

run-IsValid :
    (c : Csr) (ops : List Instruction)
    → Operands ops
    → IsValid c × Forced c
    → IsValid (run c ops) × Forced (run c ops)
unfolding run
run-IsValid c [] w v = v
run-IsValid c (op ∷ ops) (k, w) (v, f) =
    run-IsValid (execute c op) ops w (execute-IsValid c op k v, execute-Forced c op f)

-- From reset, any sequence of csrrw, csrrs and csrrc with 64-bit operands keeps every stored word
-- within 64 bits, SD out of the stored MSTATUS, a known mode in SATP, TSELECT below the number of
-- triggers, and the forced bits of MIDELEG set.
pub reachable-IsValid :
    (ops : List Instruction) → Operands ops → IsValid (run new ops) × Forced (run new ops)
reachable-IsValid ops w = run-IsValid new ops w new-IsValid
