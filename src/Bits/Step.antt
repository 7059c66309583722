-- ===== src/Bits/Step.antt =====
-- One equation for the lowest digit of each bit operation, from the recursion on binary digits
-- (with fuel) that the native operations stand for.
use Prim.Native.Nat.{differ, digits, bit_and-bitwise, bit_or-bitwise, bit_xor-bitwise}
use qemu_rust_risc_v.Prelude.{ℕ, zero, suc, ◌+◌, ◌*◌, ◌/◌, ◌%◌, ◌≤◌, ◌≡◌, refl, arith}
use qemu_rust_risc_v.Prelude.{min, max, bit_and, bit_or, bit_xor}

-- More fuel than the number changes nothing.
enough_fuel :
    (rest : ℕ → ℕ) (op : ℕ → ℕ → ℕ) (m n x y : ℕ)
    → x ≤ m
    → x ≤ n
    → digits rest op m x y ≡ digits rest op n x y
enough_fuel rest op zero n (suc x) y h k = absurd (omega arith)
enough_fuel rest op (suc m) zero (suc x) y h k = absurd (omega arith)
enough_fuel rest op zero zero zero y h k = refl
enough_fuel rest op zero (suc n) zero y h k = refl
enough_fuel rest op (suc m) zero zero y h k = refl
enough_fuel rest op (suc m) (suc n) zero y h k = refl
enough_fuel rest op (suc m) (suc n) (suc x) y h k =
    rw (enough_fuel rest op m n (suc x / 2) (y / 2) (omega arith) (omega arith))

lowest_digit :
    (rest : ℕ → ℕ) (op : ℕ → ℕ → ℕ) (x y : ℕ)
    → digits rest op (suc x) (suc x) y
      ≡ digits rest op (suc x / 2) (suc x / 2) (y / 2) * 2 + op (suc x % 2) (y % 2)
lowest_digit rest op x y =
    rw (enough_fuel rest op x (suc x / 2) (suc x / 2) (y / 2) (omega arith) (omega arith))

pub bit_and_step : (x y : ℕ) → bit_and x y ≡ bit_and (x / 2) (y / 2) * 2 + min (x % 2) (y % 2)
bit_and_step zero y = simp bit_and-bitwise (omega arith)
bit_and_step (suc x) y = simp bit_and-bitwise (lowest_digit (λ b. 0) min x y)

pub bit_or_step : (x y : ℕ) → bit_or x y ≡ bit_or (x / 2) (y / 2) * 2 + max (x % 2) (y % 2)
bit_or_step zero y = simp bit_or-bitwise (omega arith)
bit_or_step (suc x) y = simp bit_or-bitwise (lowest_digit (λ b. b) max x y)

pub bit_xor_step : (x y : ℕ) → bit_xor x y ≡ bit_xor (x / 2) (y / 2) * 2 + differ (x % 2) (y % 2)
bit_xor_step zero y = simp bit_xor-bitwise (omega arith)
bit_xor_step (suc x) y = simp bit_xor-bitwise (lowest_digit (λ b. b) differ x y)
