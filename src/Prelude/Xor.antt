-- ===== src/Prelude/Xor.antt =====
-- Exclusive or, through its law for the lowest digit.
use Prim.Native.Nat.{
  ℕ, zero, suc, ◌<◌, ◌≤◌, ◌+◌, ◌*◌, ◌/◌, ◌%◌, ◌^◌, bit_xor, differ, bit_xor-bitwise,
}
use mathlib.Core.Path.{◌≡◌, refl}
use native.Mathlib.Nat.{pow-suc}
use native.Mathlib.Omega.{arith}
use mokya_lora.Prelude.Bits.{fuels_agree}

differ-lt_two : (x y : ℕ) → x < 2 → y < 2 → differ x y ≡ (x + y) % 2
differ-lt_two zero y p q = omega arith
differ-lt_two (suc zero) zero p q = refl
differ-lt_two (suc zero) (suc zero) p q = refl
differ-lt_two (suc zero) (suc (suc y)) p q = absurd (omega arith)
differ-lt_two (suc (suc x)) y p q = absurd (omega arith)

bit_xor_step : (a b : ℕ) → bit_xor a b ≡ bit_xor (a / 2) (b / 2) * 2 + (a % 2 + b % 2) % 2
bit_xor_step zero b = omega (arith, bit_xor-bitwise 0 b, bit_xor-bitwise 0 (b / 2))
bit_xor_step (suc a) b = omega (
  arith,
  bit_xor-bitwise (suc a) b,
  bit_xor-bitwise (suc a / 2) (b / 2),
  differ-lt_two (suc a % 2) (b % 2) (omega arith) (omega arith),
  fuels_agree (λ z. z) differ (suc a / 2) (b / 2) a (suc a / 2) (omega arith) (omega arith),
)

xor_injective_fuel : (n c a b : ℕ) → c ≤ n → bit_xor c a ≡ bit_xor c b → a ≡ b
xor_injective_fuel n zero a b h e = omega (arith, bit_xor-bitwise 0 a, bit_xor-bitwise 0 b)
xor_injective_fuel zero (suc c) a b h e = absurd (omega arith)
xor_injective_fuel (suc n) (suc c) a b h e = omega (
  arith,
  bit_xor_step (suc c) a,
  bit_xor_step (suc c) b,
  xor_injective_fuel n (suc c / 2) (a / 2) (b / 2) (omega arith)
      (omega (arith, bit_xor_step (suc c) a, bit_xor_step (suc c) b)),
)

-- Two numbers that differ stay different under exclusive or with a third.
pub bit_xor_injective : (c a b : ℕ) → bit_xor c a ≡ bit_xor c b → a ≡ b
bit_xor_injective c a b e = xor_injective_fuel c c a b (omega arith) e

-- The result fits the word that both arguments fit.
pub bit_xor-lt : (k a b : ℕ) → a < 2 ^ k → b < 2 ^ k → bit_xor a b < 2 ^ k
bit_xor-lt zero zero b p q = omega (arith, bit_xor-bitwise 0 b)
bit_xor-lt zero (suc a) b p q = absurd (omega arith)
bit_xor-lt (suc k) a b p q = omega (
  arith,
  pow-suc 2 k,
  bit_xor_step a b,
  bit_xor-lt k (a / 2) (b / 2) (omega (arith, pow-suc 2 k)) (omega (arith, pow-suc 2 k)),
)

xor_comm_fuel : (n a b : ℕ) → a ≤ n → b ≤ n → bit_xor a b ≡ bit_xor b a
xor_comm_fuel zero a b p q = same a b p q
  where
    same : (a b : ℕ) → a ≤ 0 → b ≤ 0 → bit_xor a b ≡ bit_xor b a
    same zero zero p q = refl
    same zero (suc b) p q = absurd (omega arith)
    same (suc a) b p q = absurd (omega arith)
xor_comm_fuel (suc n) a b p q = omega (
  arith,
  bit_xor_step a b,
  bit_xor_step b a,
  xor_comm_fuel n (a / 2) (b / 2) (omega arith) (omega arith),
)

pub bit_xor_comm : (a b : ℕ) → bit_xor a b ≡ bit_xor b a
bit_xor_comm a b = xor_comm_fuel (a + b) a b (omega arith) (omega arith)
