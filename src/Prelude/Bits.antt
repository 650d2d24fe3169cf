-- ===== src/Prelude/Bits.antt =====
-- Checking a fact about bytes, or other small numbers, at every value.
use Prim.Native.Nat.{
  ℕ, zero, suc, ◌<◌, ◌≤◌, ◌+◌, ◌-◌, ◌*◌, ◌/◌, ◌%◌, ◌^◌, min, max, bit_and, bit_or, digits,
  bit_and-bitwise, bit_or-bitwise,
}
use mathlib.Core.Logic.{◌≢◌, ◌↔◌}
use mathlib.Core.Path.{◌≡◌, refl, ap, ◌∙◌}
use native.Mathlib.Nat.{pow-suc, mul_comm}
use mathlib.Core.Bool.{Bool, true, ◌&&◌}
use native.Mathlib.Omega.{arith}

-- the conjunction of a test at every number below `m`
unfoldable pub all_below : (ℕ → Bool) → ℕ → Bool
all_below test zero = true
all_below test (suc m) = all_below test m && test m

pub all_below_sound :
    (test : ℕ → Bool) (m : ℕ) → all_below test m ≡ true → (v : ℕ) → v < m → test v ≡ true
unfolding all_below
all_below_sound test zero checked v below = absurd (omega arith)
all_below_sound test (suc m) checked v below =
    ground (arith, λ (h : all_below test m ≡ true) (k : v < m). all_below_sound test m h v k)

-- The binary digits of a number, lowest first.
unfoldable pub bit : ℕ → ℕ → ℕ
bit a zero = a % 2
bit a (suc k) = bit (a / 2) k

-- The native operations recurse on fuel; any two amounts that suffice agree.
module _ (rest : ℕ → ℕ) (op : ℕ → ℕ → ℕ) where
  pub fuels_agree :
      (x y : ℕ) (f g : ℕ) → x ≤ f → x ≤ g → digits rest op f x y ≡ digits rest op g x y
  fuels_agree zero y zero zero hf hg = refl
  fuels_agree zero y zero (suc g) hf hg = refl
  fuels_agree zero y (suc f) zero hf hg = refl
  fuels_agree zero y (suc f) (suc g) hf hg = refl
  fuels_agree (suc x) y zero g hf hg = absurd (omega arith)
  fuels_agree (suc x) y (suc f) zero hf hg = absurd (omega arith)
  fuels_agree (suc x) y (suc f) (suc g) hf hg =
      ap (λ high. high * 2 + op (suc x % 2) (y % 2))
        (fuels_agree (suc x / 2) (y / 2) f g (omega arith) (omega arith))

-- the law for the lowest digit of each operation
bit_and_step : (x y : ℕ) → bit_and x y ≡ min (x % 2) (y % 2) + 2 * bit_and (x / 2) (y / 2)
bit_and_step zero y = omega (arith, bit_and-bitwise 0 y, bit_and-bitwise 0 (y / 2))
bit_and_step (suc x) y =
    let high =
      fuels_agree (λ _. 0) min (suc x / 2) (y / 2) x (suc x / 2) (omega arith) (omega arith) in
    omega (arith, high, bit_and-bitwise (suc x / 2) (y / 2), bit_and-bitwise (suc x) y)

bit_or_step : (x y : ℕ) → bit_or x y ≡ max (x % 2) (y % 2) + 2 * bit_or (x / 2) (y / 2)
bit_or_step zero y = omega (arith, bit_or-bitwise 0 y, bit_or-bitwise 0 (y / 2))
bit_or_step (suc x) y =
    let high =
      fuels_agree (λ z. z) max (suc x / 2) (y / 2) x (suc x / 2) (omega arith) (omega arith) in
    omega (arith, high, bit_or-bitwise (suc x / 2) (y / 2), bit_or-bitwise (suc x) y)

pub bit-bit_and : (k a b : ℕ) → bit (bit_and a b) k ≡ min (bit a k) (bit b k)
unfolding bit
bit-bit_and zero a b = omega (arith, bit_and_step a b)
bit-bit_and (suc k) a b =
    ap (λ x. bit x k) (omega (arith, bit_and_step a b)) ∙ bit-bit_and k (a / 2) (b / 2)

pub bit-bit_or : (k a b : ℕ) → bit (bit_or a b) k ≡ max (bit a k) (bit b k)
unfolding bit
bit-bit_or zero a b = omega (arith, bit_or_step a b)
bit-bit_or (suc k) a b =
    ap (λ x. bit x k) (omega (arith, bit_or_step a b)) ∙ bit-bit_or k (a / 2) (b / 2)

pub bit-le-one : (k a : ℕ) → bit a k ≤ 1
unfolding bit
bit-le-one zero a = omega arith
bit-le-one (suc k) a = bit-le-one k (a / 2)

pub zero-bit : (k : ℕ) → bit 0 k ≡ 0
unfolding bit
zero-bit zero = refl
zero-bit (suc k) = zero-bit k

pow_suc : (k : ℕ) → 2 ^ suc k ≡ 2 * 2 ^ k
pow_suc k = pow-suc 2 k ∙ mul_comm (2 ^ k) 2

-- A single digit: `1 << k`.
pub bit-pow_self : (k : ℕ) → bit (2 ^ k) k ≡ 1
unfolding bit
bit-pow_self zero = refl
bit-pow_self (suc k) = ap (λ x. bit x k) (omega (arith, pow_suc k)) ∙ bit-pow_self k

pub bit-pow_ne : (j k : ℕ) → j ≢ k → bit (2 ^ k) j ≡ 0
unfolding bit
bit-pow_ne zero zero ne = absurd (ne refl)
bit-pow_ne zero (suc k) ne = omega (arith, pow_suc k)
bit-pow_ne (suc j) zero ne = zero-bit j
bit-pow_ne (suc j) (suc k) ne =
    ap (λ x. bit x j) (omega (arith, pow_suc k)) ∙ bit-pow_ne j k (λ e. ne (ap suc e))

-- Its complement in a word of `w` digits: `~(1 << k)`.
pub bit-complement_self : (w k : ℕ) → k < w → bit (2 ^ w - 1 - 2 ^ k) k ≡ 0
unfolding bit
bit-complement_self zero k h = absurd (omega arith)
bit-complement_self (suc w) zero h = omega (arith, pow_suc w)
bit-complement_self (suc w) (suc k) h =
    ap (λ x. bit x k) (omega (arith, pow_suc w, pow_suc k)) ∙ bit-complement_self w k (omega arith)

pow_pos : (k : ℕ) → 0 < 2 ^ k
pow_pos zero = omega arith
pow_pos (suc k) = omega (arith, pow_suc k, pow_pos k)

pow-lt-pow : (k w : ℕ) → k < w → 2 ^ k < 2 ^ w
pow-lt-pow k zero h = absurd (omega arith)
pow-lt-pow zero (suc w) h = omega (arith, pow_suc w, pow_pos w)
pow-lt-pow (suc k) (suc w) h = omega (arith, pow_suc w, pow_suc k, pow-lt-pow k w (omega arith))

bit-ones : (w j : ℕ) → j < w → bit (2 ^ w - 1) j ≡ 1
unfolding bit
bit-ones zero j h = absurd (omega arith)
bit-ones (suc w) zero h = omega (arith, pow_suc w, pow_pos w)
bit-ones (suc w) (suc j) h =
    ap (λ x. bit x j) (omega (arith, pow_suc w, pow_pos w)) ∙ bit-ones w j (omega arith)

pub bit-complement_ne : (w j k : ℕ) → j < w → k < w → j ≢ k → bit (2 ^ w - 1 - 2 ^ k) j ≡ 1
unfolding bit
bit-complement_ne zero j k hj hk ne = absurd (omega arith)
bit-complement_ne (suc w) zero zero hj hk ne = absurd (ne refl)
bit-complement_ne (suc w) zero (suc k) hj hk ne =
    omega (arith, pow_suc w, pow_suc k, pow-lt-pow k w (omega arith))
bit-complement_ne (suc w) (suc j) zero hj hk ne =
    ap (λ x. bit x j) (omega (arith, pow_suc w, pow_pos w)) ∙ bit-ones w j (omega arith)
bit-complement_ne (suc w) (suc j) (suc k) hj hk ne =
    ap (λ x. bit x j) (omega (arith, pow_suc w, pow_suc k))
    ∙ bit-complement_ne w j k (omega arith) (omega arith) (λ e. ne (ap suc e))

none-bit_and : (x bound : ℕ) → x ≤ bound → bit_and x 0 ≡ 0
none-bit_and zero bound below = refl
none-bit_and (suc x) zero below = absurd (omega arith)
none-bit_and (suc x) (suc bound) below =
    let high = none-bit_and (suc x / 2) bound (omega arith) in
    omega (arith, high, bit_and_step (suc x) 0)

-- `m & (1 << k)` keeps digit `k` alone.
pub bit_and-pow : (k m : ℕ) → bit_and m (2 ^ k) ≡ bit m k * 2 ^ k
unfolding bit
bit_and-pow zero m = omega (arith, bit_and_step m 1, none-bit_and (m / 2) (m / 2) (omega arith))
bit_and-pow (suc k) m =
    bit_and_step m (2 ^ suc k)
    ∙ ap (λ x. min (m % 2) (2 ^ suc k % 2) + 2 * bit_and (m / 2) x) half
    ∙ omega (arith, bit_and-pow k (m / 2), pow_suc k, ap (λ (t : ℕ). bit (m / 2) k * t) (pow_suc k))
  where
    half : 2 ^ suc k / 2 ≡ 2 ^ k
    half = omega (arith, pow_suc k)

-- So the test for zero reads that digit.
pub bit_and-pow-eq-zero : (k m : ℕ) → (bit_and m (2 ^ k) ≡ 0) ↔ (bit m k ≡ 0)
bit_and-pow-eq-zero k m = (to, λ e. bit_and-pow k m ∙ ap (λ t. t * 2 ^ k) e ∙ omega arith)
  where
    to : bit_and m (2 ^ k) ≡ 0 → bit m k ≡ 0
    to e = grind (arith, bit_and-pow k m, pow_pos k, bit-le-one k m)
