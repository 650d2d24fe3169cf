-- ===== src/Prelude/Words.antt =====
-- Unsigned machine words as native numbers, with the wrap written out.
use Prim.Native.Nat.{ℕ, suc, ◌<◌, ◌+◌, ◌-◌, ◌%◌, ◌∣◌}
use mathlib.Core.Path.{◌≡◌}
use mathlib.Core.Logic.{◌≢◌}
use native.Mathlib.Nat.{mod-mod_of_dvd, mod-add-mod, mod-eq_of_lt, mod-eq-sub-mod, mod-lt}
use native.Mathlib.Decide.{dec_lt}
use native.Mathlib.Omega.{arith}

-- 2 ^ 32, the modulus of `uint32_t`
abbrev pub u32 : ℕ
u32 = 4294967296

-- `a + b` on `uint32_t`
abbrev pub add32 : ℕ → ℕ → ℕ
add32 a b = (a + b) % u32

-- `a - b` on `uint32_t`
abbrev pub sub32 : ℕ → ℕ → ℕ
sub32 a b = (a + u32 - b) % u32

-- `a + 1` on `uint8_t`
abbrev pub inc8 : ℕ → ℕ
inc8 a = (a + 1) % 256

-- An index folded at a divisor of the word's modulus does not see the wrap.
pub u32-mod : (n x : ℕ) → n ∣ u32 → (x % u32) % n ≡ x % n
u32-mod n x d = mod-mod_of_dvd n x d

-- Fewer than `n` steps round a ring of `n` places do not come back to the start.
pub add-mod-ne : (n t k : ℕ) → suc k < n → (t + suc k) % n ≢ t % n
add-mod-ne n t k hk = elim (dec_lt (t % n + suc k) n) [
  | yes p ↦ omega (arith, mod-add-mod t n (suc k), mod-eq_of_lt p)
  | no p ↦ omega (
    arith,
    mod-add-mod t n (suc k),
    mod-lt t {m = n} (omega arith),
    mod-eq-sub-mod {n = t % n + suc k} {m = n} (omega arith),
    mod-eq_of_lt {n = t % n + suc k - n} {m = n} (omega (arith, mod-lt t {m = n} (omega arith))),
  )
]
