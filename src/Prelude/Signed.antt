-- ===== src/Prelude/Signed.antt =====
-- Signed machine integers: the casts of two's complement, and the shifts of the code.
use Prim.Native.Nat.{ℕ, zero, suc, ◌+◌, ◌-◌, ◌*◌, ◌/◌, ◌%◌, ◌≤◌, ◌<◌}
use mokya_lora.Prelude.Tests.{ltb, if◌then◌else◌}

-- `negsuc n` is -(n + 1).
pub data ℤ : Type 0 where
  pos : ℕ → ℤ
  negsuc : ℕ → ℤ

abbrev pub pos_part : ℤ → ℕ
pos_part (pos n) = n
pos_part (negsuc n) = 0

abbrev pub neg_part : ℤ → ℕ
neg_part (pos n) = 0
neg_part (negsuc n) = suc n

-- the `int16_t` of a bit pattern, and the cast of an integer to it
abbrev pub as_int16 : ℕ → ℤ
as_int16 w = if ltb w 0x8000 then pos w else negsuc (0xFFFF - w)

abbrev pub cast_int16 : ℤ → ℤ
cast_int16 (pos n) = as_int16 (n % 0x10000)
cast_int16 (negsuc n) = as_int16 (0xFFFF - n % 0x10000)

-- `x >> k` for `d = 2 ^ k`, which rounds down
abbrev pub shift_right : ℕ → ℤ → ℤ
shift_right d (pos n) = pos (n / d)
shift_right d (negsuc n) = negsuc (n / d)

-- `x * d` for a positive constant
abbrev pub times : ℕ → ℤ → ℤ
times d (pos n) = pos (n * d)
times d (negsuc n) = negsuc ((n + 1) * d - 1)

-- `-n`
abbrev pub neg : ℕ → ℤ
neg zero = pos 0
neg (suc n) = negsuc n

-- `x / d` for a positive constant, which rounds towards 0
abbrev pub quot : ℕ → ℤ → ℤ
quot d (pos n) = pos (n / d)
quot d (negsuc n) = neg ((n + 1) / d)

-- `k + x`
abbrev pub offset : ℕ → ℤ → ℤ
offset k (pos n) = pos (k + n)
offset k (negsuc n) = if ltb n k then pos (k - (n + 1)) else negsuc (n - k)

-- `got` is `exact / scale`, rounded towards 0.
pub record IsTruncated (scale : ℕ) (exact got : ℤ) : Type 0 where
  pub pos_below : pos_part got * scale ≤ pos_part exact
  pub pos_near : pos_part exact < (pos_part got + 1) * scale
  pub neg_below : neg_part got * scale ≤ neg_part exact
  pub neg_near : neg_part exact < (neg_part got + 1) * scale
