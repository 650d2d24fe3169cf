-- ===== src/Bus.antt =====
-- The I2C bus of firmware/core1/src/i2c with a register chip behind it, as the drivers of
-- firmware/core1/src/power and sensor use it: an interface that they take as a parameter.
pub mod Link
pub mod Writes
pub mod Facts
pub mod Memory
use mathlib.Core.Option
use mokya_lora.Prelude.{
  ℕ, ◌+◌, ◌<◌, ◌≤◌, ◌≡◌, ◌⊎◌, Bool, true, false, Option, none, some, List, [], ◌∷◌, get_or,
  get_elem?, length, bit_and,
}

-- `reading` writes the register pointer and reads that many bytes behind it; `none` is a negative
-- result. `writing` writes the bytes from a register on; `false` is a negative result. A register is
-- `steady` if only the host's writes change it, and then it shows of a written byte the bits in
-- `holds_bits`: a bit that clears itself is not among them.
pub record RegBus : Type 1 where
  pub World : Type 0
  pub register : World → ℕ → ℕ
  pub steady : ℕ → Bool
  pub holds_bits : ℕ → ℕ
  -- `i2c_bus_acquire`; `false` is `NULL`
  pub acquire : World → Bool
  pub reading : World → ℕ → ℕ → Option (List ℕ) × World
  pub writing : World → ℕ → List ℕ → Bool × World
  pub read-register :
      (w : World) (r : ℕ) (b : List ℕ)
      → steady r ≡ true
      → (reading w r 1).0 ≡ some b
      → get_or b 0 0 ≡ register w r
  pub read-keeps :
      (w : World) (r n q : ℕ) → steady q ≡ true → register (reading w r n).1 q ≡ register w q
  pub write-sets :
      (w : World) (r q i v : ℕ) (l : List ℕ)
      → q ≡ r + i
      → steady q ≡ true
      → (writing w r l).0 ≡ true
      → get_elem? l i ≡ some v
      → register (writing w r l).1 q ≡ bit_and v (holds_bits q)
  pub write-keeps :
      (w : World) (r q : ℕ) (l : List ℕ)
      → steady q ≡ true
      → (q < r) ⊎ (r + length l ≤ q)
      → register (writing w r l).1 q ≡ register w q

module _ (bus : RegBus) where
  open bus use {World, reading, writing}

  -- a sequence of transactions that ends at the first that fails
  abbrev pub Transfer : Type 0 → Type 0
  Transfer A = World → Option A × World

  abbrev pub pure : {A : Type 0} → A → Transfer A
  pure a w = (some a, w)

  abbrev pub fail : {A : Type 0} → Transfer A
  fail w = (none, w)

  -- `reg_read_u8`, `reg_read_block`, `reg_write_u8` and `reg_write_u16`
  abbrev pub read_u8 : ℕ → Transfer ℕ
  read_u8 r w = (Option.map (λ b. get_or b 0 0) (reading w r 1).0, (reading w r 1).1)

  abbrev pub read_block : ℕ → ℕ → Transfer (List ℕ)
  read_block r n w = reading w r n

  abbrev pub written : Bool → Option (Unit {0})
  written true = some tt
  written false = none

  abbrev pub write_u8 : ℕ → ℕ → Transfer (Unit {0})
  write_u8 r v w = (written (writing w r (v ∷ [])).0, (writing w r (v ∷ [])).1)

  abbrev pub write_u16 : ℕ → ℕ × ℕ → Transfer (Unit {0})
  write_u16 r (lo, hi) w = (written (writing w r (lo ∷ hi ∷ [])).0, (writing w r (lo ∷ hi ∷ [])).1)

abbrev pub after : {A B W : Type 0} → (A → W → Option B × W) → Option A × W → Option B × W
after f (none, w) = (none, w)
after f (some a, w) = f a w

infixl 5 ◌>>=◌ ◌>>◌
abbrev pub ◌>>=◌ : {W A B : Type 0} → (W → Option A × W) → (A → W → Option B × W) → W → Option B × W
◌>>=◌ m f w = after f (m w)

abbrev pub ◌>>◌ :
    {W B : Type 0} → (W → Option (Unit {0}) × W) → (W → Option B × W) → W → Option B × W
◌>>◌ m k w = after (λ _. k) (m w)
