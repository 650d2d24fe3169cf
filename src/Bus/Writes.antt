-- ===== src/Bus/Writes.antt =====
-- What a successful transfer leaves in the registers.
use mathlib.Core.Option
use mathlib.Core.Option.{none-ne-some, some-injective}
use mokya_lora.Prelude.{
  ap, get_or, Option-cases, ℕ, ◌+◌, ◌<◌, ◌≤◌, ◌≡◌, ◌≢◌, ◌⊎◌, inl, inr, refl, sym, ◌∙◌, Bool, true,
  false, Option, none, some, [], ◌∷◌, bit_and, arith,
}
use mokya_lora.Bus.{RegBus, read_u8, write_u8, write_u16, written, after}

-- A sequence that succeeds has a first part that succeeds, and then does what the rest does.
pub after-some :
    {A B W : Type 0} (f : A → W → Option B × W) (o : Option A × W) (b : B)
    → (after f o).0 ≡ some b
    → (a : A) × (o.0 ≡ some a) × ((f a o.1).0 ≡ some b) × (after f o ≡ f a o.1)
after-some f (none, w) b e = absurd (none-ne-some b e)
after-some f (some a, w) b e = (a, refl, e, refl)

module _ (bus : RegBus) where
  open bus use {
    World, register, steady, holds_bits, reading, writing, read-register, read-keeps, write-sets,
    write-keeps,
  }

  written-true : (b : Bool) → written bus b ≡ some tt → b ≡ true
  written-true true e = refl
  written-true false e = absurd (none-ne-some tt e)

  pub read_u8-register :
      (r v : ℕ) (w : World) → steady r ≡ true → (read_u8 bus r w).0 ≡ some v → v ≡ register w r
  read_u8-register r v w h e = elim (Option-cases (reading w r 1).0) [
    | inl n ↦ absurd (none-ne-some v (sym (ap (Option.map (λ b. get_or b 0 0)) n) ∙ e))
    | inr (b, s) ↦
        some-injective v (get_or b 0 0) (sym e ∙ ap (Option.map (λ b. get_or b 0 0)) s)
        ∙ read-register w r b h s
  ]

  pub write_u8-register :
      (r v : ℕ) (w : World)
      → steady r ≡ true
      → (write_u8 bus r v w).0 ≡ some tt
      → register (write_u8 bus r v w).1 r ≡ bit_and v (holds_bits r)
  write_u8-register r v w h e =
      write-sets w r r 0 v (v ∷ []) (omega arith) h (written-true (writing w r (v ∷ [])).0 e) refl

  pub write_u8-keeps :
      (r v q : ℕ) (w : World)
      → steady q ≡ true
      → q ≢ r
      → register (write_u8 bus r v w).1 q ≡ register w q
  write_u8-keeps r v q w h k = write-keeps w r q (v ∷ []) h (grind arith)

  pub write_u16-register :
      (r lo hi : ℕ) (w : World)
      → steady r ≡ true
      → steady (r + 1) ≡ true
      → (write_u16 bus r (lo, hi) w).0 ≡ some tt
      → let w' = (write_u16 bus r (lo, hi) w).1 in
        (register w' r ≡ bit_and lo (holds_bits r))
        × (register w' (r + 1) ≡ bit_and hi (holds_bits (r + 1)))
  write_u16-register r lo hi w h k e =
      let done = written-true (writing w r (lo ∷ hi ∷ [])).0 e in
      (
        write-sets w r r 0 lo (lo ∷ hi ∷ []) (omega arith) h done refl,
        write-sets w r (r + 1) 1 hi (lo ∷ hi ∷ []) refl k done refl,
      )

  pub write_u16-keeps :
      (r lo hi q : ℕ) (w : World)
      → steady q ≡ true
      → (q < r) ⊎ (r + 2 ≤ q)
      → register (write_u16 bus r (lo, hi) w).1 q ≡ register w q
  write_u16-keeps r lo hi q w h k = write-keeps w r q (lo ∷ hi ∷ []) h k

-- What each part keeps, the sequence keeps.
pub after-keeps :
    {A B W : Type 0} (P : W → Type 0) (f : A → W → Option B × W) (o : Option A × W)
    → P o.1
    → ((a : A) (w : W) → P w → P (f a w).1)
    → P (after f o).1
after-keeps P f (none, w) h k = h
after-keeps P f (some a, w) h k = k a w h
