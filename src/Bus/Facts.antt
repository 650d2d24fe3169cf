-- ===== src/Bus/Facts.antt =====
-- What a driver knows of the registers while a sequence of transfers runs.
use mokya_lora.Prelude.{
  ℕ, ◌+◌, ◌≡◌, sym, ◌∙◌, Bool, true, ◌&&◌, ◌||◌, some, List, [], ◌∷◌, length, bit_and, arith, ltb,
  leb, subst,
}
use mokya_lora.Bus.{RegBus, Transfer, read_u8, write_u8, write_u16, ◌>>=◌, ◌>>◌}
use mokya_lora.Bus.Writes.{after-some, write_u8-register, write_u16-register}

-- no fact is about the `n` registers from `r` on
abbrev pub clear_of : ℕ → ℕ → List (ℕ × ℕ) → Bool
clear_of r n [] = true
clear_of r n ((q, v) ∷ fs) = (ltb q r || leb (r + n) q) && clear_of r n fs

module _ (bus : RegBus) where
  open bus use {World, register, steady, holds_bits, reading, writing, read-keeps, write-keeps}

  -- registers with the values that they show
  abbrev pub Shows : List (ℕ × ℕ) → World → Type 0
  Shows [] w = Unit
  Shows ((q, v) ∷ fs) w = (steady q ≡ true) × (register w q ≡ v) × Shows fs w

  pub Shows-reading :
      (fs : List (ℕ × ℕ)) (r n : ℕ) (w : World) → Shows fs w → Shows fs (reading w r n).1
  Shows-reading [] r n w h = tt
  Shows-reading ((q, v) ∷ fs) r n w (h, e, k) =
      (h, read-keeps w r n q h ∙ e, Shows-reading fs r n w k)

  pub Shows-writing :
      (fs : List (ℕ × ℕ)) (r : ℕ) (l : List ℕ) (w : World)
      → clear_of r (length l) fs ≡ true
      → Shows fs w
      → Shows fs (writing w r l).1
  Shows-writing [] r l w c h = tt
  Shows-writing ((q, v) ∷ fs) r l w c (h, e, k) =
      (h, write-keeps w r q l h (ground arith) ∙ e, Shows-writing fs r l w (ground arith) k)

  -- If `t` starts where `P` holds and succeeds, then `Q` holds.
  pub record Ensures {A : Type 0} (P : World → Type 0) (t : Transfer bus A) (Q : World → Type 0)
      : Type 0 where
    pub ends : (w : World) (a : A) → P w → (t w).0 ≡ some a → Q (t w).1

  pub bind-Ensures :
      {A B : Type 0} {P Q R : World → Type 0} {m : Transfer bus A} {f : A → Transfer bus B}
      → Ensures P m Q
      → ((a : A) → Ensures Q (f a) R)
      → Ensures P (m >>= f) R
  bind-Ensures {R = R} {m = m} {f = f} h k = record {
    ends = λ w b p e.
        let (a, first, rest, same) = after-some f (m w) b e in
        subst (λ t. R t.1) (sym same) ((k a).ends (m w).1 b (h.ends w a p first) rest);
  }

  pub then-Ensures :
      {B : Type 0} {P Q R : World → Type 0} {m : Transfer bus (Unit {0})} {k : Transfer bus B}
      → Ensures P m Q
      → Ensures Q k R
      → Ensures P (m >> k) R
  then-Ensures h k = bind-Ensures h (λ _. k)

  pub read_u8-Ensures : (r : ℕ) (fs : List (ℕ × ℕ)) → Ensures (Shows fs) (read_u8 bus r) (Shows fs)
  read_u8-Ensures r fs = record { ends = λ w b p e. Shows-reading fs r 1 w p }

  pub write_u8-Ensures :
      (r v : ℕ) (fs : List (ℕ × ℕ))
      → steady r ≡ true
      → clear_of r 1 fs ≡ true
      → Ensures (Shows fs) (write_u8 bus r v) (Shows ((r, bit_and v (holds_bits r)) ∷ fs))
  write_u8-Ensures r v fs h c = record {
    ends = λ w b p e. (h, write_u8-register bus r v w h e, Shows-writing fs r (v ∷ []) w c p);
  }

  pub write_u16-Ensures :
      (r lo hi : ℕ) (fs : List (ℕ × ℕ))
      → steady r ≡ true
      → steady (r + 1) ≡ true
      → clear_of r 2 fs ≡ true
      → Ensures
          (Shows fs)
          (write_u16 bus r (lo, hi))
          (Shows ((r, bit_and lo (holds_bits r)) ∷ (r + 1, bit_and hi (holds_bits (r + 1))) ∷ fs))
  write_u16-Ensures r lo hi fs h k c = record {
    ends = λ w b p e.
        let (low, high) = write_u16-register bus r lo hi w h k e in
        (h, low, (k, high, Shows-writing fs r (lo ∷ hi ∷ []) w c p));
  }

  pub imply-Ensures :
      {A : Type 0} {P P' Q : World → Type 0} {t : Transfer bus A}
      → ((w : World) → P w → P' w)
      → Ensures P' t Q
      → Ensures P t Q
  imply-Ensures h k = record { ends = λ w a p e. k.ends w a (h w p) e }
