-- ===== src/Ipc/Ring/Window.antt =====
-- The window of slots that lies between two ring indices, and what a write does to it.
use native.Mathlib.Nat.{mod-lt}
use mokya_lora.Prelude.{
  ℕ, zero, suc, ◌+◌, ◌%◌, ◌-◌, ◌≤◌, ◌<◌, ◌∣◌, ◌≡◌, ◌≢◌, refl, sym, ap, ap₂, ◌∙◌, List, [], ◌∷◌,
  ◌++◌, length, get_or, set, arith, add32, u32, u32-mod, add-mod-ne, get_or-set_self, get_or-set_ne,
}
use mokya_lora.Ipc.Ring.{Slot, empty_slot}

-- the `p` slots from index `t` on
abbrev pub window : List Slot → ℕ → ℕ → ℕ → List Slot
window slots n t zero = []
window slots n t (suc p) = get_or slots (t % n) empty_slot ∷ window slots n (add32 t 1) p

module _ (slots : List Slot) (n : ℕ) where
  pub length-window : (t p : ℕ) → length (window slots n t p) ≡ p
  length-window t zero = refl
  length-window t (suc p) = ap suc (length-window (add32 t 1) p)

  -- the code tests `head == tail` where the window matches on its length
  pub window_of_pos :
      (t p : ℕ)
      → 0 < p
      → window slots n t p ≡ get_or slots (t % n) empty_slot ∷ window slots n (add32 t 1) (p - 1)
  window_of_pos t zero h = absurd (omega arith)
  window_of_pos t (suc p) h = ap (λ k. window slots n t (suc k)) (omega arith)

  -- the slot behind a window extends it
  pub window_snoc :
      (p t : ℕ)
      → n ∣ u32
      → t < u32
      → window slots n t (suc p)
        ≡ window slots n t p ++ get_or slots ((t + p) % u32 % n) empty_slot ∷ []
  window_snoc zero t d ht = ap (λ k. get_or slots (k % n) empty_slot ∷ []) (omega arith)
  window_snoc (suc p) t d ht =
      ap (λ w. get_or slots (t % n) empty_slot ∷ w)
        (window_snoc p (add32 t 1) d (omega arith)
          ∙ ap (λ k. window slots n (add32 t 1) p ++ get_or slots (k % n) empty_slot ∷ [])
              (omega arith))

  -- A write to a slot behind a window leaves the window as it is.
  pub window-set_behind :
      (s : Slot) (p q t i : ℕ)
      → n ∣ u32
      → p ≤ q
      → q < n
      → t < u32
      → i ≡ (t + q) % u32 % n
      → window (set slots i s) n t p ≡ window slots n t p
  window-set_behind s zero q t i d hp hq ht e = refl
  window-set_behind s (suc p) zero t i d hp hq ht e = absurd (omega arith)
  window-set_behind s (suc p) (suc q) t i d hp hq ht e =
      ap₂ ◌∷◌ (get_or-set_ne slots i (t % n) s empty_slot apart) (
        window-set_behind s p q (add32 t 1) i d (omega arith) (omega arith) (omega arith)
          (e ∙ shift))
    where
      apart : i ≢ t % n
      apart = rw (e, u32-mod n (t + suc q) d) (add-mod-ne n t q hq)

      shift : (t + suc q) % u32 % n ≡ (add32 t 1 + q) % u32 % n
      shift = ap (λ k. k % n) (omega arith)

-- Writing the slot behind a window extends the window by what is written.
pub window-set :
    (slots : List Slot) (n : ℕ) (s : Slot) (p t i : ℕ)
    → n ≤ length slots
    → n ∣ u32
    → p < n
    → t < u32
    → i ≡ (t + p) % u32 % n
    → window (set slots i s) n t (suc p) ≡ window slots n t p ++ s ∷ []
window-set slots n s p t i room d hp ht e =
    window_snoc (set slots i s) n p t d ht
    ∙ ap₂ (λ w v. w ++ v ∷ []) (window-set_behind slots n s p p t i d (omega arith) hp ht e)
        (ap (λ k. get_or (set slots i s) k empty_slot) (sym e)
          ∙ get_or-set_self slots i s empty_slot
              (omega (arith, e, mod-lt ((t + p) % u32) {m = n} (omega arith))))
