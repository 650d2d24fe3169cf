-- ===== src/Bus/Memory.antt =====
-- A bus on which all goes well, with a plain register file behind it: the interface can be filled.
use mathlib.Core.Option.{some-injective, none-ne-some}
use mokya_lora.Prelude.{
  ℕ, zero, suc, ◌+◌, ◌-◌, ◌<◌, ◌≤◌, ◌≡◌, ◌⊎◌, refl, sym, ap, ◌∙◌, true, false, ◌&&◌, some, List, [],
  ◌∷◌, length, get_or, get_elem?, bit_and, arith, ltb, leb, if◌then◌else◌,
}
use mokya_lora.Bus.{RegBus}

abbrev pub read_from : (ℕ → ℕ) → ℕ → ℕ → List ℕ
read_from w r zero = []
read_from w r (suc n) = w r ∷ read_from w (r + 1) n

abbrev pub store : (ℕ → ℕ) → (ℕ → ℕ) → ℕ → List ℕ → ℕ → ℕ
store mask w r l q =
    if leb r q && ltb q (r + length l) then bit_and (get_or l (q - r) 0) (mask q) else w q

get_elem?-some :
    (l : List ℕ) (i v : ℕ) → get_elem? l i ≡ some v → (i < length l) × (get_or l i 0 ≡ v)
get_elem?-some [] i v e = absurd (none-ne-some v e)
get_elem?-some (x ∷ l) zero v e = (omega arith, some-injective x v e)
get_elem?-some (x ∷ l) (suc i) v e = let (h, k) = get_elem?-some l i v e in (omega arith, k)

pub store-sets :
    (mask w : ℕ → ℕ) (r q i v : ℕ) (l : List ℕ)
    → q ≡ r + i
    → get_elem? l i ≡ some v
    → store mask w r l q ≡ bit_and v (mask q)
store-sets mask w r q i v l e g =
    let (h, k) = get_elem?-some l i v g in
    let at : q - r ≡ i = omega arith in
    let inside : (leb r q && ltb q (r + length l)) ≡ true = ground arith in
    ap (λ b. if b then bit_and (get_or l (q - r) 0) (mask q) else w q) inside
    ∙ ap (λ j. bit_and (get_or l j 0) (mask q)) at
    ∙ ap (λ x. bit_and x (mask q)) k

pub store-keeps :
    (mask w : ℕ → ℕ) (r q : ℕ) (l : List ℕ)
    → (q < r) ⊎ (r + length l ≤ q)
    → store mask w r l q ≡ w q
store-keeps mask w r q l h =
    let outside : (leb r q && ltb q (r + length l)) ≡ false = ground arith in
    ap (λ b. if b then bit_and (get_or l (q - r) 0) (mask q) else w q) outside

-- the bus for the bits that each register shows
abbrev pub memory_bus : (ℕ → ℕ) → RegBus
memory_bus mask = record {
  World = ℕ → ℕ;
  register = λ w. w;
  steady = λ _. true;
  holds_bits = mask;
  acquire = λ _. true;
  reading = λ w r n. (some (read_from w r n), w);
  writing = λ w r l. (true, store mask w r l);
  read-register = λ w r b h e. sym (ap (λ l. get_or l 0 0) (some-injective (w r ∷ []) b e));
  read-keeps = λ w r n q h. refl;
  write-sets = λ w r q i v l e h d g. store-sets mask w r q i v l e g;
  write-keeps = λ w r q l h k. store-keeps mask w r q l k;
}
