-- ===== src/Keys/Scan/Pairing.antt =====
-- Every press that a key emits is followed by its own release before the next press.
use mokya_lora.Prelude.{
  ℕ, ◌≡◌, refl, Bool, true, false, ◌==◌, List, [], ◌∷◌, ◌++◌, if◌then◌else◌, arith, Option, none,
  some, add32, subst,
}
use mokya_lora.Keys.Code.{none_key, long_press_flag}
use mokya_lora.Keys.Scan.{
  Cell, Emit, LpState, lp_idle, lp_long_emitted, fresh_cell, keycode_defers_press, scan_cell,
  commit_key, timer_cell, tick_cell, run_cell,
}

-- The calls read as presses and releases of key `k`, in turn: `Held` is the flags of the press
-- that is open. Each release carries the flags of its press.
abbrev pub Held : Type 0
Held = Option ℕ

abbrev pub Paired : ℕ → Held → List Emit → Held → Type 0
Paired k from [] to = from ≡ to
Paired k none (e ∷ es) to = (e.keycode ≡ k) × (e.pressed ≡ true) × Paired k (some e.flags) es to
Paired k (some f) (e ∷ es) to =
    (e.keycode ≡ k) × (e.pressed ≡ false) × (e.flags ≡ f) × Paired k none es to

-- the press that is open in a state of the key
abbrev open_lp : LpState → Held
open_lp lp_long_emitted = some long_press_flag
open_lp _ = none

abbrev pub open_press : ℕ → Cell → Held
open_press k cell =
    if k == none_key
    then none
    else if keycode_defers_press k
    then open_lp cell.lp_state
    else if cell.stable
    then some 0
    else none

-- A slot key's long-press state is idle exactly when the key is up.
abbrev LpInv : LpState → Bool → Type 0
LpInv lp_idle stable = stable ≡ false
LpInv _ stable = stable ≡ true

abbrev IsTied : ℕ → Cell → Type 0
IsTied k cell = keycode_defers_press k ≡ true → LpInv cell.lp_state cell.stable

pub defers-ne-none : (k : ℕ) → keycode_defers_press k ≡ true → (k == none_key) ≡ false
unfolding keycode_defers_press
defers-ne-none k slot = ground arith

module _ (k : ℕ) where
  scan_cell-Paired :
      (now : ℕ) (bit : Bool) (cell : Cell)
      → IsTied k cell
      → let (cell', es) = scan_cell k now bit cell in
        IsTied k cell' × Paired k (open_press k cell) es (open_press k cell')
  unfolding scan_cell commit_key
  scan_cell-Paired now bit cell t =
      (λ d. ground (arith, t d, defers-ne-none k d), ground (arith, defers-ne-none k))

  timer_cell-Paired :
      (now : ℕ) (cell : Cell)
      → IsTied k cell
      → let (cell', es) = timer_cell k now cell in
        IsTied k cell' × Paired k (open_press k cell) es (open_press k cell')
  unfolding timer_cell
  timer_cell-Paired now cell t = (λ d. ground (arith, t d), ground arith)

Paired-append :
    (k : ℕ) (a b c : Held) (es fs : List Emit)
    → Paired k a es b
    → Paired k b fs c
    → Paired k a (es ++ fs) c
Paired-append k a b c [] fs p q = rw p q
Paired-append k none b c (e ∷ es) fs p q =
    (p.0, p.1, Paired-append k (some e.flags) b c es fs p.2 q)
Paired-append k (some f) b c (e ∷ es) fs p q = (p.0, p.1, p.2, Paired-append k none b c es fs p.3 q)

tick_cell-Paired :
    (k now : ℕ) (bit : Bool) (cell : Cell)
    → IsTied k cell
    → let (cell', es) = tick_cell k now bit cell in
      IsTied k cell' × Paired k (open_press k cell) es (open_press k cell')
unfolding tick_cell
tick_cell-Paired k now bit cell t =
    let (tied, first) = scan_cell-Paired k now bit cell t in
    let (tied', second) = timer_cell-Paired k now (scan_cell k now bit cell).0 tied in
    (tied', Paired-append k _ _ _ (scan_cell k now bit cell).1 _ first second)

run_cell-Paired_from :
    (k : ℕ) (bits : List Bool) (now : ℕ) (cell : Cell)
    → IsTied k cell
    → let (cell', es) = run_cell k now bits cell in
      Paired k (open_press k cell) es (open_press k cell')
unfolding run_cell
run_cell-Paired_from k [] now cell t = refl
run_cell-Paired_from k (bit ∷ bits) now cell t =
    let (tied, first) = tick_cell-Paired k now bit cell t in
    Paired-append k _ _ _ (tick_cell k now bit cell).1 _ first
      (run_cell-Paired_from k bits (add32 now 1) (tick_cell k now bit cell).0 tied)

-- From start-up, over any samples, what a key emits is presses and releases of that key in turn,
-- beginning with a press, and each release carries the flags of the press before it. What is open
-- at the end is what the key's state says: a slot key has an open press exactly once its long press
-- has been emitted, any other exactly while it is down.
pub run_cell-Paired :
    (k now : ℕ) (bits : List Bool)
    → let (cell, es) = run_cell k now bits fresh_cell in Paired k none es (open_press k cell)
run_cell-Paired k now bits =
    subst
      (λ from.
        Paired k from (run_cell k now bits fresh_cell).1
          (open_press k (run_cell k now bits fresh_cell).0))
      closed (run_cell-Paired_from k bits now fresh_cell (λ d. refl))
  where
    closed : open_press k fresh_cell ≡ none
    closed = ground arith
