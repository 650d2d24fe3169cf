-- ===== src/Keys/Scan/Debounce.antt =====
-- When the debounced state of a key changes.
use mokya_lora.Prelude.{ℕ, ◌+◌, ◌<◌, ◌≡◌, Bool, not, List, [], ◌∷◌, leb, if◌then◌else◌, arith}
use mokya_lora.Keys.Scan.{
  Cell, fresh_cell, debounce_threshold, same, track, commits, scan_cell, timer_cell, tick_cell,
}

-- how many of the newest samples, the newest first, are `b`
abbrev pub streak : Bool → List Bool → ℕ
streak b [] = 0
streak b (x ∷ xs) = if same x b then streak b xs + 1 else 0

module _ (k : ℕ) (ticks : List Bool → ℕ) where
  -- the key after the samples, the newest first, each at its own tick
  unfoldable pub after : List Bool → Cell
  after [] = fresh_cell
  after (b ∷ bs) = (tick_cell k (ticks bs) b (after bs)).0

-- What the two passes leave of the fields that debouncing uses.
record Debounced (old new : Cell) (bit : Bool) : Type 0 where
  stable : new.stable ≡ (if commits old bit then bit else old.stable)
  pending : new.pending ≡ (track old bit).pending
  count : new.count ≡ (if commits old bit then 0 else (track old bit).count)

tick_cell-Debounced :
    (k now : ℕ) (bit : Bool) (cell : Cell) → Debounced cell (tick_cell k now bit cell).0 bit
unfolding tick_cell scan_cell timer_cell
tick_cell-Debounced k now bit cell = ground arith

-- The counter is the number of samples at the end that differ from the committed state.
record Inv (cell : Cell) (h : List Bool) : Type 0 where
  counted : cell.count ≡ streak (not cell.stable) h
  below : cell.count < debounce_threshold
  candidate : 0 < cell.count → cell.pending ≡ not cell.stable

step-Inv :
    (old new : Cell) (b : Bool) (h : List Bool) → Debounced old new b → Inv old h → Inv new (b ∷ h)
unfolding commits
step-Inv old new b h d v = ground arith

module _ (k : ℕ) (ticks : List Bool → ℕ) where
  after-Inv : (h : List Bool) → Inv (after k ticks h) h
  unfolding after
  after-Inv [] = ground arith
  after-Inv (b ∷ h) =
      step-Inv (after k ticks h) _ b h (tick_cell-Debounced k (ticks h) b (after k ticks h))
        (after-Inv h)

  -- Whatever the samples and the ticks since start-up, a sample changes the debounced state of a
  -- key exactly when it and the three before it all differ from that state.
  pub stable-after :
      (b : Bool) (h : List Bool)
      → let old = (after k ticks h).stable in
        (after k ticks (b ∷ h)).stable
        ≡ (if leb debounce_threshold (streak (not old) (b ∷ h)) then not old else old)
  unfolding after commits
  stable-after b h =
      let d = tick_cell-Debounced k (ticks h) b (after k ticks h) in
      let v = after-Inv h in ground arith
