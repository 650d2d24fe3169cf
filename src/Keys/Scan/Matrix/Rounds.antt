-- ===== src/Keys/Scan/Matrix/Rounds.antt =====
-- A round of the task is a round of each key.
use mokya_lora.Prelude.{
  ℕ, suc, ◌+◌, ◌<◌, ◌≡◌, refl, sym, ap, ◌∙◌, List, [], ◌∷◌, map, add32, length, arith,
}
use mokya_lora.Keys.Scan.{Cell, scan_cell, timer_cell, tick_cell}
use mokya_lora.Keys.Scan.Matrix.{
  Row, Matrix, read_row, bit_at, scan_row, scan_rows, timer_row, timer_rows, round,
}
use mokya_lora.Keys.Scan.Matrix.Rows.{Packed, scan_row-Scanned}

-- `g_kp_stable[r]` shows the debounced states of the row's keys.
pub record IsRow (ks : List ℕ) (r : Row) : Type 0 where
  pub keys : length ks ≡ length r.cells
  pub columns : length r.cells ≡ 6
  pub size : r.stable < 64
  pub shows : Packed 0 r.cells r.stable

abbrev pub AllRows : List (List ℕ) → List Row → Type 0
AllRows [] [] = Unit
AllRows [] (r ∷ rs) = ⊥
AllRows (ks ∷ keymap) [] = ⊥
AllRows (ks ∷ keymap) (r ∷ rs) = IsRow ks r × AllRows keymap rs

-- the keys of a row and of the matrix, each after its own round
abbrev pub tick_row : ℕ → ℕ → ℕ → List ℕ → List Cell → List Cell
tick_row now raw c [] xs = xs
tick_row now raw c (k ∷ ks) [] = []
tick_row now raw c (k ∷ ks) (x ∷ xs) =
    (tick_cell k now (bit_at raw c) x).0 ∷ tick_row now raw (c + 1) ks xs

abbrev pub Ticked : ℕ → List ℕ → List (List ℕ) → List Row → List Row → Type 0
Ticked now (raw ∷ raws) (ks ∷ keymap) (r ∷ rs) (r' ∷ rs') =
    (r'.cells ≡ tick_row now raw 0 ks r.cells) × (r'.snapshot ≡ raw) × Ticked now raws keymap rs rs'
Ticked now [] [] [] [] = Unit
Ticked now raws keymap rs rs' = ⊥

tick_row-timer_row :
    (now raw c : ℕ) (ks : List ℕ) (xs : List Cell) (row : ℕ)
    → (timer_row now ks (scan_row now raw c ks xs row).0).0 ≡ tick_row now raw c ks xs
unfolding timer_row scan_row tick_cell
tick_row-timer_row now raw c [] xs row = refl
tick_row-timer_row now raw c (k ∷ ks) [] row = refl
tick_row-timer_row now raw c (k ∷ ks) (x ∷ xs) row =
    ap (λ t. (timer_cell k now (scan_cell k now (bit_at raw c) x).0).0 ∷ t)
      (tick_row-timer_row now raw (c + 1) ks xs _)

stable-timer_cell : (k now : ℕ) (x : Cell) → (timer_cell k now x).0.stable ≡ x.stable
unfolding timer_cell
stable-timer_cell k now x = ground arith

Packed-timer_row :
    (now c : ℕ) (ks : List ℕ) (xs : List Cell) (row : ℕ)
    → length ks ≡ length xs
    → Packed c xs row
    → Packed c (timer_row now ks xs).0 row
unfolding timer_row
Packed-timer_row now c [] xs row h p = p
Packed-timer_row now c (k ∷ ks) [] row h p = tt
Packed-timer_row now c (k ∷ ks) (x ∷ xs) row h p = (
  p.0 ∙ sym (stable-timer_cell k now x),
  Packed-timer_row now (c + 1) ks xs row (omega (arith, h)) p.1,
)

length-tick_row :
    (now raw c : ℕ) (ks : List ℕ) (xs : List Cell) → length (tick_row now raw c ks xs) ≡ length xs
length-tick_row now raw c [] xs = refl
length-tick_row now raw c (k ∷ ks) [] = refl
length-tick_row now raw c (k ∷ ks) (x ∷ xs) = ap suc (length-tick_row now raw (c + 1) ks xs)

length-scan_row :
    (now raw c : ℕ) (ks : List ℕ) (xs : List Cell) (row : ℕ)
    → length (scan_row now raw c ks xs row).0 ≡ length xs
unfolding scan_row
length-scan_row now raw c [] xs row = refl
length-scan_row now raw c (k ∷ ks) [] row = refl
length-scan_row now raw c (k ∷ ks) (x ∷ xs) row = ap suc (length-scan_row now raw (c + 1) ks xs _)

rows-Ticked :
    (now : ℕ) (raws : List ℕ) (keymap : List (List ℕ)) (rs : List Row)
    → AllRows keymap rs
    → length raws ≡ length rs
    → let rs' = (timer_rows now keymap (scan_rows now raws keymap rs).0).0 in
      Ticked now raws keymap rs rs' × AllRows keymap rs'
unfolding timer_rows scan_rows
rows-Ticked now [] [] [] v h = (tt, tt)
rows-Ticked now (raw ∷ raws) [] [] v h = absurd (omega (arith, h))
rows-Ticked now raws [] (r ∷ rs) v h = absurd v
rows-Ticked now raws (ks ∷ keymap) [] v h = absurd v
rows-Ticked now [] (ks ∷ keymap) (r ∷ rs) v h = absurd (omega (arith, h))
rows-Ticked now (raw ∷ raws) (ks ∷ keymap) (r ∷ rs) v h =
    let (rest, all) = rows-Ticked now raws keymap rs v.1 (omega (arith, h)) in
    let s =
      scan_row-Scanned now raw 0 ks r.cells r.stable (v.0.size) (v.0.keys)
        (omega (arith, v.0.columns)) (v.0.shows) in
    let same = tick_row-timer_row now raw 0 ks r.cells r.stable in
    let len = ap length same ∙ length-tick_row now raw 0 ks r.cells in
    (
      (same, refl, rest),
      (
        record {
          keys = omega (arith, v.0.keys, len);
          columns = omega (arith, v.0.columns, len);
          size = s.size;
          shows =
              Packed-timer_row now 0 ks (scan_row now raw 0 ks r.cells r.stable).0 _
                (omega (arith, v.0.keys, length-scan_row now raw 0 ks r.cells r.stable)) s.packed;
        },
        all,
      ),
    )

-- A round of `keypad_scan_task` does to each of the 36 keys, at the tick of the round and with the
-- key's bit of the inverted reading, what the key's own two passes do, whatever the other keys do;
-- each row's snapshot is its reading. If bit `c` of each byte of `g_kp_stable` was the debounced
-- state of key `c` of its row before, it is so afterwards, with no other bit set.
pub round-Ticked :
    (keymap : List (List ℕ)) (ring : List ℕ) (m : Matrix)
    → AllRows keymap m.rows
    → length (map read_row ring) ≡ length m.rows
    → let m' = (round keymap ring m).0 in
      Ticked m.tick (map read_row ring) keymap m.rows m'.rows
      × AllRows keymap m'.rows
      × (m'.tick ≡ add32 m.tick 1)
unfolding round
round-Ticked keymap ring m v h =
    let (t, a) = rows-Ticked m.tick (map read_row ring) keymap m.rows v h in (t, a, refl)
