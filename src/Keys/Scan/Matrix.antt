-- ===== src/Keys/Scan/Matrix.antt =====
-- A whole round of `keypad_scan_task`: six rows of six keys, with `g_kp_stable`, and the calls of
-- key_event.c. The keymap is an argument, and so is what `keypad_read` finds in the DMA's ring.
pub mod Rows
pub mod Rounds
use mokya_lora.Prelude.{
  ℕ, ◌+◌, ◌-◌, ◌/◌, ◌%◌, ◌^◌, Bool, true, false, List, [], ◌∷◌, ◌++◌, map, replicate, add32, ◌==◌,
  if◌then◌else◌, bit_and, bit_or,
}
use mokya_lora.Keys.Queue.{QueueApi}
use mokya_lora.Keys.Event.{Event, State, push_hw_flags}
use mokya_lora.Keys.Scan.{Cell, Emit, fresh_cell, commits, scan_cell, timer_cell}

-- a row of the five arrays, with `g_kp_snapshot[r]` and `g_kp_stable[r]`
pub record Row : Type 0 where
  pub cells : List Cell
  pub snapshot : ℕ
  pub stable : ℕ

-- `rows` and `g_kp_scan_tick`
pub record Matrix : Type 0 where
  pub rows : List Row
  pub tick : ℕ

-- the statics of the task start as zeros
abbrev pub fresh_matrix : Matrix
fresh_matrix = record {
  rows = replicate 6 (record { cells = replicate 6 fresh_cell; snapshot = 0; stable = 0 });
  tick = 0;
}

-- one byte of `keypad_read`: the ring's bits are 0 for a key that is down
abbrev pub read_row : ℕ → ℕ
read_row ring = bit_and (255 - ring) 0x3F

-- `(raw[r] >> c) & 1`
abbrev pub bit_at : ℕ → ℕ → Bool
bit_at raw c = raw / 2 ^ c % 2 == 1

-- the update of `stable_row` at a commit
unfoldable pub put_bit : ℕ → ℕ → Bool → ℕ
put_bit row c bit = if bit then bit_or row (2 ^ c) else bit_and row (255 - 2 ^ c)

-- the loop over the columns from `c` on: the keys, `stable_row` and the calls
unfoldable pub scan_row : ℕ → ℕ → ℕ → List ℕ → List Cell → ℕ → List Cell × ℕ × List Emit
unfolding commits
scan_row now raw c [] cells row = (cells, row, [])
scan_row now raw c (k ∷ ks) [] row = ([], row, [])
scan_row now raw c (k ∷ ks) (x ∷ xs) row =
    let bit = bit_at raw c in
    let (x', es) = scan_cell k now bit x in
    let (xs', row', fs) =
      scan_row now raw (c + 1) ks xs (if commits x bit then put_bit row c bit else row) in
    (x' ∷ xs', row', es ++ fs)

-- the row pass
unfoldable pub scan_rows : ℕ → List ℕ → List (List ℕ) → List Row → List Row × List Emit
scan_rows now (raw ∷ raws) (ks ∷ keymap) (r ∷ rs) =
    let (cells, stable, es) = scan_row now raw 0 ks r.cells r.stable in
    let (rs', fs) = scan_rows now raws keymap rs in
    (record { cells = cells; snapshot = raw; stable = stable } ∷ rs', es ++ fs)
scan_rows now raws keymap rs = (rs, [])

-- the long-press pass over a row, and over all
unfoldable pub timer_row : ℕ → List ℕ → List Cell → List Cell × List Emit
timer_row now [] cells = (cells, [])
timer_row now (k ∷ ks) [] = ([], [])
timer_row now (k ∷ ks) (x ∷ xs) =
    let (x', es) = timer_cell k now x in let (xs', fs) = timer_row now ks xs in (x' ∷ xs', es ++ fs)

unfoldable pub timer_rows : ℕ → List (List ℕ) → List Row → List Row × List Emit
timer_rows now [] rs = (rs, [])
timer_rows now (ks ∷ keymap) [] = ([], [])
timer_rows now (ks ∷ keymap) (r ∷ rs) =
    let (cells, es) = timer_row now ks r.cells in
    let (rs', fs) = timer_rows now keymap rs in (record r { cells = cells } ∷ rs', es ++ fs)

-- a round of the loop, but for the wait: the matrix and the calls of key_event.c, in order
unfoldable pub round : List (List ℕ) → List ℕ → Matrix → Matrix × List Emit
round keymap ring m =
    let (mid, es) = scan_rows m.tick (map read_row ring) keymap m.rows in
    let (rows, fs) = timer_rows m.tick keymap mid in
    (record { rows = rows; tick = add32 m.tick 1 }, es ++ fs)

-- the calls, on key_event.c
unfoldable pub push_all : (api : QueueApi Event) → List Emit → State (api.Queue) → State (api.Queue)
push_all api [] s = s
push_all api (e ∷ es) s = push_all api es (push_hw_flags api s e.keycode e.pressed e.flags).1
