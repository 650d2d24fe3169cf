-- ===== src/Keys/Scan/Slot.antt =====
-- The two passes for a slot key, and what each kind of round does to it.
use mokya_lora.Prelude.{
  ℕ, ◌+◌, ◌<◌, ◌≡◌, refl, ap, ◌∙◌, Bool, true, false, not, ◌&&◌, ◌==◌, List, [], ◌∷◌, ◌++◌, leb,
  if◌then◌else◌, arith, add32, sub32, u32,
}
use mokya_lora.Keys.Code.{none_key, long_press_flag}
use mokya_lora.Keys.Scan.{
  Cell, Emit, LpState, lp_idle, lp_press_pending, lp_long_emitted, keycode_defers_press, commits,
  track, scan_cell, commit_key, timer_cell, tick_cell, emit, long_press_ticks, is_pending,
  release_emits,
}
use mokya_lora.Keys.Scan.Pairing.{defers-ne-none}

-- the two passes, for a slot key
commit_slot : ℕ → ℕ → Bool → Cell → Cell × List Emit
commit_slot k now true cell = (record cell { lp_state = lp_press_pending; lp_press_tick = now }, [])
commit_slot k now false cell = (record cell { lp_state = lp_idle }, release_emits k cell.lp_state)

scan_slot : ℕ → ℕ → Bool → Cell → Cell × List Emit
unfolding commits track commit_slot
scan_slot k now bit cell =
    if commits cell bit
    then commit_slot k now bit (record (track cell bit) { stable = bit; count = 0 })
    else (track cell bit, [])

timer_slot : ℕ → ℕ → Cell → Cell × List Emit
timer_slot k now cell =
    if is_pending cell.lp_state && leb long_press_ticks (sub32 now cell.lp_press_tick)
    then (record cell { lp_state = lp_long_emitted }, emit k true long_press_flag ∷ [])
    else (cell, [])

pub tick_slot : ℕ → ℕ → Bool → Cell → Cell × List Emit
unfolding scan_slot timer_slot
tick_slot k now bit cell =
    let (mid, es) = scan_slot k now bit cell in
    let (cell', fs) = timer_slot k now mid in (cell', es ++ fs)

module _ (k : ℕ) (slot : keycode_defers_press k ≡ true) where
  slot-ne-none : (k == none_key) ≡ false
  slot-ne-none = defers-ne-none k slot

  commit_slot-eq :
      (now : ℕ) (bit : Bool) (cell : Cell) → commit_key k now bit cell ≡ commit_slot k now bit cell
  unfolding commit_key commit_slot
  commit_slot-eq now true cell = rw (slot-ne-none, slot)
  commit_slot-eq now false cell = rw (slot-ne-none, slot)

  scan_slot-eq :
      (now : ℕ) (bit : Bool) (cell : Cell) → scan_cell k now bit cell ≡ scan_slot k now bit cell
  unfolding scan_cell scan_slot
  scan_slot-eq now bit cell =
      rw (commit_slot-eq now bit (record (track cell bit) { stable = bit; count = 0 }))

  timer_slot-eq : (now : ℕ) (cell : Cell) → timer_cell k now cell ≡ timer_slot k now cell
  unfolding timer_cell timer_slot
  timer_slot-eq now cell = rw (slot-ne-none, slot)

  pub tick_slot-eq :
      (now : ℕ) (bit : Bool) (cell : Cell) → tick_cell k now bit cell ≡ tick_slot k now bit cell
  unfolding tick_cell tick_slot
  tick_slot-eq now bit cell =
      rw (scan_slot-eq now bit cell, timer_slot-eq now (scan_slot k now bit cell).0)

-- A key that is up, with `c` samples of a press so far.
abbrev pub up : ℕ → ℕ → Cell
up p c = record {
  stable = false;
  pending = not (leb c 0);
  count = c;
  lp_state = lp_idle;
  lp_press_tick = p;
}

-- A key that is down, its press at tick `p`, with `c` samples of a release so far.
abbrev pub down : LpState → ℕ → ℕ → Cell
down lp p c = record {
  stable = true;
  pending = leb c 0;
  count = c;
  lp_state = lp;
  lp_press_tick = p;
}

abbrev pub next_count : Bool → ℕ → ℕ
next_count true c = 0
next_count false c = c + 1

-- the long-press state behind a round in which the press is `age` ticks old, and what it emits
abbrev pub aged : ℕ → LpState
aged age = if leb long_press_ticks age then lp_long_emitted else lp_press_pending

abbrev pub long_emit : ℕ → ℕ → List Emit
long_emit k age = if leb long_press_ticks age then emit k true long_press_flag ∷ [] else []

module _ (k now p : ℕ) where
  pub tick-up : (c : ℕ) → c < 3 → tick_slot k now true (up p c) ≡ (up p (c + 1), [])
  unfolding tick_slot
  tick-up c h = ground arith

  pub tick-press : tick_slot k now true (up p 3) ≡ (down lp_press_pending now 0, [])
  unfolding tick_slot
  tick-press = ground arith

  -- rounds that commit nothing
  pub tick-pending :
      (bit : Bool) (c : ℕ)
      → c < 3
      → tick_slot k now bit (down lp_press_pending p c)
        ≡ (down (aged (sub32 now p)) p (next_count bit c), long_emit k (sub32 now p))
  unfolding tick_slot
  tick-pending true c h = ground arith
  tick-pending false c h = ground arith

  pub tick-long :
      (bit : Bool) (c : ℕ)
      → c < 3
      → tick_slot k now bit (down lp_long_emitted p c)
        ≡ (down lp_long_emitted p (next_count bit c), [])
  unfolding tick_slot
  tick-long true c h = ground arith
  tick-long false c h = ground arith

  -- the fourth sample of a release
  pub tick-release :
      (lp : LpState) → tick_slot k now false (down lp p 3) ≡ (up p 0, release_emits k lp)
  unfolding tick_slot
  tick-release lp_idle = refl
  tick-release lp_press_pending = refl
  tick-release lp_long_emitted = refl

module _ (k p : ℕ) (bit : Bool) (c j : ℕ) (word : p < u32) (few : c < 3) where
  pub tick-young :
      j < long_press_ticks
      → tick_slot k (add32 p j) bit (down lp_press_pending p c)
        ≡ (down lp_press_pending p (next_count bit c), [])
  tick-young h =
      tick-pending k (add32 p j) p bit c few
      ∙ ap
          (λ t. (
            down (if t then lp_long_emitted else lp_press_pending) p (next_count bit c),
            if t then emit k true long_press_flag ∷ [] else [],
          ))
          young
    where
      young : leb long_press_ticks (sub32 (add32 p j) p) ≡ false
      young = ground arith

  pub tick-old :
      j ≡ long_press_ticks
      → tick_slot k (add32 p j) bit (down lp_press_pending p c)
        ≡ (down lp_long_emitted p (next_count bit c), emit k true long_press_flag ∷ [])
  tick-old h =
      tick-pending k (add32 p j) p bit c few
      ∙ ap
          (λ t. (
            down (if t then lp_long_emitted else lp_press_pending) p (next_count bit c),
            if t then emit k true long_press_flag ∷ [] else [],
          ))
          old
    where
      old : leb long_press_ticks (sub32 (add32 p j) p) ≡ true
      old = ground arith
