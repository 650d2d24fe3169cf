-- ===== src/Keys/Scan.antt =====
-- firmware/core1/src/keypad/keypad_scan.c: debouncing, and the deferred press of the slot keys.
-- `raw` is what `keypad_read` delivers; the PIO and DMA set-up behind it is not modelled.
pub mod Debounce
pub mod Matrix
pub mod Pairing
pub mod Slot
pub mod Timer
use mokya_lora.Prelude.{
  ℕ, ◌+◌, ◌-◌, ◌/◌, ◌%◌, ◌^◌, Bool, true, false, not, ◌&&◌, ◌||◌, List, [], ◌∷◌, ◌++◌, add32, sub32,
  ltb, leb, ◌==◌, if◌then◌else◌, bit_and, bit_or,
}
use mokya_lora.Keys.Code.{none_key, long_press_flag}

-- `lp_state_t`
pub data LpState : Type 0 where
  lp_idle lp_press_pending lp_long_emitted : LpState

-- One key's place in the five arrays of `keypad_scan_task`; a sample is 0 or 1.
pub record Cell : Type 0 where
  pub stable : Bool
  pub pending : Bool
  pub count : ℕ
  pub lp_state : LpState
  pub lp_press_tick : ℕ

-- a call of `key_event_push_hw_flags`, or of `key_event_push_hw` with no flags
pub record Emit : Type 0 where
  pub keycode : ℕ
  pub pressed : Bool
  pub flags : ℕ

-- `KP_DEBOUNCE_THRESHOLD` and `KP_LONG_PRESS_TICKS`
abbrev pub debounce_threshold : ℕ
debounce_threshold = 4

abbrev pub long_press_ticks : ℕ
long_press_ticks = 100

abbrev pub fresh_cell : Cell
fresh_cell = record {
  stable = false;
  pending = false;
  count = 0;
  lp_state = lp_idle;
  lp_press_tick = 0;
}

-- `keycode_defers_press`: the 20 half-keys, by their codes in keycode.h
unfoldable pub keycode_defers_press : ℕ → Bool
keycode_defers_press k =
    (leb 0x01 k && leb k 0x05)
    || (leb 0x07 k && leb k 0x0B)
    || (leb 0x0D k && leb k 0x11)
    || (leb 0x13 k && leb k 0x17)

abbrev pub same : Bool → Bool → Bool
same true b = b
same false b = not b

-- the candidate that is being validated
unfoldable pub track : Cell → Bool → Cell
track cell bit =
    if same bit cell.stable
    then record cell { count = 0; pending = cell.stable }
    else if same bit cell.pending
    then record cell { count = if ltb cell.count 0xFF then cell.count + 1 else cell.count }
    else record cell { pending = bit; count = 1 }

-- the condition under which the new state is committed
unfoldable pub commits : Cell → Bool → Bool
unfolding track
commits cell bit = not (same bit cell.stable) && leb debounce_threshold (track cell bit).count

abbrev pub emit : ℕ → Bool → ℕ → Emit
emit k pressed flags = record { keycode = k; pressed = pressed; flags = flags }

-- `switch (lp_state[r][c])` at a release
abbrev pub release_emits : ℕ → LpState → List Emit
release_emits k lp_press_pending = emit k true 0 ∷ emit k false 0 ∷ []
release_emits k lp_long_emitted = emit k false long_press_flag ∷ []
release_emits k lp_idle = emit k false 0 ∷ []

-- What a committed change emits, and what it does to the long-press state.
unfoldable pub commit_key : ℕ → ℕ → Bool → Cell → Cell × List Emit
commit_key k now bit cell =
    if k == none_key
    then (cell, [])
    else if not (keycode_defers_press k)
    then (cell, emit k bit 0 ∷ [])
    else if bit
    then (record cell { lp_state = lp_press_pending; lp_press_tick = now }, [])
    else (record cell { lp_state = lp_idle }, release_emits k cell.lp_state)

-- One key in the row pass.
unfoldable pub scan_cell : ℕ → ℕ → Bool → Cell → Cell × List Emit
unfolding commits track commit_key
scan_cell k now bit cell =
    if commits cell bit
    then commit_key k now bit (record (track cell bit) { stable = bit; count = 0 })
    else (track cell bit, [])

abbrev pub is_pending : LpState → Bool
is_pending lp_press_pending = true
is_pending _ = false

-- One key in the long-press pass.
unfoldable pub timer_cell : ℕ → ℕ → Cell → Cell × List Emit
timer_cell k now cell =
    if k == none_key || not (keycode_defers_press k)
    then (cell, [])
    else if is_pending cell.lp_state && leb long_press_ticks (sub32 now cell.lp_press_tick)
    then (record cell { lp_state = lp_long_emitted }, emit k true long_press_flag ∷ [])
    else (cell, [])

-- both passes of one round, as one key sees them
unfoldable pub tick_cell : ℕ → ℕ → Bool → Cell → Cell × List Emit
tick_cell k now bit cell =
    let (mid, es) = scan_cell k now bit cell in
    let (cell', fs) = timer_cell k now mid in (cell', es ++ fs)

-- the rounds from tick `now` on
unfoldable pub run_cell : ℕ → ℕ → List Bool → Cell → Cell × List Emit
run_cell k now [] cell = (cell, [])
run_cell k now (bit ∷ bits) cell =
    let (cell', es) = tick_cell k now bit cell in
    let (last, fs) = run_cell k (add32 now 1) bits cell' in (last, es ++ fs)
