-- ===== src/Keys/Tests.antt =====
-- Runs of the keypad code, and its properties at concrete inputs.
use mokya_lora.Keys.Inject.{Buf, read_bytes}
use mokya_lora.Keys.Inject.Rtt.{KeyCommand, inject_all, read_bytes-commands}
use mokya_lora.Keys.Scan.Matrix.{read_row, round, fresh_matrix}
use mokya_lora.Keys.Scan.Matrix.Rounds.{IsRow, AllRows, Ticked, round-Ticked}
use mokya_lora.Prelude.{
  ℕ, map, u32, ◌%◌, ◌≡◌, ◌↔◌, refl, true, false, none, List, [], ◌∷◌, ◌++◌, length, replicate,
  arith,
}
use mokya_lora.Keys.Code.{keycode_valid, mode_key, long_press_flag}
use mokya_lora.Keys.Queue.{QueueApi, Bounded, list_queue}
use mokya_lora.Keys.Event.{Event, State, busy, init, hw_pressed_test, push_inject_flags}
use mokya_lora.Keys.Event.Run.{Call, from_hw, from_inject, take, run, held, busy_iff_held}
use mokya_lora.Keys.Event.Delivery.{waiting, accepted, taken, taken-append-waiting}
use mokya_lora.Keys.Frame.{Parser, Frame, st_payload, push, reset, encode}
use mokya_lora.Keys.Frame.RoundTrip.{Piece, noise, frame, wire, IsWaiting, push-wire}
use mokya_lora.Keys.Frame.Sound.{Splits, push-Splits}
use mokya_lora.Keys.Scan.{
  emit, fresh_cell, run_cell, lp_idle, keycode_defers_press, tick_cell, scan_cell, commits, track,
  commit_key, timer_cell,
}
use mokya_lora.Keys.Scan.Debounce.{after, stable-after}
use mokya_lora.Keys.Scan.Pairing.{Paired, open_press, run_cell-Paired}
use mokya_lora.Keys.Scan.Timer.{gesture}

abbrev api : QueueApi Event
api = list_queue Event

-- before the scheduler runs
abbrev boot : State (Bounded Event)
boot = record {
  queue = none;
  view_queue = none;
  hw_pressed = 0;
  pushed = 0;
  dropped = 0;
  rejected = 0;
  log = replicate 16 0;
  log_idx = 0;
}

-- the Mode key goes down on the keypad, an injected release of it comes, the consumer takes one
abbrev calls : List Call
calls = from_hw mode_key true 0 ∷ from_inject mode_key false 0 ∷ take ∷ []

busy_iff_held_example :
    ((push_inject_flags api (run api (init api boot) calls) mode_key true 0).0 ≡ busy)
    ↔ ((keycode_valid mode_key ≡ true) × (true ≡ true) × (held mode_key false calls ≡ true))
busy_iff_held_example = busy_iff_held api boot calls mode_key true 0

taken-append-waiting_example :
    waiting api (init api boot).queue ++ accepted api (init api boot) calls
    ≡ taken api (init api boot) calls ++ waiting api (run api (init api boot) calls).queue
taken-append-waiting_example = taken-append-waiting api calls (init api boot)

abbrev parser : Parser
parser = reset (record { phase = st_payload; type = 1; len = 3; idx = 2; payload = replicate 16 0 })

abbrev press_ok : Frame
press_ok = record { type = 1; payload = 5 ∷ 1 ∷ 0 ∷ [] }

abbrev pieces : List Piece
pieces = noise (0x55 ∷ 0x00 ∷ []) ∷ frame press_ok ∷ noise (13 ∷ []) ∷ frame press_ok ∷ []

parser-IsWaiting : IsWaiting parser
unfolding reset
parser-IsWaiting = (refl, refl)

push-wire_example :
    ((push parser (wire pieces)).1 ≡ press_ok ∷ press_ok ∷ [])
    × IsWaiting (push parser (wire pieces)).0
push-wire_example =
    push-wire pieces parser parser-IsWaiting
      ((omega arith, (omega arith, tt)), (omega arith, ((omega arith, tt), (omega arith, tt))))

-- a start byte, cut off, and then a frame
push-Splits_example :
    Splits
      (push (reset parser) (0xAA ∷ 0x55 ∷ 0x01 ∷ encode press_ok)).1
      (0xAA ∷ 0x55 ∷ 0x01 ∷ encode press_ok)
push-Splits_example =
    push-Splits parser (0xAA ∷ 0x55 ∷ 0x01 ∷ encode press_ok) (unfold reset in refl)

-- a half key, held for half a second
gesture_example :
    let (cell, es) =
      run_cell 5 1000 (replicate 4 true ++ (replicate 98 true ++ replicate 4 false)) fresh_cell in
    (cell.stable ≡ false)
    × (cell.lp_state ≡ lp_idle)
    × (es ≡ emit 5 true long_press_flag ∷ emit 5 false long_press_flag ∷ [])
gesture_example = gesture 5 (unfold keycode_defers_press in refl) 1000 98

-- four samples that differ turn the key over
stable-after_example :
    (after mode_key length (true ∷ true ∷ true ∷ true ∷ false ∷ true ∷ [])).stable ≡ true
unfolding after tick_cell scan_cell commits track commit_key timer_cell keycode_defers_press
stable-after_example = stable-after mode_key length true (true ∷ true ∷ true ∷ false ∷ true ∷ [])

run_cell-Paired_example :
    let (cell, es) = run_cell mode_key 0 (replicate 4 true ++ replicate 5 false) fresh_cell in
    Paired mode_key none es (open_press mode_key cell)
run_cell-Paired_example = run_cell-Paired mode_key 0 (replicate 4 true ++ replicate 5 false)

-- the host has published two events, across the wrap of the indices
abbrev swd : Buf
swd = record {
  producer_idx = 1;
  consumer_idx = 0xFFFFFFFF;
  pushed = 0;
  rejected = 0;
  events = 0x05 ∷ 0 ∷ replicate 60 0 ++ (0x85 ∷ 1 ∷ []);
}

abbrev tap : List KeyCommand
tap =
    record { keycode = 5; pressed = true; flags = 1 }
    ∷ record { keycode = 5; pressed = false; flags = 1 }
    ∷ []

abbrev tap_pieces : List Piece
tap_pieces =
    noise (7 ∷ [])
    ∷ frame (record { type = 1; payload = 0x85 ∷ 1 ∷ [] })
    ∷ frame (record { type = 1; payload = 0x05 ∷ 1 ∷ [] })
    ∷ []

read_bytes-commands_example :
    let (p', c', s') =
      read_bytes api parser
        (record { frames_ok = 0; rejected = 0 })
        (init api boot)
        (wire tap_pieces) in
    let (refused, last) = inject_all api (init api boot) tap in
    IsWaiting p' × (s' ≡ last) × (c'.frames_ok % u32 ≡ 2) × (c'.rejected % u32 ≡ refused % u32)
unfolding inject_all push_inject_flags hw_pressed_test init
read_bytes-commands_example =
    read_bytes-commands api tap_pieces tap parser (record { frames_ok = 0; rejected = 0 })
      (init api boot) parser-IsWaiting ((omega arith, tt), (omega arith, (omega arith, tt)))
      ((omega arith, omega arith), ((omega arith, omega arith), tt)) refl

-- a keymap of distinct codes
abbrev keymap : List (List ℕ)
keymap =
    (1 ∷ 2 ∷ 3 ∷ 4 ∷ 5 ∷ 6 ∷ [])
    ∷ (7 ∷ 8 ∷ 9 ∷ 10 ∷ 11 ∷ 12 ∷ [])
    ∷ (13 ∷ 14 ∷ 15 ∷ 16 ∷ 17 ∷ 18 ∷ [])
    ∷ (19 ∷ 20 ∷ 21 ∷ 22 ∷ 23 ∷ 24 ∷ [])
    ∷ (25 ∷ 26 ∷ 27 ∷ 28 ∷ 29 ∷ 30 ∷ [])
    ∷ (31 ∷ 32 ∷ 33 ∷ 34 ∷ 35 ∷ 0 ∷ [])
    ∷ []

-- the first key of the second row is down
abbrev readings : List ℕ
readings = 63 ∷ 62 ∷ 63 ∷ 63 ∷ 63 ∷ 63 ∷ []

fresh-IsRow :
    (ks : List ℕ)
    → length ks ≡ 6
    → IsRow ks (record { cells = replicate 6 fresh_cell; snapshot = 0; stable = 0 })
fresh-IsRow ks h = record {
  keys = h;
  columns = refl;
  size = omega arith;
  shows = (refl, (refl, (refl, (refl, (refl, (refl, tt))))));
}

fresh_matrix-AllRows : AllRows keymap fresh_matrix.rows
fresh_matrix-AllRows = (
  fresh-IsRow _ refl,
  (
    fresh-IsRow _ refl,
    (fresh-IsRow _ refl, (fresh-IsRow _ refl, (fresh-IsRow _ refl, (fresh-IsRow _ refl, tt)))),
  ),
)

round-Ticked_example :
    let m = (round keymap readings fresh_matrix).0 in
    Ticked 0 (map read_row readings) keymap fresh_matrix.rows m.rows
    × AllRows keymap m.rows
    × (m.tick ≡ 1)
round-Ticked_example = round-Ticked keymap readings fresh_matrix fresh_matrix-AllRows refl
