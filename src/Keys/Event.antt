-- ===== src/Keys/Event.antt =====
-- firmware/core1/src/keypad/key_event.c: two producers, the hardware's precedence, and two queues.
-- The queues are FreeRTOS's, a parameter. Each call is taken as one step, although the critical
-- section in it covers the bitmap alone.
pub mod Arbitration
pub mod Run
pub mod Delivery
use mokya_lora.Prelude.{
  ℕ, ◌+◌, ◌-◌, ◌%◌, ◌^◌, Bool, true, false, ◌&&◌, not, Option, none, some, List, [], ◌∷◌, set,
  add32, bit_and, bit_or, ◌==◌, if◌then◌else◌, replicate,
}
use mokya_lora.Keys.Code.{keycode_valid}
use mokya_lora.Keys.Queue.{QueueApi}

pub data Source : Type 0 where
  hw inject : Source

-- `key_event_t`
pub record Event : Type 0 where
  pub keycode : ℕ
  pub pressed : Bool
  pub source : Source
  pub flags : ℕ

-- `key_event_result_t`
pub data Result : Type 0 where
  ok not_ready queue_full busy bad_key : Result

-- the module's statics; `none` is a queue handle that is `NULL`
pub record State (Q : Type 0) : Type 0 where
  pub queue : Option Q
  pub view_queue : Option Q
  pub hw_pressed : ℕ
  pub pushed : ℕ
  pub dropped : ℕ
  pub rejected : ℕ
  pub log : List ℕ
  pub log_idx : ℕ

-- `KEY_EVENT_LOG_DEPTH`, `KEY_EVENT_QUEUE_DEPTH` and `KEY_EVENT_VIEW_QUEUE_DEPTH`
abbrev pub log_depth : ℕ
log_depth = 16

abbrev pub queue_depth : ℕ
queue_depth = 16

-- `keycode_bit`
abbrev pub keycode_bit : ℕ → ℕ
keycode_bit k = 2 ^ k

-- `hw_pressed_set` on the 64-bit mask
unfoldable pub hw_pressed_set : ℕ → ℕ → Bool → ℕ
hw_pressed_set mask k pressed =
    if pressed then bit_or mask (keycode_bit k) else bit_and mask (2 ^ 64 - 1 - keycode_bit k)

-- `hw_pressed_test`
unfoldable pub hw_pressed_test : ℕ → ℕ → Bool
hw_pressed_test mask k = not (bit_and mask (keycode_bit k) == 0)

-- the byte that the log ring keeps of an event
abbrev pub log_byte : Event → ℕ
log_byte e = (if e.pressed then 0x80 else 0) + e.keycode % 0x80

module _ (api : QueueApi Event) where
  open api use {Queue, create, send, receive}

  -- `key_event_init`; the log ring keeps what it held
  unfoldable pub init : State Queue → State Queue
  init s = record s {
    queue = create queue_depth;
    view_queue = create queue_depth;
    hw_pressed = 0;
    pushed = 0;
    dropped = 0;
    rejected = 0;
  }

  -- A copy for the view, if it has a queue with room.
  abbrev pub fan_out : Option Queue → Event → Option Queue
  fan_out none e = none
  fan_out (some q) e = elim (send q e) [ none ↦ some q | some q' ↦ some q' ]

  -- the end of `push_locked`, once the main queue has the event
  abbrev pub record_push : State Queue → Queue → Event → State Queue
  record_push s q e = record s {
    queue = some q;
    view_queue = fan_out s.view_queue e;
    log = set s.log (s.log_idx % log_depth) (log_byte e);
    log_idx = add32 s.log_idx 1;
    pushed = add32 s.pushed 1;
  }

  abbrev pub push_on : Option Queue → State Queue → Event → Result × State Queue
  push_on none s e = (not_ready, s)
  push_on (some q) s e = elim (send q e) [
    | none ↦ (queue_full, record s { dropped = add32 s.dropped 1 })
    | some q' ↦ (ok, record_push s q' e)
  ]

  unfoldable pub push_locked : State Queue → Event → Result × State Queue
  push_locked s e = push_on s.queue s e

  -- `key_event_push_hw_flags`
  unfoldable pub push_hw_flags : State Queue → ℕ → Bool → ℕ → Result × State Queue
  unfolding keycode_valid push_locked
  push_hw_flags s k pressed flags =
      if not (keycode_valid k)
      then (bad_key, s)
      else push_locked (record s { hw_pressed = hw_pressed_set s.hw_pressed k pressed })
          (record { keycode = k; pressed = pressed; source = hw; flags = flags % 0x40 })

  -- `key_event_push_inject_flags`
  unfoldable pub push_inject_flags : State Queue → ℕ → Bool → ℕ → Result × State Queue
  unfolding keycode_valid push_locked
  push_inject_flags s k pressed flags =
      if not (keycode_valid k)
      then (bad_key, s)
      else if pressed && hw_pressed_test s.hw_pressed k
      then (busy, record s { rejected = add32 s.rejected 1 })
      else push_locked s
          (record { keycode = k; pressed = pressed; source = inject; flags = flags % 0x40 })

  -- `key_event_push_hw` and `key_event_push_inject`
  unfoldable pub push_hw : State Queue → ℕ → Bool → Result × State Queue
  push_hw s k pressed = push_hw_flags s k pressed 0

  unfoldable pub push_inject : State Queue → ℕ → Bool → Result × State Queue
  push_inject s k pressed = push_inject_flags s k pressed 0

  -- what `key_event_pop` and `key_event_view_pop` do to their queue
  abbrev pub receive_from : Option Queue → Option Event × Option Queue
  receive_from none = (none, none)
  receive_from (some q) = elim (receive q) [
    | none ↦ (none, some q)
    | some (e, q') ↦ (some e, some q')
  ]

  -- `key_event_pop`, with an `out` that is not `NULL`; `none` is `false`
  unfoldable pub pop : State Queue → Option Event × State Queue
  pop s = let (e, q) = receive_from s.queue in (e, record s { queue = q })

  -- `key_event_view_pop`
  unfoldable pub view_pop : State Queue → Option Event × State Queue
  view_pop s = let (e, q) = receive_from s.view_queue in (e, record s { view_queue = q })
