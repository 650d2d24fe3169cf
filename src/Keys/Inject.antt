-- ===== src/Keys/Inject.antt =====
-- firmware/core1/src/keypad/key_inject.c and key_inject_rtt.c: the two ways a host injects keys.
-- The host writes the SWD ring and the RTT channel; what stands there is an argument.
pub mod Swd
pub mod Rtt
use mokya_lora.Prelude.{
  ℕ, zero, suc, ◌+◌, ◌*◌, ◌/◌, ◌%◌, Bool, true, false, ◌&&◌, not, List, [], ◌∷◌, ltb, leb, ◌==◌,
  if◌then◌else◌, get_or, add32, sub32,
}
use mokya_lora.Keys.Code.{mode_key}
use mokya_lora.Keys.Queue.{QueueApi}
use mokya_lora.Keys.Event.{Event, State, Result, ok, push_inject_flags}
use mokya_lora.Keys.Frame.{Parser, Frame, push}

-- `KEY_INJECT_RING_EVENTS`, `KEY_INJECT_MODE_SWD` and `KEY_INJECT_MODE_RTT`
abbrev pub ring_events : ℕ
ring_events = 32

abbrev pub mode_swd : ℕ
mode_swd = 0

abbrev pub mode_rtt : ℕ
mode_rtt = 1

-- `key_inject_buf_t`, but for the magic number that the task writes once
pub record Buf : Type 0 where
  pub producer_idx : ℕ
  pub consumer_idx : ℕ
  pub pushed : ℕ
  pub rejected : ℕ
  pub events : List ℕ

-- `ev & 0x7F`, and `(ev & 0x80) ? 1 : 0`
abbrev pub key_of : ℕ → ℕ
key_of ev = ev % 0x80

abbrev pub pressed_of : ℕ → Bool
pressed_of ev = ev / 0x80 % 2 == 1

abbrev pub in_range : ℕ → Bool
in_range k = leb 0x01 k && ltb k 0x40

abbrev pub is_ok : Result → Bool
is_ok ok = true
is_ok _ = false

-- `s_rtt_frames_ok` and `s_rtt_rejected`
pub record Counters : Type 0 where
  pub frames_ok : ℕ
  pub rejected : ℕ

abbrev pub reject_unless : Bool → Counters → Counters
reject_unless b c = record c { rejected = if b then c.rejected else add32 c.rejected 1 }

abbrev pub count_event : Bool → Buf → Buf
count_event b buf = record buf {
  pushed = if b then add32 buf.pushed 1 else buf.pushed;
  rejected = if b then buf.rejected else add32 buf.rejected 1;
  consumer_idx = add32 buf.consumer_idx 1;
}

abbrev pub event_at : List ℕ → ℕ → ℕ × ℕ
event_at events k =
    (get_or events (k % ring_events * 2 + 0) 0, get_or events (k % ring_events * 2 + 1) 0)

module _ (api : QueueApi Event) where
  open api use {Queue}

  -- Both transports forward an event byte and its flags, if the key is in range.
  unfoldable pub forward : State Queue → ℕ → ℕ → Bool × State Queue
  forward s ev flags =
      let (r, s') = push_inject_flags api s (key_of ev) (pressed_of ev) flags in
      if in_range (key_of ev) then (is_ok r, s') else (false, s)

  -- one round of the inner loop of `key_inject_task_fn`
  unfoldable pub consume : Buf → State Queue → Buf × State Queue
  consume b s =
      let (ev, flags) = event_at b.events b.consumer_idx in
      let (done, s') = forward s ev flags in (count_event done b, s')

  -- that loop, on fuel
  unfoldable pub drain : ℕ → ℕ → Buf → State Queue → Buf × State Queue
  drain zero prod b s = (b, s)
  drain (suc n) prod b s =
      let (b', s') = consume b s in
      let rest = drain n prod b' s' in if b.consumer_idx == prod then (b, s) else rest

  -- One round of the outer loop under the transport that is selected. The fuel is the number of
  -- steps from `consumer_idx` to `producer_idx`.
  unfoldable pub poll : ℕ → Buf → State Queue → Buf × State Queue
  poll mode b s =
      if mode == mode_swd
      then drain (sub32 b.producer_idx b.consumer_idx) b.producer_idx b s
      else (b, s)

  -- `on_frame` on a frame of type `MOKYA_KIJ_TYPE_KEY_EVENT`
  unfoldable pub on_key_event : Counters → State Queue → List ℕ → Counters × State Queue
  on_key_event c s (ev ∷ flags ∷ []) =
      let (done, s') = forward s ev flags in (reject_unless done c, s')
  on_key_event c s _ = (reject_unless false c, s)

  abbrev pub cycle_mode : State Queue → State Queue
  cycle_mode s =
      (push_inject_flags api (push_inject_flags api s mode_key true 0).1 mode_key false 0).1

  -- `on_frame` of key_inject_rtt.c
  unfoldable pub on_frame : Counters → State Queue → Frame → Counters × State Queue
  on_frame c s f =
      let c' = record c { frames_ok = add32 c.frames_ok 1 } in
      if f.type == 1
      then on_key_event c' s f.payload
      else if f.type == 2
      then (c', cycle_mode s)
      else if f.type == 3
      then (c', s)
      else (reject_unless false c', s)

  unfoldable pub on_frames : Counters → State Queue → List Frame → Counters × State Queue
  on_frames c s [] = (c, s)
  on_frames c s (f ∷ fs) = let (c', s') = on_frame c s f in on_frames c' s' fs

  -- What the bytes of one read do: the parser calls `on_frame` at each frame.
  unfoldable pub read_bytes :
      Parser → Counters → State Queue → List ℕ → Parser × Counters × State Queue
  read_bytes p c s bytes =
      let (p', fs) = push p bytes in let (c', s') = on_frames c s fs in (p', c', s')
