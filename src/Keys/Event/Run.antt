-- ===== src/Keys/Event/Run.antt =====
-- Sequences of calls by the tasks, and who holds which key after them.
use mokya_lora.Prelude.{
  ℕ, ◌<◌, ◌≡◌, ◌↔◌, refl, ap, ◌∙◌, Bool, true, false, ◌&&◌, Option, none, some, List, [], ◌∷◌,
  arith, ◌==◌, if◌then◌else◌, ◌%◌,
}
use mokya_lora.Keys.Code.{keycode_valid}
use mokya_lora.Keys.Queue.{QueueApi}
use mokya_lora.Keys.Event.{
  Event, State, busy, hw_pressed_test, push_on, push_hw_flags, push_inject_flags, pop, view_pop,
  inject, init,
}
use mokya_lora.Keys.Event.Arbitration.{test-zero, push_hw_flags-marks, push_inject_flags-busy}

-- a call by one of the tasks
pub data Call : Type 0 where
  from_hw : ℕ → Bool → ℕ → Call
  from_inject : ℕ → Bool → ℕ → Call
  take : Call
  view_take : Call

-- Whether the hardware holds key `k` down after the calls, if it did so before them when `b`.
unfoldable pub held : ℕ → Bool → List Call → Bool
held k b [] = b
held k b (from_hw j pressed flags ∷ cs) =
    held k (if keycode_valid j && k == j then pressed else b) cs
held k b (from_inject j pressed flags ∷ cs) = held k b cs
held k b (take ∷ cs) = held k b cs
held k b (view_take ∷ cs) = held k b cs

module _ (api : QueueApi Event) where
  open api use {
    Queue, contents, depth, send, receive, send-room, send-full, receive-empty, receive-front,
  }

  unfoldable pub step : State Queue → Call → State Queue
  step s (from_hw k pressed flags) = (push_hw_flags api s k pressed flags).1
  step s (from_inject k pressed flags) = (push_inject_flags api s k pressed flags).1
  step s take = (pop api s).1
  step s view_take = (view_pop api s).1

  unfoldable pub run : State Queue → List Call → State Queue
  run s [] = s
  run s (c ∷ cs) = run (step s c) cs

  mask-push_on :
      (o : Option Queue) (s : State Queue) (e : Event)
      → (push_on api o s e).1.hw_pressed ≡ s.hw_pressed
  mask-push_on none s e = refl
  mask-push_on (some q) s e = ground arith

  mask-push_inject_flags :
      (s : State Queue) (k : ℕ) (pressed : Bool) (flags : ℕ)
      → (push_inject_flags api s k pressed flags).1.hw_pressed ≡ s.hw_pressed
  unfolding push_inject_flags
  mask-push_inject_flags s k pressed flags = ground (
    arith,
    mask-push_on s.queue s
        (record { keycode = k; pressed = pressed; source = inject; flags = flags % 0x40 }),
  )

  run-held :
      (cs : List Call) (s : State Queue) (k : ℕ)
      → k < 64
      → hw_pressed_test (run s cs).hw_pressed k ≡ held k (hw_pressed_test s.hw_pressed k) cs
  unfolding run held step pop view_pop
  run-held [] s k h = refl
  run-held (from_hw j p f ∷ cs) s k h =
      run-held cs (step s (from_hw j p f)) k h
      ∙ ap (λ b. held k b cs) (push_hw_flags-marks api s j k p f h)
  run-held (from_inject j p f ∷ cs) s k h =
      run-held cs (step s (from_inject j p f)) k h
      ∙ ap (λ m. held k (hw_pressed_test m k) cs) (mask-push_inject_flags s j p f)
  run-held (take ∷ cs) s k h = run-held cs (step s take) k h
  run-held (view_take ∷ cs) s k h = run-held cs (step s view_take) k h

  -- After any calls since `key_event_init`, an injected event is answered `KEY_EVENT_ERR_BUSY`
  -- exactly when it is a press of a valid key whose last hardware event was a press.
  pub busy_iff_held :
      (s : State Queue) (cs : List Call) (k : ℕ) (pressed : Bool) (flags : ℕ)
      → ((push_inject_flags api (run (init api s) cs) k pressed flags).0 ≡ busy)
        ↔ ((keycode_valid k ≡ true) × (pressed ≡ true) × (held k false cs ≡ true))
  unfolding keycode_valid
  busy_iff_held s cs k pressed flags = ground (
    arith,
    push_inject_flags-busy api (run (init api s) cs) k pressed flags,
    run-held cs (init api s) k,
    nothing_held,
  )
    where
      nothing_held : hw_pressed_test (init api s).hw_pressed k ≡ false
      nothing_held = unfold init in test-zero k
