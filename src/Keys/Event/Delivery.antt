-- ===== src/Keys/Event/Delivery.antt =====
-- What the main queue delivers over any sequence of calls, and what the counters count.
use mathlib.Core.List.{append_assoc, append-nil}
use native.Mathlib.Decide.{dec_lt}
use mokya_lora.Prelude.{
  ℕ, ◌≡◌, refl, sym, ap, ◌∙◌, Bool, Option, none, some, List, [], ◌∷◌, ◌++◌, arith, ◌%◌, length,
}
use mokya_lora.Keys.Queue.{QueueApi}
use mokya_lora.Keys.Event.{
  Event, State, Result, ok, hw, inject, push_on, push_hw_flags, push_inject_flags, pop, view_pop,
  receive_from, hw_pressed_set,
}
use mokya_lora.Keys.Event.Run.{Call, from_hw, from_inject, take, view_take, step, run}

abbrev hw_event : ℕ → Bool → ℕ → Event
hw_event k p f = record { keycode = k; pressed = p; source = hw; flags = f % 0x40 }

abbrev inject_event : ℕ → Bool → ℕ → Event
inject_event k p f = record { keycode = k; pressed = p; source = inject; flags = f % 0x40 }

-- the event, if the call returned `KEY_EVENT_OK`
abbrev if_ok : Result → Event → List Event
if_ok ok e = e ∷ []
if_ok _ e = []

abbrev popped : Option Event → List Event
popped none = []
popped (some e) = e ∷ []

module _ (api : QueueApi Event) where
  open api use {
    Queue, contents, depth, send, receive, send-room, send-full, receive-empty, receive-front,
  }

  abbrev pub waiting : Option Queue → List Event
  waiting none = []
  waiting (some q) = contents q

  -- what a call puts into the main queue, and what it takes out
  unfoldable pub accepted_by : State Queue → Call → List Event
  accepted_by s (from_hw k p f) = if_ok (push_hw_flags api s k p f).0 (hw_event k p f)
  accepted_by s (from_inject k p f) = if_ok (push_inject_flags api s k p f).0 (inject_event k p f)
  accepted_by s take = []
  accepted_by s view_take = []

  unfoldable pub taken_by : State Queue → Call → List Event
  taken_by s take = popped (pop api s).0
  taken_by s c = []

  unfoldable pub accepted : State Queue → List Call → List Event
  accepted s [] = []
  accepted s (c ∷ cs) = accepted_by s c ++ accepted (step api s c) cs

  unfoldable pub taken : State Queue → List Call → List Event
  taken s [] = []
  taken s (c ∷ cs) = taken_by s c ++ taken (step api s c) cs

  push_on-waiting :
      (o : Option Queue) (s : State Queue) (e : Event)
      → s.queue ≡ o
      → waiting (push_on api o s e).1.queue ≡ waiting o ++ if_ok (push_on api o s e).0 e
  push_on-waiting none s e h = rw h
  push_on-waiting (some q) s e h = elim (dec_lt (length (contents q)) (depth q)) [
    | yes p ↦ (let (q', sent, grown, same) = send-room q e p in ground arith)
    | no p ↦ ground (arith, send-full q e (omega arith), append-nil (contents q))
  ]

  receive_from-waiting :
      (o : Option Queue)
      → waiting o ≡ popped (receive_from api o).0 ++ waiting (receive_from api o).1
  receive_from-waiting none = refl
  receive_from-waiting (some q) = go (contents q) refl
    where
      go :
          (l : List Event)
          → contents q ≡ l
          → contents q
            ≡ popped (receive_from api (some q)).0 ++ waiting (receive_from api (some q)).1
      go [] e = ground (arith, receive-empty q e)
      go (x ∷ l) e = let (q', got, left, same) = receive-front q x l e in ground arith

  push_hw-waiting :
      (s : State Queue) (k : ℕ) (p : Bool) (f : ℕ)
      → waiting (push_hw_flags api s k p f).1.queue
        ≡ waiting s.queue ++ if_ok (push_hw_flags api s k p f).0 (hw_event k p f)
  unfolding push_hw_flags
  push_hw-waiting s k p f = ground (
    arith,
    push_on-waiting s.queue (record s { hw_pressed = hw_pressed_set s.hw_pressed k p })
        (hw_event k p f) refl,
    append-nil (waiting s.queue),
  )

  push_inject-waiting :
      (s : State Queue) (k : ℕ) (p : Bool) (f : ℕ)
      → waiting (push_inject_flags api s k p f).1.queue
        ≡ waiting s.queue ++ if_ok (push_inject_flags api s k p f).0 (inject_event k p f)
  unfolding push_inject_flags
  push_inject-waiting s k p f =
      ground
        (arith, push_on-waiting s.queue s (inject_event k p f) refl, append-nil (waiting s.queue))

  step-waiting :
      (s : State Queue) (c : Call)
      → waiting s.queue ++ accepted_by s c ≡ taken_by s c ++ waiting (step api s c).queue
  unfolding accepted_by taken_by step pop view_pop
  step-waiting s (from_hw k p f) = sym (push_hw-waiting s k p f)
  step-waiting s (from_inject k p f) = sym (push_inject-waiting s k p f)
  step-waiting s take = append-nil (waiting s.queue) ∙ receive_from-waiting s.queue
  step-waiting s view_take = append-nil (waiting s.queue)

  -- Over any calls of the tasks, what the consumer takes from the main queue is, in order, what
  -- waited there before and what the producers were told was accepted, up to what still waits. The
  -- view's calls and its copies make no difference to it.
  pub taken-append-waiting :
      (cs : List Call) (s : State Queue)
      → waiting s.queue ++ accepted s cs ≡ taken s cs ++ waiting (run api s cs).queue
  unfolding accepted taken run
  taken-append-waiting [] s = append-nil (waiting s.queue)
  taken-append-waiting (c ∷ cs) s =
      sym (append_assoc (waiting s.queue) (accepted_by s c) (accepted (step api s c) cs))
      ∙ ap (λ l. l ++ accepted (step api s c) cs) (step-waiting s c)
      ∙ append_assoc (taken_by s c) (waiting (step api s c).queue) (accepted (step api s c) cs)
      ∙ ap (λ l. taken_by s c ++ l) (taken-append-waiting cs (step api s c))
      ∙ sym (append_assoc (taken_by s c) (taken (step api s c) cs) _)
