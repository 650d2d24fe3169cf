-- ===== src/Ui/Tests.antt =====
-- The router with views that write down their calls.
use mokya_lora.Prelude.{ℕ, ◌≡◌, refl, true, some, List, [], ◌∷◌, ◌++◌, replicate}
use mokya_lora.Keys.Queue.{Bounded, list_queue}
use mokya_lora.Keys.Event.{Event, State, hw}
use mokya_lora.Ui.Router.{Views, Router, init_router, tick, for_views}
use mokya_lora.Ui.Router.Routed.{IsShowing, init_router-IsShowing, tick-routed}

-- the calls of a view: its place and the key of the event, or 100 for a refresh
abbrev notes : Views
notes = record {
  Shown = List (ℕ × ℕ);
  init = λ i v. v;
  apply = λ i e v. v ++ (i, e.keycode) ∷ [];
  refresh = λ i v. v ++ (i, 100) ∷ [];
}

abbrev key : ℕ → Event
key k = record { keycode = k; pressed = true; source = hw; flags = 0 }

-- a key, FUNC and the key again
abbrev waiting : Bounded Event
waiting = record { items = key 9 ∷ key 6 ∷ key 9 ∷ []; bound = 16 }

abbrev queues : State (Bounded Event)
queues = record {
  queue = some waiting;
  view_queue = some waiting;
  hw_pressed = 0;
  pushed = 3;
  dropped = 0;
  rejected = 0;
  log = replicate 16 0;
  log_idx = 3;
}

tick-routed_example :
    (f : ℕ) × (w' : Bounded Event) × (s' : Router (List (ℕ × ℕ))) × (tick notes
        (list_queue Event)
        f
        queues
        (init_router notes [])
      ≡ some (record queues { view_queue = some w' }, s'))
    × (w'.items ≡ [])
    × IsShowing s'
    × (s'.active ≡ 1)
    × (s'.shown ≡ (0, 9) ∷ (1, 9) ∷ (1, 100) ∷ (3, 100) ∷ (4, 100) ∷ (5, 100) ∷ [])
unfolding init_router for_views
tick-routed_example =
    tick-routed notes (list_queue Event) (key 9 ∷ key 6 ∷ key 9 ∷ []) queues waiting
      (init_router notes []) refl refl (init_router-IsShowing notes [])
