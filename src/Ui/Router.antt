-- ===== src/Ui/Router.antt =====
-- firmware/core1/src/ui/view_router.c: six views, of which one is shown and gets the key events.
-- The views and the queue of key events are parameters. A tick takes the queue as it finds it, so an
-- event that is pushed while it drains the queue counts as pushed before.
pub mod Routed
use mokya_lora.Prelude.{
  ℕ, zero, suc, ◌+◌, ◌%◌, Bool, true, false, not, ◌&&◌, Option, none, some, List, [], ◌∷◌, ◌==◌,
  if◌then◌else◌, replicate,
}
use mokya_lora.Keys.Code.{func_key}
use mokya_lora.Keys.Queue.{QueueApi}
use mokya_lora.Keys.Event.{Event, State, view_pop}

-- `VIEW_COUNT`
abbrev pub view_count : ℕ
view_count = 6

-- The views: their `init`, `apply` and `refresh` functions by their place in `s_views`, on what they
-- all keep.
pub record Views : Type 1 where
  pub Shown : Type 0
  pub init : ℕ → Shown → Shown
  pub apply : ℕ → Event → Shown → Shown
  pub refresh : ℕ → Shown → Shown

-- `s_views`, by the hidden flags of the panels, and `s_view_router_active`
pub record Router (V : Type 0) : Type 0 where
  pub hidden : List Bool
  pub active : ℕ
  pub shown : V

-- the loop of `activate` from panel `i` on
unfoldable pub hide_all_but : ℕ → ℕ → List Bool → List Bool
hide_all_but idx i [] = []
hide_all_but idx i (b ∷ l) = not (i == idx) ∷ hide_all_but idx (i + 1) l

-- whether a view has a `refresh` function
abbrev pub has_refresh : ℕ → Bool
has_refresh i = not (i == 0) && not (i == 2)

module _ (views : Views) where
  open views use {Shown, init, apply, refresh}

  -- `activate`
  abbrev pub activate : ℕ → Router Shown → Router Shown
  activate idx s = record s { hidden = hide_all_but idx 0 s.hidden; active = idx }

  -- a loop over the views, from view `i` on
  unfoldable pub for_views : ℕ → ℕ → (ℕ → Shown → Shown) → Shown → Shown
  for_views zero i f v = v
  for_views (suc n) i f v = for_views n (i + 1) f (f i v)

  -- `view_router_init`; a new panel is not hidden
  unfoldable pub init_router : Shown → Router Shown
  init_router v = activate 0 (record {
    hidden = replicate view_count false;
    active = 0;
    shown = for_views view_count 0 init v;
  })

  -- what `view_router_tick` does with an event
  abbrev pub on_event : Event → Router Shown → Router Shown
  on_event e s =
      if e.keycode == func_key && e.pressed
      then activate ((s.active + 1) % view_count) s
      else record s { shown = apply s.active e s.shown }

  abbrev pub refresh_one : ℕ → Shown → Shown
  refresh_one i v = if has_refresh i then refresh i v else v

  module _ (api : QueueApi Event) where
    open api use {Queue}

    -- `while (key_event_view_pop(&ev, 0))` on fuel; `none` means that it ran out
    unfoldable pub drain : ℕ → State Queue → Router Shown → Option (State Queue × Router Shown)
    drain zero q s = none
    drain (suc f) q s =
        let (e, q') = view_pop api q in
        elim e [ none ↦ some (q', s) | some e ↦ drain f q' (on_event e s) ]

    abbrev pub refreshed : State Queue × Router Shown → State Queue × Router Shown
    refreshed (q, s) = (q, record s { shown = for_views view_count 0 refresh_one s.shown })

    -- `view_router_tick`
    unfoldable pub tick : ℕ → State Queue → Router Shown → Option (State Queue × Router Shown)
    tick f q s = elim (drain f q s) [ none ↦ none | some r ↦ some (refreshed r) ]
