-- ===== src/Ui/Router/Routed.antt =====
-- Each key event goes once, in order, to the view that is active then, and only that one is shown.
use mokya_lora.Prelude.{
  ℕ, zero, suc, ◌+◌, ◌%◌, ◌<◌, ◌≡◌, refl, ap, ap₂, ◌∙◌, Bool, true, false, not, ◌&&◌, none, some,
  List, [], ◌∷◌, ◌==◌, if◌then◌else◌, length, get_or, replicate, arith, Bool-cases, inl, inr,
}
use mokya_lora.Keys.Code.{func_key}
use mokya_lora.Keys.Queue.{QueueApi}
use mokya_lora.Keys.Event.{Event, State, view_pop}
use mokya_lora.Ui.Router.{
  Views, Router, hide_all_but, activate, on_event, drain, tick, view_count, for_views, refresh_one,
  refreshed, init_router,
}

abbrev pub is_switch : Event → Bool
is_switch e = e.keycode == func_key && e.pressed

abbrev pub switches : List Event → ℕ
switches [] = 0
switches (e ∷ l) = (if is_switch e then 1 else 0) + switches l

-- The events for the views, each with its view: the `n` presses of FUNC before it lead there from
-- view `a`.
abbrev pub routed : ℕ → ℕ → List Event → List (ℕ × Event)
routed a n [] = []
routed a n (e ∷ l) =
    if is_switch e then routed a (n + 1) l else ((a + n) % view_count, e) ∷ routed a n l

-- Only the active view's panel is not hidden.
pub record IsShowing {V : Type 0} (s : Router V) : Type 0 where
  pub panels : length s.hidden ≡ view_count
  pub place : s.active < view_count
  pub one : (i : ℕ) → i < view_count → get_or s.hidden i true ≡ not (i == s.active)

length-hide_all_but : (idx i : ℕ) (l : List Bool) → length (hide_all_but idx i l) ≡ length l
unfolding hide_all_but
length-hide_all_but idx i [] = refl
length-hide_all_but idx i (b ∷ l) = ap suc (length-hide_all_but idx (i + 1) l)

get_or-hide_all_but :
    (idx i j : ℕ) (l : List Bool)
    → j < length l
    → get_or (hide_all_but idx i l) j true ≡ not (i + j == idx)
unfolding hide_all_but
get_or-hide_all_but idx i j [] h = absurd (omega arith)
get_or-hide_all_but idx i zero (b ∷ l) h = ap (λ k. not (k == idx)) (omega arith)
get_or-hide_all_but idx i (suc j) (b ∷ l) h =
    get_or-hide_all_but idx (i + 1) j l (omega arith) ∙ ap (λ k. not (k == idx)) (omega arith)

module _ (views : Views) where
  open views use {Shown, apply}

  abbrev pub apply_all : List (ℕ × Event) → Shown → Shown
  apply_all [] v = v
  apply_all ((i, e) ∷ l) v = apply_all l (apply i e v)

  activate-IsShowing :
      (idx : ℕ) (s : Router Shown)
      → length s.hidden ≡ view_count
      → idx < view_count
      → IsShowing (activate views idx s)
  activate-IsShowing idx s h j = record {
    panels = length-hide_all_but idx 0 s.hidden ∙ h;
    place = j;
    one = λ i k.
        get_or-hide_all_but idx 0 i s.hidden (omega (arith, h))
        ∙ ap (λ m. not (m == idx)) (omega arith);
  }

  -- what a drained list of events does to a router
  pub record Drained (l : List Event) (s s' : Router Shown) : Type 0 where
    pub showing : IsShowing s'
    pub active : s'.active ≡ (s.active + switches l) % view_count
    pub shown : s'.shown ≡ apply_all (routed s.active 0 l) s.shown

  routed-switched :
      (a n : ℕ) (l : List Event) → routed ((a + 1) % view_count) n l ≡ routed a (n + 1) l
  routed-switched a n [] = refl
  routed-switched a n (e ∷ l) = elim (Bool-cases (is_switch e)) [
    | inl yes_switch ↦ rw yes_switch (routed-switched a (n + 1) l)
    | inr other ↦ rw other (ap₂ {A = ℕ} (λ k t. (k, e) ∷ t) (omega arith) (routed-switched a n l))
  ]

  -- the event in front of others
  Drained-first :
      (e : Event) (l : List Event) (s s' : Router Shown)
      → IsShowing s
      → Drained l (on_event views e s) s'
      → Drained (e ∷ l) s s'
  Drained-first e l s s' h d =
      let (active, shown) = by_kind (is_switch e) d in
      record { showing = d.showing; active = active; shown = shown }
    where
      by_kind :
          (b : Bool)
          → Drained l
              (if b
                then activate views ((s.active + 1) % view_count) s
                else record s { shown = apply s.active e s.shown })
              s'
          → (s'.active ≡ (s.active + ((if b then 1 else 0) + switches l)) % view_count)
            × (s'.shown
                ≡ apply_all
                    (if b
                      then routed s.active 1 l
                      else ((s.active + 0) % view_count, e) ∷ routed s.active 0 l)
                    s.shown)
      by_kind true k = (
        omega (arith, k.active),
        k.shown ∙ ap (λ r. apply_all r s.shown) (routed-switched s.active 0 l),
      )
      by_kind false k = (
        omega (arith, k.active),
        k.shown
            ∙ ap (λ i. apply_all (routed s.active 0 l) (apply i e s.shown))
                (omega (arith, h.place)),
      )

  on_event-IsShowing : (e : Event) (s : Router Shown) → IsShowing s → IsShowing (on_event views e s)
  on_event-IsShowing e s h = by_kind (is_switch e)
    where
      by_kind :
          (b : Bool)
          → IsShowing (
              if b
              then activate views ((s.active + 1) % view_count) s
              else record s { shown = apply s.active e s.shown })
      by_kind true = activate-IsShowing ((s.active + 1) % view_count) s h.panels (omega arith)
      by_kind false = record { panels = h.panels; place = h.place; one = h.one }

  module _ (api : QueueApi Event) where
    open api use {Queue, contents, receive-empty, receive-front}

    view_pop-empty :
        (q : State Queue) (w : Queue)
        → q.view_queue ≡ some w
        → contents w ≡ []
        → view_pop api q ≡ (none, record q { view_queue = some w })
    unfolding view_pop
    view_pop-empty q w e c = ground (arith, e, receive-empty w c)

    view_pop-front :
        (q : State Queue) (w : Queue) (x : Event) (l : List Event)
        → q.view_queue ≡ some w
        → contents w ≡ x ∷ l
        → (w' : Queue) × (view_pop api q ≡ (some x, record q { view_queue = some w' }))
          × (contents w' ≡ l)
    unfolding view_pop
    view_pop-front q w x l e c =
        let (w', r, c', n) = receive-front w x l c in (w', ground (arith, e, r), c')

    -- the queue's events, taken out
    abbrev Empties : ℕ → State Queue → Router Shown → List Event → Type 0
    Empties f q s l =
        (q' : State Queue) × (w' : Queue) × (s' : Router Shown) × (drain views api f q s
          ≡ some (q', s'))
        × (q' ≡ record q { view_queue = some w' })
        × (contents w' ≡ [])
        × Drained l s s'

    drain-Drained :
        (l : List Event) (f : ℕ) (q : State Queue) (w : Queue) (s : Router Shown)
        → q.view_queue ≡ some w
        → contents w ≡ l
        → IsShowing s
        → length l < f
        → Empties f q s l
    unfolding drain
    drain-Drained l zero q w s e c h j = absurd (omega arith)
    drain-Drained [] (suc f) q w s e c h j =
        let empty = view_pop-empty q w e c in
        (
          record q { view_queue = some w },
          w,
          s,
          ap
              (λ r. elim r.0 [
                | none ↦ some (r.1, s)
                | some x ↦ drain views api f r.1 (on_event views x s)
              ])
              empty,
          refl,
          c,
          record { showing = h; active = omega (arith, h.place); shown = refl },
        )
    drain-Drained (x ∷ l) (suc f) q w s e c h j =
        let (w1, front, c1) = view_pop-front q w x l e c in
        let (q', w', s', run, same, c', d) =
          drain-Drained l f (record q { view_queue = some w1 }) w1 (on_event views x s) refl c1
            (on_event-IsShowing x s h) (omega arith) in
        (
          q',
          w',
          s',
          ap
                (λ r. elim r.0 [
                  | none ↦ some (r.1, s)
                  | some x ↦ drain views api f r.1 (on_event views x s)
                ])
                front
              ∙ run,
          same,
          c',
          Drained-first x l s s' h d,
        )

    -- `view_router_tick` ends with the view queue empty. Each of its events but the presses of FUNC
    -- went once, in order, to the view that was active then, which is the first one advanced by the
    -- presses of FUNC before it, modulo 6; then each view that has a `refresh` was refreshed. Of the
    -- six panels only that of the active view is not hidden.
    pub tick-routed :
        (l : List Event) (q : State Queue) (w : Queue) (s : Router Shown)
        → q.view_queue ≡ some w
        → contents w ≡ l
        → IsShowing s
        → (f : ℕ) × (w' : Queue) × (s' : Router Shown) × (tick views api f q s
            ≡ some (record q { view_queue = some w' }, s'))
          × (contents w' ≡ [])
          × IsShowing s'
          × (s'.active ≡ (s.active + switches l) % view_count)
          × (s'.shown
              ≡ for_views views view_count 0
                  (refresh_one views)
                  (apply_all (routed s.active 0 l) s.shown))
    unfolding tick
    tick-routed l q w s e c h =
        let (q', w', s', run, same, c', d) =
          drain-Drained l (suc (length l)) q w s e c h (omega arith) in
        (
          suc (length l),
          w',
          (refreshed views api (q', s')).1,
          ap (λ r. elim r [ none ↦ none | some r ↦ some (refreshed views api r) ]) run
              ∙ ap (λ t. some (t, (refreshed views api (q', s')).1)) same,
          c',
          record { panels = d.showing.panels; place = d.showing.place; one = d.showing.one },
          d.active,
          ap (for_views views view_count 0 (refresh_one views)) d.shown,
        )

  -- `view_router_init` shows the keypad's view alone.
  pub init_router-IsShowing : (v : Shown) → IsShowing (init_router views v)
  unfolding init_router
  init_router-IsShowing v =
      activate-IsShowing 0
        (record {
          hidden = replicate view_count false;
          active = 0;
          shown = for_views views view_count 0 (views.init) v;
        })
        refl (omega arith)
