-- ===== src/Flash/Both/Ends.antt =====
-- When a wrapped flash call ends, with the other core's calls in the way, and when it does not.
use mokya_lora.Prelude.{
  ℕ, ◌+◌, ◌-◌, ◌≤◌, ◌≡◌, refl, sym, ap, subst, ◌∙◌, Bool, true, false, ◌&&◌, ◌||◌, ◌==◌, List, [],
  ◌∷◌, if◌then◌else◌, arith,
}
use mokya_lora.Flash.{
  resting, running, spinning, leaving, System, lock_idle, lock_parked, write_at, park_at,
}
use mokya_lora.Flash.Calls.{rank, park_at-writer, write_at-rank, rank_zero}
use mokya_lora.Flash.Both.{
  Pair, swap, Act, goes_on, handles, sets_ready, asks, is_running, act, Core, core0, core1,
  core_acts, run_both,
}

-- a direction in which the other core neither writes nor has asked to
pub record IsCalm (s : System) : Type 0 where
  pub writer : s.writer ≡ resting
  pub bell : s.bell ≡ false
  pub parker : s.parker ≡ running

abbrev pub starts : Act → Bool
starts goes_on = false
starts handles = false
starts sets_ready = false
starts (asks op) = true

-- whether a call begins, on either core
abbrev pub any_starts : List (Core × Act) → Bool
any_starts [] = false
any_starts ((c, a) ∷ l) = starts a || any_starts l

-- the turns that core 1 gives to its writer
abbrev pub spent : Core → Act → ℕ
spent core1 goes_on = 1
spent core1 handles = 0
spent core1 sets_ready = 0
spent core1 (asks op) = 0
spent core0 a = 0

abbrev pub turns : List (Core × Act) → ℕ
turns [] = 0
turns ((c, a) ∷ l) = spent c a + turns l

abbrev Nearer : ℕ → Pair → Pair → Type 0
Nearer n p p' = IsCalm p'.parking × (rank p'.writing.writer ≤ rank p.writing.writer - n)

-- a core that nobody asked to park, and one that does not write, have nothing to do
park_at-calm : (s : System) → IsCalm s → park_at s.parker s ≡ s
park_at-calm s v = ap (λ q. park_at q s) v.parker ∙ (unfold park_at in rw v.bell)

write_at-calm : (s : System) → IsCalm s → write_at s.writer s ≡ s
write_at-calm s v = ap (λ w. write_at w s) v.writer ∙ (unfold write_at in refl)

either : (P : Pair → Type 0) (b : Bool) (x y : Pair) → P x → P y → P (if b then x else y)
either P true x y h k = h
either P false x y h k = k

core_acts-Nearer :
    (c : Core) (a : Act) (p : Pair)
    → starts a ≡ false
    → IsCalm p.parking
    → Nearer (spent c a) p (core_acts c a p)
unfolding core_acts act
core_acts-Nearer core1 goes_on p k v =
    rw (ap is_running v.parker) (v, write_at-rank p.writing.writer p.writing refl)
core_acts-Nearer core1 handles p k v =
    either (λ q. Nearer 0 p q) (is_running p.parking.parker && p.writing.writer_masked) p _
      (v, omega arith) (subst IsCalm (sym (park_at-calm p.parking v)) v, omega arith)
core_acts-Nearer core1 sets_ready p k v =
    (record { writer = v.writer; bell = v.bell; parker = v.parker }, omega arith)
core_acts-Nearer core1 (asks op) p k v = absurd (ground (arith, k))
core_acts-Nearer core0 goes_on p k v =
    either (λ q. Nearer 0 p (swap q)) (is_running p.writing.parker) _ (swap p)
      (subst IsCalm (sym (write_at-calm p.parking v)) v, omega arith) (v, omega arith)
core_acts-Nearer core0 handles p k v =
    either (λ q. Nearer 0 p (swap q)) (is_running p.writing.parker && p.parking.writer_masked)
      (swap p) _ (v, omega arith)
      (v, omega (arith, ap rank (park_at-writer p.writing.parker p.writing).0))
core_acts-Nearer core0 sets_ready p k v = (v, omega arith)
core_acts-Nearer core0 (asks op) p k v = absurd (ground (arith, k))

rank-run_both :
    (l : List (Core × Act)) (p : Pair)
    → any_starts l ≡ false
    → IsCalm p.parking
    → rank (run_both l p).writing.writer ≤ rank p.writing.writer - turns l
unfolding run_both
rank-run_both [] p k v = omega arith
rank-run_both ((c, a) ∷ l) p k v =
    let (v', near) = core_acts-Nearer c a p (ground (arith, k)) v in
    omega (arith, rank-run_both l (core_acts c a p) (ground (arith, k)) v', near)

-- While core 0 neither writes flash nor has asked core 1 to park, and no further call begins, a
-- wrapped flash call on core 1 ends, whether core 0 is ready or not, parks in time, late or never:
-- once its writer has had as many turns as it has before it at most, it rests. A call that begins has
-- at most 750,009 turns before it, one for each access and one for the end of the wait.
pub run_both-rests :
    (l : List (Core × Act)) (p : Pair)
    → any_starts l ≡ false
    → IsCalm p.parking
    → rank p.writing.writer ≤ turns l
    → (run_both l p).writing.writer ≡ resting
run_both-rests l p k v h =
    rank_zero (run_both l p).writing.writer (omega (arith, rank-run_both l p k v, h))

-- each core in its handler, waiting for the other's writer, which the other's handler holds
pub record IsStuck (p : Pair) : Type 0 where
  pub here : p.parking.parker ≡ spinning
  pub there : p.writing.parker ≡ spinning
  pub asked_here : p.parking.lock ≡ lock_parked
  pub asked_there : p.writing.lock ≡ lock_parked

abbrev Held : Pair → Pair → Type 0
Held p q = IsStuck q × (q.writing.writer ≡ p.writing.writer) × (q.parking.writer ≡ p.parking.writer)

spinning-held : (s : System) → s.parker ≡ spinning → s.lock ≡ lock_parked → park_at s.parker s ≡ s
spinning-held s e f =
    ap (λ q. park_at q s) e ∙ (unfold park_at in ap (λ q. record s { parker = q }) (stays ∙ sym e))
  where
    stays : (if s.lock == lock_idle then leaving else spinning) ≡ spinning
    stays = ground (arith, f)

act-Held : (a : Act) (p : Pair) → IsStuck p → Held p (act a p)
unfolding act
act-Held goes_on p v = rw (ap is_running v.here) (v, refl, refl)
act-Held handles p v =
    either (Held p) (is_running p.parking.parker && p.writing.writer_masked) p _ (v, refl, refl)
      (subst (λ q. Held p (record p { parking = q }))
        (sym (spinning-held p.parking v.here v.asked_here)) (v, refl, refl))
act-Held sets_ready p v = (
  record { here = v.here; there = v.there; asked_here = v.asked_here; asked_there = v.asked_there },
  refl,
  refl,
)
act-Held (asks op) p v = rw (ap is_running v.here) (v, refl, refl)

swap-IsStuck : (p : Pair) → IsStuck p → IsStuck (swap p)
swap-IsStuck p v = record {
  here = v.there;
  there = v.here;
  asked_here = v.asked_there;
  asked_there = v.asked_here;
}

core_acts-Held : (c : Core) (a : Act) (p : Pair) → IsStuck p → Held p (core_acts c a p)
unfolding core_acts
core_acts-Held core1 a p v = act-Held a p v
core_acts-Held core0 a p v =
    let (v', mine, theirs) = act-Held a (swap p) (swap-IsStuck p v) in
    (swap-IsStuck (act a (swap p)) v', theirs, mine)

-- Two cores that are both parked for the other's flash operation stay so for ever, and neither writer
-- goes on.
pub run_both-Held : (l : List (Core × Act)) (p : Pair) → IsStuck p → Held p (run_both l p)
unfolding run_both
run_both-Held [] p v = (v, refl, refl)
run_both-Held ((c, a) ∷ l) p v =
    let (v1, mine1, theirs1) = core_acts-Held c a p v in
    let (v2, mine2, theirs2) = run_both-Held l (core_acts c a p) v1 in
    (v2, mine2 ∙ mine1, theirs2 ∙ theirs1)
