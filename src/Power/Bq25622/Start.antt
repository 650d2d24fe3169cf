-- ===== src/Power/Bq25622/Start.antt =====
-- The charger's task before its first poll: it tries the initialisation until it succeeds.
use mathlib.Core.Option.{none-ne-some}
use mokya_lora.Prelude.{
  ℕ, zero, suc, ◌+◌, ◌%◌, ◌<◌, ◌≡◌, refl, sym, subst, Bool, true, false, Option, none, some, add32,
  arith,
}
use mokya_lora.Bus.{RegBus}
use mokya_lora.Power.Bq25622.{Charger, Watchdog, hw_init, bring_up, first_up, start, again}

module _ (bus : RegBus) (elapse : (bus.World) → bus.World) where
  open bus use {World}

  -- the world at attempt `k`, when those before it failed
  abbrev pub at_attempt : Watchdog → ℕ → World → World
  at_attempt wd zero w = w
  at_attempt wd (suc k) w = at_attempt wd k (elapse (hw_init bus wd w).1)

  abbrev one_more : Charger → Charger
  one_more s = record s { link = record (s.link) { fail_count = add32 s.link.fail_count 1 } }

  first_up-some :
      (o : Option (Unit {0}) × World) (s : Charger)
      → o.0 ≡ some tt
      → first_up bus o s ≡ (true, o.1, record s { link = record (s.link) { online = true } })
  first_up-some (none, w) s e = absurd (none-ne-some tt e)
  first_up-some (some _, w) s e = refl

  first_up-none :
      (o : Option (Unit {0}) × World) (s : Charger)
      → o.0 ≡ none
      → first_up bus o s ≡ (false, o.1, one_more s)
  first_up-none (none, w) s e = refl
  first_up-none (some u, w) s e = absurd (none-ne-some u (sym e))

  -- The loop ended in the world `v`, after `k` failed attempts from the state `s`.
  abbrev pub Ended : ℕ → World → Charger → Bool × World × Charger → Type 0
  Ended k v s r =
      (r.0 ≡ true)
      × (r.1 ≡ v)
      × (r.2.link.online ≡ true)
      × (r.2.link.fail_count % 0x100000000 ≡ (s.link.fail_count + k) % 0x100000000)

  -- When attempt `k`, counted from 0, is the first whose initialisation succeeds, any bound above `k` is
  -- enough for the loop to end: it ends with that attempt, the charger is online and its failure count
  -- has gone up by `k`, modulo 2^32.
  pub start-ends :
      (k n : ℕ) (w : World) (s : Charger)
      → k < n
      → ((j : ℕ) → j < k → (hw_init bus s.wd_window (at_attempt s.wd_window j w)).0 ≡ none)
      → (hw_init bus s.wd_window (at_attempt s.wd_window k w)).0 ≡ some tt
      → Ended k (hw_init bus s.wd_window (at_attempt s.wd_window k w)).1 s (start bus elapse n w s)
  unfolding start bring_up
  start-ends k zero w s h f e = absurd (omega arith)
  start-ends zero (suc n) w s h f e =
      subst (λ r. Ended 0 (hw_init bus s.wd_window w).1 s (again bus elapse (start bus elapse n) r))
        (sym (first_up-some (hw_init bus s.wd_window w) s e)) (refl, refl, refl, omega arith)
  start-ends (suc k) (suc n) w s h f e =
      let w1 = elapse (hw_init bus s.wd_window w).1 in
      let (done, world, online, count) =
        start-ends k n w1 (one_more s) (omega arith) (λ j l. f (suc j) (omega arith)) e in
      subst
        (λ r.
          Ended (suc k) (hw_init bus s.wd_window (at_attempt s.wd_window k w1)).1 s
            (again bus elapse (start bus elapse n) r))
        (sym (first_up-none (hw_init bus s.wd_window w) s (f 0 (omega arith))))
        (done, world, online, omega (arith, count))
