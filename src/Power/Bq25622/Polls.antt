-- ===== src/Power/Bq25622/Polls.antt =====
-- The charger's polls, one after the other.
use mokya_lora.Prelude.{
  ℕ, zero, suc, ◌≡◌, refl, sym, ap, ◌∙◌, subst, Bool, true, false, Option, none, some, List, [],
  ◌∷◌, ◌%◌, if◌then◌else◌, ◌==◌, get_or, arith,
}
use mokya_lora.Bus.{RegBus, read_block}
use mokya_lora.Bus.Link.{note, history, Tracks, IsLink, tracks}
use mokya_lora.Power.Bq25622.{
  Charger, Stage, poll_once, attempt, conclude, status_read, recovered, read_again, publish, kicked,
  adc_read, hw_init, kick, reg_status0, reg_ibus_adc,
}

module _ (bus : RegBus) where
  open bus use {World, acquire}

  abbrev pub polls : ℕ → World → Charger → World × Charger
  polls zero w s = (w, s)
  polls (suc n) w s = let (w', s') = polls n w s in poll_once bus w' s'

  -- whether each poll succeeded, the newest first
  abbrev pub outcomes : ℕ → World → Charger → List Bool
  outcomes zero w s = []
  outcomes (suc n) w s = let (w', s') = polls n w s in (attempt bus w' s').0 ∷ outcomes n w s

  -- A stage leaves the link and the window as they are.
  abbrev Spares : Charger → Stage bus → Type 0
  Spares s (done, w, s') = (s'.link ≡ s.link) × (s'.wd_window ≡ s.wd_window)

  adc_read-Spares : (o : Option (List ℕ) × World) (s : Charger) → Spares s (adc_read bus o s)
  adc_read-Spares (none, w) s = (refl, refl)
  adc_read-Spares (some b, w) s = (refl, refl)

  publish-Spares : (st : List ℕ) (w : World) (s : Charger) → Spares s (publish bus st w s)
  publish-Spares st w s = adc_read-Spares (read_block bus reg_ibus_adc 16 w) _

  kicked-Spares :
      (st : List ℕ) (o : Option (Unit {0}) × World) (s : Charger) → Spares s (kicked bus st o s)
  kicked-Spares st (none, w) s = (refl, refl)
  kicked-Spares st (some _, w) s = publish-Spares st w s

  read_again-Spares : (o : Option (List ℕ) × World) (s : Charger) → Spares s (read_again bus o s)
  read_again-Spares (none, w) s = (refl, refl)
  read_again-Spares (some st, w) s = publish-Spares st w s

  recovered-Spares : (o : Option (Unit {0}) × World) (s : Charger) → Spares s (recovered bus o s)
  recovered-Spares (none, w) s = (refl, refl)
  recovered-Spares (some _, w) s = read_again-Spares (read_block bus reg_status0 3 w) _

  attempt-Spares : (w : World) (s : Charger) → Spares s (attempt bus w s)
  attempt-Spares w s = go (read_block bus reg_status0 3 w)
    where
      go : (o : Option (List ℕ) × World) → Spares s (status_read bus o s)
      go (none, w') = (refl, refl)
      go (some st, w') = split (get_or st 0 0 % 2 == 1)
        where
          split :
              (b : Bool)
              → Spares s (
                  if b
                  then recovered bus (hw_init bus s.wd_window w') s
                  else kicked bus st (kick bus s.wd_window w') s)
          split true = recovered-Spares (hw_init bus s.wd_window w') s
          split false = kicked-Spares st (kick bus s.wd_window w') s

  poll_once-link :
      (w : World) (s : Charger)
      → acquire w ≡ true
      → let s' = (poll_once bus w s).1 in
        (s'.link ≡ note 5 (attempt bus w s).0 s.link) × (s'.wd_window ≡ s.wd_window)
  unfolding poll_once
  poll_once-link w s h =
      subst
        (λ b.
          let s' : Charger = (if b then conclude bus (attempt bus w s) else (w, s)).1 in
          (s'.link ≡ note 5 (attempt bus w s).0 s.link) × (s'.wd_window ≡ s.wd_window))
        (sym h) (ap (note 5 (attempt bus w s).0) (attempt-Spares w s).0, (attempt-Spares w s).1)

  polls-history :
      (n : ℕ) (w : World) (s : Charger)
      → ((v : World) → acquire v ≡ true)
      → let s' = (polls n w s).1 in
        (s'.link ≡ history 5 (outcomes n w s) s.link) × (s'.wd_window ≡ s.wd_window)
  unfolding history
  polls-history zero w s h = (refl, refl)
  polls-history (suc n) w s h =
      let (v, s') = polls n w s in
      let (link, window) = poll_once-link v s' (h v) in
      let (link', window') = polls-history n w s h in
      (link ∙ ap (note 5 (attempt bus v s').0) link', window ∙ window')

  -- When the bus can always be had, after any number of polls the failure count is that of the polls
  -- failed in a row, those before included, up to the counter's greatest value; the charger is online
  -- exactly when these are fewer than five; and the window that a recovery would restore is the old one.
  polls-link :
      (n : ℕ) (w : World) (s : Charger)
      → ((v : World) → acquire v ≡ true)
      → IsLink 5 s.link
      → let s' = (polls n w s).1 in
        Tracks 5 s.link s'.link (outcomes n w s) × (s'.wd_window ≡ s.wd_window)
  polls-link n w s h k =
      let (link, window) = polls-history n w s h in
      (tracks 5 s.link _ (outcomes n w s) (omega arith) (omega arith) k link, window)
