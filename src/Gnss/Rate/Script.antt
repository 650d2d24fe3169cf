-- ===== src/Gnss/Rate/Script.antt =====
-- What a change of rate says to the receiver, and what it leaves behind when a reply fails to come.
use mathlib.Core.List.{append_assoc, append-nil}
use mokya_lora.Prelude.{
  ℕ, zero, suc, ◌+◌, ◌≤◌, ◌<◌, ◌≡◌, refl, sym, ap, ◌∙◌, subst, Bool, true, false, Option, none,
  some, List, [], ◌∷◌, ◌++◌, leb, ◌%◌, u32, sub32, if◌then◌else◌, arith,
}
use mokya_lora.Gnss.Parse.{Teseo, Resp, resp_none}
use mokya_lora.Gnss.Rate.{
  Talk, Rate, off, hz1, hz2, hz5, hz10, no_rate, Rig, suspend_body, restart_body, reboot_body,
  save_body, rate_body, is_off, Verdict, granted, refused, waiting, setpar_verdict, savepar_verdict,
  await, send_await, tell, and_then, commit, set_fix_rate, mask_body, enable_rf_debug_messages,
}

-- the commands of a change to a rate from another, if each is granted
abbrev pub steps : Option (List ℕ) → List (List ℕ)
steps none = []
steps (some body) = body ∷ save_body ∷ reboot_body ∷ []

abbrev pub script : Rate → Rate → List (List ℕ)
script rate old =
    if is_off rate
    then suspend_body ∷ []
    else (if is_off old then restart_body ∷ [] else []) ++ steps (rate_body rate)

module _ (talk : Talk) where
  open talk use {
    World, send, poll, ticks, delay, ticks_of, handed, handed-send, handed-poll, handed-delay,
  }

  -- A clock of 32 bits that runs: from one poll to the next, past a delay, it makes at least one tick
  -- and less than 2 ^ 31. The longest timeout, of 1.5 s, is below 2 ^ 31 ticks too.
  pub record Runs : Type 0 where
    pub beat : Teseo → World → ℕ
    pub beat_moves : (t : Teseo) (w : World) → 0 < beat t w
    pub beat_short : (t : Teseo) (w : World) → beat t w < 2147483648
    pub word : (w : World) → ticks w < u32
    pub ticks-beat :
        (t : Teseo) (w : World) → ticks (poll t (delay w)).1 ≡ (ticks w + beat t w) % u32
    pub short : (ms : ℕ) → ms ≤ 1500 → ticks_of ms < 2147483648

  -- The commands handed over are the front of a script, all of it behind a success; the rate stays.
  record Did (s : Rig World) (l : List (List ℕ)) (ok : Bool) (s' : Rig World) : Type 0 where
    front : List (List ℕ)
    left : List (List ℕ)
    splits : front ++ left ≡ l
    hands : handed s'.outside ≡ handed s.outside ++ front
    whole : ok ≡ true → left ≡ []
    rate : s'.fix_rate ≡ s.fix_rate

  later :
      (now start d timeout : ℕ)
      → now < u32
      → start < u32
      → 0 < d
      → d < 2147483648
      → timeout < 2147483648
      → sub32 now start < timeout
      → sub32 now start < sub32 ((now + d) % u32) start
  later now start d timeout hn hs hd hk ht h = omega arith

  Did-then :
      (s s1 s' : Rig World) (l k : List (List ℕ)) (ok : Bool)
      → Did s l true s1
      → Did s1 k ok s'
      → Did s (l ++ k) ok s'
  Did-then s s1 s' l k ok d e = record {
    front = l ++ e.front;
    left = e.left;
    splits = append_assoc l e.front e.left ∙ ap (λ t. l ++ t) e.splits;
    hands =
        e.hands
        ∙ ap (λ t. t ++ e.front) (d.hands ∙ ap (λ t. handed s.outside ++ t) all)
        ∙ append_assoc (handed s.outside) l e.front;
    whole = e.whole;
    rate = e.rate ∙ d.rate;
  }
    where
      all : d.front ≡ l
      all = sym (append-nil d.front) ∙ ap (λ t. d.front ++ t) (sym (d.whole refl)) ∙ d.splits

  Did-stop : (s s1 : Rig World) (l k : List (List ℕ)) → Did s l false s1 → Did s (l ++ k) false s1
  Did-stop s s1 l k d = record {
    front = d.front;
    left = d.left ++ k;
    splits = sym (append_assoc d.front d.left k) ∙ ap (λ t. t ++ k) d.splits;
    hands = d.hands;
    whole = λ e. cc;
    rate = d.rate;
  }

  Did-one :
      (s : Rig World) (b : List ℕ) (ok : Bool) (s' : Rig World)
      → handed s'.outside ≡ handed s.outside ++ b ∷ []
      → s'.fix_rate ≡ s.fix_rate
      → Did s (b ∷ []) ok s'
  Did-one s b ok s' h r = record {
    front = b ∷ [];
    left = [];
    splits = refl;
    hands = h;
    whole = λ e. refl;
    rate = r;
  }

  abbrev Quiet : (ℕ → Option (Bool × Rig World)) → Rig World → Type 0
  Quiet x s =
      (f : ℕ) × (ok : Bool) × (s' : Rig World) × (x f ≡ some (ok, s'))
      × (handed s'.outside ≡ handed s.outside)
      × (s'.fix_rate ≡ s.fix_rate)

  -- What a change of rate does: the new rate behind a success, else the old one; and the commands
  -- handed over are the front of a script, all of it behind a success.
  abbrev pub Changed : Rate → List (List ℕ) → Rig World → Bool → Rig World → Type 0
  Changed rate l s ok s' =
      (s'.fix_rate ≡ (if ok then rate else s.fix_rate))
      × ((front : List (List ℕ)) × (left : List (List ℕ)) × (front ++ left ≡ l)
          × (handed s'.outside ≡ handed s.outside ++ front)
          × (ok ≡ true → left ≡ []))

  module _ (clock : Runs) where
    await-Quiet :
        (n : ℕ) (verdict : Resp → Verdict) (start timeout : ℕ) (s : Rig World)
        → start < u32
        → timeout < 2147483648
        → 0 < n
        → timeout < n + sub32 (ticks (poll s.teseo s.outside).1) start
        → Quiet (λ f. await talk f verdict start timeout s) s
    unfolding await
    await-Quiet zero verdict start timeout s hs ht hn h = absurd (omega arith)
    await-Quiet (suc n) verdict start timeout s hs ht hn h =
        let (g, ok, s', run, same, rate) =
          judged
            (λ e.
              await-Quiet n verdict start timeout (record s1 { outside = delay w }) hs ht
                (begun (soon e)) (nearer e))
            (verdict t.last_resp) (leb timeout (sub32 (ticks w) start)) refl in
        (suc g, ok, s', run, same, rate)
      where
        t : Teseo
        t = (poll s.teseo s.outside).0

        w : World
        w = (poll s.teseo s.outside).1

        s1 : Rig World
        s1 = record s { teseo = t; outside = w }

        soon :
            leb timeout (sub32 (ticks (poll s.teseo s.outside).1) start) ≡ false
            → sub32 (ticks (poll s.teseo s.outside).1) start < timeout
        soon e = ground arith

        begun : sub32 (ticks (poll s.teseo s.outside).1) start < timeout → 0 < n
        begun e = omega (arith, h, e)

        nearer :
            leb timeout (sub32 (ticks (poll s.teseo s.outside).1) start) ≡ false
            → timeout < n + sub32 (ticks (poll t (delay w)).1) start
        nearer e =
            subst (λ x. timeout < n + sub32 x start) (sym (clock.ticks-beat t w))
              (omega (
                arith,
                h,
                later (ticks w) start (clock.beat t w) timeout (clock.word w) hs
                    (clock.beat_moves t w) (clock.beat_short t w) ht (soon e),
              ))

        more : ℕ → Option (Bool × Rig World)
        more f = await talk f verdict start timeout (record s1 { outside = delay w })

        judged :
            (leb timeout (sub32 (ticks (poll s.teseo s.outside).1) start) ≡ false
              → Quiet
                  (λ f. await talk f verdict start timeout (record s1 { outside = delay w }))
                  (record s1 { outside = delay w }))
            → (v : Verdict) (up : Bool)
            → leb timeout (sub32 (ticks (poll s.teseo s.outside).1) start) ≡ up
            → (g : ℕ) × (ok : Bool) × (s' : Rig World) × (◌≡◌ {A = Option (Bool × Rig World)}
                (elim v [
                  | granted ↦ some (true, s1)
                  | refused ↦ some (false, s1)
                  | waiting ↦ if up then some (false, s1) else more g
                ])
                (some (ok, s')))
              × (handed s'.outside ≡ handed s.outside)
              × (s'.fix_rate ≡ s.fix_rate)
        judged again granted up e = (0, true, s1, refl, handed-poll s.teseo s.outside, refl)
        judged again refused up e = (0, false, s1, refl, handed-poll s.teseo s.outside, refl)
        judged again waiting true e = (0, false, s1, refl, handed-poll s.teseo s.outside, refl)
        judged again waiting false e =
            let (g, ok, s', run, same, rate) = again e in
            (g, ok, s', run, same ∙ handed-delay w ∙ handed-poll s.teseo s.outside, rate)

    -- a call that ends, with what it did
    Ends : (ℕ → Option (Bool × Rig World)) → Rig World → List (List ℕ) → Type 0
    Ends x s l = (f : ℕ) × (ok : Bool) × (s' : Rig World) × (x f ≡ some (ok, s')) × Did s l ok s'

    send_await-Ends :
        (body : List ℕ) (verdict : Resp → Verdict) (ms : ℕ) (s : Rig World)
        → ms ≤ 1500
        → Ends (λ f. send_await talk f body verdict ms s) s (body ∷ [])
    unfolding Ends send_await
    send_await-Ends body verdict ms s hm = told (send body s.outside).0
      where
        w : World
        w = (send body s.outside).1

        s1 : Rig World
        s1 = record s { teseo = record (s.teseo) { last_resp = resp_none }; outside = w }

        told :
            (sent : Bool)
            → (f : ℕ) × (ok : Bool) × (s' : Rig World) × ((if sent
                  then await talk f verdict (ticks w) (ticks_of ms) s1
                  else some (false, s1))
                ≡ some (ok, s'))
              × Did s (body ∷ []) ok s'
        told true =
            let (f, ok, s', run, same, rate) =
              await-Quiet (suc (ticks_of ms)) verdict (ticks w) (ticks_of ms) s1 (clock.word w)
                (clock.short ms hm) (omega arith) (omega arith) in
            (f, ok, s', run, Did-one s body ok s' (same ∙ handed-send body s.outside) rate)
        told false = (0, false, s1, refl, Did-one s body false s1 (handed-send body s.outside) refl)

    Ends2 : (ℕ → ℕ → Option (Bool × Rig World)) → Rig World → List (List ℕ) → Type 0
    Ends2 x s l =
        (f : ℕ) × (g : ℕ) × (ok : Bool) × (s' : Rig World) × (x f g ≡ some (ok, s')) × Did s l ok s'

    abbrev last_step : Rig World → Option (Bool × Rig World)
    last_step s = some (true, tell talk reboot_body s)

    abbrev second_step : ℕ → Rig World → Option (Bool × Rig World)
    second_step g s = and_then talk (send_await talk g save_body savepar_verdict 1500 s) last_step

    second_step-Ends :
        (s : Rig World) → Ends (λ g. second_step g s) s (save_body ∷ reboot_body ∷ [])
    unfolding Ends
    second_step-Ends s =
        let (g, ok, s1, run, d) = send_await-Ends save_body savepar_verdict 1500 s (omega arith) in
        rebooted ok g s1 run d
      where
        rebooted :
            (ok : Bool) (g : ℕ) (s1 : Rig World)
            → send_await talk g save_body savepar_verdict 1500 s ≡ some (ok, s1)
            → Did s (save_body ∷ []) ok s1
            → (f : ℕ) × (ok : Bool) × (s' : Rig World) × (second_step f s ≡ some (ok, s'))
              × Did s (save_body ∷ reboot_body ∷ []) ok s'
        rebooted false g s1 run d = (
          g,
          false,
          s1,
          ap (λ x. and_then talk x last_step) run,
          Did-stop s s1 (save_body ∷ []) (reboot_body ∷ []) d,
        )
        rebooted true g s1 run d = (
          g,
          true,
          tell talk reboot_body s1,
          ap (λ x. and_then talk x last_step) run,
          Did-then s s1 (tell talk reboot_body s1) (save_body ∷ []) (reboot_body ∷ []) true d (
              Did-one s1 reboot_body true (tell talk reboot_body s1)
                (handed-send reboot_body s1.outside) refl),
        )

    commit-Ends :
        (body : List ℕ) (s : Rig World)
        → Ends2 (λ f g. commit talk f g body s) s (steps (some body))
    unfolding Ends2 commit Ends
    commit-Ends body s =
        let (f, ok, s1, run, d) = send_await-Ends body setpar_verdict 500 s (omega arith) in
        saved ok f s1 run d
      where
        saved :
            (ok : Bool) (f : ℕ) (s1 : Rig World)
            → send_await talk f body setpar_verdict 500 s ≡ some (ok, s1)
            → Did s (body ∷ []) ok s1
            → (f : ℕ) × (g : ℕ) × (ok : Bool) × (s' : Rig World) × (and_then talk
                  (send_await talk f body setpar_verdict 500 s)
                  (second_step g)
                ≡ some (ok, s'))
              × Did s (steps (some body)) ok s'
        saved false f s1 run d = (
          f,
          0,
          false,
          s1,
          ap (λ x. and_then talk x (second_step 0)) run,
          Did-stop s s1 (body ∷ []) (save_body ∷ reboot_body ∷ []) d,
        )
        saved true f s1 run d =
            let (g, ok, s', run', d') = second_step-Ends s1 in
            (
              f,
              g,
              ok,
              s',
              ap (λ x. and_then talk x (second_step g)) run ∙ run',
              Did-then s s1 s' (body ∷ []) (save_body ∷ reboot_body ∷ []) ok d d',
            )

    -- `teseo_enable_rf_debug_messages` ends too, with the front of its script handed over.
    enable_rf_debug_messages-Ends2 :
        (on : Bool) (s : Rig World)
        → Ends2 (λ f g. enable_rf_debug_messages talk f g on s) s (steps (some (mask_body on)))
    unfolding enable_rf_debug_messages
    enable_rf_debug_messages-Ends2 on s = commit-Ends (mask_body on) s

    with_rate : Rate → Bool → Rig World → Rig World
    with_rate rate true s = record s { fix_rate = rate }
    with_rate rate false s = s

    Did-Changed :
        (rate : Rate) (l : List (List ℕ)) (s : Rig World) (ok : Bool) (s' : Rig World)
        → Did s l ok s'
        → Changed rate l s ok (with_rate rate ok s')
    unfolding with_rate
    Did-Changed rate l s true s' d = (refl, (d.front, d.left, d.splits, d.hands, d.whole))
    Did-Changed rate l s false s' d = (d.rate, (d.front, d.left, d.splits, d.hands, d.whole))

    abbrev keep_rate : Rate → Rig World → Option (Bool × Rig World)
    keep_rate rate s = some (true, record s { fix_rate = rate })

    and_then-keep_rate :
        (rate : Rate) (ok : Bool) (s : Rig World)
        → and_then talk (some (ok, s)) (keep_rate rate) ≡ some (ok, with_rate rate ok s)
    unfolding with_rate
    and_then-keep_rate rate true s = refl
    and_then-keep_rate rate false s = refl

    abbrev woken : Bool → Rig World → Rig World
    woken asleep s = if asleep then tell talk restart_body s else s

    Did-woken :
        (asleep ok : Bool) (s s' : Rig World) (l : List (List ℕ))
        → Did (woken asleep s) l ok s'
        → Did s ((if asleep then restart_body ∷ [] else []) ++ l) ok s'
    Did-woken true ok s s' l d =
        Did-then s (tell talk restart_body s) s' (restart_body ∷ []) l ok
          (Did-one s restart_body true (tell talk restart_body s)
            (handed-send restart_body s.outside) refl)
          d
    Did-woken false ok s s' l d = d

    paced :
        (rate : Rate) (body : List ℕ) (s : Rig World)
        → (f : ℕ) × (g : ℕ) × (ok : Bool) × (s' : Rig World) × (and_then talk
              (commit talk f g body (woken (is_off s.fix_rate) s))
              (keep_rate rate)
            ≡ some (ok, s'))
          × Changed rate
              ((if is_off s.fix_rate then restart_body ∷ [] else []) ++ steps (some body))
              s
              ok
              s'
    unfolding Ends2
    paced rate body s =
        let (f, g, ok, s1, run, d) = commit-Ends body (woken (is_off s.fix_rate) s) in
        (
          f,
          g,
          ok,
          with_rate rate ok s1,
          ap (λ x. and_then talk x (keep_rate rate)) run ∙ and_then-keep_rate rate ok s1,
          Did-Changed rate _ s ok s1 (Did-woken (is_off s.fix_rate) ok s s1 (steps (some body)) d),
        )

    Did-none : (s : Rig World) → Did s [] false s
    Did-none s = record {
      front = [];
      left = [];
      splits = refl;
      hands = sym (append-nil (handed s.outside));
      whole = λ e. refl;
      rate = refl;
    }

    unpaced :
        (s : Rig World)
        → Changed no_rate
            ((if is_off s.fix_rate then restart_body ∷ [] else []) ++ [])
            s
            false
            (woken (is_off s.fix_rate) s)
    unfolding with_rate
    unpaced s = Did-Changed no_rate _ s false (woken (is_off s.fix_rate) s) (
        Did-woken (is_off s.fix_rate) false s (woken (is_off s.fix_rate) s) []
          (Did-none (woken (is_off s.fix_rate) s)))

    abbrev sent_off : Bool → World → Rig World → Option (Bool × Rig World)
    sent_off sent w s =
        if sent
        then some (true, record s { fix_rate = off; outside = w })
        else some (false, record s { outside = w })

    suspended :
        (sent : Bool) (w : World) (s : Rig World)
        → handed w ≡ handed s.outside ++ suspend_body ∷ []
        → (ok : Bool) × (s' : Rig World) × (sent_off sent w s ≡ some (ok, s'))
          × Changed off (suspend_body ∷ []) s ok s'
    suspended true w s h = (
      true,
      record s { fix_rate = off; outside = w },
      refl,
      (refl, (suspend_body ∷ [], [], refl, h, λ e. refl)),
    )
    suspended false w s h =
        (false, record s { outside = w }, refl, (refl, (suspend_body ∷ [], [], refl, h, λ e. refl)))

    -- With a clock that `Runs`, `teseo_set_fix_rate` ends. It reports success with the new rate in
    -- `s_fix_rate`, or a failure with the old one. The commands that it hands over are the front of
    -- its script, and behind a success all of it: to suspend; or else to restart a receiver that was
    -- suspended, to set the period, to save it and to reboot. For a value that is no rate, the script
    -- is the restart alone, of a receiver that was suspended.
    pub set_fix_rate-Changed :
        (rate : Rate) (s : Rig World)
        → (f : ℕ) × (g : ℕ) × (ok : Bool) × (s' : Rig World) × (set_fix_rate talk f g rate s
            ≡ some (ok, s'))
          × Changed rate (script rate s.fix_rate) s ok s'
    unfolding set_fix_rate
    set_fix_rate-Changed hz1 s = paced hz1 _ s
    set_fix_rate-Changed hz2 s = paced hz2 _ s
    set_fix_rate-Changed hz5 s = paced hz5 _ s
    set_fix_rate-Changed hz10 s = paced hz10 _ s
    set_fix_rate-Changed no_rate s = (0, 0, false, woken (is_off s.fix_rate) s, refl, unpaced s)
    set_fix_rate-Changed off s =
        let (ok, s', run, did) =
          suspended (send suspend_body s.outside).0 (send suspend_body s.outside).1 s
            (handed-send suspend_body s.outside) in
        (0, 0, ok, s', run, did)
