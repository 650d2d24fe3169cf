-- ===== src/Bridge/Commands.antt =====
-- What the host types reaches the command ring, and no round of the bridge hangs.
use mathlib.Core.Option
use mokya_lora.Prelude.{
  ℕ, zero, suc, ◌≤◌, ◌<◌, ◌≡◌, refl, ap, ◌∙◌, Bool, true, false, Option, none, some, List, [], ◌∷◌,
  ◌++◌, drop, take, length, arith, inl, inr, ◌⊎◌, le-or-gt, if◌then◌else◌, length-append,
}
use mokya_lora.Ipc.Ring.{
  Ring, Header, Message, Popped, push, pop, payload_max, ring_slot_count, log_ring_slot_count,
  copy_over,
}
use mokya_lora.Ipc.Ring.Spec.{Queue, IsMessage, packet, enqueue}
use mokya_lora.Ipc.Ring.Inv.{IsValid, push-IsValid}
use mokya_lora.Ipc.Ring.Refine.{contents, push_refines}
use mokya_lora.Bridge.{Outside, Kind, reboot, node, ack, text, serial, other, kind}
use mokya_lora.Bridge.Loop.{
  Bridge, push_until, command, pushed, finish, forward, from_host, dispatch, received, round,
  written, drop_log,
}
use mokya_lora.Bridge.Serial.{Drains, write_bytes-Ends}

-- a push on a queue that may be full
enqueue-room :
    (cap : ℕ) (c : Queue) (m : Message)
    → m.len ≤ payload_max
    → (enqueue cap c m ≡ (true, c ++ packet m ∷ []))
      ⊎ ((cap ≤ length c) × (enqueue cap c m ≡ (false, c)))
unfolding enqueue
enqueue-room cap c m h = elim (le-or-gt cap (length c)) [
  | inl full ↦ inr (full, ground arith)
  | inr room ↦ inl (ground arith)
]

drop-drop : (m n : ℕ) (c : Queue) → (k : ℕ) × (drop m (drop n c) ≡ drop k c)
drop-drop m zero c = (m, refl)
drop-drop zero (suc n) [] = (0, refl)
drop-drop (suc m) (suc n) [] = (0, refl)
drop-drop m (suc n) (p ∷ c) = let (k, e) = drop-drop m n c in (suc k, e)

module _ (o : Outside) where
  open o use {World, available, read, delay, delay-pops, read-le}

  abbrev pending : Ring → Queue
  pending r = contents ring_slot_count r

  -- Core 0 goes on reading: it does not leave the command ring full for ever, but for at most
  -- `patience` delays in a row.
  pub record Listens : Type 0 where
    pub patience : Queue → World → ℕ
    pub wears_off :
        (r : Ring) (w : World)
        → IsValid ring_slot_count r
        → ring_slot_count ≤ length (contents ring_slot_count r)
        → patience (contents ring_slot_count (delay r w).0) (delay r w).1
          < patience (contents ring_slot_count r) w

  Delivered : Message → Ring → World → Type 0
  Delivered m r w =
      (g : ℕ) × (r' : Ring) × (w' : World) × (push_until o g m r w ≡ some (r', w'))
      × IsValid ring_slot_count r'
      × ((k : ℕ) × (pending r' ≡ drop k (pending r) ++ packet m ∷ []))

  delivers :
      (d : Listens) (n : ℕ) (m : Message) (r : Ring) (w : World)
      → IsValid ring_slot_count r
      → IsMessage m
      → m.len ≤ payload_max
      → d.patience (pending r) w < n
      → Delivered m r w
  unfolding Delivered push_until
  delivers d zero m r w v a h j = absurd (omega arith)
  delivers d (suc n) m r w v a h j = elim (enqueue-room ring_slot_count (pending r) m h) [
    | inl e ↦
        let same = push_refines ring_slot_count m v a ∙ e in
        (
          1,
          r1,
          w,
          ap (λ b. if b then some (r1, w) else none) (ap (λ x. x.0) same),
          push-IsValid ring_slot_count m v,
          (0, ap (λ x. x.1) same),
        )
    | inr (full, e) ↦
        let same = push_refines ring_slot_count m v a ∙ e in
        let (v2, (j0, pops)) = delay-pops r1 w (push-IsValid ring_slot_count m v) in
        let (g, r', w', e', v', (i, c)) =
          delivers d n m (delay r1 w).0 (delay r1 w).1 v2 a h (wears full (ap (λ x. x.1) same)) in
        let (k, both) = drop-drop i j0 (pending r) in
        (
          suc g,
          r',
          w',
          ap (λ b. if b then some (r1, w) else push_until o g m (delay r1 w).0 (delay r1 w).1)
                (ap (λ x. x.0) same)
              ∙ e',
          v',
          (
            k,
            c
                ∙ ap (λ q. drop i q ++ packet m ∷ []) (pops ∙ ap (drop j0) (ap (λ x. x.1) same))
                ∙ ap (λ q. q ++ packet m ∷ []) both,
          ),
        )
  ]
    where
      r1 : Ring
      r1 = (push ring_slot_count r m).1

      wears :
          ring_slot_count ≤ length (pending r)
          → pending (push ring_slot_count r m).1 ≡ pending r
          → d.patience
              (pending (delay (push ring_slot_count r m).1 w).0)
              (delay (push ring_slot_count r m).1 w).1
            < n
      wears full same = omega (
        arith,
        d.wears_off r1 w (push-IsValid ring_slot_count m v) (omega (arith, full, ap length same)),
        ap (λ c. d.patience c w) same,
      )

  -- With a core 0 that goes on reading, the loop around `ipc_ring_push` ends, and what the host typed
  -- stands last in the command ring, behind what is left of the commands that were there.
  pub push_until-delivers :
      (m : Message) (r : Ring) (w : World)
      → Listens
      → IsValid ring_slot_count r
      → IsMessage m
      → m.len ≤ payload_max
      → (g : ℕ) × (r' : Ring) × (w' : World) × (push_until o g m r w ≡ some (r', w'))
        × IsValid ring_slot_count r'
        × ((k : ℕ) × (contents ring_slot_count r'
              ≡ drop k (contents ring_slot_count r) ++ packet m ∷ []))
  unfolding Delivered
  push_until-delivers m r w d v a h =
      delivers d (suc (d.patience (pending r) w)) m r w v a h (omega arith)

  module _ (listens : Listens) where
    forward-ends :
        (did_work : Bool) (l : List ℕ) (s : Bridge World)
        → IsValid ring_slot_count s.cmd
        → length l ≤ payload_max
        → (g : ℕ) × ((s' : Bridge World) × (forward o g did_work l s ≡ some s'))
    forward-ends did_work [] s v h = (0, (finish o did_work s, refl))
    forward-ends did_work (b ∷ l) s v h =
        let scratch = copy_over (b ∷ l) s.scratch in
        let (g, r', w', e, v', rest) =
          push_until-delivers (command o s.tx_seq scratch (length (b ∷ l))) s.cmd s.outside listens
            v (omega (arith, length-append (b ∷ l) (drop (length (b ∷ l)) s.scratch))) h in
        (
          g,
          (
            finish o true (pushed o (record s { scratch = scratch }) (length (b ∷ l)) (r', w')),
            ap
                (Option.map (λ p.
                  finish o true (pushed o (record s { scratch = scratch }) (length (b ∷ l)) p)))
                e,
          ),
        )

    from_host-ends :
        (did_work : Bool) (s : Bridge World)
        → IsValid ring_slot_count s.cmd
        → (g : ℕ) × ((s' : Bridge World) × (from_host o g did_work s ≡ some s'))
    unfolding from_host
    from_host-ends did_work s v = chosen (available s.outside).0
      where
        w1 : World
        w1 = (available s.outside).1

        l : List ℕ
        l = (read payload_max w1).0

        s2 : Bridge World
        s2 = record s { outside = (read payload_max w1).1 }

        s1 : Bridge World
        s1 = record s { outside = w1 }

        chosen :
            (any : Bool)
            → (g : ℕ) × ((s' : Bridge World) × ((if any
                    then forward o g did_work l s2
                    else some (finish o did_work s1))
                  ≡ some s'))
        chosen true = forward-ends did_work l s2 v (read-le payload_max w1)
        chosen false = (0, (finish o did_work s1, refl))

    module _ (drains : Drains o) where
      abbrev Ends : (ℕ → ℕ → Option (Bridge World)) → Type 0
      Ends run = (f : ℕ) × (g : ℕ) × ((s' : Bridge World) × (run f g ≡ some s'))

      from_host-Ends :
          (did_work : Bool) (s : Bridge World)
          → IsValid ring_slot_count s.cmd
          → Ends (λ f g. from_host o g did_work s)
      from_host-Ends did_work s v = let (g, r) = from_host-ends did_work s v in (0, g, r)

      dispatch-Ends :
          (x : Kind) (h : Header) (s : Bridge World)
          → IsValid ring_slot_count s.cmd
          → Ends (λ f g. dispatch o f g x h s)
      unfolding dispatch
      dispatch-Ends reboot h s v = (0, 0, (_, refl))
      dispatch-Ends node h s v = (0, 0, (_, refl))
      dispatch-Ends ack h s v = (0, 0, (_, refl))
      dispatch-Ends text h s v = (0, 0, (_, refl))
      dispatch-Ends other h s v = from_host-Ends true s v
      dispatch-Ends serial h s v =
          let (f, (r, e)) =
            write_bytes-Ends o drains (length p) (suc (drains.patience s.outside)) p s.rx_total
              s.outside (omega arith) (omega arith) in
          let (g, (s', e')) = from_host-ends true (written o s r) v in
          (
            f,
            g,
            (
              s',
              ap (λ x. elim x [ none ↦ none | some r ↦ from_host o g true (written o s r) ]) e ∙ e',
            ),
          )
        where
          p : List ℕ
          p = take h.payload_len s.scratch

      received-Ends :
          (s : Bridge World) (x : Option Popped) (r : Ring)
          → IsValid ring_slot_count s.cmd
          → Ends (λ f g. received o f g s (x, r))
      received-Ends s (some p) r v = dispatch-Ends (kind p.header) p.header _ v
      received-Ends s none r v =
          let out = pop log_ring_slot_count s.log payload_max (some s.scratch) in logged out.0 out.1
        where
          logged :
              (x : Option Popped) (l : Ring)
              → Ends (λ f g. from_host o g false (drop_log o (record s { from_core0 = r }) (x, l)))
          logged none l = from_host-Ends false _ v
          logged (some p) l = from_host-Ends false _ v

      -- No round hangs: with a host that goes on reading while it is there and a core 0 that goes on
      -- reading its commands, every round of the bridge ends, whatever stands in the data and the log
      -- ring.
      pub round-ends :
          (s : Bridge World)
          → IsValid ring_slot_count s.cmd
          → (f : ℕ) × (g : ℕ) × ((s' : Bridge World) × (round o f g s ≡ some s'))
      unfolding round
      round-ends s v = chosen s.reboot_pending
        where
          popped : Option Popped × Ring
          popped = pop ring_slot_count s.from_core0 payload_max (some s.scratch)

          chosen :
              (b : Bool)
              → Ends (λ f g.
                if b
                then some (record s { outside = o.idle s.outside })
                else received o f g s popped)
          chosen true = (0, 0, (_, refl))
          chosen false = received-Ends s popped.0 popped.1 v
