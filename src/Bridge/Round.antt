-- ===== src/Bridge/Round.antt =====
-- What a round of `bridge_task` does to the data ring, the stores and the serial stream.
use mathlib.Core.Option
use mathlib.Core.List.{append-nil}
use mokya_lora.Prelude.{
  ℕ, zero, suc, ◌<◌, ◌≡◌, refl, sym, ◌∙◌, subst, Bool, true, false, ◌||◌, Option, none, some, List,
  [], ◌∷◌, ◌++◌, take, length, u32, inl, inr, arith, if◌then◌else◌,
}
use mokya_lora.Ipc.Ring.{Header, Ring, Message, push, payload_max, ring_slot_count, copy_over}
use mokya_lora.Bridge.{Outside, Kind, reboot, node, ack, text, serial, other, store}
use mokya_lora.Bridge.Loop.{
  Bridge, write_bytes, push_until, finish, command, pushed, forward, from_host, written, dispatch,
}
use mokya_lora.Bridge.Serial.{Written, write_bytes-Written}

abbrev pub is_reboot : Kind → Bool
is_reboot reboot = true
is_reboot node = false
is_reboot ack = false
is_reboot text = false
is_reboot serial = false
is_reboot other = false

-- the bytes that a message puts on the wire
abbrev pub wire : Kind → List ℕ → List ℕ
wire serial b = b
wire reboot b = []
wire node b = []
wire ack b = []
wire text b = []
wire other b = []

module _ (o : Outside) where
  open o use {
    World, mounted, connected, available, read, sent, delay, idle, flush, sent-mounted,
    sent-connected, sent-available, sent-read, sent-flush, sent-disconnect, sent-ring_doorbell,
    sent-idle, sent-delay,
  }

  -- what the other end of the task leaves alone
  pub record Same (s s' : Bridge World) : Type 0 where
    pub ring : s'.from_core0 ≡ s.from_core0
    pub kept : s'.kept ≡ s.kept
    pub pending : s'.reboot_pending ≡ s.reboot_pending
    pub stream : sent s'.outside ≡ sent s.outside
    pub total : s'.rx_total ≡ s.rx_total

  finish-stream :
      (did_work : Bool) (s : Bridge World) → sent (finish o did_work s).outside ≡ sent s.outside
  finish-stream true s = sent-connected (mounted s.outside).1 ∙ sent-mounted s.outside
  finish-stream false s =
      sent-idle (connected (mounted s.outside).1).1
      ∙ sent-connected (mounted s.outside).1
      ∙ sent-mounted s.outside

  push_until-stream :
      (g : ℕ) (m : Message) (r : Ring) (w : World) (r' : Ring) (w' : World)
      → push_until o g m r w ≡ some (r', w')
      → sent w' ≡ sent w
  unfolding push_until
  push_until-stream zero m r w r' w' e = cc
  push_until-stream (suc g) m r w r' w' e =
      let r1 = (push ring_slot_count r m).1 in
      ground (arith, e, push_until-stream g m (delay r1 w).0 (delay r1 w).1 r' w', sent-delay r1 w)

  finish-Same : (did_work : Bool) (s : Bridge World) → Same s (finish o did_work s)
  finish-Same did_work s = record {
    ring = refl;
    kept = refl;
    pending = refl;
    stream = finish-stream did_work s;
    total = refl;
  }

  forward-Same :
      (g : ℕ) (did_work : Bool) (l : List ℕ) (s s' : Bridge World)
      → forward o g did_work l s ≡ some s'
      → Same s s'
  forward-Same g did_work [] s s' e =
      subst (λ t. Same s t) (Option.some-injective _ _ e) (finish-Same did_work s)
  forward-Same g did_work (b ∷ l) s s' e =
      forwarded (push_until o g (command o s.tx_seq scratch (length (b ∷ l))) s.cmd s.outside)
        (λ r w h. push_until-stream g _ s.cmd s.outside r w h) e
    where
      scratch : List ℕ
      scratch = copy_over (b ∷ l) s.scratch

      forwarded :
          (x : Option (Ring × World))
          → ((r : Ring) (w : World) → x ≡ some (r, w) → sent w ≡ sent s.outside)
          → Option.map
              (λ p.
                finish o true (
                  pushed o (record s { scratch = copy_over (b ∷ l) s.scratch }) (length (b ∷ l)) p))
              x
            ≡ some s'
          → Same s s'
      forwarded none h k = cc
      forwarded (some (r, w)) h k =
          subst (λ t. Same s t) (Option.some-injective _ _ k)
            record {
              ring = refl;
              kept = refl;
              pending = refl;
              stream =
                  finish-stream true (
                    pushed o (record s { scratch = copy_over (b ∷ l) s.scratch }) (length (b ∷ l))
                      (r, w))
                  ∙ sent-ring_doorbell w
                  ∙ h r w refl;
              total = refl;
            }

  pub from_host-Same :
      (g : ℕ) (did_work : Bool) (s s' : Bridge World)
      → from_host o g did_work s ≡ some s'
      → Same s s'
  unfolding from_host
  from_host-Same g did_work s s' e = chosen (available s.outside).0 e
    where
      w1 : World
      w1 = (available s.outside).1

      w2 : World
      w2 = (read payload_max w1).1

      chosen :
          (any : Bool)
          → (if any
              then forward o g did_work
                  (read payload_max (available s.outside).1).0
                  (record s { outside = (read payload_max (available s.outside).1).1 })
              else some (finish o did_work (record s { outside = (available s.outside).1 })))
            ≡ some s'
          → Same s s'
      chosen true k =
          let r = forward-Same g did_work _ (record s { outside = w2 }) s' k in
          record {
            ring = r.ring;
            kept = r.kept;
            pending = r.pending;
            stream = r.stream ∙ sent-read payload_max w1 ∙ sent-available s.outside;
            total = r.total;
          }
      chosen false k =
          let r =
            subst (λ t. Same (record s { outside = w1 }) t) (Option.some-injective _ _ k)
              (finish-Same did_work (record s { outside = w1 })) in
          record {
            ring = r.ring;
            kept = r.kept;
            pending = r.pending;
            stream = r.stream ∙ sent-available s.outside;
            total = r.total;
          }

  -- A message leaves the ring alone and stores what it says; a mounted device gets its serial bytes.
  pub record Dispatched (x : Kind) (h : Header) (s s' : Bridge World) : Type 0 where
    pub ring : s'.from_core0 ≡ s.from_core0
    pub kept : s'.kept ≡ store x h s.scratch s.kept
    pub pending : s'.reboot_pending ≡ (s.reboot_pending || is_reboot x)
    pub total : s'.rx_total < u32
    pub front : List ℕ
    pub stream : sent s'.outside ≡ sent s.outside ++ front
    pub left : List ℕ
    pub splits : front ++ left ≡ wire x (take h.payload_len s.scratch)
    pub whole : ((w : World) → (mounted w).0 ≡ true) → left ≡ []

  -- the kinds that end the round once they are stored
  stored-Dispatched :
      (x : Kind) (h : Header) (s s' : Bridge World)
      → s.rx_total < u32
      → is_reboot x ≡ false
      → wire x (take h.payload_len s.scratch) ≡ []
      → some (record s { kept = store x h s.scratch s.kept }) ≡ some s'
      → Dispatched x h s s'
  stored-Dispatched x h s s' t quiet nothing e =
      subst (λ t. Dispatched x h s t) (Option.some-injective _ _ e)
        record {
          ring = refl;
          kept = refl;
          pending = ground (arith, quiet);
          total = t;
          front = [];
          stream = sym (append-nil (sent s.outside));
          left = [];
          splits = sym nothing;
          whole = λ m. refl;
        }

  written-Dispatched :
      (g : ℕ) (h : Header) (s s' : Bridge World) (rest : List ℕ) (total : ℕ) (w : World)
      → Written o (take h.payload_len s.scratch) s.rx_total s.outside rest total w
      → from_host o g true (written o s (rest, total, w)) ≡ some s'
      → Dispatched serial h s s'
  unfolding store
  written-Dispatched g h s s' rest total w v e =
      let r = from_host-Same g true (written o s (rest, total, w)) s' e in
      record {
        ring = r.ring;
        kept = r.kept;
        pending = r.pending ∙ ground arith;
        total = omega (arith, r.total, v.counts);
        front = v.front;
        stream = r.stream ∙ sent-flush w ∙ v.sends;
        left = rest;
        splits = v.splits;
        whole = λ m. elim v.whole [
          | inl done ↦ done
          | inr (z, down, e') ↦ absurd (ground (arith, m z, down))
        ];
      }

  pub dispatch-Dispatched :
      (f g : ℕ) (x : Kind) (h : Header) (s s' : Bridge World)
      → s.rx_total < u32
      → dispatch o f g x h s ≡ some s'
      → Dispatched x h s s'
  unfolding dispatch store
  dispatch-Dispatched f g reboot h s s' t e =
      subst (λ t. Dispatched reboot h s t) (Option.some-injective _ _ e)
        record {
          ring = refl;
          kept = refl;
          pending = ground arith;
          total = t;
          front = [];
          stream = sent-disconnect s.outside ∙ sym (append-nil (sent s.outside));
          left = [];
          splits = refl;
          whole = λ m. refl;
        }
  dispatch-Dispatched f g node h s s' t e = stored-Dispatched node h s s' t refl refl e
  dispatch-Dispatched f g ack h s s' t e = stored-Dispatched ack h s s' t refl refl e
  dispatch-Dispatched f g text h s s' t e = stored-Dispatched text h s s' t refl refl e
  dispatch-Dispatched f g other h s s' t e =
      let r = from_host-Same g true s s' e in
      record {
        ring = r.ring;
        kept = r.kept;
        pending = r.pending ∙ ground arith;
        total = omega (arith, r.total, t);
        front = [];
        stream = r.stream ∙ sym (append-nil (sent s.outside));
        left = [];
        splits = refl;
        whole = λ m. refl;
      }
  dispatch-Dispatched f g serial h s s' t e =
      serial_case (write_bytes o f (take h.payload_len s.scratch) s.rx_total s.outside)
        (λ rest total w k. write_bytes-Written o f _ s.rx_total s.outside rest total w t k) e
    where
      serial_case :
          (x : Option (List ℕ × ℕ × World))
          → ((rest : List ℕ) (total : ℕ) (w : World)
              → x ≡ some (rest, total, w)
              → Written o (take h.payload_len s.scratch) s.rx_total s.outside rest total w)
          → elim x [ none ↦ none | some r ↦ from_host o g true (written o s r) ] ≡ some s'
          → Dispatched serial h s s'
      serial_case none v k = cc
      serial_case (some (rest, total, w)) v k =
          written-Dispatched g h s s' rest total w (v rest total w refl) k
