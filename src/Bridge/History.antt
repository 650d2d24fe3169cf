-- ===== src/Bridge/History.antt =====
-- The bridge and core 0 at work: pushes on the data ring and rounds, in any order.
use mathlib.Core.Option
use mathlib.Core.List.{append_assoc, append-nil}
use mokya_lora.Prelude.{
  ℕ, ◌≤◌, ◌<◌, ◌≡◌, refl, sym, ap, ◌∙◌, subst, Bool, true, false, some, [], ◌∷◌, ◌++◌, take, drop,
  take-append-drop, u32, inl, inr, arith, if◌then◌else◌,
}
use mokya_lora.Ipc.Ring.{Message, push, payload_max, ring_slot_count}
use mokya_lora.Ipc.Ring.Spec.{Queue, packet}
use mokya_lora.Ipc.Ring.Inv.{IsValid, push-IsValid}
use mokya_lora.Ipc.Ring.Refine.{contents, push_refines}
use mokya_lora.Bridge.{Outside}
use mokya_lora.Bridge.Packets.{
  AllPackets, AllPackets-snoc, AllPackets-drop, enqueue-cases, handle_all, handle_all-append,
  serial_of, serial_of-append, any_reboot, any_reboot-append, NoneBehind, NoneBehind-take, IsSent,
  packet-IsPacket,
}
use mokya_lora.Bridge.Loop.{Bridge, round}
use mokya_lora.Bridge.Run.{round-Rounded}

-- The packets that a round takes.
abbrev pub taken : Bool → Queue → Queue
taken true c = []
taken false c = take 1 c

module _ (o : Outside) where
  open o use {World, mounted, sent, idle, sent-idle}

  abbrev pub pending_of : Bridge World → Queue
  pending_of s = contents ring_slot_count s.from_core0

  -- `ipc_ring_push` by core 0 on the data ring
  abbrev pub core0_push : Bridge World → Message → Bool × Bridge World
  core0_push s m =
      let (ok, r) = push ring_slot_count s.from_core0 m in (ok, record s { from_core0 = r })

  -- `After s0 s pushed done`: from `s0` to `s`, where the ring accepted the packets `pushed` from core
  -- 0 and the rounds took the packets `done`.
  pub data After (s0 : Bridge World) : Bridge World → Queue → Queue → Type 0 where
    start : After s0 s0 [] []
    pushes :
        {s : Bridge World} {pushed done : Queue} (m : Message)
        → After s0 s pushed done
        → IsSent m
        → After s0
            (core0_push s m).1
            (if (core0_push s m).0 then pushed ++ packet m ∷ [] else pushed)
            done
    rounds :
        {s s' : Bridge World} {pushed done : Queue} (f g : ℕ)
        → After s0 s pushed done
        → round o f g s ≡ some s'
        → After s0 s' pushed (done ++ taken s.reboot_pending (pending_of s))

  -- a bridge whose data ring is empty
  pub record IsFresh (s : Bridge World) : Type 0 where
    pub ring : IsValid ring_slot_count s.from_core0
    pub empty : pending_of s ≡ []
    pub total : s.rx_total < u32
    pub running : s.reboot_pending ≡ false

  record Sound (s0 s : Bridge World) (pushed done : Queue) : Type 0 where
    valid : IsValid ring_slot_count s.from_core0
    packets : AllPackets (pending_of s)
    order : pushed ≡ done ++ pending_of s
    kept : s.kept ≡ handle_all s0.kept done
    total : s.rx_total < u32
    pending : s.reboot_pending ≡ any_reboot done
    last : NoneBehind done
    stream :
        ((w : World) → (mounted w).0 ≡ true) → sent s.outside ≡ sent s0.outside ++ serial_of done

  push-Sound :
      (s0 s : Bridge World) (pushed done : Queue) (m : Message)
      → Sound s0 s pushed done
      → IsSent m
      → Sound s0
          (core0_push s m).1
          (if (core0_push s m).0 then pushed ++ packet m ∷ [] else pushed)
          done
  push-Sound s0 s pushed done m v h = elim (enqueue-cases ring_slot_count (pending_of s) m) [
    | inl (fits, e) ↦ accepted fits (push_refines ring_slot_count m v.valid h.0 ∙ e)
    | inr e ↦ refused (push_refines ring_slot_count m v.valid h.0 ∙ e)
  ]
    where
      ok : Bool
      ok = (core0_push s m).0

      s' : Bridge World
      s' = (core0_push s m).1

      grown : Bool → Queue
      grown b = if b then pushed ++ packet m ∷ [] else pushed

      accepted :
          m.len ≤ payload_max
          → ◌≡◌ {A = Bool × Queue} (ok, pending_of s') (true, pending_of s ++ packet m ∷ [])
          → Sound s0 s' (grown ok) done
      accepted fits e =
          let c = sym (ap (λ x. x.1) e) in
          subst (λ b. Sound s0 s' (grown b) done) (sym (ap (λ x. x.0) e))
            record {
              valid = push-IsValid ring_slot_count m v.valid;
              packets =
                  subst AllPackets c (
                    AllPackets-snoc (pending_of s) (packet m) v.packets (packet-IsPacket m h fits));
              order =
                  ap (λ t. t ++ packet m ∷ []) v.order
                  ∙ append_assoc done (pending_of s) (packet m ∷ [])
                  ∙ ap (λ t. done ++ t) c;
              kept = v.kept;
              total = v.total;
              pending = v.pending;
              last = v.last;
              stream = v.stream;
            }

      refused :
          ◌≡◌ {A = Bool × Queue} (ok, pending_of s') (false, pending_of s)
          → Sound s0 s' (grown ok) done
      refused e =
          let c = sym (ap (λ x. x.1) e) in
          subst (λ b. Sound s0 s' (grown b) done) (sym (ap (λ x. x.0) e))
            record {
              valid = push-IsValid ring_slot_count m v.valid;
              packets = subst AllPackets c v.packets;
              order = v.order ∙ ap (λ t. done ++ t) c;
              kept = v.kept;
              total = v.total;
              pending = v.pending;
              last = v.last;
              stream = v.stream;
            }

  -- A round behind the announcement of a reboot only waits.
  round-idle :
      (s s' : Bridge World) (f g : ℕ)
      → s.reboot_pending ≡ true
      → round o f g s ≡ some s'
      → record s { outside = idle s.outside } ≡ s'
  unfolding round
  round-idle s s' f g up e = Option.some-injective _ _ (ground (arith, up, e))

  round-Sound :
      (s0 s s' : Bridge World) (pushed done : Queue) (f g : ℕ)
      → Sound s0 s pushed done
      → round o f g s ≡ some s'
      → Sound s0 s' pushed (done ++ taken s.reboot_pending (pending_of s))
  round-Sound s0 s s' pushed done f g v e = split s.reboot_pending refl
    where
      split :
          (b : Bool) → s.reboot_pending ≡ b → Sound s0 s' pushed (done ++ taken b (pending_of s))
      split true up =
          subst (λ d. Sound s0 s' pushed d) (sym (append-nil done))
            (subst (λ t. Sound s0 t pushed done) (round-idle s s' f g up e)
              record {
                valid = v.valid;
                packets = v.packets;
                order = v.order;
                kept = v.kept;
                total = v.total;
                pending = v.pending;
                last = v.last;
                stream = λ m. sent-idle s.outside ∙ v.stream m;
              })
      split false up =
          let r = round-Rounded o f g s s' v.total v.valid v.packets up e in
          let c = pending_of s in
          record {
            valid = r.valid;
            packets = subst AllPackets (sym r.rest) (AllPackets-drop 1 c v.packets);
            order =
                v.order
                ∙ ap (λ t. done ++ t) (sym (take-append-drop 1 c))
                ∙ sym (append_assoc done (take 1 c) (drop 1 c))
                ∙ ap (λ t. (done ++ take 1 c) ++ t) (sym r.rest);
            kept =
                r.kept
                ∙ ap (λ k. handle_all k (take 1 c)) v.kept
                ∙ sym (handle_all-append s0.kept done (take 1 c));
            total = r.total;
            pending = ground (arith, r.pending, up, v.pending, any_reboot-append done (take 1 c));
            last = NoneBehind-take done c v.last (sym v.pending ∙ up);
            stream = λ m.
                r.stream m
                ∙ ap (λ t. t ++ serial_of (take 1 c)) (v.stream m)
                ∙ append_assoc (sent s0.outside) (serial_of done) (serial_of (take 1 c))
                ∙ ap (λ t. sent s0.outside ++ t) (sym (serial_of-append done (take 1 c)));
          }

  After-Sound :
      (s0 s : Bridge World) (pushed done : Queue)
      → IsFresh s0
      → After s0 s pushed done
      → Sound s0 s pushed done
  After-Sound s0 _ _ _ h start = record {
    valid = h.ring;
    packets = subst AllPackets (sym h.empty) tt;
    order = sym h.empty;
    kept = refl;
    total = h.total;
    pending = h.running;
    last = tt;
    stream = λ m. sym (append-nil (sent s0.outside));
  }
  After-Sound s0 _ _ done h (pushes {s} {pushed} m a sound) =
      push-Sound s0 s pushed done m (After-Sound s0 s pushed done h a) sound
  After-Sound s0 s' pushed _ h (rounds {s} {done = done} f g a e) =
      round-Sound s0 s s' pushed done f g (After-Sound s0 s pushed done h a) e

  -- However core 0's pushes and the bridge's rounds follow one another from an empty data ring: what
  -- the ring accepted is what the rounds took, in order, followed by what is pending; the nodes, the
  -- inbox and the transmit status are those that the taken packets leave, each applied once and read
  -- from its own bytes; and behind a packet that announces a reboot no other is taken.
  pub After-stores :
      (s0 s : Bridge World) (pushed done : Queue)
      → IsFresh s0
      → After s0 s pushed done
      → (pushed ≡ done ++ pending_of s)
        × (s.kept ≡ handle_all s0.kept done)
        × (s.reboot_pending ≡ any_reboot done)
        × NoneBehind done
  After-stores s0 s pushed done h a =
      let v = After-Sound s0 s pushed done h a in (v.order, v.kept, v.pending, v.last)

  -- However core 0's pushes and the bridge's rounds follow one another from an empty data ring, while
  -- the device is always found mounted: the CDC endpoint was given the bytes of the serial messages
  -- among the taken packets, whole and in order, and nothing else, so no byte of a log line.
  pub After-stream :
      (s0 s : Bridge World) (pushed done : Queue)
      → IsFresh s0
      → After s0 s pushed done
      → ((w : World) → (mounted w).0 ≡ true)
      → sent s.outside ≡ sent s0.outside ++ serial_of done
  After-stream s0 s pushed done h a m = (After-Sound s0 s pushed done h a).stream m
