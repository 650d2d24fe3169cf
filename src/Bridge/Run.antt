-- ===== src/Bridge/Run.antt =====
-- What core 0 pushes on the data ring reaches the stores of core 1 and the host, in order.
use mathlib.Core.List.{append-nil}
use mokya_lora.Prelude.{
  ℕ, ◌+◌, ◌<◌, ◌≡◌, sym, ap, ◌∙◌, subst, true, false, ◌||◌, Option, none, some, List, [], ◌∷◌, ◌++◌,
  take, take-append, drop, length, u32, arith, if◌then◌else◌,
}
use mokya_lora.Ipc.Ring.{Ring, Popped, pop, payload_max, ring_slot_count, log_ring_slot_count}
use mokya_lora.Ipc.Ring.Spec.{Packet, Queue, bytes_of, deliver, dequeue}
use mokya_lora.Ipc.Ring.Inv.{IsValid, pop-IsValid}
use mokya_lora.Ipc.Ring.Refine.{contents, pop_refines}
use mokya_lora.Bridge.{Outside, kind, store}
use mokya_lora.Bridge.Fields.{IsPacket, store-packet}
use mokya_lora.Bridge.Packets.{AllPackets, handle_all, serial_of, any_reboot, deliver-buffer}
use mokya_lora.Bridge.Loop.{Bridge, drop_log, from_host, received, round}
use mokya_lora.Bridge.Round.{Same, dispatch-Dispatched, from_host-Same, wire}

module _ (o : Outside) where
  open o use {World, mounted, sent, idle, sent-idle}

  -- What a round that takes these packets does, and what stays pending.
  pub record Rounded (ps left_over : Queue) (s s' : Bridge World) : Type 0 where
    pub valid : IsValid ring_slot_count s'.from_core0
    pub rest : contents ring_slot_count s'.from_core0 ≡ left_over
    pub kept : s'.kept ≡ handle_all s.kept ps
    pub total : s'.rx_total < u32
    pub pending : s'.reboot_pending ≡ (s.reboot_pending || any_reboot ps)
    pub stream :
        ((w : World) → (mounted w).0 ≡ true) → sent s'.outside ≡ sent s.outside ++ serial_of ps

  module _ (f g : ℕ) (s s' : Bridge World) (t : s.rx_total < u32) (r : Ring)
      (v : IsValid ring_slot_count r) where
    quiet-Rounded :
        (l : Ring) (b : List ℕ)
        → Same o (record s { from_core0 = r; log = l; scratch = b }) s'
        → contents ring_slot_count r ≡ []
        → Rounded [] [] s s'
    quiet-Rounded l b x empty = record {
      valid = subst (IsValid ring_slot_count) (sym x.ring) v;
      rest = ap (contents ring_slot_count) x.ring ∙ empty;
      kept = x.kept;
      total = omega (arith, x.total, t);
      pending = x.pending ∙ ground arith;
      stream = λ m. x.stream ∙ sym (append-nil (sent s.outside));
    }

    received-none :
        contents ring_slot_count r ≡ [] → received o f g s (none, r) ≡ some s' → Rounded [] [] s s'
    received-none empty e =
        let out = pop log_ring_slot_count s.log payload_max (some s.scratch) in logged out.0 out.1 e
      where
        logged :
            (x : Option Popped) (l : Ring)
            → from_host o g false (drop_log o (record s { from_core0 = r }) (x, l)) ≡ some s'
            → Rounded [] [] s s'
        logged none l k = quiet-Rounded l s.scratch (from_host-Same o g false _ s' k) empty
        logged (some p) l k =
            quiet-Rounded l (bytes_of p.buffer) (from_host-Same o g false _ s' k) empty

    received-some :
        (p : Packet) (q : Queue)
        → IsPacket p
        → contents ring_slot_count r ≡ q
        → received o f g s (some (deliver p payload_max (some s.scratch)), r) ≡ some s'
        → Rounded (p ∷ []) q s s'
    received-some p q w c e =
        let (stale, same) = deliver-buffer p s.scratch w in
        let x = dispatch-Dispatched o f g (kind p.header) p.header _ s' t e in
        record {
          valid = subst (IsValid ring_slot_count) (sym x.ring) v;
          rest = ap (contents ring_slot_count) x.ring ∙ c;
          kept =
              x.kept
              ∙ ap (λ b. store (kind p.header) p.header b s.kept) same
              ∙ store-packet p stale w s.kept;
          total = x.total;
          pending = x.pending ∙ ground arith;
          stream = λ m.
              x.stream
              ∙ ap (λ t. sent s.outside ++ t)
                  (sym (append-nil x.front)
                    ∙ ap (λ t. x.front ++ t) (sym (x.whole m))
                    ∙ x.splits
                    ∙ ap (wire (kind p.header)) (own stale same)
                    ∙ sym (append-nil (wire (kind p.header) p.bytes)));
        }
      where
        own :
            (stale : List ℕ)
            → bytes_of (deliver p payload_max (some s.scratch)).buffer ≡ p.bytes ++ stale
            → take p.header.payload_len (bytes_of (deliver p payload_max (some s.scratch)).buffer)
              ≡ p.bytes
        own stale same =
            ap (take p.header.payload_len) same
            ∙ ap (λ n. take n (p.bytes ++ stale)) {y = length p.bytes + 0} (omega (arith, w.whole))
            ∙ take-append p.bytes stale 0
            ∙ append-nil p.bytes

  received-Rounded :
      (f g : ℕ) (s s' : Bridge World) (c : Queue) (x : Option Popped) (r : Ring)
      → s.rx_total < u32
      → IsValid ring_slot_count r
      → AllPackets c
      → ◌≡◌ {A = Option Popped × Queue}
          (x, contents ring_slot_count r)
          (dequeue c payload_max (some s.scratch))
      → received o f g s (x, r) ≡ some s'
      → Rounded (take 1 c) (drop 1 c) s s'
  unfolding dequeue
  received-Rounded f g s s' [] x r t v all d e =
      received-none f g s s' t r v (ap (λ y. y.1) d)
        (ap (λ y. received o f g s (y, r)) (sym (ap (λ y. y.0) d)) ∙ e)
  received-Rounded f g s s' (p ∷ q) x r t v all d e =
      received-some f g s s' t r v p q all.0 (ap (λ y. y.1) d)
        (ap (λ y. received o f g s (y, r)) (sym (ap (λ y. y.0) d)) ∙ e)

  -- A round takes the oldest packet, if there is one, unless a reboot is pending.
  pub round-Rounded :
      (f g : ℕ) (s s' : Bridge World)
      → s.rx_total < u32
      → IsValid ring_slot_count s.from_core0
      → AllPackets (contents ring_slot_count s.from_core0)
      → s.reboot_pending ≡ false
      → round o f g s ≡ some s'
      → let c = contents ring_slot_count s.from_core0 in Rounded (take 1 c) (drop 1 c) s s'
  unfolding round
  round-Rounded f g s s' t v all up e =
      received-Rounded f g s s' (contents ring_slot_count s.from_core0)
        (pop ring_slot_count s.from_core0 payload_max (some s.scratch)).0
        (pop ring_slot_count s.from_core0 payload_max (some s.scratch)).1 t
        (pop-IsValid ring_slot_count payload_max (some s.scratch) v) all
        (pop_refines ring_slot_count payload_max (some s.scratch) v)
        (ap
            (λ b.
              if b
              then some (record s { outside = idle s.outside })
              else received o f g s (pop ring_slot_count s.from_core0 payload_max (some s.scratch)))
            (sym up)
          ∙ e)
