-- ===== src/Ipc/Ring/Cores/Order.antt =====
-- Whatever the interleaving, the consumer takes what the producer sent, whole and in order.
use mathlib.Core.List.{append_assoc}
use mokya_lora.Prelude.{
  ℕ, ◌%◌, ◌≤◌, ◌<◌, ◌≡◌, refl, sym, ap, ◌∙◌, [], ◌∷◌, ◌++◌, map, arith, add32, sub32, take, subst,
}
use mokya_lora.Ipc.Ring.{Slot, Ring, Message, fill, count_overflow}
use mokya_lora.Ipc.Ring.Spec.{Packet, visible, packet}
use mokya_lora.Ipc.Ring.Inv.{IsValid}
use mokya_lora.Ipc.Ring.Window.{window}
use mokya_lora.Ipc.Ring.Refine.{contents, visible-fill}
use mokya_lora.Ipc.Ring.Cores.{
  Producer, idle, writing, written, Consumer, waiting, reading, copied, System, with_slot, slot_at,
  Step, oversize, load, full, room, tear, settle, publish, look, none_there, read_header,
  read_payload, release, Reach, here, next, start,
}
use mokya_lora.Ipc.Ring.Cores.Inv.{
  pending, ProducerInv, ConsumerInv, Inv, contents-with_slot, slot_at-with_slot, slot_at_self,
  IsValid-with_slot, contents-advance, contents-release,
}

module _ (n : ℕ) (r : Ring) (valid : IsValid n r) where
  -- A write to the slot being filled leaves the consumer's knowledge as it is.
  ConsumerInv-with_slot :
      (c : Consumer) (v : Slot)
      → pending r < n
      → ConsumerInv n r c
      → ConsumerInv n (with_slot r (r.head % n) v) c
  ConsumerInv-with_slot waiting v below k = tt
  ConsumerInv-with_slot (Consumer.loaded t h) v below k = k
  ConsumerInv-with_slot (reading t hd) v below k = (
    k.0,
    k.1,
    rw k.0 (ap (λ s. s.header) (slot_at-with_slot n r valid v below k.1) ∙ (rw k.0 at k.2)),
  )
  ConsumerInv-with_slot (copied t p) v below k =
      (k.0, k.1, rw k.0 (ap visible (slot_at-with_slot n r valid v below k.1) ∙ (rw k.0 at k.2)))

  -- So does the store of `head`,
  ConsumerInv-advance :
      (c : Consumer)
      → pending r < n
      → ConsumerInv n r c
      → ConsumerInv n (record r { head = add32 r.head 1 }) c
  ConsumerInv-advance waiting below k = tt
  ConsumerInv-advance (Consumer.loaded t h) below k = omega arith
  ConsumerInv-advance (reading t hd) below k = (k.0, omega arith, k.2)
  ConsumerInv-advance (copied t p) below k = (k.0, omega arith, k.2)

  -- and the store of `tail` the producer's.
  ProducerInv-release :
      (p : Producer)
      → 0 < pending r
      → ProducerInv n r p
      → ProducerInv n (record r { tail = add32 r.tail 1 }) p
  ProducerInv-release idle pos k = tt
  ProducerInv-release (Producer.loaded m h t) pos k = (k.0, k.1, omega arith)
  ProducerInv-release (writing m h) pos k = (k.0, k.1, omega arith)
  ProducerInv-release (written m h) pos k = (k.0, k.1, omega arith, k.3)

ConsumerInv-count_overflow :
    (n : ℕ) (r : Ring) (c : Consumer) → ConsumerInv n r c → ConsumerInv n (count_overflow r) c
ConsumerInv-count_overflow n r waiting k = tt
ConsumerInv-count_overflow n r (Consumer.loaded t h) k = k
ConsumerInv-count_overflow n r (reading t hd) k = k
ConsumerInv-count_overflow n r (copied t p) k = k

module _ (n : ℕ) (s : System) (v : Inv n s) where
  at_producer : {p : Producer} → s.producer ≡ p → ProducerInv n s.ring p
  at_producer e = subst (ProducerInv n s.ring) e v.producer

  at_consumer : {c : Consumer} → s.consumer ≡ c → ConsumerInv n s.ring c
  at_consumer e = subst (ConsumerInv n s.ring) e v.consumer

-- A store of `head` records the packet that becomes pending.
publish-Inv :
    (n : ℕ) (s : System) (m : Message)
    → Inv n s
    → ProducerInv n s.ring (written m s.ring.head)
    → Inv n (record s {
      producer = idle;
      ring = record (s.ring) { head = add32 s.ring.head 1 };
      sent = s.sent ++ packet m ∷ [];
    })
publish-Inv n s m v k = record {
  ring = ground arith;
  producer = tt;
  consumer = ConsumerInv-advance n s.ring v.ring s.consumer k.2 v.consumer;
  log =
      ap (λ q. q ++ packet m ∷ []) v.log
      ∙ append_assoc s.received (contents n s.ring) (packet m ∷ [])
      ∙ ap (λ q. s.received ++ (contents n s.ring ++ q ∷ [])) (sym k.3)
      ∙ ap (λ q. s.received ++ q) (sym (contents-advance n s.ring v.ring k.2));
}

-- A store of `tail` records the packet that was pending first.
release-Inv :
    (n : ℕ) (s : System) (p : Packet)
    → Inv n s
    → ConsumerInv n s.ring (copied s.ring.tail p)
    → Inv n (record s {
      consumer = waiting;
      ring = record (s.ring) { tail = add32 s.ring.tail 1 };
      received = s.received ++ p ∷ [];
    })
release-Inv n s p v k = record {
  ring = ground arith;
  producer = ProducerInv-release n s.ring v.ring s.producer k.1 v.producer;
  consumer = tt;
  log =
      v.log
      ∙ ap (λ q. s.received ++ q)
          (contents-release n s.ring v.ring k.1
            ∙ ap (λ q. q ∷ contents n (record (s.ring) { tail = add32 s.ring.tail 1 })) k.2)
      ∙ sym (append_assoc s.received (p ∷ []) _);
}

-- A write to the slot being filled changes nothing that is pending.
write-Inv :
    (n : ℕ) (s : System) (x : Slot) (p : Producer)
    → Inv n s
    → pending s.ring < n
    → ProducerInv n (with_slot s.ring (s.ring.head % n) x) p
    → Inv n (record s { producer = p; ring = with_slot s.ring (s.ring.head % n) x })
write-Inv n s x p v below k = record {
  ring = IsValid-with_slot n s.ring v.ring (s.ring.head % n) x;
  producer = k;
  consumer = ConsumerInv-with_slot n s.ring v.ring s.consumer x below v.consumer;
  log = v.log ∙ ap (λ q. s.received ++ q) (sym (contents-with_slot n s.ring v.ring x below));
}

Step-Inv : (n : ℕ) {s t : System} → Step n s t → Inv n s → Inv n t
Step-Inv n {s} (oversize m e h) v = record {
  ring = ground arith;
  producer = subst (ProducerInv n (count_overflow s.ring)) (sym e) tt;
  consumer = ConsumerInv-count_overflow n s.ring s.consumer v.consumer;
  log = v.log;
}
Step-Inv n {s} (load m e h sound) v = record {
  ring = v.ring;
  producer = (sound, refl, omega arith);
  consumer = v.consumer;
  log = v.log;
}
Step-Inv n {s} (full m h t e over) v = record {
  ring = ground arith;
  producer = tt;
  consumer = ConsumerInv-count_overflow n s.ring s.consumer v.consumer;
  log = v.log;
}
Step-Inv n {s} (room m h t e below) v = record {
  ring = v.ring;
  producer = (let k = at_producer n s v e in (k.0, k.1, omega arith));
  consumer = v.consumer;
  log = v.log;
}
Step-Inv n {s} (tear m h x e) v =
    let k = at_producer n s v e in
    rw k.1 (
      write-Inv n s x s.producer v k.2
        (subst (ProducerInv n (with_slot s.ring (s.ring.head % n) x)) (sym e) k))
Step-Inv n {s} (settle m h e) v =
    let k = at_producer n s v e in
    let filled = fill (slot_at n s.ring s.ring.head) m in
    rw k.1 (
      write-Inv n s filled (written m s.ring.head) v k.2 (
        k.0,
        refl,
        k.2,
        ap visible (slot_at_self n s.ring v.ring filled)
            ∙ visible-fill (slot_at n s.ring s.ring.head) m k.0,
      ))
Step-Inv n {s} (publish m h e) v =
    let k = at_producer n s v e in rw k.1 (publish-Inv n s m v (k.0, refl, k.2, rw k.1 at k.3))
Step-Inv n {s} (look e) v = record {
  ring = v.ring;
  producer = v.producer;
  consumer = (refl, v.ring.head_word, omega arith);
  log = v.log;
}
Step-Inv n {s} (none_there t h e same) v = record {
  ring = v.ring;
  producer = v.producer;
  consumer = tt;
  log = v.log;
}
Step-Inv n {s} (read_header t h e other) v =
    let k = at_consumer n s v e in
    record {
      ring = v.ring;
      producer = v.producer;
      consumer = (k.0, ground arith, refl);
      log = v.log;
    }
Step-Inv n {s} (read_payload t hd e) v =
    let k = at_consumer n s v e in
    record {
      ring = v.ring;
      producer = v.producer;
      consumer = (
        k.0,
        k.1,
        ap (λ x. record { header = x; bytes = take x.payload_len (slot_at n s.ring t).payload })
            k.2,
      );
      log = v.log;
    }
Step-Inv n {s} (release t p e) v =
    let k = at_consumer n s v e in rw k.0 (release-Inv n s p v (refl, k.1, rw k.0 at k.2))

Reach-Inv : (n : ℕ) {s t : System} → Inv n s → Reach n s t → Inv n t
Reach-Inv n v here = v
Reach-Inv n v (next r st) = Step-Inv n st (Reach-Inv n v r)

-- From a valid ring with nothing pending, however the steps of the two cores are interleaved:
-- what the producer published is what the consumer took, followed by what is pending. So no packet
-- is lost, doubled, reordered or torn, and never more than `slot_count` packets are pending.
pub fifo :
    (n : ℕ) (r : Ring)
    → IsValid n r
    → r.head ≡ r.tail
    → {s : System} → Reach n (start r) s
    → (s.sent ≡ s.received ++ contents n s.ring) × (pending s.ring ≤ n)
fifo n r v none_pending {s} reached =
    let final = Reach-Inv n begun reached in (final.log, final.ring.bounded)
  where
    empty_now : 0 ≡ sub32 r.head r.tail
    empty_now = omega arith

    begun : Inv n (start r)
    begun = record {
      ring = v;
      producer = tt;
      consumer = tt;
      log = ap (λ k. map visible (window r.slots n r.tail k)) empty_now;
    }
