-- ===== src/Ipc/Ring/Refine.antt =====
-- A valid ring behaves as the bounded queue of the packets that are pending in it.
use mathlib.Core.List.{map-append}
use mokya_lora.Prelude.{
  ℕ, zero, suc, ◌%◌, ◌-◌, ◌≤◌, ◌<◌, ◌≡◌, ◌≢◌, refl, ap, ◌∙◌, Option, none, some, List, [], ◌∷◌,
  ◌++◌, map, length, get_or, set, take, arith, add32, sub32, length-map, take-length-append,
  take-take, length-take, min,
}
use mokya_lora.Ipc.Ring.{
  Ring, Slot, Message, Popped, fill, empty_slot, write_slot, read_slot, push, pop, copy_from,
  copy_over,
}
use mokya_lora.Ipc.Ring.Spec.{
  Packet, Queue, visible, packet, bytes_of, IsMessage, enqueue, dequeue, deliver, Op, put, get,
  Reply, accepted, got, IsSound, AllSound,
}
use mokya_lora.Ipc.Ring.Spec
use mokya_lora.Ipc.Ring.Inv.{IsValid, push-IsValid, pop-IsValid}
use mokya_lora.Ipc.Ring.Window.{window, length-window, window_of_pos, window-set}

abbrev pub slots_pending : ℕ → Ring → List Slot
slots_pending n r = window r.slots n r.tail (sub32 r.head r.tail)

-- the packets that the consumer has still to take
abbrev pub contents : ℕ → Ring → Queue
contents n r = map visible (slots_pending n r)

pub length-contents : (n : ℕ) (r : Ring) → length (contents n r) ≡ sub32 r.head r.tail
length-contents n r =
    length-map (slots_pending n r) visible ∙ length-window r.slots n r.tail (sub32 r.head r.tail)

take-copy_over :
    (n : ℕ) (b dst : List ℕ) → n ≤ length b → take n (copy_over (take n b) dst) ≡ take n b
take-copy_over n b dst h =
    take-length-append n (take n b) _ (omega (arith, length-take n b))
    ∙ take-take n n b (omega arith)

pub take-copy_from :
    (b : Option (List ℕ)) (n : ℕ) (dst : List ℕ)
    → n ≤ length (bytes_of b)
    → take n (copy_from b n dst) ≡ take n (bytes_of b)
take-copy_from none zero dst h = refl
take-copy_from none (suc n) dst h = absurd (omega arith)
take-copy_from (some b) zero dst h = refl
take-copy_from (some b) (suc n) dst h = ground (arith, take-copy_over (suc n) b dst h)

-- What a filled slot shows is the message, whatever the slot held before.
pub visible-fill : (s : Slot) (m : Message) → IsMessage m → visible (fill s m) ≡ packet m
visible-fill s m h =
    ap
      (λ b. record {
        header = record { msg_id = m.id; seq = m.number; payload_len = m.len };
        bytes = b;
      })
      (take-copy_from m.bytes m.len s.payload h)

-- Publishing a filled slot appends its packet.
pub contents-publish :
    (n : ℕ) {r : Ring} (m : Message)
    → IsValid n r
    → IsMessage m
    → sub32 r.head r.tail < n
    → contents n (record (write_slot n r r.head m) { head = add32 r.head 1 })
      ≡ contents n r ++ packet m ∷ []
contents-publish n {r} m v sound room =
    ap (λ k. map visible (window (set r.slots (r.head % n) slot) n r.tail k)) grown
    ∙ ap (map visible) written
    ∙ map-append visible (slots_pending n r) (slot ∷ [])
    ∙ ap (λ p. contents n r ++ p ∷ []) (visible-fill old m sound)
  where
    old : Slot
    old = get_or r.slots (r.head % n) empty_slot

    slot : Slot
    slot = fill old m

    grown : sub32 (add32 r.head 1) r.tail ≡ suc (sub32 r.head r.tail)
    grown = omega arith

    written :
        window (set r.slots (r.head % n) slot) n r.tail (suc (sub32 r.head r.tail))
        ≡ slots_pending n r ++ slot ∷ []
    written =
        window-set r.slots n slot (sub32 r.head r.tail) r.tail (r.head % n) v.room v.folds room
          v.tail_word (ap (λ k. k % n) (omega arith))

-- On a valid ring `ipc_ring_push` answers as the bounded queue of the pending packets does, and
-- leaves the ring holding what that queue then holds.
pub push_refines :
    (n : ℕ) {r : Ring} (m : Message)
    → IsValid n r
    → IsMessage m
    → let (done, r') = push n r m in (done, contents n r') ≡ enqueue n (contents n r) m
unfolding push enqueue
push_refines n {r} m v sound = ground (arith, length-contents n r, contents-publish n m v sound)

copy_from-take :
    (b buffer : List ℕ) (n k : ℕ)
    → k ≤ n
    → copy_from (some b) k buffer ≡ copy_from (some (take n b)) k buffer
copy_from-take b buffer n k h = ground (arith, take-take k n b h)

read_slot-deliver :
    (s : Slot) (max : ℕ) (out : Option (List ℕ)) → read_slot s max out ≡ deliver (visible s) max out
read_slot-deliver s max none = refl
read_slot-deliver s max (some b) =
    ap (λ c. record { header = s.header; buffer = some c })
      (copy_from-take s.payload b s.header.payload_len (min s.header.payload_len max) (omega arith))

-- On a valid ring `ipc_ring_pop` takes the oldest pending packet, or none if none is pending. The
-- caller's buffer gets the packet's bytes, cut at `max_payload`, over its front, and the rest of
-- the queue stays.
pub pop_refines :
    (n : ℕ) {r : Ring} (max : ℕ) (out : Option (List ℕ))
    → IsValid n r
    → let (popped, r') = pop n r max out in
      ◌≡◌ {A = Option Popped × Queue} (popped, contents n r') (dequeue (contents n r) max out)
unfolding pop dequeue
pop_refines n {r} max out v = ground (
  arith,
  window_of_pos r.slots n r.tail (sub32 r.head r.tail),
  read_slot-deliver (get_or r.slots (r.tail % n) empty_slot) max out,
  shrinks,
)
  where
    shrinks : r.head ≢ r.tail → sub32 r.head (add32 r.tail 1) ≡ sub32 r.head r.tail - 1
    shrinks ne = omega arith

-- a sequence of calls, in the order in which they take effect
unfoldable pub run : ℕ → Ring → List Op → List Reply
run n r [] = []
run n r (put m ∷ ops) = let (a, r') = push n r m in accepted a ∷ run n r' ops
run n r (get max out ∷ ops) = let (p, r') = pop n r max out in got p ∷ run n r' ops

-- No sequence of pushes and pops tells a valid ring from the bounded queue of its packets.
pub run_refines :
    (n : ℕ) (ops : List Op) {r : Ring}
    → IsValid n r
    → AllSound ops
    → run n r ops ≡ Spec.run n (contents n r) ops
unfolding run Spec.run
run_refines n [] v sound = refl
run_refines n (put m ∷ ops) v sound =
    rw (run_refines n ops (push-IsValid n m v) sound.1, ← push_refines n m v sound.0)
run_refines n (get max out ∷ ops) v sound =
    rw (run_refines n ops (pop-IsValid n max out v) sound.1, ← pop_refines n max out v)
