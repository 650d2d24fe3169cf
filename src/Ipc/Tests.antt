-- ===== src/Ipc/Tests.antt =====
-- Runs of the ring, and its properties at concrete rings whose indices are about to wrap.
use mokya_lora.Prelude.{
  ◌≤◌, ◌≡◌, ◌∣◌, refl, none, some, List, [], ◌∷◌, ◌++◌, set, replicate, arith, u32,
}
use mokya_lora.Ipc.Ring.{Ring, Message, empty_slot, fill, pending, ring_slot_count}
use mokya_lora.Ipc.Ring.Spec.{Op, put, get, Packet, packet, enqueue, dequeue, Queue}
use mokya_lora.Ipc.Ring.Spec
use mokya_lora.Ipc.Ring.Inv.{IsValid}
use mokya_lora.Ipc.Ring.Refine.{contents, run, run_refines}
use mokya_lora.Ipc.Ring.Cores.{System, Reach, here, next, start, load, room, tear, settle, publish}
use mokya_lora.Ipc.Ring.Cores.Order.{fifo}

-- 32 slots, none pending, the next index the last before the wrap
abbrev ring : Ring
ring = record {
  head = 0xFFFFFFFF;
  tail = 0xFFFFFFFF;
  overflow = 0;
  slots = replicate 32 empty_slot;
}

abbrev hi : Message
hi = record { id = 1; number = 7; bytes = some (104 ∷ 105 ∷ []); len = 2 }

folds : ring_slot_count ∣ u32
folds = ∣ (134217728, refl) ∣₁

ring-IsValid : IsValid ring_slot_count ring
ring-IsValid = record {
  room = omega arith;
  pos = omega arith;
  fits = omega arith;
  folds = folds;
  head_word = omega arith;
  tail_word = omega arith;
  bounded = omega arith;
}

abbrev script : List Op
script = put hi ∷ get 1 (some (9 ∷ 9 ∷ [])) ∷ get 256 none ∷ []

run_refines_example : run ring_slot_count ring script ≡ Spec.run ring_slot_count [] script
run_refines_example = run_refines ring_slot_count script ring-IsValid (omega arith, (tt, (tt, tt)))

-- both indices, then the slot in two writes, then the index; meanwhile the other core looks early
abbrev published : System
published = record (start ring) {
  ring = record {
    head = 0;
    tail = 0xFFFFFFFF;
    overflow = 0;
    slots = set ring.slots 31 (fill empty_slot hi);
  };
  sent = packet hi ∷ [];
}

published-Reach : Reach ring_slot_count (start ring) published
published-Reach =
    next
      (next
        (next
          (next (next here (load hi refl (omega arith) (omega arith)))
            (room hi 0xFFFFFFFF 0xFFFFFFFF refl (omega arith)))
          (tear hi 0xFFFFFFFF empty_slot refl))
        (settle hi 0xFFFFFFFF refl))
      (publish hi 0xFFFFFFFF refl)

fifo_example :
    (packet hi ∷ [] ≡ [] ++ contents ring_slot_count published.ring)
    × (pending published.ring ≤ ring_slot_count)
unfolding pending
fifo_example = fifo ring_slot_count ring ring-IsValid refl published-Reach
