-- ===== src/Ipc/Ring/Cores/Inv.antt =====
-- What each core may rely on at each point of its call, and that no step of the other breaks it.
use mokya_lora.Prelude.{
  ℕ, suc, ◌+◌, ◌%◌, ◌-◌, ◌≤◌, ◌<◌, ◌≡◌, ◌≢◌, sym, ap, ◌∙◌, [], ◌∷◌, ◌++◌, map, get_or, arith, add32,
  sub32, u32, u32-mod, length-set, get_or-set_self, get_or-set_ne, add-mod-ne,
}
use mathlib.Core.List.{map-append}
use native.Mathlib.Nat.{mod-lt}
use mokya_lora.Ipc.Ring.{Slot, Ring, empty_slot}
use mokya_lora.Ipc.Ring.Spec.{visible, packet, IsMessage}
use mokya_lora.Ipc.Ring.Inv.{IsValid}
use mokya_lora.Ipc.Ring.Window.{window, window_of_pos, window_snoc, window-set_behind}
use mokya_lora.Ipc.Ring.Refine.{contents}
use mokya_lora.Ipc.Ring.Cores.{
  Producer, idle, writing, written, Consumer, waiting, reading, copied, System, with_slot, slot_at,
}

abbrev pub pending : Ring → ℕ
pending r = sub32 r.head r.tail

-- The snapshot of `tail` may be old: the ring is then emptier than the producer believes.
abbrev pub ProducerInv : ℕ → Ring → Producer → Type 0
ProducerInv n r idle = Unit
ProducerInv n r (Producer.loaded m h t) = IsMessage m × (h ≡ r.head) × (pending r ≤ sub32 h t)
ProducerInv n r (writing m h) = IsMessage m × (h ≡ r.head) × (pending r < n)
ProducerInv n r (written m h) =
    IsMessage m × (h ≡ r.head) × (pending r < n) × (visible (slot_at n r h) ≡ packet m)

-- The snapshot of `head` may be old: the ring is then fuller than the consumer believes.
abbrev pub ConsumerInv : ℕ → Ring → Consumer → Type 0
ConsumerInv n r waiting = Unit
ConsumerInv n r (Consumer.loaded t h) = (t ≡ r.tail) × (h < u32) × (sub32 h t ≤ pending r)
ConsumerInv n r (reading t k) = (t ≡ r.tail) × (0 < pending r) × ((slot_at n r t).header ≡ k)
ConsumerInv n r (copied t p) = (t ≡ r.tail) × (0 < pending r) × (visible (slot_at n r t) ≡ p)

pub record Inv (n : ℕ) (s : System) : Type 0 where
  pub ring : IsValid n s.ring
  pub producer : ProducerInv n s.ring s.producer
  pub consumer : ConsumerInv n s.ring s.consumer
  pub log : s.sent ≡ s.received ++ contents n s.ring

module _ (n : ℕ) (r : Ring) (valid : IsValid n r) where
  -- The slot that a push fills is none of those that are pending.
  pub contents-with_slot :
      (v : Slot) → pending r < n → contents n (with_slot r (r.head % n) v) ≡ contents n r
  contents-with_slot v room = ap (map visible) (
      window-set_behind r.slots n v (pending r) (pending r) r.tail (r.head % n) valid.folds
        (omega arith) room valid.tail_word (ap (λ k. k % n) (omega arith)))

  -- It is not the slot that a pop reads.
  pub slot_at-with_slot :
      (v : Slot)
      → pending r < n
      → 0 < pending r
      → slot_at n (with_slot r (r.head % n) v) r.tail ≡ slot_at n r r.tail
  slot_at-with_slot v room pos = get_or-set_ne r.slots (r.head % n) (r.tail % n) v empty_slot apart
    where
      head_at : r.head ≡ (r.tail + suc (pending r - 1)) % u32
      head_at = omega arith

      apart : r.head % n ≢ r.tail % n
      apart e =
          add-mod-ne n r.tail (pending r - 1) (omega arith) (
            sym (ap (λ k. k % n) head_at ∙ u32-mod n (r.tail + suc (pending r - 1)) valid.folds)
            ∙ e)

  pub slot_at_self : (v : Slot) → slot_at n (with_slot r (r.head % n) v) r.head ≡ v
  slot_at_self v =
      get_or-set_self r.slots (r.head % n) v empty_slot
        (omega (arith, valid.room, mod-lt r.head valid.pos))

  pub IsValid-with_slot : (i : ℕ) (v : Slot) → IsValid n (with_slot r i v)
  IsValid-with_slot i v = ground (arith, length-set r.slots i v)

  -- The store of `head` adds the slot that it passes.
  pub contents-advance :
      pending r < n
      → contents n (record r { head = add32 r.head 1 })
        ≡ contents n r ++ visible (slot_at n r r.head) ∷ []
  contents-advance room =
      ap (λ k. map visible (window r.slots n r.tail k)) grown
      ∙ ap (map visible) (window_snoc r.slots n (pending r) r.tail valid.folds valid.tail_word)
      ∙ map-append visible (window r.slots n r.tail (pending r))
          (get_or r.slots (k % n) empty_slot ∷ [])
      ∙ ap (λ k. contents n r ++ visible (slot_at n r k) ∷ []) at_head
    where
      k : ℕ
      k = (r.tail + pending r) % u32

      grown : sub32 (add32 r.head 1) r.tail ≡ suc (pending r)
      grown = omega arith

      at_head : (r.tail + pending r) % u32 ≡ r.head
      at_head = omega arith

  -- The store of `tail` drops the slot that it passes.
  pub contents-release :
      0 < pending r
      → contents n r
        ≡ visible (slot_at n r r.tail) ∷ contents n (record r { tail = add32 r.tail 1 })
  contents-release pos =
      ap (map visible) (window_of_pos r.slots n r.tail (pending r) pos)
      ∙ ap (λ k. visible (slot_at n r r.tail) ∷ map visible (window r.slots n (add32 r.tail 1) k))
          shrunk
    where
      shrunk : pending r - 1 ≡ sub32 r.head (add32 r.tail 1)
      shrunk = omega arith
