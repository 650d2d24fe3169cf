-- ===== src/Ipc/Ring/Inv.antt =====
-- The invariant of a ring: the slots are there, and no more are pending than there are.
use mokya_lora.Prelude.{
  ℕ, ◌+◌, ◌%◌, ◌≤◌, ◌<◌, ◌∣◌, ◌≡◌, true, false, Option, List, length, get_or, ◌⊎◌, length-set,
  arith, add32, sub32, u32,
}
use mokya_lora.Ipc.Ring.{Ring, Message, fill, empty_slot, push, pop, pending, free_slots}

pub record IsValid (n : ℕ) (r : Ring) : Type 0 where
  pub room : n ≤ length r.slots
  pub pos : 0 < n
  pub fits : n < u32
  pub folds : n ∣ u32
  pub head_word : r.head < u32
  pub tail_word : r.tail < u32
  pub bounded : sub32 r.head r.tail ≤ n

-- `ipc_ring_push` keeps the invariant, whichever way it returns.
pub push-IsValid : (n : ℕ) {r : Ring} (m : Message) → IsValid n r → IsValid n (push n r m).1
unfolding push
push-IsValid n {r} m v =
    ground
      (arith, length-set r.slots (r.head % n) (fill (get_or r.slots (r.head % n) empty_slot) m))

-- `ipc_ring_pop` keeps the invariant.
pub pop-IsValid :
    (n : ℕ) {r : Ring} (max : ℕ) (out : Option (List ℕ))
    → IsValid n r
    → IsValid n (pop n r max out).1
unfolding pop
pop-IsValid n max out v = ground arith

-- The slots that `ipc_ring_pending` and `ipc_ring_free_slots` count make up the ring, and neither
-- count wraps.
pub pending-add-free_slots :
    (n : ℕ) {r : Ring}
    → IsValid n r
    → (pending r + free_slots n r ≡ n) × (pending r ≤ n) × (free_slots n r ≤ n)
unfolding pending free_slots
pending-add-free_slots n v = omega arith

-- A push that is refused leaves head, tail and slots alone and counts one overflow; a push that is
-- accepted leaves the count alone and publishes one slot.
pub push-overflow :
    (n : ℕ) (r : Ring) (m : Message)
    → let (accepted, r') = push n r m in
      ((accepted ≡ false) × (r' ≡ record r { overflow = add32 r.overflow 1 }))
      ⊎ ((accepted ≡ true)
          × (r'.overflow ≡ r.overflow)
          × (r'.tail ≡ r.tail)
          × (r'.head ≡ add32 r.head 1))
unfolding push
push-overflow n r m = ground arith
