-- ===== src/Keys/Queue.antt =====
-- The part of the FreeRTOS queue that key_event.c uses, as an interface: a bounded FIFO of items.
-- `receive` is the answer at the end of the wait, on the queue as it then stands.
use mokya_lora.Prelude.{
  ℕ, ◌≤◌, ◌<◌, ◌≡◌, refl, Option, none, some, List, [], ◌∷◌, ◌++◌, length, ltb, if◌then◌else◌,
  arith,
}

pub record QueueApi (A : Type 0) : Type 1 where
  pub Queue : Type 0
  pub contents : Queue → List A
  pub depth : Queue → ℕ
  -- `xQueueCreate`; `none` when the heap is exhausted
  pub create : ℕ → Option Queue
  -- `xQueueSend` with no wait; `none` when it does not return `pdPASS`
  pub send : Queue → A → Option Queue
  -- `xQueueReceive`; `none` when it does not return `pdTRUE`
  pub receive : Queue → Option (A × Queue)
  pub contents-create : (n : ℕ) (q : Queue) → create n ≡ some q → contents q ≡ []
  pub depth-create : (n : ℕ) (q : Queue) → create n ≡ some q → depth q ≡ n
  pub send-room :
      (q : Queue) (a : A)
      → length (contents q) < depth q
      → (q' : Queue) × (send q a ≡ some q')
        × (contents q' ≡ contents q ++ a ∷ [])
        × (depth q' ≡ depth q)
  pub send-full : (q : Queue) (a : A) → depth q ≤ length (contents q) → send q a ≡ none
  pub receive-empty : (q : Queue) → contents q ≡ [] → receive q ≡ none
  pub receive-front :
      (q : Queue) (a : A) (l : List A)
      → contents q ≡ a ∷ l
      → (q' : Queue) × (receive q ≡ some (a, q')) × (contents q' ≡ l) × (depth q' ≡ depth q)

-- A list with a bound meets the interface.
pub record Bounded (A : Type 0) : Type 0 where
  pub items : List A
  pub bound : ℕ

module _ {A : Type 0} where
  abbrev send_list : Bounded A → A → Option (Bounded A)
  send_list q a =
      if ltb (length q.items) q.bound then some (record q { items = q.items ++ a ∷ [] }) else none

  abbrev receive_list : List A → ℕ → Option (A × Bounded A)
  receive_list [] n = none
  receive_list (a ∷ l) n = some (a, record { items = l; bound = n })

  pub send_list-room :
      (q : Bounded A) (a : A)
      → length q.items < q.bound
      → (q' : Bounded A) × (send_list q a ≡ some q')
        × (q'.items ≡ q.items ++ a ∷ [])
        × (q'.bound ≡ q.bound)
  send_list-room q a h = (record q { items = q.items ++ a ∷ [] }, ground arith, refl, refl)

  pub send_list-full : (q : Bounded A) (a : A) → q.bound ≤ length q.items → send_list q a ≡ none
  send_list-full q a h = ground arith

  pub receive_list-empty : (q : Bounded A) → q.items ≡ [] → receive_list q.items q.bound ≡ none
  receive_list-empty q e = rw e

  pub receive_list-front :
      (q : Bounded A) (a : A) (l : List A)
      → q.items ≡ a ∷ l
      → (q' : Bounded A) × (receive_list q.items q.bound ≡ some (a, q'))
        × (q'.items ≡ l)
        × (q'.bound ≡ q.bound)
  receive_list-front q a l e = (record { items = l; bound = q.bound }, rw e, refl, refl)

  pub create_list-items :
      (n : ℕ) (q : Bounded A) → some (record { items = []; bound = n }) ≡ some q → q.items ≡ []
  create_list-items n q e = ground arith

  pub create_list-bound :
      (n : ℕ) (q : Bounded A) → some (record { items = []; bound = n }) ≡ some q → q.bound ≡ n
  create_list-bound n q e = ground arith

abbrev pub list_queue : (A : Type 0) → QueueApi A
list_queue A = record {
  Queue = Bounded A;
  contents = λ q. q.items;
  depth = λ q. q.bound;
  create = λ n. some (record { items = []; bound = n });
  send = send_list;
  receive = λ q. receive_list q.items q.bound;
  contents-create = create_list-items;
  depth-create = create_list-bound;
  send-room = send_list-room;
  send-full = send_list-full;
  receive-empty = receive_list-empty;
  receive-front = receive_list-front;
}
