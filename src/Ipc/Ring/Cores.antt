-- ===== src/Ipc/Ring/Cores.antt =====
-- The two cores at work on one ring, as ipc_ringbuf.c has them: each call falls into the loads, the
-- slot accesses and the index store that it makes, and the steps of one core come between those of
-- the other in any order. The release store and the acquire load of an index put a core's slot
-- accesses before or behind it for the other core, so a step sees what earlier steps wrote.
pub mod Inv
pub mod Order
use mokya_lora.Prelude.{
  ℕ, ◌%◌, ◌≤◌, ◌<◌, ◌≡◌, ◌≢◌, List, [], ◌∷◌, ◌++◌, get_or, set, take, add32, sub32,
}
use mokya_lora.Ipc.Ring.{
  Header, Slot, Ring, Message, fill, empty_slot, write_slot, payload_max, count_overflow,
}
use mokya_lora.Ipc.Ring.Spec.{Packet, visible, packet, IsMessage}

-- where `ipc_ring_push` stands, with its locals `head` and `tail`
pub data Producer : Type 0 where
  idle : Producer
  loaded : Message → ℕ → ℕ → Producer
  writing : Message → ℕ → Producer
  written : Message → ℕ → Producer

-- where `ipc_ring_pop` stands, with its locals `tail` and `head`, into a buffer that takes
-- any payload
pub data Consumer : Type 0 where
  waiting : Consumer
  loaded : ℕ → ℕ → Consumer
  reading : ℕ → Header → Consumer
  copied : ℕ → Packet → Consumer

-- `sent` and `received` record what was published and what was taken.
pub record System : Type 0 where
  pub ring : Ring
  pub producer : Producer
  pub consumer : Consumer
  pub sent : List Packet
  pub received : List Packet

abbrev pub with_slot : Ring → ℕ → Slot → Ring
with_slot r i v = record r { slots = set r.slots i v }

abbrev pub slot_at : ℕ → Ring → ℕ → Slot
slot_at n r k = get_or r.slots (k % n) empty_slot

pub data Step (n : ℕ) (s : System) : System → Type 0 where
  -- a payload that is too long
  oversize :
      (m : Message)
      → s.producer ≡ idle
      → payload_max < m.len
      → Step n s (record s { ring = count_overflow s.ring })
  -- both indices are loaded
  load :
      (m : Message)
      → s.producer ≡ idle
      → m.len ≤ payload_max
      → IsMessage m
      → Step n s (record s { producer = Producer.loaded m s.ring.head s.ring.tail })
  full :
      (m : Message) (h t : ℕ)
      → s.producer ≡ Producer.loaded m h t
      → n ≤ sub32 h t
      → Step n s (record s { producer = idle; ring = count_overflow s.ring })
  room :
      (m : Message) (h t : ℕ)
      → s.producer ≡ Producer.loaded m h t
      → sub32 h t < n
      → Step n s (record s { producer = writing m h })
  -- part of the writes to the slot, in any state of completion
  tear :
      (m : Message) (h : ℕ) (v : Slot)
      → s.producer ≡ writing m h
      → Step n s (record s { ring = with_slot s.ring (h % n) v })
  -- the last of them
  settle :
      (m : Message) (h : ℕ)
      → s.producer ≡ writing m h
      → Step n s (record s { producer = written m h; ring = write_slot n s.ring h m })
  -- the release store of `head`
  publish :
      (m : Message) (h : ℕ)
      → s.producer ≡ written m h
      → Step n s (record s {
        producer = idle;
        ring = record (s.ring) { head = add32 h 1 };
        sent = s.sent ++ packet m ∷ [];
      })
  -- both indices are loaded
  look :
      s.consumer ≡ waiting
      → Step n s (record s { consumer = Consumer.loaded s.ring.tail s.ring.head })
  none_there :
      (t h : ℕ)
      → s.consumer ≡ Consumer.loaded t h
      → h ≡ t
      → Step n s (record s { consumer = waiting })
  read_header :
      (t h : ℕ)
      → s.consumer ≡ Consumer.loaded t h
      → h ≢ t
      → Step n s (record s { consumer = reading t (slot_at n s.ring t).header })
  read_payload :
      (t : ℕ) (k : Header)
      → s.consumer ≡ reading t k
      → Step n s (record s {
        consumer =
            copied t
              (record { header = k; bytes = take k.payload_len (slot_at n s.ring t).payload });
      })
  -- the release store of `tail`
  release :
      (t : ℕ) (p : Packet)
      → s.consumer ≡ copied t p
      → Step n s (record s {
        consumer = waiting;
        ring = record (s.ring) { tail = add32 t 1 };
        received = s.received ++ p ∷ [];
      })

pub data Reach (n : ℕ) (s : System) : System → Type 0 where
  here : Reach n s s
  next : {t u : System} → Reach n s t → Step n t u → Reach n s u

-- both cores between two calls, nothing recorded
abbrev pub start : Ring → System
start r = record { ring = r; producer = idle; consumer = waiting; sent = []; received = [] }
