-- ===== src/Ipc/Ring/Spec.antt =====
-- What a ring promises its two users: a bounded queue of packets, oldest first. A packet is a
-- header and the payload bytes that belong to it.
use mokya_lora.Prelude.{
  ℕ, Bool, true, false, Option, none, some, List, [], ◌∷◌, ◌++◌, ltb, leb, if◌then◌else◌, length,
  take, min, ◌≤◌,
}
use mokya_lora.Ipc.Ring.{Header, Slot, Message, Popped, payload_max, copy_from}

pub record Packet : Type 0 where
  pub header : Header
  pub bytes : List ℕ

abbrev pub Queue : Type 0
Queue = List Packet

-- what of a slot belongs to its message
abbrev pub visible : Slot → Packet
visible s = record { header = s.header; bytes = take s.header.payload_len s.payload }

abbrev pub bytes_of : Option (List ℕ) → List ℕ
bytes_of none = []
bytes_of (some b) = b

abbrev pub packet : Message → Packet
packet m = record {
  header = record { msg_id = m.id; seq = m.number; payload_len = m.len };
  bytes = take m.len (bytes_of m.bytes);
}

-- The caller's contract: the payload pointer points to `payload_len` bytes, `NULL` only for 0.
abbrev pub IsMessage : Message → Type 0
IsMessage m = m.len ≤ length (bytes_of m.bytes)

unfoldable pub enqueue : ℕ → Queue → Message → Bool × Queue
enqueue cap q m =
    if ltb payload_max m.len
    then (false, q)
    else if leb cap (length q)
    then (false, q)
    else (true, q ++ packet m ∷ [])

-- what a consumer sees of a packet: its header, and its bytes, cut at `max`, over the front of the
-- buffer that it gave
abbrev pub deliver : Packet → ℕ → Option (List ℕ) → Popped
deliver p max none = record { header = p.header; buffer = none }
deliver p max (some buffer) = record {
  header = p.header;
  buffer = some (copy_from (some p.bytes) (min p.header.payload_len max) buffer);
}

unfoldable pub dequeue : Queue → ℕ → Option (List ℕ) → Option Popped × Queue
dequeue [] max out = (none, [])
dequeue (p ∷ q) max out = (some (deliver p max out), q)

-- a user's call: a push by the producer, or a pop by the consumer with its buffer
pub data Op : Type 0 where
  put : Message → Op
  get : ℕ → Option (List ℕ) → Op

pub data Reply : Type 0 where
  accepted : Bool → Reply
  got : Option Popped → Reply

abbrev pub IsSound : Op → Type 0
IsSound (put m) = IsMessage m
IsSound (get max out) = Unit

abbrev pub AllSound : List Op → Type 0
AllSound [] = Unit
AllSound (op ∷ ops) = IsSound op × AllSound ops

unfoldable pub run : ℕ → Queue → List Op → List Reply
run cap q [] = []
run cap q (put m ∷ ops) = let (a, q') = enqueue cap q m in accepted a ∷ run cap q' ops
run cap q (get max out ∷ ops) = let (p, q') = dequeue q max out in got p ∷ run cap q' ops
