-- ===== src/Ipc/Ring.antt =====
-- firmware/shared/ipc/ipc_ringbuf.c and the layout of ipc_shared_layout.h that it works on.
-- The functions that update `*ctrl` and `slots` return the new ring beside their result.
pub mod Spec
pub mod Inv
pub mod Window
pub mod Refine
pub mod Cores
use mokya_lora.Prelude.{
  ℕ, ◌%◌, Bool, true, false, Option, none, some, List, [], ◌++◌, ltb, leb, ◌==◌, if◌then◌else◌,
  get_or, set, take, drop, length, add32, sub32, min,
}

-- `IPC_MSG_PAYLOAD_MAX`
abbrev pub payload_max : ℕ
payload_max = 256

-- `IPC_RING_SLOT_COUNT`
abbrev pub ring_slot_count : ℕ
ring_slot_count = 32

-- `IPC_LOG_RING_SLOT_COUNT`
abbrev pub log_ring_slot_count : ℕ
log_ring_slot_count = 16

pub record Header : Type 0 where
  pub msg_id : ℕ
  pub seq : ℕ
  pub payload_len : ℕ

-- `payload` holds the 256 bytes of the slot.
pub record Slot : Type 0 where
  pub header : Header
  pub payload : List ℕ

-- `IpcRingCtrl` and the slot array that it rules.
pub record Ring : Type 0 where
  pub head : ℕ
  pub tail : ℕ
  pub overflow : ℕ
  pub slots : List Slot

abbrev pub empty_slot : Slot
empty_slot = record { header = record { msg_id = 0; seq = 0; payload_len = 0 }; payload = [] }

-- `memcpy`: the bytes of `src` over the front of `dst`.
abbrev pub copy_over : List ℕ → List ℕ → List ℕ
copy_over src dst = src ++ drop (length src) dst

-- A `NULL` pointer copies nothing; any other points to at least `n` bytes.
abbrev pub copy_from : Option (List ℕ) → ℕ → List ℕ → List ℕ
copy_from none n dst = dst
copy_from (some src) n dst = if ltb 0 n then copy_over (take n src) dst else dst

pub record Message : Type 0 where
  pub id : ℕ
  pub number : ℕ
  pub bytes : Option (List ℕ)
  pub len : ℕ

-- the writes to `*slot`
abbrev pub fill : Slot → Message → Slot
fill slot m = record {
  header = record { msg_id = m.id; seq = m.number; payload_len = m.len };
  payload = copy_from m.bytes m.len slot.payload;
}

-- `__atomic_fetch_add(&ctrl->overflow, 1u, ...)`
abbrev pub count_overflow : Ring → Ring
count_overflow r = record r { overflow = add32 r.overflow 1 }

-- the writes to `slots[head % slot_count]`, before the index is published
abbrev pub write_slot : ℕ → Ring → ℕ → Message → Ring
write_slot n r head m = record r {
  slots = set r.slots (head % n) (fill (get_or r.slots (head % n) empty_slot) m);
}

-- `ipc_ring_push`
unfoldable pub push : ℕ → Ring → Message → Bool × Ring
push n r m =
    if ltb payload_max m.len
    then (false, count_overflow r)
    else if leb n (sub32 r.head r.tail)
    then (false, count_overflow r)
    else (true, record (write_slot n r r.head m) { head = add32 r.head 1 })

-- What `ipc_ring_pop` writes through its out pointers: the header, and the caller's buffer
-- (`none` for `NULL`).
pub record Popped : Type 0 where
  pub header : Header
  pub buffer : Option (List ℕ)

-- the copy of `n = min(len, max_payload)` bytes out of the slot
abbrev pub copy_out : Slot → ℕ → Option (List ℕ) → Option (List ℕ)
copy_out slot max none = none
copy_out slot max (some buffer) =
    some (copy_from (some slot.payload) (min slot.header.payload_len max) buffer)

abbrev pub read_slot : Slot → ℕ → Option (List ℕ) → Popped
read_slot slot max out = record { header = slot.header; buffer = copy_out slot max out }

-- `ipc_ring_pop`; `none` is the `false` of an empty ring.
unfoldable pub pop : ℕ → Ring → ℕ → Option (List ℕ) → Option Popped × Ring
pop n r max out = if r.head == r.tail then (none, r) else (
  some (read_slot (get_or r.slots (r.tail % n) empty_slot) max out),
  record r { tail = add32 r.tail 1 },
)

-- `ipc_ring_pending`
unfoldable pub pending : Ring → ℕ
pending r = sub32 r.head r.tail

-- `ipc_ring_free_slots`
unfoldable pub free_slots : ℕ → Ring → ℕ
free_slots n r = sub32 n (pending r)
