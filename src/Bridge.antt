-- ===== src/Bridge.antt =====
-- firmware/core1/m1_bridge/src/main_core1_bridge.c, `bridge_task`: the rounds that hand on what
-- core 0 sends and what the USB host types. TinyUSB, FreeRTOS and core 0 are a parameter. A round
-- takes from the data ring once, so what core 0 pushes during a round stands there as before or
-- after it.
pub mod Fields
pub mod Loop
pub mod Serial
pub mod Round
pub mod Packets
pub mod Run
pub mod History
pub mod Commands
mod Tests
use mathlib.Core.Option
use mokya_lora.Prelude.{
  ℕ, zero, suc, ◌+◌, ◌-◌, ◌%◌, ◌<◌, ◌≤◌, ◌≡◌, Bool, true, false, not, ◌&&◌, Option, none, some,
  List, [], ◌∷◌, ◌++◌, ltb, leb, ◌==◌, if◌then◌else◌, take, drop, length, min, add32, inc8,
}
use mokya_lora.Ipc.Ring.{
  Header, Ring, Message, Popped, push, pop, payload_max, ring_slot_count, log_ring_slot_count,
  copy_over,
}
use mokya_lora.Ipc.Ring.Inv.{IsValid}
use mokya_lora.Ipc.Ring.Refine.{contents}
use mokya_lora.Messages.Inbox
use mokya_lora.Messages.Inbox.{Inbox, Text}
use mokya_lora.Messages.Nodes.{Db, Update, upsert}
use mokya_lora.Messages.Send.Layout.{byte_at, word16_at, word32_at}
use mokya_lora.Messages.Status
use mokya_lora.Messages.Status.{Status, Ack}

-- What the task sees of the rest of the system, each call with what happens until the next one.
-- `sent` is what the CDC endpoint was given so far.
pub record Outside : Type 1 where
  pub World : Type 0
  -- `tud_mounted`, `tud_cdc_connected`, `tud_cdc_available` and `tud_cdc_write_available`
  pub mounted : World → Bool × World
  pub connected : World → Bool × World
  pub available : World → Bool × World
  pub write_available : World → ℕ × World
  -- `tud_cdc_write` of these bytes, with its result; `tud_cdc_read` into that many bytes
  pub write : List ℕ → World → ℕ × World
  pub read : ℕ → World → List ℕ × World
  -- `tud_cdc_write_flush`, `tud_disconnect`, `taskYIELD`, the doorbell and the waits
  pub flush : World → World
  pub disconnect : World → World
  pub yield : World → World
  pub ring_doorbell : World → World
  pub idle : World → World
  -- `vTaskDelay` of 1 ms, while core 0 takes from the command ring
  pub delay : Ring → World → Ring × World
  pub sent : World → List ℕ
  pub write-le : (l : List ℕ) (w : World) → (write l w).0 ≤ length l
  pub read-le : (n : ℕ) (w : World) → length (read n w).0 ≤ n
  pub sent-write : (l : List ℕ) (w : World) → sent (write l w).1 ≡ sent w ++ take (write l w).0 l
  pub sent-mounted : (w : World) → sent (mounted w).1 ≡ sent w
  pub sent-connected : (w : World) → sent (connected w).1 ≡ sent w
  pub sent-available : (w : World) → sent (available w).1 ≡ sent w
  pub sent-write_available : (w : World) → sent (write_available w).1 ≡ sent w
  pub sent-read : (n : ℕ) (w : World) → sent (read n w).1 ≡ sent w
  pub sent-flush : (w : World) → sent (flush w) ≡ sent w
  pub sent-disconnect : (w : World) → sent (disconnect w) ≡ sent w
  pub sent-yield : (w : World) → sent (yield w) ≡ sent w
  pub sent-ring_doorbell : (w : World) → sent (ring_doorbell w) ≡ sent w
  pub sent-idle : (w : World) → sent (idle w) ≡ sent w
  pub sent-delay : (r : Ring) (w : World) → sent (delay r w).1 ≡ sent w
  pub delay-pops :
      (r : Ring) (w : World)
      → IsValid ring_slot_count r
      → IsValid ring_slot_count (delay r w).0
        × ((k : ℕ) × (contents ring_slot_count (delay r w).0 ≡ drop k (contents ring_slot_count r)))

-- `nodes_db.c`, `messages_inbox.c` and `messages_tx_status.c`
pub record Kept : Type 0 where
  pub nodes : Db
  pub inbox : Inbox
  pub status : Status

-- the message ids that `bridge_task` knows
abbrev pub rx_text_id : ℕ
rx_text_id = 0x01

abbrev pub node_update_id : ℕ
node_update_id = 0x02

abbrev pub tx_ack_id : ℕ
tx_ack_id = 0x04

abbrev pub serial_bytes_id : ℕ
serial_bytes_id = 0x06

abbrev pub reboot_notify_id : ℕ
reboot_notify_id = 0x09

-- `sizeof` and `offsetof(.., alias)` of `IpcPayloadNodeUpdate`, which ends in a byte of padding;
-- `sizeof(IpcPayloadTxAck)`; `sizeof(IpcPayloadText)`, which is also `offsetof(.., text)`
abbrev pub node_update_size : ℕ
node_update_size = 20

abbrev pub alias_offset : ℕ
alias_offset = 19

abbrev pub tx_ack_size : ℕ
tx_ack_size = 8

abbrev pub text_offset : ℕ
text_offset = 12

-- the branches of the dispatch
pub data Kind : Type 0 where
  reboot node ack text serial other : Kind

unfoldable pub kind : Header → Kind
kind h =
    if h.msg_id == reboot_notify_id
    then reboot
    else if h.msg_id == node_update_id && leb node_update_size h.payload_len
    then node
    else if h.msg_id == tx_ack_id && leb tx_ack_size h.payload_len
    then ack
    else if h.msg_id == rx_text_id && leb text_offset h.payload_len
    then text
    else if h.msg_id == serial_bytes_id && ltb 0 h.payload_len
    then serial
    else other

-- `alias_len` and `text_len` after the guards against a length that lies
abbrev pub alias_len : Header → List ℕ → ℕ
alias_len h b =
    if ltb h.payload_len (alias_offset + byte_at b 18)
    then (h.payload_len - alias_offset) % 256
    else byte_at b 18

abbrev pub text_room : Header → ℕ
text_room h = if ltb text_offset h.payload_len then h.payload_len - text_offset else 0

abbrev pub text_len : Header → List ℕ → ℕ
text_len h b = if ltb (text_room h) (word16_at b 10) then text_room h else word16_at b 10

-- the arguments that the task reads out of `scratch`
abbrev pub update_of : Header → List ℕ → Update
update_of h b = record {
  node_id = word32_at b 0;
  rssi = word16_at b 4;
  snr_x4 = byte_at b 6;
  hops_away = byte_at b 7;
  lat_e7 = word32_at b 8;
  lon_e7 = word32_at b 12;
  battery_mv = word16_at b 16;
  alias = some (drop alias_offset b);
  alias_len = alias_len h b;
}

abbrev pub ack_of : List ℕ → Ack
ack_of b = record {
  ipc_seq = byte_at b 0;
  result = byte_at b 1;
  error_reason = byte_at b 2;
  packet_id = word32_at b 4;
}

abbrev pub text_of : Header → List ℕ → Text
text_of h b = record {
  from_node_id = word32_at b 0;
  to_node_id = word32_at b 4;
  channel_index = byte_at b 8;
  bytes = some (drop text_offset b);
  len = text_len h b;
}

-- what a message does to the stores of core 1
unfoldable pub store : Kind → Header → List ℕ → Kept → Kept
store node h b k = record k { nodes = upsert k.nodes (update_of h b) }
store ack h b k = record k { status = Status.publish k.status (ack_of b) }
store text h b k = record k { inbox = Inbox.publish k.inbox (text_of h b) }
store reboot h b k = k
store serial h b k = k
store other h b k = k
