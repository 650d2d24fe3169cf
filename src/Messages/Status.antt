-- ===== src/Messages/Status.antt =====
-- firmware/core1/src/messages/messages_tx_status.c: what core 0 last reported of a sent text.
use mokya_lora.Prelude.{ℕ, add32}

-- `messages_tx_status_t`
pub record Status : Type 0 where
  pub change_seq : ℕ
  pub ipc_seq : ℕ
  pub result : ℕ
  pub error_reason : ℕ
  pub packet_id : ℕ

-- the arguments of `messages_tx_status_publish`
pub record Ack : Type 0 where
  pub ipc_seq : ℕ
  pub result : ℕ
  pub error_reason : ℕ
  pub packet_id : ℕ

-- `static` storage starts as zeros
abbrev pub initial : Status
initial = record { change_seq = 0; ipc_seq = 0; result = 0; error_reason = 0; packet_id = 0 }

-- `messages_tx_status_publish`
abbrev pub publish : Status → Ack → Status
publish s a = record {
  change_seq = add32 s.change_seq 1;
  ipc_seq = a.ipc_seq;
  result = a.result;
  error_reason = a.error_reason;
  packet_id = a.packet_id;
}

-- `messages_tx_status_get`, with an `out` that is not `NULL`
unfoldable pub get : Status → Status
get s = let cur = s.change_seq in record s { change_seq = cur }
