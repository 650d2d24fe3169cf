-- ===== src/Messages/Send.antt =====
-- firmware/core1/src/messages/messages_send.c: a text for the mesh, on the ring to core 0.
pub mod Layout
use mokya_lora.Prelude.{
  ℕ, ◌+◌, ◌/◌, ◌%◌, Bool, Option, some, List, [], ◌∷◌, ◌++◌, ltb, if◌then◌else◌, inc8,
}
use mokya_lora.Ipc.Ring.{Ring, Message, copy_from, push, ring_slot_count}

-- `MESSAGES_SEND_TEXT_MAX` and `IPC_CMD_SEND_TEXT`
abbrev pub text_max : ℕ
text_max = 200

abbrev pub cmd_send_text : ℕ
cmd_send_text = 0x81

-- `offsetof(IpcPayloadText, text)`
abbrev pub header_size : ℕ
header_size = 12

-- the arguments; `text` is `none` for `NULL`
pub record Request : Type 0 where
  pub to_node_id : ℕ
  pub channel_index : ℕ
  pub want_ack : Bool
  pub text : Option (List ℕ)
  pub text_len : ℕ

-- `s_seq` and the ring of `g_ipc_shared.c1_to_c0_ctrl`
pub record Sender : Type 0 where
  pub seq : ℕ
  pub ring : Ring

-- the bytes of a little-endian field
abbrev pub le16 : ℕ → List ℕ
le16 x = x % 256 ∷ x / 256 % 256 ∷ []

abbrev pub le32 : ℕ → List ℕ
le32 x = x % 256 ∷ x / 256 % 256 ∷ x / 65536 % 256 ∷ x / 16777216 % 256 ∷ []

abbrev pub cut_len : ℕ → ℕ
cut_len n = if ltb text_max n then text_max else n

-- the `IpcPayloadText` in `buf`; `stack` is what the rest of the array held
abbrev pub text_header : Request → List ℕ
text_header q =
    le32 0
    ++ le32 q.to_node_id
    ++ (q.channel_index ∷ (if q.want_ack then 1 else 0) ∷ [])
    ++ le16 (cut_len q.text_len)

abbrev pub payload_text : Request → List ℕ → List ℕ
payload_text q stack = text_header q ++ copy_from q.text (cut_len q.text_len) stack

-- the arguments of `ipc_ring_push`
abbrev pub command : ℕ → Request → List ℕ → Message
command seq q stack = record {
  id = cmd_send_text;
  number = seq;
  bytes = some (payload_text q stack);
  len = header_size + cut_len q.text_len;
}

-- `messages_send_text`: its result, and `*out_seq`
unfoldable pub send_text : Sender → Request → List ℕ → Bool × ℕ × Sender
send_text s q stack =
    let (ok, ring) = push ring_slot_count s.ring (command s.seq q stack) in
    (ok, s.seq, record { seq = inc8 s.seq; ring = ring })
