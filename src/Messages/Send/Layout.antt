-- ===== src/Messages/Send/Layout.antt =====
-- What core 0 finds in the ring for a text that was sent.
use mokya_lora.Prelude.{
  ℕ, ◌+◌, ◌*◌, ◌≤◌, ◌<◌, ◌≡◌, refl, Bool, true, false, List, [], ◌∷◌, ◌++◌, ltb, if◌then◌else◌,
  get_or, ap, ◌∙◌, length-take, take, take-append, take-take, drop, length, arith, inc8, u32,
}
use mokya_lora.Ipc.Ring.{Message, payload_max, ring_slot_count, copy_from}
use mokya_lora.Ipc.Ring.Spec.{Packet, bytes_of, packet, IsMessage, enqueue, Queue}
use mokya_lora.Ipc.Ring.Inv.{IsValid}
use mokya_lora.Ipc.Ring.Refine.{contents, push_refines, take-copy_from}
use mokya_lora.Messages.Send.{
  Request, Sender, send_text, cut_len, payload_text, text_header, command, cmd_send_text,
  header_size,
}

-- `IpcPayloadText`, read by the offsets of its fields
pub record TextFields : Type 0 where
  pub from_node_id : ℕ
  pub to_node_id : ℕ
  pub channel_index : ℕ
  pub want_ack : ℕ
  pub text_len : ℕ
  pub text : List ℕ

abbrev pub byte_at : List ℕ → ℕ → ℕ
byte_at b k = get_or b k 0

abbrev pub word16_at : List ℕ → ℕ → ℕ
word16_at b k = byte_at b k + 256 * byte_at b (k + 1)

abbrev pub word32_at : List ℕ → ℕ → ℕ
word32_at b k = word16_at b k + 65536 * word16_at b (k + 2)

abbrev pub read_text : List ℕ → TextFields
read_text b = record {
  from_node_id = word32_at b 0;
  to_node_id = word32_at b 4;
  channel_index = byte_at b 8;
  want_ack = byte_at b 9;
  text_len = word16_at b 10;
  text = take (word16_at b 10) (drop 12 b);
}

-- the C types of the arguments, and the text's `text_len` bytes
pub record IsRequest (q : Request) : Type 0 where
  pub to_word : q.to_node_id < u32
  pub has_text : q.text_len ≤ length (bytes_of q.text)

abbrev pub fields_of : Request → TextFields
fields_of q = record {
  from_node_id = 0;
  to_node_id = q.to_node_id;
  channel_index = q.channel_index;
  want_ack = if q.want_ack then 1 else 0;
  text_len = cut_len q.text_len;
  text = take (cut_len q.text_len) (bytes_of q.text);
}

module _ (q : Request) (stack : List ℕ) (h : IsRequest q) where
  abbrev n : ℕ
  n = cut_len q.text_len

  abbrev body : List ℕ
  body = take n (copy_from q.text n stack)

  sent_bytes : take (header_size + n) (payload_text q stack) ≡ text_header q ++ body
  sent_bytes = take-append (text_header q) (copy_from q.text n stack) n

  short : n ≤ length (bytes_of q.text)
  short = ground (arith, h.has_text)

  to_read : word32_at (text_header q ++ body) 4 ≡ q.to_node_id
  to_read = omega (arith, h.to_word)

  len_read : word16_at (text_header q ++ body) 10 ≡ n
  len_read = grind arith

  text_read : take (word16_at (text_header q ++ body) 10) body ≡ take n (bytes_of q.text)
  text_read =
      ap (λ k. take k body) len_read
      ∙ take-take n n (copy_from q.text n stack) (omega arith)
      ∙ take-copy_from q.text n stack short

  read_text-command : read_text (text_header q ++ body) ≡ fields_of q
  read_text-command = λ i. record {
    from_node_id = 0;
    to_node_id = to_read i;
    channel_index = q.channel_index;
    want_ack = if q.want_ack then 1 else 0;
    text_len = len_read i;
    text = text_read i;
  }

  command-IsMessage : (seq : ℕ) → IsMessage (command seq q stack)
  command-IsMessage seq = omega (
    arith,
    short,
    ap length (take-copy_from q.text n stack short),
    length-take n (copy_from q.text n stack),
    length-take n (bytes_of q.text),
  )

  abbrev sent : ℕ → Packet
  sent seq = packet (command seq q stack)

  sent-lem : (seq : ℕ) → read_text (sent seq).bytes ≡ fields_of q
  sent-lem seq = ap read_text sent_bytes ∙ read_text-command

enqueue-fits :
    (cap : ℕ) (c : Queue) (m : Message)
    → m.len ≤ payload_max
    → enqueue cap c m ≡ (if ltb (length c) cap then (true, c ++ packet m ∷ []) else (false, c))
unfolding enqueue
enqueue-fits cap c m h = ground arith

-- On a valid ring `messages_send_text` appends one packet, unless the ring is full, and reports
-- whether it did. The packet bears the command's id, the sequence number that the call hands out and
-- the payload's length; its bytes, read by the offsets of `IpcPayloadText`, are the arguments, the
-- text cut to 200 bytes. Either way the next call gets the next number, modulo 256.
pub send_text-delivers :
    (s : Sender) (q : Request) (stack : List ℕ)
    → IsValid ring_slot_count s.ring
    → IsRequest q
    → let (ok, seq, s') = send_text s q stack in
      let c = contents ring_slot_count s.ring in
      (p : Packet) × (p.header
        ≡ record { msg_id = cmd_send_text; seq = seq; payload_len = 12 + cut_len q.text_len })
      × (read_text p.bytes ≡ fields_of q)
      × (◌≡◌ {A = Bool × Queue}
          (ok, contents ring_slot_count s'.ring)
          (if ltb (length c) ring_slot_count then (true, c ++ p ∷ []) else (false, c)))
      × (seq ≡ s.seq)
      × (s'.seq ≡ inc8 seq)
unfolding send_text
send_text-delivers s q stack v h = (
  sent q stack h s.seq,
  refl,
  sent-lem q stack h s.seq,
  push_refines ring_slot_count (command s.seq q stack) v (command-IsMessage q stack h s.seq)
      ∙ enqueue-fits ring_slot_count (contents ring_slot_count s.ring) (command s.seq q stack)
          (ground arith),
  refl,
  refl,
)
