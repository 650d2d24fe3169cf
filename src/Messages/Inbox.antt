-- ===== src/Messages/Inbox.antt =====
-- firmware/core1/src/messages/messages_inbox.c: the last four texts received.
pub mod Recent
use mokya_lora.Prelude.{
  ℕ, ◌+◌, ◌-◌, ◌%◌, Bool, Option, none, some, List, [], ◌∷◌, ◌++◌, ltb, leb, if◌then◌else◌, get_or,
  set, add32, take, drop, length, replicate,
}
use mokya_lora.Ipc.Ring.{copy_from}

-- `MESSAGES_INBOX_TEXT_MAX` and `MESSAGES_INBOX_CAPACITY`
abbrev pub text_max : ℕ
text_max = 200

abbrev pub capacity : ℕ
capacity = 4

-- `messages_inbox_entry_t`
pub record Entry : Type 0 where
  pub seq : ℕ
  pub from_node_id : ℕ
  pub to_node_id : ℕ
  pub channel_index : ℕ
  pub text_len : ℕ
  pub text : List ℕ

-- the module's statics
pub record Inbox : Type 0 where
  pub ring : List Entry
  pub write_idx : ℕ
  pub count : ℕ
  pub latest_seq : ℕ

-- the arguments of a publication; `none` is a `NULL` text
pub record Text : Type 0 where
  pub from_node_id : ℕ
  pub to_node_id : ℕ
  pub channel_index : ℕ
  pub bytes : Option (List ℕ)
  pub len : ℕ

abbrev pub empty_entry : Entry
empty_entry = record {
  seq = 0;
  from_node_id = 0;
  to_node_id = 0;
  channel_index = 0;
  text_len = 0;
  text = [];
}

-- `static` storage starts as zeros
abbrev pub initial : Inbox
initial = record { ring = replicate 4 empty_entry; write_idx = 0; count = 0; latest_seq = 0 }

-- the length that is kept of a text
abbrev pub cut : ℕ → ℕ
cut n = if ltb text_max n then text_max else n

abbrev pub fill : Entry → Text → ℕ → Entry
fill slot m seq = record {
  seq = seq;
  from_node_id = m.from_node_id;
  to_node_id = m.to_node_id;
  channel_index = m.channel_index;
  text_len = cut m.len;
  text = copy_from m.bytes (cut m.len) slot.text;
}

-- `messages_inbox_publish`
unfoldable pub publish : Inbox → Text → Inbox
publish s m = record {
  ring =
      set s.ring s.write_idx
        (fill (get_or s.ring s.write_idx empty_entry) m (add32 s.latest_seq 1));
  write_idx = (s.write_idx + 1) % capacity;
  count = if ltb s.count capacity then s.count + 1 else s.count;
  latest_seq = add32 s.latest_seq 1;
}

-- `messages_inbox_take_at_offset`; `none` is `false`
unfoldable pub take_at_offset : Inbox → ℕ → Option Entry
take_at_offset s offset =
    if leb s.count offset
    then none
    else let newest = (s.write_idx + capacity - 1) % capacity in
      some (get_or s.ring ((newest + capacity - offset) % capacity) empty_entry)
