-- ===== src/Messages/Tests.antt =====
-- The inbox after five publications, one of them too long.
use mokya_lora.Prelude.{
  ◌≤◌, refl, Bool, true, ◌+◌, ◌%◌, ◌⊎◌, ℕ, ◌≡◌, some, List, [], ◌∷◌, replicate, arith,
}
use mathlib.Core.Option
use mokya_lora.Ipc.Ring.{Ring, empty_slot, ring_slot_count}
use mokya_lora.Ipc.Ring.Spec.{Packet, Queue}
use mokya_lora.Ipc.Ring.Inv.{IsValid}
use mokya_lora.Ipc.Ring.Refine.{contents}
use mokya_lora.Messages.Send.{Request, send_text, cmd_send_text}
use mokya_lora.Messages.Send.Layout.{read_text, send_text-delivers}
use mokya_lora.Messages.Nodes.{Node, Update, Db, empty_node, upsert, pass, passes, take_at}
use mokya_lora.Messages.Nodes.Rank.{Listed, take_at-Listed, with_touch}
use mokya_lora.Messages.Nodes.Slots.{lookup}
use mokya_lora.Messages.Nodes.Upsert.{
  IsTable, IsEvicted, visible, node_of, lookup-upsert, upsert-keeps,
}
use mokya_lora.Messages.Nodes.Unique.{IsUnique, upsert-IsUnique}
use mokya_lora.Messages.Inbox.{Text}
use mokya_lora.Messages.Inbox.Recent.{after, shown, shown-after}

abbrev text : ℕ → ℕ → Text
text from n = record {
  from_node_id = from;
  to_node_id = 0xFFFFFFFF;
  channel_index = 0;
  bytes = some (replicate n 65);
  len = n;
}

abbrev texts : List Text
texts = text 5 2 ∷ text 4 201 ∷ text 3 1 ∷ text 2 3 ∷ text 1 1 ∷ []

shown-after_example :
    shown (after texts) 3
    ≡ some record {
      seq = 2;
      from_node_id = 2;
      to_node_id = 0xFFFFFFFF;
      channel_index = 0;
      text_len = 3;
      text = 65 ∷ 65 ∷ 65 ∷ [];
    }
shown-after_example =
    shown-after texts 3
      (omega arith, (omega arith, (omega arith, (omega arith, (omega arith, tt)))))

abbrev ring : Ring
ring = record { head = 0; tail = 0; overflow = 0; slots = replicate 32 empty_slot }

ring-IsValid : IsValid ring_slot_count ring
ring-IsValid = record {
  room = omega arith;
  pos = omega arith;
  fits = omega arith;
  folds = ∣ (134217728, refl) ∣₁;
  head_word = omega arith;
  tail_word = omega arith;
  bounded = omega arith;
}

abbrev hello : Request
hello = record {
  to_node_id = 0xFFFFFFFF;
  channel_index = 2;
  want_ack = true;
  text = some (72 ∷ 105 ∷ []);
  text_len = 2;
}

send_text-delivers_example :
    let (ok, seq, s') = send_text (record { seq = 255; ring = ring }) hello [] in
    (p : Packet) × (p.header ≡ record { msg_id = cmd_send_text; seq = seq; payload_len = 14 })
    × (read_text p.bytes ≡ record {
      from_node_id = 0;
      to_node_id = 0xFFFFFFFF;
      channel_index = 2;
      want_ack = 1;
      text_len = 2;
      text = 72 ∷ 105 ∷ [];
    })
    × (◌≡◌ {A = Bool × Queue} (ok, contents ring_slot_count s'.ring) (true, p ∷ []))
    × (seq ≡ 255)
    × (s'.seq ≡ (seq + 1) % 256)
send_text-delivers_example =
    send_text-delivers (record { seq = 255; ring = ring }) hello [] ring-IsValid
      (record { to_word = omega arith; has_text = omega arith })

abbrev node_at : ℕ → ℕ → Node
node_at id touch = record empty_node { in_use = true; node_id = id; last_touch_seq = touch }

-- a full table; node 13 was touched longest ago
abbrev full : Db
full = record {
  table =
      node_at 11 8
      ∷ node_at 12 7
      ∷ node_at 13 1
      ∷ node_at 14 2
      ∷ node_at 15 3
      ∷ node_at 16 4
      ∷ node_at 17 5
      ∷ node_at 18 6
      ∷ [];
  change_seq = 8;
  touch_clock = 8;
}

full-IsTable : IsTable full.table
full-IsTable = record { room = refl; words = grind arith }

abbrev newcomer : Update
newcomer = record {
  node_id = 19;
  rssi = 0;
  snr_x4 = 0;
  hops_away = 1;
  lat_e7 = 0;
  lon_e7 = 0;
  battery_mv = 3700;
  alias = some (65 ∷ 66 ∷ []);
  alias_len = 2;
}

lookup-upsert_example :
    Option.map visible (lookup (upsert full newcomer).table 19) ≡ some (node_of newcomer 9)
lookup-upsert_example = lookup-upsert full newcomer full-IsTable (omega arith) (omega arith)

upsert-keeps_example :
    (lookup (upsert full newcomer).table 13 ≡ lookup full.table 13) ⊎ IsEvicted full.table 19 13
upsert-keeps_example = upsert-keeps full newcomer 13 full-IsTable (omega arith) (omega arith)

upsert-IsUnique_example :
    IsTable (upsert full newcomer).table × IsUnique (upsert full newcomer).table
upsert-IsUnique_example = upsert-IsUnique full newcomer full-IsTable (grind arith)

abbrev two_nodes : List Node
two_nodes = node_at 12 7 ∷ empty_node ∷ node_at 11 8 ∷ []

two_nodes_unique : (touch : ℕ) → with_touch two_nodes touch ≤ 1
two_nodes_unique touch = ground arith

take_at-Listed_example : Listed two_nodes 1 (some (node_at 12 7))
unfolding take_at passes pass
take_at-Listed_example = take_at-Listed two_nodes 1 two_nodes_unique
