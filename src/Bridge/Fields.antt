-- ===== src/Bridge/Fields.antt =====
-- The stores of core 1 get what stands in the received packet, and nothing of what an earlier one
-- left in the task's buffer.
use mokya_lora.Prelude.{
  ℕ, zero, suc, ◌+◌, ◌-◌, ◌%◌, ◌*◌, ◌≤◌, ◌<◌, ◌≡◌, refl, sym, ap, ap₂, ◌∙◌, some, List, [], ◌∷◌,
  ◌++◌, ltb, if◌then◌else◌, ◌==◌, take, drop, length, min, get_or, set, add32, arith, length-drop,
  take-length-append, take-take, AllBytes, get_or-IsByte,
}
use mokya_lora.Ipc.Ring.{Header, copy_from, payload_max, copy_over}
use mokya_lora.Ipc.Ring.Spec.{Packet}
use mokya_lora.Messages.Inbox
use mokya_lora.Messages.Inbox.{Text}
use mokya_lora.Messages.Nodes.{Db, Update, upsert, write_node, slot_for, cut_alias, empty_node}
use mokya_lora.Messages.Send.Layout.{byte_at, word16_at, word32_at}
use mokya_lora.Messages.Status
use mokya_lora.Bridge.{
  Kept, Kind, reboot, node, ack, text, serial, other, kind, store, update_of, text_of, ack_of,
  alias_len, text_len, alias_offset, text_offset,
}

-- what stands in a packet's own bytes
abbrev pub packet_update : List ℕ → Update
packet_update b =
    let n = min (byte_at b 18) (length b - 19) in
    record {
      node_id = word32_at b 0;
      rssi = word16_at b 4;
      snr_x4 = byte_at b 6;
      hops_away = byte_at b 7;
      lat_e7 = word32_at b 8;
      lon_e7 = word32_at b 12;
      battery_mv = word16_at b 16;
      alias = some (take n (drop 19 b));
      alias_len = n;
    }

abbrev pub packet_text : List ℕ → Text
packet_text b =
    let n = min (word16_at b 10) (length b - 12) in
    record {
      from_node_id = word32_at b 0;
      to_node_id = word32_at b 4;
      channel_index = byte_at b 8;
      bytes = some (take n (drop 12 b));
      len = n;
    }

-- what a packet is to the stores
abbrev pub handle_as : Kind → List ℕ → Kept → Kept
handle_as node b k = record k { nodes = upsert k.nodes (packet_update b) }
handle_as ack b k = record k { status = Status.publish k.status (ack_of b) }
handle_as text b k = record k { inbox = Inbox.publish k.inbox (packet_text b) }
handle_as reboot b k = k
handle_as serial b k = k
handle_as other b k = k

unfoldable pub handle : Packet → Kept → Kept
handle p k = handle_as (kind p.header) p.bytes k

-- A packet of a ring: bytes, as many as the header says, at most what a slot holds.
pub record IsPacket (p : Packet) : Type 0 where
  pub whole : length p.bytes ≡ p.header.payload_len
  pub fits : p.header.payload_len ≤ payload_max
  pub bytes : AllBytes p.bytes

get_or-append : (xs ys : List ℕ) (i d : ℕ) → i < length xs → get_or (xs ++ ys) i d ≡ get_or xs i d
get_or-append [] ys i d h = absurd (omega arith)
get_or-append (x ∷ xs) ys zero d h = refl
get_or-append (x ∷ xs) ys (suc i) d h = get_or-append xs ys i d (omega arith)

drop-append : (n : ℕ) (xs ys : List ℕ) → n ≤ length xs → drop n (xs ++ ys) ≡ drop n xs ++ ys
drop-append zero xs ys h = refl
drop-append (suc n) [] ys h = absurd (omega arith)
drop-append (suc n) (x ∷ xs) ys h = drop-append n xs ys (omega arith)

module _ (b stale : List ℕ) where
  word16-append : (k : ℕ) → k + 1 < length b → word16_at (b ++ stale) k ≡ word16_at b k
  word16-append k h =
      ap₂ (λ x y. x + 256 * y) (get_or-append b stale k 0 (omega arith))
        (get_or-append b stale (k + 1) 0 h)

  word32-append : (k : ℕ) → k + 3 < length b → word32_at (b ++ stale) k ≡ word32_at b k
  word32-append k h =
      ap₂ (λ x y. x + 65536 * y) (word16-append k (omega arith))
        (word16-append (k + 2) (omega arith))

  slice-append :
      (at n m : ℕ)
      → at ≤ length b
      → n ≤ m
      → m + at ≤ length b
      → take n (drop at (b ++ stale)) ≡ take n (take m (drop at b))
  slice-append at n m h j k =
      ap (take n) (drop-append at b stale h)
      ∙ take-length-append n (drop at b) stale (omega (arith, length-drop at b))
      ∙ sym (take-take n m (drop at b) j)

-- Only the bytes that are copied matter.
copy_from-same :
    (a b dst : List ℕ) (n : ℕ)
    → take n a ≡ take n b
    → copy_from (some a) n dst ≡ copy_from (some b) n dst
copy_from-same a b dst n e = ap (λ t. if ltb 0 n then copy_over t dst else dst) e

upsert-same :
    (s : Db) (u : Update) (a b : List ℕ)
    → take (cut_alias u.alias_len) a ≡ take (cut_alias u.alias_len) b
    → upsert s (record u { alias = some a }) ≡ upsert s (record u { alias = some b })
unfolding upsert
upsert-same s u a b e =
    let i = slot_for s.table u.node_id in
    let old = get_or s.table i empty_node in
    ap
      (λ l. if u.node_id == 0 then s else record {
        table = set s.table i (record (write_node old u (add32 s.touch_clock 1)) { alias = l });
        change_seq = add32 s.change_seq 1;
        touch_clock = add32 s.touch_clock 1;
      })
      (copy_from-same a b old.alias (cut_alias u.alias_len) e)

publish-same :
    (s : Inbox.Inbox) (m : Text) (a b : List ℕ)
    → take (Inbox.cut m.len) a ≡ take (Inbox.cut m.len) b
    → Inbox.publish s (record m { bytes = some a }) ≡ Inbox.publish s (record m { bytes = some b })
unfolding Inbox.publish
publish-same s m a b e =
    let slot = get_or s.ring s.write_idx Inbox.empty_entry in
    let made = Inbox.fill slot m (add32 s.latest_seq 1) in
    ap
      (λ l. record {
        ring = set s.ring s.write_idx (record made { text = l });
        write_idx = (s.write_idx + 1) % Inbox.capacity;
        count = if ltb s.count Inbox.capacity then s.count + 1 else s.count;
        latest_seq = add32 s.latest_seq 1;
      })
      (copy_from-same a b slot.text (Inbox.cut m.len) e)

kind-le :
    (h : Header)
    → (kind h ≡ node → 20 ≤ h.payload_len)
      × (kind h ≡ ack → 8 ≤ h.payload_len)
      × (kind h ≡ text → 12 ≤ h.payload_len)
unfolding kind
kind-le h = (λ e. ground arith, λ e. ground arith, λ e. ground arith)

module _ (p : Packet) (stale : List ℕ) (v : IsPacket p) where
  abbrev b : List ℕ
  b = p.bytes

  abbrev scratch : List ℕ
  scratch = b ++ stale

  module _ (le : 20 ≤ p.header.payload_len) where
    alias_len-min : alias_len p.header scratch ≡ min (byte_at b 18) (length b - 19)
    alias_len-min = ground (
      arith,
      get_or-append b stale 18 0 (omega (arith, v.whole)),
      get_or-IsByte b 18 v.bytes,
      v.whole,
    )

    update-fields :
        update_of p.header scratch
        ≡ record (packet_update b) { alias = some (drop alias_offset scratch) }
    update-fields = λ i. record {
      node_id = word32-append b stale 0 (omega (arith, v.whole)) i;
      rssi = word16-append b stale 4 (omega (arith, v.whole)) i;
      snr_x4 = get_or-append b stale 6 0 (omega (arith, v.whole)) i;
      hops_away = get_or-append b stale 7 0 (omega (arith, v.whole)) i;
      lat_e7 = word32-append b stale 8 (omega (arith, v.whole)) i;
      lon_e7 = word32-append b stale 12 (omega (arith, v.whole)) i;
      battery_mv = word16-append b stale 16 (omega (arith, v.whole)) i;
      alias = some (drop alias_offset scratch);
      alias_len = alias_len-min i;
    }

    upsert-packet : (s : Db) → upsert s (update_of p.header scratch) ≡ upsert s (packet_update b)
    upsert-packet s =
        let n = min (byte_at b 18) (length b - 19) in
        ap (upsert s) update-fields
        ∙ upsert-same s (packet_update b) (drop alias_offset scratch) (take n (drop 19 b)) (
            slice-append b stale 19 (cut_alias n) n (omega (arith, v.whole)) (ground arith)
              (omega (arith, v.whole)))

  module _ (le : 12 ≤ p.header.payload_len) where
    text_len-min : text_len p.header scratch ≡ min (word16_at b 10) (length b - 12)
    text_len-min = ground (arith, word16-append b stale 10 (omega (arith, v.whole)), v.whole)

    text-fields :
        text_of p.header scratch
        ≡ record (packet_text b) { bytes = some (drop text_offset scratch) }
    text-fields = λ i. record {
      from_node_id = word32-append b stale 0 (omega (arith, v.whole)) i;
      to_node_id = word32-append b stale 4 (omega (arith, v.whole)) i;
      channel_index = get_or-append b stale 8 0 (omega (arith, v.whole)) i;
      bytes = some (drop text_offset scratch);
      len = text_len-min i;
    }

    publish-packet :
        (s : Inbox.Inbox)
        → Inbox.publish s (text_of p.header scratch) ≡ Inbox.publish s (packet_text b)
    publish-packet s =
        let n = min (word16_at b 10) (length b - 12) in
        ap (Inbox.publish s) text-fields
        ∙ publish-same s (packet_text b) (drop text_offset scratch) (take n (drop 12 b)) (
            slice-append b stale 12 (Inbox.cut n) n (omega (arith, v.whole)) (ground arith)
              (omega (arith, v.whole)))

  ack-fields : 8 ≤ p.header.payload_len → ack_of scratch ≡ ack_of b
  ack-fields le = λ i. record {
    ipc_seq = get_or-append b stale 0 0 (omega (arith, v.whole)) i;
    result = get_or-append b stale 1 0 (omega (arith, v.whole)) i;
    error_reason = get_or-append b stale 2 0 (omega (arith, v.whole)) i;
    packet_id = word32-append b stale 4 (omega (arith, v.whole)) i;
  }

  store-as :
      (x : Kind) (k : Kept) → kind p.header ≡ x → store x p.header scratch k ≡ handle_as x b k
  unfolding store
  store-as node k e =
      ap (λ n. record k { nodes = n }) (upsert-packet ((kind-le p.header).0 e) k.nodes)
  store-as ack k e =
      ap (λ a. record k { status = Status.publish k.status a })
        (ack-fields ((kind-le p.header).1 e))
  store-as text k e =
      ap (λ n. record k { inbox = n }) (publish-packet ((kind-le p.header).2 e) k.inbox)
  store-as reboot k e = refl
  store-as serial k e = refl
  store-as other k e = refl

  -- Of a packet that lies at the front of the task's buffer, a message to the stores is read from the
  -- packet's own bytes: whatever the buffer holds behind them, and whatever lengths the message
  -- claims for its alias or its text, which count up to the end of the packet.
  pub store-packet : (k : Kept) → store (kind p.header) p.header scratch k ≡ handle p k
  unfolding handle
  store-packet k = store-as (kind p.header) k refl
