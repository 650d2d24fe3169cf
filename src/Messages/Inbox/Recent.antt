-- ===== src/Messages/Inbox/Recent.antt =====
-- The inbox shows the latest texts, the newest first, under consecutive numbers.
use mathlib.Core.Option
use mokya_lora.Prelude.{
  ℕ, zero, suc, ◌+◌, ◌-◌, ◌%◌, ◌≤◌, ◌<◌, ◌≡◌, ◌≢◌, refl, ap, ◌∙◌, Option, none, some, List, [], ◌∷◌,
  ltb, leb, if◌then◌else◌, get_or, get_elem?, set, add32, take, length, arith, u32, length-set,
  get_or-set_self, get_or-set_ne,
}
use mokya_lora.Ipc.Ring.Spec.{bytes_of}
use mokya_lora.Ipc.Ring.Refine.{take-copy_from}
use mokya_lora.Messages.Inbox.{
  Entry, Inbox, Text, empty_entry, initial, cut, fill, capacity, publish, take_at_offset,
}

-- what of an entry belongs to its message
abbrev pub visible : Entry → Entry
visible e = record e { text = take e.text_len e.text }

-- A text pointer points to `text_len` bytes, `NULL` only for 0.
abbrev pub IsText : Text → Type 0
IsText m = m.len ≤ length (bytes_of m.bytes)

abbrev pub AllTexts : List Text → Type 0
AllTexts [] = Unit
AllTexts (m ∷ ms) = IsText m × AllTexts ms

-- The texts of a history, the newest first, numbered from 1 at its oldest.
abbrev pub numbered : List Text → List Entry
numbered [] = []
numbered (m ∷ ms) =
    record {
      seq = (length ms + 1) % u32;
      from_node_id = m.from_node_id;
      to_node_id = m.to_node_id;
      channel_index = m.channel_index;
      text_len = cut m.len;
      text = take (cut m.len) (bytes_of m.bytes);
    }
    ∷ numbered ms

-- the inbox behind a history
unfoldable pub after : List Text → Inbox
after [] = initial
after (m ∷ ms) = publish (after ms) m

abbrev pub shown : Inbox → ℕ → Option Entry
shown s i = Option.map visible (take_at_offset s i)

record IsValid (s : Inbox) (ms : List Text) : Type 0 where
  room : length s.ring ≡ capacity
  index : s.write_idx < capacity
  count : s.count ≤ capacity
  seq : s.latest_seq ≡ length ms % u32

publish-IsValid :
    (s : Inbox) (m : Text) (ms : List Text) → IsValid s ms → IsValid (publish s m) (m ∷ ms)
unfolding publish
publish-IsValid s m ms v = ground (
  arith,
  length-set s.ring s.write_idx
      (fill (get_or s.ring s.write_idx empty_entry) m (add32 s.latest_seq 1)),
)

-- the place that `messages_inbox_take_at_offset` reads
place : ℕ → ℕ → ℕ
place w i = ((w + capacity - 1) % capacity + capacity - i) % capacity

module _ (w : ℕ) (h : w < capacity) where
  place-newest : place ((w + 1) % capacity) 0 ≡ w
  place-newest = unfold place in omega arith

  place-older : (i : ℕ) → suc i < capacity → place ((w + 1) % capacity) (suc i) ≡ place w i
  place-older i k = unfold place in omega arith

  place-ne : (i : ℕ) → suc i < capacity → w ≢ place w i
  place-ne i k = unfold place in omega arith

shown-place :
    (t : Inbox) (i : ℕ)
    → shown t i ≡ (
        if leb t.count i
        then none
        else some (visible (get_or t.ring (place t.write_idx i) empty_entry)))
unfolding take_at_offset place
shown-place t i = ground arith

module _ (s : Inbox) (m : Text) (ms : List Text) (v : IsValid s ms) where
  abbrev new_slot : Entry
  new_slot = fill (get_or s.ring s.write_idx empty_entry) m (add32 s.latest_seq 1)

  -- the slots behind the new one
  read-older :
      (i : ℕ)
      → suc i < capacity
      → get_or (publish s m).ring (place (publish s m).write_idx (suc i)) empty_entry
        ≡ get_or s.ring (place s.write_idx i) empty_entry
  unfolding publish
  read-older i h =
      ap (λ j. get_or (set s.ring s.write_idx new_slot) j empty_entry)
        (place-older s.write_idx v.index i h)
      ∙ get_or-set_ne s.ring s.write_idx (place s.write_idx i) new_slot empty_entry
          (place-ne s.write_idx v.index i h)

  read-newest : get_or (publish s m).ring (place (publish s m).write_idx 0) empty_entry ≡ new_slot
  unfolding publish
  read-newest =
      ap (λ j. get_or (set s.ring s.write_idx new_slot) j empty_entry)
        (place-newest s.write_idx v.index)
      ∙ get_or-set_self s.ring s.write_idx new_slot empty_entry (omega (arith, v.room, v.index))

  count-publish : (publish s m).count ≡ (if ltb s.count capacity then s.count + 1 else s.count)
  unfolding publish
  count-publish = refl

  -- A publication moves every text one place back,
  shown-publish-suc :
      (i : ℕ) → shown (publish s m) (suc i) ≡ (if ltb (suc i) capacity then shown s i else none)
  shown-publish-suc i = ground (
    arith,
    shown-place (publish s m) (suc i),
    shown-place s i,
    count-publish,
    v.count,
    read-older i,
  )

  -- and shows the new one in front.
  shown-publish-zero : IsText m → shown (publish s m) 0 ≡ get_elem? (numbered (m ∷ ms)) 0
  shown-publish-zero t =
      shown-place (publish s m) 0
      ∙ ground (arith, count-publish, v.count)
      ∙ ap (λ e. some (visible e)) read-newest
      ∙ shows
    where
      words : take (cut m.len) new_slot.text ≡ take (cut m.len) (bytes_of m.bytes)
      words = take-copy_from m.bytes (cut m.len) _ (ground arith)

      number : add32 s.latest_seq 1 ≡ (length ms + 1) % u32
      number = omega (arith, v.seq)

      shows : some (visible new_slot) ≡ get_elem? (numbered (m ∷ ms)) 0
      shows = λ i. some record {
        seq = number i;
        from_node_id = m.from_node_id;
        to_node_id = m.to_node_id;
        channel_index = m.channel_index;
        text_len = cut m.len;
        text = words i;
      }

after-IsValid : (ms : List Text) → IsValid (after ms) ms
unfolding after
after-IsValid [] = omega arith
after-IsValid (m ∷ ms) = publish-IsValid (after ms) m ms (after-IsValid ms)

-- After any publications, the entry at an offset below 4 is the text that was published that many
-- publications before the last, whole but cut to 200 bytes, under its number in the order of
-- publication (modulo 2 ^ 32); at any other offset there is none.
pub shown-after :
    (ms : List Text) (i : ℕ)
    → AllTexts ms
    → shown (after ms) i ≡ (if ltb i capacity then get_elem? (numbered ms) i else none)
unfolding after
shown-after [] i t = shown-place initial i ∙ ground arith
shown-after (m ∷ ms) zero t = shown-publish-zero (after ms) m ms (after-IsValid ms) t.0
shown-after (m ∷ ms) (suc i) t =
    shown-publish-suc (after ms) m ms (after-IsValid ms) i ∙ ground (arith, shown-after ms i t.1)
