-- ===== src/Messages/Nodes/Upsert.antt =====
-- What an update does to the nodes that a lookup finds.
use mathlib.Core.Option
use mokya_lora.Prelude.{
  ℕ, ◌≤◌, ◌<◌, ◌≡◌, ◌≢◌, ap, ◌∙◌, true, false, ◌&&◌, Option, none, some, List, ◌==◌, get_or, set,
  take, length, arith, ◌⊎◌, inl, inr, Bool-cases, add32,
}
use mokya_lora.Ipc.Ring.Spec.{bytes_of}
use mokya_lora.Ipc.Ring.Refine.{take-copy_from}
use mokya_lora.Messages.Nodes.{
  Node, Update, Db, holds, find_by_id, empty_node, slot_for, slot_or, write_node, upsert, capacity,
  cut_alias,
}
use mokya_lora.Messages.Nodes.Slots.{
  lookup, lookup-set_self, lookup-set_ne, lookup-take-none, Found, find_by_id-Found, AllUsed,
  NoneOlder, AllWords, Oldest, find_free_or_oldest-Oldest,
}

-- The table of `nodes_db.c`, with stamps that fit their type.
pub record IsTable (t : List Node) : Type 0 where
  pub room : length t ≡ capacity
  pub words : AllWords t

-- The slot of an update: the one that holds the id, or, with none that does, one that is free or
-- else was touched longest ago, of a full table.
abbrev pub IsSlot : List Node → ℕ → ℕ → Type 0
IsSlot t id i =
    (i < length t)
    × (lookup (take i t) id ≡ none)
    × ((holds (get_or t i empty_node) id ≡ true)
        ⊎ ((lookup t id ≡ none)
            × ((get_or t i empty_node).in_use ≡ true
                → AllUsed t × NoneOlder (get_or t i empty_node).last_touch_seq t)))

slot_or-IsSlot :
    (t : List Node) (id r : ℕ) (o : Option ℕ)
    → Found t id o
    → Oldest t r
    → IsSlot t id (slot_or o r)
slot_or-IsSlot t id r none f h = (h.0, lookup-take-none t r id f, inr (f, h.1))
slot_or-IsSlot t id r (some i) f h = (f.0, f.1, inl f.2)

pub slot_for-IsSlot : (t : List Node) (id : ℕ) → IsTable t → IsSlot t id (slot_for t id)
slot_for-IsSlot t id v =
    slot_or-IsSlot t id _ (find_by_id t id) (find_by_id-Found t id)
      (find_free_or_oldest-Oldest t (omega (arith, v.room)) v.words)

-- what of a node's alias belongs to it
abbrev pub visible : Node → Node
visible e = record e { alias = take e.alias_len e.alias }

-- the node that an update describes
abbrev pub node_of : Update → ℕ → Node
node_of u touch = record {
  in_use = true;
  node_id = u.node_id;
  rssi = u.rssi;
  snr_x4 = u.snr_x4;
  hops_away = u.hops_away;
  lat_e7 = u.lat_e7;
  lon_e7 = u.lon_e7;
  battery_mv = u.battery_mv;
  alias_len = cut_alias u.alias_len;
  alias = take (cut_alias u.alias_len) (bytes_of u.alias);
  last_touch_seq = touch;
}

-- The alias pointer points to `alias_len` bytes, `NULL` only for 0.
abbrev pub IsUpdate : Update → Type 0
IsUpdate u = u.alias_len ≤ length (bytes_of u.alias)

visible-write_node :
    (e : Node) (u : Update) (touch : ℕ)
    → IsUpdate u
    → visible (write_node e u touch) ≡ node_of u touch
visible-write_node e u touch h =
    ap (λ a. record (node_of u touch) { alias = a })
      (take-copy_from u.alias (cut_alias u.alias_len) e.alias (ground (arith, h)))

pub upsert-table :
    (s : Db) (u : Update)
    → u.node_id ≢ 0
    → (upsert s u).table
      ≡ set s.table (slot_for s.table u.node_id) (
          write_node
            (get_or s.table (slot_for s.table u.node_id) empty_node)
            u
            (add32 s.touch_clock 1))
unfolding upsert
upsert-table s u h = ground (arith, h)

-- After `nodes_db_upsert` of an id that is not 0, the table shows that id with the update's values,
-- its alias cut to 16 bytes, under the next touch stamp, whatever the table held before.
pub lookup-upsert :
    (s : Db) (u : Update)
    → IsTable s.table
    → u.node_id ≢ 0
    → IsUpdate u
    → Option.map visible (lookup (upsert s u).table u.node_id)
      ≡ some (node_of u (add32 s.touch_clock 1))
lookup-upsert s u v h a =
    let place = slot_for-IsSlot s.table u.node_id v in
    ap (λ t. Option.map visible (lookup t u.node_id)) (upsert-table s u h)
    ∙ ap (Option.map visible) (lookup-set_self s.table _ u.node_id _ place.0 place.1 own)
    ∙ ap some (visible-write_node (get_or s.table (slot_for s.table u.node_id) empty_node) u _ a)
  where
    own : (true && u.node_id == u.node_id) ≡ true
    own = ground arith

-- The id `j` is what an update of `id` costs: the table is full and without `id`, and `j` stands in
-- a slot before which none was touched.
abbrev pub IsEvicted : List Node → ℕ → ℕ → Type 0
IsEvicted t id j =
    (lookup t id ≡ none)
    × AllUsed t
    × ((i : ℕ) × (i < length t)
        × (holds (get_or t i empty_node) j ≡ true)
        × NoneOlder (get_or t i empty_node).last_touch_seq t)

evicts-IsEvicted :
    (t : List Node) (id j i : ℕ)
    → IsSlot t id i
    → j ≢ id
    → holds (get_or t i empty_node) j ≡ true
    → IsEvicted t id j
evicts-IsEvicted t id j i (lt, before, inl own) ne h = absurd (ground (arith, own, ne, h))
evicts-IsEvicted t id j i (lt, before, inr (absent, least)) ne h =
    let (all, none_older) = least (ground (arith, h)) in (absent, all, (i, lt, h, none_older))

-- `nodes_db_upsert` of an id that is not 0 leaves every other id as a lookup finds it, but for one
-- in the slot that was touched longest ago, and that only if the table is full and new to the id.
pub upsert-keeps :
    (s : Db) (u : Update) (j : ℕ)
    → IsTable s.table
    → u.node_id ≢ 0
    → j ≢ u.node_id
    → (lookup (upsert s u).table j ≡ lookup s.table j) ⊎ IsEvicted s.table u.node_id j
upsert-keeps s u j v h ne =
    let place = slot_for-IsSlot s.table u.node_id v in
    elim (Bool-cases (holds old j)) [
      | inl t ↦ inr (evicts-IsEvicted s.table u.node_id j i place ne t)
      | inr f ↦
          inl (ap (λ t. lookup t j) (upsert-table s u h) ∙ lookup-set_ne s.table i j _ f other)
    ]
  where
    i : ℕ
    i = slot_for s.table u.node_id

    old : Node
    old = get_or s.table i empty_node

    other : (true && u.node_id == j) ≡ false
    other = ground (arith, ne)
