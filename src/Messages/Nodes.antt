-- ===== src/Messages/Nodes.antt =====
-- firmware/core1/src/messages/nodes_db.c: the eight nodes that were heard last.
-- Signed fields are only copied; they stand as they come.
pub mod Slots
pub mod Upsert
pub mod Unique
pub mod Rank
use mokya_lora.Prelude.{
  ℕ, ◌+◌, zero, suc, Bool, true, false, not, ◌&&◌, Option, none, some, List, [], ◌∷◌, ltb, leb,
  ◌==◌, if◌then◌else◌, get_or, set, add32, replicate,
}
use mokya_lora.Ipc.Ring.{copy_from}

-- `NODES_DB_CAPACITY` and `NODES_DB_ALIAS_MAX`
abbrev pub capacity : ℕ
capacity = 8

abbrev pub alias_max : ℕ
alias_max = 16

-- `nodes_db_entry_t`
pub record Node : Type 0 where
  pub in_use : Bool
  pub node_id : ℕ
  pub rssi : ℕ
  pub snr_x4 : ℕ
  pub hops_away : ℕ
  pub lat_e7 : ℕ
  pub lon_e7 : ℕ
  pub battery_mv : ℕ
  pub alias_len : ℕ
  pub alias : List ℕ
  pub last_touch_seq : ℕ

-- the arguments of `nodes_db_upsert`; `alias` is `none` for `NULL`
pub record Update : Type 0 where
  pub node_id : ℕ
  pub rssi : ℕ
  pub snr_x4 : ℕ
  pub hops_away : ℕ
  pub lat_e7 : ℕ
  pub lon_e7 : ℕ
  pub battery_mv : ℕ
  pub alias : Option (List ℕ)
  pub alias_len : ℕ

-- the module's statics
pub record Db : Type 0 where
  pub table : List Node
  pub change_seq : ℕ
  pub touch_clock : ℕ

abbrev pub empty_node : Node
empty_node = record {
  in_use = false;
  node_id = 0;
  rssi = 0;
  snr_x4 = 0;
  hops_away = 0;
  lat_e7 = 0;
  lon_e7 = 0;
  battery_mv = 0;
  alias_len = 0;
  alias = [];
  last_touch_seq = 0;
}

abbrev pub holds : Node → ℕ → Bool
holds e id = e.in_use && e.node_id == id

abbrev shift : Option ℕ → Option ℕ
shift none = none
shift (some i) = some (suc i)

-- `find_by_id`; `none` is -1
unfoldable pub find_by_id : List Node → ℕ → Option ℕ
find_by_id [] id = none
find_by_id (e ∷ es) id = let rest = find_by_id es id in if holds e id then some 0 else shift rest

-- The loop of `find_free_or_oldest` from index `i` on, with `oldest_idx` and `oldest_touch`.
unfoldable pub free_or_oldest_from : List Node → ℕ → ℕ → ℕ → ℕ
free_or_oldest_from [] i oldest touch = oldest
free_or_oldest_from (e ∷ es) i oldest touch =
    let older = ltb e.last_touch_seq touch in
    let rest =
      free_or_oldest_from es (i + 1) (if older then i else oldest)
        (if older then e.last_touch_seq else touch) in
    if not e.in_use then i else rest

-- `find_free_or_oldest`
unfoldable pub find_free_or_oldest : List Node → ℕ
find_free_or_oldest t = free_or_oldest_from t 0 0 0xFFFFFFFF

abbrev pub cut_alias : ℕ → ℕ
cut_alias n = if ltb alias_max n then alias_max else n

abbrev pub slot_or : Option ℕ → ℕ → ℕ
slot_or none i = i
slot_or (some i) j = i

-- the index that `nodes_db_upsert` writes to
abbrev pub slot_for : List Node → ℕ → ℕ
slot_for t id = slot_or (find_by_id t id) (find_free_or_oldest t)

abbrev pub write_node : Node → Update → ℕ → Node
write_node e u touch = record {
  in_use = true;
  node_id = u.node_id;
  rssi = u.rssi;
  snr_x4 = u.snr_x4;
  hops_away = u.hops_away;
  lat_e7 = u.lat_e7;
  lon_e7 = u.lon_e7;
  battery_mv = u.battery_mv;
  alias_len = cut_alias u.alias_len;
  alias = copy_from u.alias (cut_alias u.alias_len) e.alias;
  last_touch_seq = touch;
}

-- `nodes_db_upsert`
unfoldable pub upsert : Db → Update → Db
upsert s u =
    if u.node_id == 0
    then s
    else let i = slot_for s.table u.node_id in
      record {
        table = set s.table i (write_node (get_or s.table i empty_node) u (add32 s.touch_clock 1));
        change_seq = add32 s.change_seq 1;
        touch_clock = add32 s.touch_clock 1;
      }

-- `nodes_db_count`
unfoldable pub count : List Node → ℕ
count [] = 0
count (e ∷ es) = if e.in_use then count es + 1 else count es

-- one pass over the table: the entry touched last of those below `prev_high`, if there is one, with
-- `selected_touch`
unfoldable pub pass : List Node → ℕ → Option Node × ℕ → Option Node × ℕ
pass [] prev_high best = best
pass (e ∷ es) prev_high best =
    let better = e.in_use && (ltb e.last_touch_seq prev_high && leb best.1 e.last_touch_seq) in
    pass es prev_high (if better then (some e, e.last_touch_seq) else best)

-- the passes up to the `n`-th, counted from 0; none goes on behind one that found no entry
abbrev pub deeper : (ℕ → Option Node × ℕ) → Option Node × ℕ → Option Node × ℕ
deeper more (none, touch) = (none, touch)
deeper more (some e, touch) = more touch

unfoldable pub passes : ℕ → List Node → ℕ → Option Node × ℕ
passes zero t prev_high = pass t prev_high (none, 0)
passes (suc n) t prev_high = deeper (passes n t) (pass t prev_high (none, 0))

-- `nodes_db_take_at`; `none` is `false`
unfoldable pub take_at : List Node → ℕ → Option Node
take_at t index = (passes index t 0xFFFFFFFF).0
