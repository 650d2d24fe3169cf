-- ===== src/Messages/Nodes/Unique.antt =====
-- The table never holds an id twice.
use mokya_lora.Prelude.{
  ℕ, zero, suc, ◌<◌, ◌≡◌, refl, sym, ◌∙◌, true, false, none, List, [], ◌∷◌, ◌==◌, get_or, set, take,
  drop, length-set, arith, inl, inr, u32, Bool-cases, add32, subst,
}
use mokya_lora.Messages.Nodes.{Node, Update, Db, holds, empty_node, slot_for, write_node, upsert}
use mokya_lora.Messages.Nodes.Slots.{lookup, AllWords}
use mokya_lora.Messages.Nodes.Upsert.{IsTable, IsSlot, slot_for-IsSlot, upsert-table}

-- No id that is in use stands again further down.
abbrev pub IsUnique : List Node → Type 0
IsUnique [] = Unit
IsUnique (e ∷ es) = (e.in_use ≡ true → lookup es e.node_id ≡ none) × IsUnique es

lookup-set-none :
    (es : List Node) (i id : ℕ) (e : Node)
    → lookup es id ≡ none
    → holds e id ≡ false
    → lookup (set es i e) id ≡ none
lookup-set-none [] i id e h k = refl
lookup-set-none (x ∷ es) zero id e h k = ground (arith, h, k)
lookup-set-none (x ∷ es) (suc i) id e h k = ground (arith, h, lookup-set-none es i id e)

-- The new node's id stands neither before its slot nor behind it.
set-IsUnique :
    (es : List Node) (i : ℕ) (e : Node)
    → e.in_use ≡ true
    → lookup (take i es) e.node_id ≡ none
    → lookup (drop (suc i) es) e.node_id ≡ none
    → IsUnique es
    → IsUnique (set es i e)
set-IsUnique [] i e used before behind v = tt
set-IsUnique (x ∷ es) zero e used before behind v = (λ _. behind, v.1)
set-IsUnique (x ∷ es) (suc i) e used before behind v = (
  λ u. lookup-set-none es i x.node_id e (v.0 u) (ground (arith, before, used, u)),
  set-IsUnique es i e used (ground (arith, before)) behind v.1,
)

lookup-drop-none : (es : List Node) (i id : ℕ) → lookup es id ≡ none → lookup (drop i es) id ≡ none
lookup-drop-none es zero id h = h
lookup-drop-none [] (suc i) id h = refl
lookup-drop-none (x ∷ es) (suc i) id h = lookup-drop-none es i id (ground (arith, h))

-- What holds an id is the last to do so.
behind-own :
    (es : List Node) (i id : ℕ)
    → IsUnique es
    → holds (get_or es i empty_node) id ≡ true
    → lookup (drop (suc i) es) id ≡ none
behind-own [] i id v h = refl
behind-own (x ∷ es) zero id v h =
    subst (λ k. lookup es k ≡ none) (ground (arith, h)) (v.0 (ground (arith, h)))
behind-own (x ∷ es) (suc i) id v h = behind-own es i id v.1 h

slot-behind :
    (t : List Node) (id i : ℕ) → IsUnique t → IsSlot t id i → lookup (drop (suc i) t) id ≡ none
slot-behind t id i v (lt, before, inl own) = behind-own t i id v own
slot-behind t id i v (lt, before, inr (absent, least)) = lookup-drop-none t (suc i) id absent

set-AllWords :
    (es : List Node) (i : ℕ) (e : Node)
    → e.last_touch_seq < u32
    → AllWords es
    → AllWords (set es i e)
set-AllWords [] i e h v = tt
set-AllWords (x ∷ es) zero e h v = (h, v.1)
set-AllWords (x ∷ es) (suc i) e h v = (v.0, set-AllWords es i e h v.1)

upsert-zero : (s : Db) (u : Update) → u.node_id ≡ 0 → (upsert s u).table ≡ s.table
unfolding upsert
upsert-zero s u h = ground (arith, h)

-- `nodes_db_upsert`, whatever its arguments, keeps the table at eight slots with stamps that fit
-- their type, and if no id that is in use stood in it twice, none does afterwards.
pub upsert-IsUnique :
    (s : Db) (u : Update)
    → IsTable s.table
    → IsUnique s.table
    → IsTable (upsert s u).table × IsUnique (upsert s u).table
upsert-IsUnique s u v w = elim (Bool-cases (u.node_id == 0)) [
  | inl t ↦ subst (λ l. IsTable l × IsUnique l) (sym (upsert-zero s u (ground (arith, t)))) (v, w)
  | inr f ↦
      let place = slot_for-IsSlot s.table u.node_id v in
      subst (λ l. IsTable l × IsUnique l) (sym (upsert-table s u (ground (arith, f))))
        (
          record {
            room = length-set s.table i new ∙ v.room;
            words = set-AllWords s.table i new (omega arith) v.words;
          },
          set-IsUnique s.table i new refl place.1 (slot-behind s.table u.node_id i w place) w,
        )
]
  where
    i : ℕ
    i = slot_for s.table u.node_id

    new : Node
    new = write_node (get_or s.table i empty_node) u (add32 s.touch_clock 1)
