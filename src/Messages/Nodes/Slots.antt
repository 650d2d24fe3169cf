-- ===== src/Messages/Nodes/Slots.antt =====
-- Which slot an update takes: the node's own, a free one, or the one that was touched longest ago.
use mokya_lora.Prelude.{
  ℕ, zero, suc, ◌+◌, ◌≤◌, ◌<◌, ◌≡◌, refl, sym, Bool, true, false, not, Option, none, some, List, [],
  ◌∷◌, ltb, if◌then◌else◌, get_or, set, take, length, arith, u32, subst,
}
use mokya_lora.Messages.Nodes.{
  Node, holds, find_by_id, free_or_oldest_from, find_free_or_oldest, empty_node, shift,
}

-- the node of an id, if the table has one
abbrev pub lookup : List Node → ℕ → Option Node
lookup [] id = none
lookup (e ∷ es) id = if holds e id then some e else lookup es id

-- A write over a slot before which the id does not stand is what a lookup then finds,
pub lookup-set_self :
    (es : List Node) (i id : ℕ) (e : Node)
    → i < length es
    → lookup (take i es) id ≡ none
    → holds e id ≡ true
    → lookup (set es i e) id ≡ some e
lookup-set_self [] i id e h k t = absurd (omega arith)
lookup-set_self (x ∷ es) zero id e h k t = rw t refl
lookup-set_self (x ∷ es) (suc i) id e h k t =
    ground (arith, lookup-set_self es i id e (omega arith))

-- and a write that neither brings nor removes an id is not seen at that id.
pub lookup-set_ne :
    (es : List Node) (i id : ℕ) (e : Node)
    → holds (get_or es i empty_node) id ≡ false
    → holds e id ≡ false
    → lookup (set es i e) id ≡ lookup es id
lookup-set_ne [] i id e h k = refl
lookup-set_ne (x ∷ es) zero id e h k = ground arith
lookup-set_ne (x ∷ es) (suc i) id e h k = ground (arith, lookup-set_ne es i id e h k)

-- what `find_by_id` returns
abbrev pub Found : List Node → ℕ → Option ℕ → Type 0
Found es id none = lookup es id ≡ none
Found es id (some i) =
    (i < length es) × (lookup (take i es) id ≡ none) × (holds (get_or es i empty_node) id ≡ true)

Found-cons :
    (e : Node) (es : List Node) (id : ℕ) (o : Option ℕ) (here : Bool)
    → holds e id ≡ here
    → Found es id o
    → Found (e ∷ es) id (if here then some 0 else shift o)
Found-cons e es id o true is h = (omega arith, refl, is)
Found-cons e es id none false is h = rw is h
Found-cons e es id (some i) false is h = (omega (arith, h.0), rw is h.1, h.2)

pub find_by_id-Found : (es : List Node) (id : ℕ) → Found es id (find_by_id es id)
unfolding find_by_id
find_by_id-Found [] id = refl
find_by_id-Found (e ∷ es) id =
    Found-cons e es id (find_by_id es id) (holds e id) refl (find_by_id-Found es id)

pub lookup-take-none :
    (es : List Node) (i id : ℕ) → lookup es id ≡ none → lookup (take i es) id ≡ none
lookup-take-none es zero id h = refl
lookup-take-none [] (suc i) id h = refl
lookup-take-none (e ∷ es) (suc i) id h = ground (arith, lookup-take-none es i id)

abbrev pub AllUsed : List Node → Type 0
AllUsed [] = Unit
AllUsed (e ∷ es) = (e.in_use ≡ true) × AllUsed es

-- No node of the table was touched before `touch`.
abbrev pub NoneOlder : ℕ → List Node → Type 0
NoneOlder touch [] = Unit
NoneOlder touch (e ∷ es) = (touch ≤ e.last_touch_seq) × NoneOlder touch es

weaken : (es : List Node) (m n : ℕ) → m ≤ n → NoneOlder n es → NoneOlder m es
weaken [] m n h k = tt
weaken (e ∷ es) m n h k = (omega (arith, h, k.0), weaken es m n h k.1)

-- The free_or_oldest_from-Chosen that the loop makes from index `i` on: a free slot, or else, all being taken, its
-- start value if no slot was touched before that, or a slot that was touched before it and before
-- which none was touched.
data Chosen (es : List Node) (i oldest touch r : ℕ) : Type 0 where
  free :
      (k : ℕ)
      → r ≡ i + k
      → k < length es
      → (get_or es k empty_node).in_use ≡ false
      → Chosen es i oldest touch r
  kept : r ≡ oldest → AllUsed es → NoneOlder touch es → Chosen es i oldest touch r
  older :
      (k : ℕ)
      → r ≡ i + k
      → k < length es
      → AllUsed es
      → (get_or es k empty_node).last_touch_seq < touch
      → NoneOlder (get_or es k empty_node).last_touch_seq es
      → Chosen es i oldest touch r

Chosen-cons :
    (e : Node) (es : List Node) (i oldest touch r : ℕ)
    → e.in_use ≡ true
    → (older : Bool) → older ≡ ltb e.last_touch_seq touch
    → Chosen es (i + 1) (if older then i else oldest) (if older then e.last_touch_seq else touch) r
    → Chosen (e ∷ es) i oldest touch r
Chosen-cons e es i oldest touch r used b is (free k at h f) =
    free (suc k) (omega (arith, at)) (omega (arith, h)) f
Chosen-cons e es i oldest touch r used true is (kept at all least) =
    older 0 (omega (arith, at)) (omega arith) (used, all) (ground (arith, is)) (omega arith, least)
Chosen-cons e es i oldest touch r used false is (kept at all least) =
    kept at (used, all) (ground (arith, is), least)
Chosen-cons e es i oldest touch r used true is (older k at h all lt least) =
    older (suc k) (omega (arith, at)) (omega (arith, h)) (used, all) (ground (arith, is, lt))
      (omega (arith, lt), least)
Chosen-cons e es i oldest touch r used false is (older k at h all lt least) =
    older (suc k) (omega (arith, at)) (omega (arith, h)) (used, all) lt
      (ground (arith, is, lt), least)

Chosen-free :
    (e : Node) (es : List Node) (i oldest touch rest : ℕ) (used : Bool)
    → e.in_use ≡ used
    → (used ≡ true → Chosen (e ∷ es) i oldest touch rest)
    → Chosen (e ∷ es) i oldest touch (if not used then i else rest)
Chosen-free e es i oldest touch rest true is h = h refl
Chosen-free e es i oldest touch rest false is h = free 0 (omega arith) (omega arith) is

free_or_oldest_from-Chosen :
    (es : List Node) (i oldest touch : ℕ)
    → Chosen es i oldest touch (free_or_oldest_from es i oldest touch)
unfolding free_or_oldest_from
free_or_oldest_from-Chosen [] i oldest touch = kept refl tt tt
free_or_oldest_from-Chosen (e ∷ es) i oldest touch =
    Chosen-free e es i oldest touch _ e.in_use refl (λ used.
      Chosen-cons e es i oldest touch _ used (ltb e.last_touch_seq touch) refl
        (free_or_oldest_from-Chosen es (i + 1) _ _))

abbrev pub AllWords : List Node → Type 0
AllWords [] = Unit
AllWords (e ∷ es) = (e.last_touch_seq < u32) × AllWords es

abbrev pub Oldest : List Node → ℕ → Type 0
Oldest es r =
    (r < length es)
    × ((get_or es r empty_node).in_use ≡ true
        → AllUsed es × NoneOlder (get_or es r empty_node).last_touch_seq es)

Chosen-Oldest :
    (e : Node) (es : List Node) (r : ℕ)
    → e.last_touch_seq < u32
    → Chosen (e ∷ es) 0 0 0xFFFFFFFF r
    → Oldest (e ∷ es) r
Chosen-Oldest e es r w (free k at h f) =
    subst (Oldest (e ∷ es)) (omega (arith, at)) (h, λ used. absurd (ground (arith, f, used)))
Chosen-Oldest e es r w (kept at all least) =
    subst (Oldest (e ∷ es)) (sym at)
      (omega arith, λ used. (all, weaken (e ∷ es) _ _ (omega (arith, w)) least))
Chosen-Oldest e es r w (older k at h all lt least) =
    subst (Oldest (e ∷ es)) (omega (arith, at)) (h, λ used. (all, least))

-- `find_free_or_oldest` finds a slot of the table. If that is not free, no slot is, and none was
-- touched before it.
pub find_free_or_oldest-Oldest :
    (es : List Node) → 0 < length es → AllWords es → Oldest es (find_free_or_oldest es)
unfolding find_free_or_oldest
find_free_or_oldest-Oldest [] h w = absurd (omega arith)
find_free_or_oldest-Oldest (e ∷ es) h w =
    Chosen-Oldest e es _ w.0 (free_or_oldest_from-Chosen (e ∷ es) 0 0 0xFFFFFFFF)
