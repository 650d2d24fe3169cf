-- ===== src/Messages/Nodes/Rank.antt =====
-- The nodes are listed by when they were last touched.
use mathlib.Core.Option.{some-ne-none, some-injective}
use mokya_lora.Prelude.{
  ℕ, zero, suc, ◌+◌, ◌≤◌, ◌<◌, ◌≡◌, ◌≢◌, ◌⊎◌, inl, inr, refl, sym, ap, subst, Bool, true, false,
  ◌&&◌, Option, none, some, List, [], ◌∷◌, get_elem?, ltb, leb, ◌==◌, if◌then◌else◌, arith,
  Bool-cases,
}
use mokya_lora.Messages.Nodes.{Node, pass, deeper, passes, take_at}

-- The number of used entries touched after `touch` and below `prev_high`.
abbrev pub newer : List Node → ℕ → ℕ → ℕ
newer [] touch prev_high = 0
newer (e ∷ es) touch prev_high =
    (if e.in_use && (ltb touch e.last_touch_seq && ltb e.last_touch_seq prev_high) then 1 else 0)
    + newer es touch prev_high

-- What a pass has found: an entry in use, with its touch, below the bound.
abbrev Found : ℕ → Option Node × ℕ → Type 0
Found prev_high (none, touch) = touch ≡ 0
Found prev_high (some e, touch) =
    (e.in_use ≡ true) × (e.last_touch_seq ≡ touch) × (touch < prev_high)

-- whether a pass takes an entry
abbrev takes : Node → ℕ → ℕ → Bool
takes e prev_high touch = e.in_use && (ltb e.last_touch_seq prev_high && leb touch e.last_touch_seq)

taken-Found :
    (b : Bool) (e : Node) (prev_high : ℕ) (best : Option Node × ℕ)
    → takes e prev_high best.1 ≡ b
    → Found prev_high best
    → Found prev_high (if b then (some e, e.last_touch_seq) else best)
taken-Found true e prev_high best h k = (ground (arith, h), refl, ground (arith, h))
taken-Found false e prev_high best h k = k

pass-Found :
    (t : List Node) (prev_high : ℕ) (best : Option Node × ℕ)
    → Found prev_high best
    → Found prev_high (pass t prev_high best)
unfolding pass
pass-Found [] prev_high best h = h
pass-Found (e ∷ es) prev_high best h =
    pass-Found es prev_high (if takes e prev_high best.1 then (some e, e.last_touch_seq) else best)
      (taken-Found (takes e prev_high best.1) e prev_high best refl h)

-- 1 for an entry that is used and was touched in between
abbrev between : Node → ℕ → ℕ → ℕ
between e touch prev_high =
    if e.in_use && (ltb touch e.last_touch_seq && ltb e.last_touch_seq prev_high) then 1 else 0

taken-newest :
    (b : Bool) (e : Node) (prev_high : ℕ) (best : Option Node × ℕ) (top : ℕ)
    → takes e prev_high best.1 ≡ b
    → (if b then (some e, e.last_touch_seq) else best).1 ≤ top
    → (best.1 ≤ top) × (between e top prev_high ≡ 0)
taken-newest true e prev_high best top h k = (ground (arith, h, k), ground (arith, h, k))
taken-newest false e prev_high best top h k = (k, ground (arith, h, k))

-- A pass never goes below what it had, and leaves nothing newer behind.
pass-newest :
    (t : List Node) (prev_high : ℕ) (best : Option Node × ℕ)
    → (best.1 ≤ (pass t prev_high best).1) × (newer t (pass t prev_high best).1 prev_high ≡ 0)
unfolding pass
pass-newest [] prev_high best = (omega arith, refl)
pass-newest (e ∷ es) prev_high best =
    let next : Option Node × ℕ =
      if takes e prev_high best.1 then (some e, e.last_touch_seq) else best in
    let (above, none_newer) = pass-newest es prev_high next in
    let (low, not_this) =
      taken-newest (takes e prev_high best.1) e prev_high best (pass es prev_high next).1 refl
        above in
    (low, omega (arith, not_this, none_newer))

-- the used entries with this touch
abbrev pub with_touch : List Node → ℕ → ℕ
with_touch [] touch = 0
with_touch (e ∷ es) touch =
    (if e.in_use && (e.last_touch_seq == touch) then 1 else 0) + with_touch es touch

between-split :
    (e : Node) (a b c : ℕ)
    → a < b
    → b < c
    → between e a c
      ≡ between e a b + (if e.in_use && (e.last_touch_seq == b) then 1 else 0) + between e b c
between-split e a b c h k = ground (arith, h, k)

newer-split :
    (t : List Node) (a b c : ℕ)
    → a < b
    → b < c
    → newer t a c ≡ newer t a b + with_touch t b + newer t b c
newer-split [] a b c h k = refl
newer-split (e ∷ es) a b c h k = omega (arith, between-split e a b c h k, newer-split es a b c h k)

abbrev is_below : Node → ℕ → ℕ
is_below e prev_high = if e.in_use && ltb e.last_touch_seq prev_high then 1 else 0

-- the used entries touched below a bound
abbrev pub below : List Node → ℕ → ℕ
below [] prev_high = 0
below (e ∷ es) prev_high =
    (if e.in_use && ltb e.last_touch_seq prev_high then 1 else 0) + below es prev_high

below-split :
    (t : List Node) (b c : ℕ) → b < c → below t c ≡ below t b + with_touch t b + newer t b c
below-split [] b c h = refl
below-split (e ∷ es) b c h =
    let this : (if e.in_use && ltb e.last_touch_seq c then 1 else 0)
        ≡ (if e.in_use && ltb e.last_touch_seq b then 1 else 0)
          + (if e.in_use && (e.last_touch_seq == b) then 1 else 0)
          + between e b c =
      ground (arith, h) in
    omega (arith, this, below-split es b c h)

-- an entry of the table
abbrev pub IsEntry : Node → List Node → Type 0
IsEntry e t = (i : ℕ) × (get_elem? t i ≡ some e)

-- where a found entry comes from
abbrev Comes : List Node → Option Node × ℕ → Option Node × ℕ → Type 0
Comes t best found =
    (found ≡ best) ⊎ ((e : Node) × (found.0 ≡ some e) × IsEntry e t × (1 ≤ with_touch t found.1))

Comes-next :
    (e : Node) (es : List Node) (prev_high : ℕ) (best found : Option Node × ℕ) (b : Bool)
    → takes e prev_high best.1 ≡ b
    → Comes es (if b then (some e, e.last_touch_seq) else best) found
    → Comes (e ∷ es) best found
Comes-next e es prev_high best found false h (inl same) = inl same
Comes-next e es prev_high best found true h (inl same) =
    let here : 1 ≤ with_touch (e ∷ es) e.last_touch_seq = ground (arith, h) in
    inr (
      e,
      ap (λ f. f.0) same,
      (0, refl),
      subst (λ n. 1 ≤ with_touch (e ∷ es) n) (sym (ap (λ f. f.1) same)) here,
    )
Comes-next e es prev_high best found b h (inr (d, is, (i, at), k)) =
    inr (d, is, (suc i, at), omega (arith, k))

pass-Comes :
    (t : List Node) (prev_high : ℕ) (best : Option Node × ℕ) → Comes t best (pass t prev_high best)
unfolding pass
pass-Comes [] prev_high best = inl refl
pass-Comes (e ∷ es) prev_high best =
    Comes-next e es prev_high best _ (takes e prev_high best.1) refl (
      pass-Comes es prev_high
        (if takes e prev_high best.1 then (some e, e.last_touch_seq) else best))

-- A pass that has found an entry keeps one.
pass-some :
    (t : List Node) (prev_high : ℕ) (e : Node) (touch : ℕ)
    → (pass t prev_high (some e, touch)).0 ≢ none
unfolding pass
pass-some [] prev_high e touch h = some-ne-none e h
pass-some (d ∷ es) prev_high e touch h = elim (Bool-cases (takes d prev_high touch)) [
  | inl taken ↦ pass-some es prev_high d d.last_touch_seq (
      subst
        (λ b.
          (pass es prev_high (if b then (some d, d.last_touch_seq) else (some e, touch))).0 ≡ none)
        taken h)
  | inr passed ↦ pass-some es prev_high e touch (
      subst
        (λ b.
          (pass es prev_high (if b then (some d, d.last_touch_seq) else (some e, touch))).0 ≡ none)
        passed h)
]

pass-none :
    (t : List Node) (prev_high : ℕ) → (pass t prev_high (none, 0)).0 ≡ none → below t prev_high ≡ 0
unfolding pass
pass-none [] prev_high h = refl
pass-none (e ∷ es) prev_high h = elim (Bool-cases (takes e prev_high 0)) [
  | inl taken ↦ absurd (
      pass-some es prev_high e e.last_touch_seq (
        subst
          (λ b. (pass es prev_high (if b then (some e, e.last_touch_seq) else (none, 0))).0 ≡ none)
          taken h))
  | inr passed ↦
      let rest = pass-none es prev_high (
        subst
          (λ b. (pass es prev_high (if b then (some e, e.last_touch_seq) else (none, 0))).0 ≡ none)
          passed h) in
      let not_this : is_below e prev_high ≡ 0 = ground (arith, passed) in
      omega (arith, rest, not_this)
]

abbrev Ranked : List Node → ℕ → ℕ → Option Node × ℕ → Type 0
Ranked t prev_high n (none, touch) = below t prev_high ≤ n
Ranked t prev_high n (some e, touch) =
    IsEntry e t
    × (e.in_use ≡ true)
    × (e.last_touch_seq ≡ touch)
    × (touch < prev_high)
    × (newer t touch prev_high ≡ n)

-- what is known of the first pass
abbrev First : List Node → ℕ → Option Node × ℕ → Type 0
First t prev_high (none, touch) = below t prev_high ≡ 0
First t prev_high (some e, touch) =
    IsEntry e t
    × (e.in_use ≡ true)
    × (e.last_touch_seq ≡ touch)
    × (touch < prev_high)
    × (newer t touch prev_high ≡ 0)
    × (1 ≤ with_touch t touch)

first_pass_lem :
    (t : List Node) (prev_high : ℕ) (r : Option Node × ℕ)
    → (r.0 ≡ none → below t prev_high ≡ 0)
    → Found prev_high r
    → newer t r.1 prev_high ≡ 0
    → Comes t (none, 0) r
    → First t prev_high r
first_pass_lem t prev_high (none, touch) h f n c = h refl
first_pass_lem t prev_high (some e, touch) h (used, at, low) n (inl same) =
    absurd (some-ne-none e (ap (λ r. r.0) same))
first_pass_lem t prev_high (some e, touch) h (used, at, low) n (inr (d, is, place, k)) =
    (subst (λ x. IsEntry x t) (sym (some-injective e d is)) place, used, at, low, n, k)

pass-First : (t : List Node) (prev_high : ℕ) → First t prev_high (pass t prev_high (none, 0))
pass-First t prev_high =
    first_pass_lem t prev_high (pass t prev_high (none, 0)) (pass-none t prev_high)
      (pass-Found t prev_high (none, 0) refl) (pass-newest t prev_high (none, 0)).1
      (pass-Comes t prev_high (none, 0))

deeper-Ranked :
    (t : List Node) (prev_high n : ℕ) (r : Option Node × ℕ)
    → ((touch : ℕ) → with_touch t touch ≤ 1)
    → First t prev_high r
    → ((b : ℕ) → Ranked t b n (passes n t b))
    → Ranked t prev_high (suc n) (deeper (passes n t) r)
deeper-Ranked t prev_high n (none, touch) u f more = omega (arith, f)
deeper-Ranked t prev_high n (some e, b) u (place, used, at, low, none_newer, k) more =
    go (passes n t b) (more b)
  where
    go : (o : Option Node × ℕ) → Ranked t b n o → Ranked t prev_high (suc n) o
    go (none, touch) h = omega (arith, h, below-split t b prev_high low, u b)
    go (some d, touch) (at_d, used_d, is, under, rank) = (
      at_d,
      used_d,
      is,
      omega (arith, under, low),
      omega (arith, rank, newer-split t touch b prev_high under low, none_newer, u b, k),
    )

First-Ranked :
    (t : List Node) (prev_high : ℕ) (r : Option Node × ℕ)
    → First t prev_high r
    → Ranked t prev_high 0 r
First-Ranked t prev_high (none, touch) f = omega (arith, f)
First-Ranked t prev_high (some e, touch) (place, used, at, low, none_newer, k) =
    (place, used, at, low, none_newer)

passes-Ranked :
    (n : ℕ) (t : List Node) (prev_high : ℕ)
    → ((touch : ℕ) → with_touch t touch ≤ 1)
    → Ranked t prev_high n (passes n t prev_high)
unfolding passes
passes-Ranked zero t prev_high u =
    First-Ranked t prev_high (pass t prev_high (none, 0)) (pass-First t prev_high)
passes-Ranked (suc n) t prev_high u =
    deeper-Ranked t prev_high n (pass t prev_high (none, 0)) u (pass-First t prev_high)
      (λ b. passes-Ranked n t b u)

-- what `nodes_db_take_at` answers for an index
abbrev pub Listed : List Node → ℕ → Option Node → Type 0
Listed t index none = below t 0xFFFFFFFF ≤ index
Listed t index (some e) =
    IsEntry e t × (e.in_use ≡ true) × (newer t e.last_touch_seq 0xFFFFFFFF ≡ index)

Ranked-Listed :
    (t : List Node) (index : ℕ) (r : Option Node × ℕ)
    → Ranked t 0xFFFFFFFF index r
    → Listed t index r.0
Ranked-Listed t index (none, touch) h = h
Ranked-Listed t index (some e, touch) (place, used, at, low, rank) =
    (place, used, subst (λ n. newer t n 0xFFFFFFFF ≡ index) (sym at) rank)

-- In a table where no two used entries have the same touch, `nodes_db_take_at` finds for an index the
-- used entry that has exactly that many newer ones, so index 0 is the one touched last; it fails only
-- if there are no more used entries than the index says. Entries with the greatest touch of all, 2^32 - 1,
-- are not listed.
pub take_at-Listed :
    (t : List Node) (index : ℕ)
    → ((touch : ℕ) → with_touch t touch ≤ 1)
    → Listed t index (take_at t index)
unfolding take_at
take_at-Listed t index u =
    Ranked-Listed t index (passes index t 0xFFFFFFFF) (passes-Ranked index t 0xFFFFFFFF u)
