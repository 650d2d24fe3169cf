-- ===== src/Flash/Calls.antt =====
-- Each wrapped call ends, and its flash operation runs once.
use mathlib.Core.List.{append_assoc, append-nil}
use mokya_lora.Prelude.{
  ℕ, zero, suc, ◌+◌, ◌-◌, ◌≤◌, ◌≡◌, refl, sym, ap, ap₂, ◌∙◌, Bool, true, false, List, [], ◌∷◌, ◌++◌,
  ◌==◌, if◌then◌else◌, arith,
}
use mokya_lora.Flash.{
  Op, Writer, resting, loading_ready, storing_request, ringing, polling, masking, flashing,
  enabling_cache, unmasking, storing_idle, Parker, running, checking, storing_parked, stopping,
  spinning, leaving, System, write_at, park_at, Turn, writes, parks, boots, calls, begin, turn, run,
  initial, park_wait_spins, lock_parked,
}

-- the operation that the writer still has before it
abbrev pub pending : Writer → List Op
pending resting = []
pending (loading_ready op) = op ∷ []
pending (storing_request op) = op ∷ []
pending (ringing op) = op ∷ []
pending (polling op n) = op ∷ []
pending (masking op acked) = op ∷ []
pending (flashing op acked) = op ∷ []
pending (enabling_cache acked) = []
pending (unmasking acked) = []
pending (storing_idle acked) = []

abbrev is_resting : Writer → Bool
is_resting resting = true
is_resting (loading_ready op) = false
is_resting (storing_request op) = false
is_resting (ringing op) = false
is_resting (polling op n) = false
is_resting (masking op acked) = false
is_resting (flashing op acked) = false
is_resting (enabling_cache acked) = false
is_resting (unmasking acked) = false
is_resting (storing_idle acked) = false

-- the calls that begin during some turns
abbrev pub begun_by : Turn → Writer → List Op
begun_by writes w = []
begun_by parks w = []
begun_by boots w = []
begun_by (calls op) w = if is_resting w then op ∷ [] else []

unfoldable pub begun : List Turn → System → List Op
begun [] s = []
begun (t ∷ ts) s = begun_by t s.writer ++ begun ts (turn t s)

-- what a writer between calls leaves behind
abbrev cache_of : Writer → Bool
cache_of resting = true
cache_of (loading_ready op) = true
cache_of (storing_request op) = true
cache_of (ringing op) = true
cache_of (polling op n) = true
cache_of (masking op acked) = true
cache_of (flashing op acked) = true
cache_of (enabling_cache acked) = false
cache_of (unmasking acked) = true
cache_of (storing_idle acked) = true

abbrev masked_of : Writer → Bool
masked_of resting = false
masked_of (loading_ready op) = false
masked_of (storing_request op) = false
masked_of (ringing op) = false
masked_of (polling op n) = false
masked_of (masking op acked) = false
masked_of (flashing op acked) = true
masked_of (enabling_cache acked) = true
masked_of (unmasking acked) = true
masked_of (storing_idle acked) = false

record IsTidy (s : System) : Type 0 where
  cache : s.cache ≡ cache_of s.writer
  masked : s.writer_masked ≡ masked_of s.writer

abbrev done : System → List Op
done s = s.flashed ++ pending s.writer

write_at-IsTidy : (w : Writer) (s : System) → s.writer ≡ w → IsTidy s → IsTidy (write_at w s)
unfolding write_at
write_at-IsTidy resting s e v = ground (arith, e)
write_at-IsTidy (loading_ready op) s e v = ground (arith, e)
write_at-IsTidy (storing_request op) s e v = ground (arith, e)
write_at-IsTidy (ringing op) s e v = ground (arith, e)
write_at-IsTidy (polling op zero) s e v = ground (arith, e)
write_at-IsTidy (polling op (suc n)) s e v = ground (arith, e)
write_at-IsTidy (masking op acked) s e v = ground (arith, e)
write_at-IsTidy (flashing op acked) s e v = ground (arith, e)
write_at-IsTidy (enabling_cache acked) s e v = ground (arith, e)
write_at-IsTidy (unmasking acked) s e v = ground (arith, e)
write_at-IsTidy (storing_idle acked) s e v = ground (arith, e)

pending-if :
    (b : Bool) (x y : Writer) → pending x ≡ pending y → pending (if b then x else y) ≡ pending y
pending-if true x y e = e
pending-if false x y e = refl

-- A step of the writer loses no operation and runs none twice.
write_at-done : (w : Writer) (s : System) → s.writer ≡ w → done (write_at w s) ≡ done s
unfolding write_at
write_at-done resting s e = refl
write_at-done (loading_ready op) s e =
    ap (λ l. s.flashed ++ l) (pending-if s.ready (storing_request op) (masking op false) refl)
    ∙ ap (λ w. s.flashed ++ pending w) (sym e)
write_at-done (storing_request op) s e = ap (λ w. s.flashed ++ pending w) (sym e)
write_at-done (ringing op) s e = ap (λ w. s.flashed ++ pending w) (sym e)
write_at-done (polling op zero) s e = ap (λ w. s.flashed ++ pending w) (sym e)
write_at-done (polling op (suc n)) s e =
    ap (λ l. s.flashed ++ l)
      (pending-if (s.lock == lock_parked) (masking op true) (polling op n) refl)
    ∙ ap (λ w. s.flashed ++ pending w) (sym e)
write_at-done (masking op acked) s e = ap (λ w. s.flashed ++ pending w) (sym e)
write_at-done (flashing op acked) s e =
    append-nil (s.flashed ++ op ∷ []) ∙ ap (λ w. s.flashed ++ pending w) (sym e)
write_at-done (enabling_cache acked) s e = ap (λ w. s.flashed ++ pending w) (sym e)
write_at-done (unmasking acked) s e = ap (λ w. s.flashed ++ pending w) (sym e)
write_at-done (storing_idle acked) s e = ap (λ w. s.flashed ++ pending w) (sym e)

pub park_at-writer :
    (p : Parker) (s : System)
    → ((park_at p s).writer ≡ s.writer)
      × ((park_at p s).flashed ≡ s.flashed)
      × ((park_at p s).cache ≡ s.cache)
      × ((park_at p s).writer_masked ≡ s.writer_masked)
unfolding park_at
park_at-writer running s = ground arith
park_at-writer checking s = (refl, refl, refl, refl)
park_at-writer storing_parked s = (refl, refl, refl, refl)
park_at-writer stopping s = (refl, refl, refl, refl)
park_at-writer spinning s = (refl, refl, refl, refl)
park_at-writer leaving s = (refl, refl, refl, refl)

begin-pending : (w : Writer) (op : Op) → pending (begin w op) ≡ pending w ++ begun_by (calls op) w
begin-pending resting op = refl
begin-pending (loading_ready x) op = refl
begin-pending (storing_request x) op = refl
begin-pending (ringing x) op = refl
begin-pending (polling x n) op = refl
begin-pending (masking x acked) op = refl
begin-pending (flashing x acked) op = refl
begin-pending (enabling_cache acked) op = refl
begin-pending (unmasking acked) op = refl
begin-pending (storing_idle acked) op = refl

turn-done : (t : Turn) (s : System) → done (turn t s) ≡ done s ++ begun_by t s.writer
unfolding turn
turn-done writes s = write_at-done s.writer s refl ∙ sym (append-nil (done s))
turn-done parks s =
    let (w, f, c, m) = park_at-writer s.parker s in
    ap₂ (λ f w. f ++ pending w) f w ∙ sym (append-nil (done s))
turn-done boots s = sym (append-nil (done s))
turn-done (calls op) s =
    ap (λ l. s.flashed ++ l) (begin-pending s.writer op)
    ∙ sym (append_assoc s.flashed (pending s.writer) (begun_by (calls op) s.writer))

begin-tidy :
    (w : Writer) (op : Op)
    → (cache_of (begin w op) ≡ cache_of w) × (masked_of (begin w op) ≡ masked_of w)
begin-tidy resting op = (refl, refl)
begin-tidy (loading_ready x) op = (refl, refl)
begin-tidy (storing_request x) op = (refl, refl)
begin-tidy (ringing x) op = (refl, refl)
begin-tidy (polling x n) op = (refl, refl)
begin-tidy (masking x acked) op = (refl, refl)
begin-tidy (flashing x acked) op = (refl, refl)
begin-tidy (enabling_cache acked) op = (refl, refl)
begin-tidy (unmasking acked) op = (refl, refl)
begin-tidy (storing_idle acked) op = (refl, refl)

turn-IsTidy : (t : Turn) (s : System) → IsTidy s → IsTidy (turn t s)
unfolding turn
turn-IsTidy writes s v = write_at-IsTidy s.writer s refl v
turn-IsTidy parks s v =
    let (w, f, c, m) = park_at-writer s.parker s in
    record {
      cache = c ∙ v.cache ∙ ap cache_of (sym w);
      masked = m ∙ v.masked ∙ ap masked_of (sym w);
    }
turn-IsTidy boots s v = record { cache = v.cache; masked = v.masked }
turn-IsTidy (calls op) s v =
    let (c, m) = begin-tidy s.writer op in
    record { cache = v.cache ∙ sym c; masked = v.masked ∙ sym m }

run-done : (ts : List Turn) (s : System) → done (run ts s) ≡ done s ++ begun ts s
unfolding run begun
run-done [] s = sym (append-nil (done s))
run-done (t ∷ ts) s =
    run-done ts (turn t s)
    ∙ ap (λ l. l ++ begun ts (turn t s)) (turn-done t s)
    ∙ append_assoc (done s) (begun_by t s.writer) (begun ts (turn t s))

run-IsTidy : (ts : List Turn) (s : System) → IsTidy s → IsTidy (run ts s)
unfolding run
run-IsTidy [] s v = v
run-IsTidy (t ∷ ts) s v = run-IsTidy ts (turn t s) (turn-IsTidy t s v)

resting-tidy : (w : Writer) → is_resting w ≡ true → (w ≡ resting)
resting-tidy resting h = refl
resting-tidy (loading_ready op) h = cc
resting-tidy (storing_request op) h = cc
resting-tidy (ringing op) h = cc
resting-tidy (polling op n) h = cc
resting-tidy (masking op acked) h = cc
resting-tidy (flashing op acked) h = cc
resting-tidy (enabling_cache acked) h = cc
resting-tidy (unmasking acked) h = cc
resting-tidy (storing_idle acked) h = cc

-- However the accesses of the two cores are interleaved, from start-up on: whenever the writer rests
-- between calls, the flash operations that ran are those of the calls that began, each once and in
-- order, the XIP cache is enabled and the writer's interrupts are as before.
pub run-flashed :
    (ts : List Turn)
    → is_resting (run ts initial).writer ≡ true
    → ((run ts initial).flashed ≡ begun ts initial)
      × ((run ts initial).cache ≡ true)
      × ((run ts initial).writer_masked ≡ false)
run-flashed ts h =
    let e = resting-tidy (run ts initial).writer h in
    let v = run-IsTidy ts initial (record { cache = refl; masked = refl }) in
    (
      sym (append-nil (run ts initial).flashed)
          ∙ ap (λ w. (run ts initial).flashed ++ pending w) (sym e)
          ∙ run-done ts initial,
      v.cache ∙ ap cache_of e,
      v.masked ∙ ap masked_of e,
    )

-- the turns that the writer has before it at most: one for each access, and one for the end of the wait
abbrev pub rank : Writer → ℕ
rank resting = 0
rank (loading_ready op) = park_wait_spins + 9
rank (storing_request op) = park_wait_spins + 8
rank (ringing op) = park_wait_spins + 7
rank (polling op n) = n + 6
rank (masking op acked) = 5
rank (flashing op acked) = 4
rank (enabling_cache acked) = 3
rank (unmasking acked) = 2
rank (storing_idle acked) = 1

pub write_at-rank :
    (w : Writer) (s : System) → s.writer ≡ w → rank (write_at w s).writer ≤ rank w - 1
unfolding write_at
write_at-rank resting s e = omega (arith, ap rank e)
write_at-rank (loading_ready op) s e = ground (arith, e)
write_at-rank (storing_request op) s e = ground (arith, e)
write_at-rank (ringing op) s e = ground (arith, e)
write_at-rank (polling op zero) s e = ground (arith, e)
write_at-rank (polling op (suc n)) s e = ground (arith, e)
write_at-rank (masking op acked) s e = ground (arith, e)
write_at-rank (flashing op acked) s e = ground (arith, e)
write_at-rank (enabling_cache acked) s e = ground (arith, e)
write_at-rank (unmasking acked) s e = ground (arith, e)
write_at-rank (storing_idle acked) s e = ground (arith, e)

pub rank_zero : (w : Writer) → rank w ≡ 0 → w ≡ resting
rank_zero resting h = refl
rank_zero (loading_ready op) h = absurd (omega (arith, h))
rank_zero (storing_request op) h = absurd (omega (arith, h))
rank_zero (ringing op) h = absurd (omega (arith, h))
rank_zero (polling op n) h = absurd (omega (arith, h))
rank_zero (masking op acked) h = absurd (omega (arith, h))
rank_zero (flashing op acked) h = absurd (omega (arith, h))
rank_zero (enabling_cache acked) h = absurd (omega (arith, h))
rank_zero (unmasking acked) h = absurd (omega (arith, h))
rank_zero (storing_idle acked) h = absurd (omega (arith, h))
