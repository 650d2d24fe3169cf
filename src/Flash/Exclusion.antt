-- ===== src/Flash/Exclusion.antt =====
-- While a writer that saw the other core parked is at the flash, that core stays out of it.
use mokya_lora.Prelude.{zero, suc, ◌≡◌, refl, Bool, true, false, List, [], ◌∷◌, arith}
use mokya_lora.Flash.{
  Op, Writer, resting, loading_ready, storing_request, ringing, polling, masking, flashing,
  enabling_cache, unmasking, storing_idle, Parker, running, checking, storing_parked, stopping,
  spinning, leaving, System, lock_parked, write_at, park_at, Turn, writes, parks, boots, calls,
  begin, turn, run, initial,
}

-- the writer has seen `IPC_FLASH_LOCK_PARKED` and not given the lock back
abbrev pub has_ack : Writer → Bool
has_ack resting = false
has_ack (loading_ready op) = false
has_ack (storing_request op) = false
has_ack (ringing op) = false
has_ack (polling op n) = false
has_ack (masking op acked) = acked
has_ack (flashing op acked) = acked
has_ack (enabling_cache acked) = acked
has_ack (unmasking acked) = acked
has_ack (storing_idle acked) = acked

-- the parker is between its acknowledgement and the load that releases it, in code that lies in RAM
abbrev pub is_parked : Parker → Bool
is_parked running = false
is_parked checking = false
is_parked storing_parked = false
is_parked stopping = true
is_parked spinning = true
is_parked leaving = false

record IsSafe (s : System) : Type 0 where
  parked : s.lock ≡ lock_parked → is_parked s.parker ≡ true
  held : has_ack s.writer ≡ true → s.lock ≡ lock_parked

write_at-IsSafe : (w : Writer) (s : System) → s.writer ≡ w → IsSafe s → IsSafe (write_at w s)
unfolding write_at
write_at-IsSafe resting s e v = ground (arith, e)
write_at-IsSafe (loading_ready op) s e v = ground (arith, e)
write_at-IsSafe (storing_request op) s e v = ground (arith, e)
write_at-IsSafe (ringing op) s e v = ground (arith, e)
write_at-IsSafe (polling op zero) s e v = ground (arith, e)
write_at-IsSafe (polling op (suc n)) s e v = ground (arith, e)
write_at-IsSafe (masking op acked) s e v = ground (arith, e)
write_at-IsSafe (flashing op acked) s e v = ground (arith, e)
write_at-IsSafe (enabling_cache acked) s e v = ground (arith, e)
write_at-IsSafe (unmasking acked) s e v = ground (arith, e)
write_at-IsSafe (storing_idle acked) s e v = ground (arith, e)

park_at-IsSafe : (p : Parker) (s : System) → s.parker ≡ p → IsSafe s → IsSafe (park_at p s)
unfolding park_at
park_at-IsSafe running s e v = ground (arith, e)
park_at-IsSafe checking s e v = ground (arith, e)
park_at-IsSafe storing_parked s e v = ground (arith, e)
park_at-IsSafe stopping s e v = ground (arith, e)
park_at-IsSafe spinning s e v = ground (arith, e)
park_at-IsSafe leaving s e v = ground (arith, e)

turn-IsSafe : (t : Turn) (s : System) → IsSafe s → IsSafe (turn t s)
unfolding turn
turn-IsSafe writes s v = write_at-IsSafe s.writer s refl v
turn-IsSafe parks s v = park_at-IsSafe s.parker s refl v
turn-IsSafe boots s v = record { parked = v.parked; held = v.held }
turn-IsSafe (calls op) s v = record {
  parked = v.parked;
  held = λ h. v.held (begin-has_ack s.writer op h);
}
  where
    begin-has_ack : (w : Writer) (op : Op) → has_ack (begin w op) ≡ true → has_ack w ≡ true
    begin-has_ack resting op h = h
    begin-has_ack (loading_ready x) op h = h
    begin-has_ack (storing_request x) op h = h
    begin-has_ack (ringing x) op h = h
    begin-has_ack (polling x n) op h = h
    begin-has_ack (masking x acked) op h = h
    begin-has_ack (flashing x acked) op h = h
    begin-has_ack (enabling_cache acked) op h = h
    begin-has_ack (unmasking acked) op h = h
    begin-has_ack (storing_idle acked) op h = h

run-IsSafe : (ts : List Turn) (s : System) → IsSafe s → IsSafe (run ts s)
unfolding run
run-IsSafe [] s v = v
run-IsSafe (t ∷ ts) s v = run-IsSafe ts (turn t s) (turn-IsSafe t s v)

-- However the accesses of the two cores are interleaved, from start-up on: from the access at which
-- the writer saw the lock parked until it gives the lock back, the other core is parked, between
-- its acknowledgement and the load of `IPC_FLASH_LOCK_IDLE` that releases it, and the lock still
-- says so. Of a writer that waited in vain, or found the other core not ready, it says nothing.
pub run-excludes :
    (ts : List Turn)
    → has_ack (run ts initial).writer ≡ true
    → (is_parked (run ts initial).parker ≡ true) × ((run ts initial).lock ≡ lock_parked)
run-excludes ts h =
    let v = run-IsSafe ts initial (record {
      parked = λ e. absurd (omega (arith, e));
      held = λ e. absurd (ground (arith, e));
    }) in
    (v.parked (v.held h), v.held h)
