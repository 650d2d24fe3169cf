-- ===== src/Flash/Tests.antt =====
-- A call that the other core parks for, and one that it does not answer.
use mokya_lora.Prelude.{◌≡◌, refl, true, false, List, [], ◌∷◌, ◌++◌, arith}
use mokya_lora.Flash.{
  Op, erase, resting, polling, System, Turn, writes, parks, boots, calls, turn, run, write_at,
  park_at, lock_parked, initial,
}
use mokya_lora.Flash.Exclusion.{is_parked, run-excludes}
use mokya_lora.Flash.Calls.{begun, run-flashed}
use mokya_lora.Flash.Both.{
  Pair, Act, goes_on, handles, sets_ready, asks, act, Core, core0, core1, core_acts, run_both,
  both_initial,
}
use mokya_lora.Flash.Both.Ends.{IsStuck, run_both-rests, run_both-Held}

abbrev sector : Op
sector = erase 0x3F0000 4096

-- up to the flash operation of a call that core 0 answers
abbrev answered : List Turn
answered =
    boots
    ∷ calls sector
    ∷ writes
    ∷ writes
    ∷ writes
    ∷ parks
    ∷ parks
    ∷ parks
    ∷ parks
    ∷ writes
    ∷ writes
    ∷ []

abbrev finished : List Turn
finished = answered ++ writes ∷ writes ∷ writes ∷ parks ∷ writes ∷ parks ∷ parks ∷ []

run-excludes_example :
    (is_parked (run answered initial).parker ≡ true) × ((run answered initial).lock ≡ lock_parked)
unfolding run turn write_at park_at
run-excludes_example = run-excludes answered refl

run-flashed_example :
    ((run finished initial).flashed ≡ sector ∷ [])
    × ((run finished initial).cache ≡ true)
    × ((run finished initial).writer_masked ≡ false)
unfolding run turn write_at park_at begun
run-flashed_example = run-flashed finished refl

-- the last two of the spins
abbrev unanswered : System
unanswered = record initial { ready = true; lock = 1; bell = true; writer = polling sector 2 }

abbrev alone : Pair
alone = record { writing = unanswered; parking = initial }

-- core 0 comes late, in the midst of the turns of core 1's writer
abbrev late : List (Core × Act)
late =
    (core1, goes_on)
    ∷ (core1, goes_on)
    ∷ (core0, handles)
    ∷ (core0, handles)
    ∷ (core1, goes_on)
    ∷ (core1, handles)
    ∷ (core0, handles)
    ∷ (core1, goes_on)
    ∷ (core1, goes_on)
    ∷ (core0, goes_on)
    ∷ (core1, goes_on)
    ∷ (core1, goes_on)
    ∷ (core1, goes_on)
    ∷ []

run_both-rests_example : (run_both late alone).writing.writer ≡ resting
run_both-rests_example =
    run_both-rests late alone refl (record { writer = refl; bell = refl; parker = refl })
      (omega arith)

-- both cores ask at once, and each handler interrupts the other's wait
abbrev at_once : List (Core × Act)
at_once =
    (core0, sets_ready)
    ∷ (core1, sets_ready)
    ∷ (core1, asks sector)
    ∷ (core0, asks sector)
    ∷ (core1, goes_on)
    ∷ (core1, goes_on)
    ∷ (core1, goes_on)
    ∷ (core0, goes_on)
    ∷ (core0, goes_on)
    ∷ (core0, goes_on)
    ∷ (core1, handles)
    ∷ (core1, handles)
    ∷ (core1, handles)
    ∷ (core1, handles)
    ∷ (core0, handles)
    ∷ (core0, handles)
    ∷ (core0, handles)
    ∷ (core0, handles)
    ∷ []

at_once-IsStuck : IsStuck (run_both at_once both_initial)
unfolding run_both core_acts act write_at park_at
at_once-IsStuck = record { here = refl; there = refl; asked_here = refl; asked_there = refl }

-- and then neither call ends
never_done :
    (l : List (Core × Act))
    → (run_both l (run_both at_once both_initial)).writing.writer
      ≡ (run_both at_once both_initial).writing.writer
never_done l = (run_both-Held l (run_both at_once both_initial) at_once-IsStuck).1
