-- ===== src/Flash/Both.antt =====
-- Both directions of the flash lock at once. On each core a writer
-- (firmware/core1/src/ime/flash_safety_wrap.c) is interrupted by that core's own parker (`ipc_doorbell_isr` and
-- `flash_park_handler` of firmware/core1/m1_bridge/src/main_core1_bridge.c), and does not go on before it is done.
pub mod Ends
use mokya_lora.Prelude.{Bool, true, false, ◌&&◌, List, [], ◌∷◌, if◌then◌else◌}
use mokya_lora.Flash.{
  Op, Parker, running, checking, storing_parked, stopping, spinning, leaving, System, write_at,
  park_at, begin, initial,
}

-- the direction in which a core writes, and the one in which it parks
pub record Pair : Type 0 where
  pub writing : System
  pub parking : System

abbrev pub swap : Pair → Pair
swap p = record { writing = p.parking; parking = p.writing }

-- What a core does next: an access of its writer, one of its interrupt handler, the start of a
-- call, or setting its ready flag.
pub data Act : Type 0 where
  goes_on handles sets_ready : Act
  asks : Op → Act

abbrev pub is_running : Parker → Bool
is_running running = true
is_running checking = false
is_running storing_parked = false
is_running stopping = false
is_running spinning = false
is_running leaving = false

-- The doorbell interrupts the core while its writer has not masked interrupts, and the writer stands
-- still until the handler returns.
unfoldable pub act : Act → Pair → Pair
act goes_on p =
    if is_running p.parking.parker
    then record p { writing = write_at p.writing.writer p.writing }
    else p
act handles p =
    if is_running p.parking.parker && p.writing.writer_masked
    then p
    else record p { parking = park_at p.parking.parker p.parking }
act sets_ready p = record p { parking = record (p.parking) { ready = true } }
act (asks op) p =
    if is_running p.parking.parker
    then record p { writing = record (p.writing) { writer = begin p.writing.writer op } }
    else p

pub data Core : Type 0 where
  core0 core1 : Core

-- the pair is core 1's
unfoldable pub core_acts : Core → Act → Pair → Pair
core_acts core1 a p = act a p
core_acts core0 a p = swap (act a (swap p))

unfoldable pub run_both : List (Core × Act) → Pair → Pair
run_both [] p = p
run_both ((c, a) ∷ l) p = run_both l (core_acts c a p)

abbrev pub both_initial : Pair
both_initial = record { writing = initial; parking = initial }
