-- ===== src/Flash.antt =====
-- The lock under which one core writes the flash that the other runs from. The writer is
-- firmware/core1/src/ime/flash_safety_wrap.c, the parker `ipc_doorbell_isr` and `flash_park_handler` of
-- firmware/core1/m1_bridge/src/main_core1_bridge.c. Each direction of the protocol has its own lock
-- word; the other core's half of it is not in the repository and stands here as the mirror image
-- that firmware/shared/ipc/ipc_shared_layout.h describes. Each access to the shared words is a step,
-- and so is the end of the writer's wait. The writer is called with interrupts enabled, so that
-- `restore_interrupts` enables them.
pub mod Exclusion
pub mod Calls
pub mod Both
mod Tests
use mokya_lora.Prelude.{ℕ, zero, suc, Bool, true, false, List, [], ◌∷◌, ◌++◌, ◌==◌, if◌then◌else◌}

-- `IPC_FLASH_LOCK_IDLE`, `IPC_FLASH_LOCK_REQUEST` and `IPC_FLASH_LOCK_PARKED`
abbrev pub lock_idle : ℕ
lock_idle = 0

abbrev pub lock_request : ℕ
lock_request = 1

abbrev pub lock_parked : ℕ
lock_parked = 2

-- `MOKYA_PARK_WAIT_SPINS`
abbrev pub park_wait_spins : ℕ
park_wait_spins = 750000

-- the arguments of a wrapped call
pub data Op : Type 0 where
  erase : (offset count : ℕ) → Op
  program : (offset : ℕ) → List ℕ → Op

-- The writer's next access; the Boolean says whether it saw the parker parked.
pub data Writer : Type 0 where
  resting : Writer
  loading_ready : Op → Writer
  storing_request : Op → Writer
  ringing : Op → Writer
  polling : Op → ℕ → Writer
  masking : Op → Bool → Writer
  flashing : Op → Bool → Writer
  enabling_cache : Bool → Writer
  unmasking : Bool → Writer
  storing_idle : Bool → Writer

-- the parker's next access; `running` is any code, in flash too
pub data Parker : Type 0 where
  running : Parker
  checking : Parker
  storing_parked : Parker
  stopping : Parker
  spinning : Parker
  leaving : Parker

-- the shared words and registers of the two cores
pub record System : Type 0 where
  pub ready : Bool
  pub lock : ℕ
  pub bell : Bool
  pub writer : Writer
  pub writer_masked : Bool
  pub parker : Parker
  pub parker_masked : Bool
  pub cache : Bool
  pub flashed : List Op

abbrev pub wait_for : Op → ℕ → ℕ → Writer
wait_for op lock n = if lock == lock_parked then masking op true else polling op n

-- `__wrap_flash_range_erase` and `__wrap_flash_range_program`, with `mokya_flash_park_core0` and
-- `mokya_flash_unpark_core0`; the ROM's flash routines leave the cache disabled
unfoldable pub write_at : Writer → System → System
write_at resting s = s
write_at (loading_ready op) s = record s {
  writer = if s.ready then storing_request op else masking op false;
}
write_at (storing_request op) s = record s { lock = lock_request; writer = ringing op }
write_at (ringing op) s = record s { bell = true; writer = polling op park_wait_spins }
write_at (polling op zero) s = record s { writer = masking op false }
write_at (polling op (suc n)) s = record s { writer = wait_for op s.lock n }
write_at (masking op acked) s = record s { writer_masked = true; writer = flashing op acked }
write_at (flashing op acked) s = record s {
  flashed = s.flashed ++ op ∷ [];
  cache = false;
  writer = enabling_cache acked;
}
write_at (enabling_cache acked) s = record s { cache = true; writer = unmasking acked }
write_at (unmasking acked) s = record s { writer_masked = false; writer = storing_idle acked }
write_at (storing_idle acked) s = record s { lock = lock_idle; writer = resting }

-- the flash half of `ipc_doorbell_isr`, and `flash_park_handler`
unfoldable pub park_at : Parker → System → System
park_at running s = if s.bell then record s { bell = false; parker = checking } else s
park_at checking s = record s {
  parker = if s.lock == lock_request then storing_parked else running;
}
park_at storing_parked s = record s { lock = lock_parked; parker = stopping }
park_at stopping s = record s { parker_masked = true; parker = spinning }
park_at spinning s = record s { parker = if s.lock == lock_idle then leaving else spinning }
park_at leaving s = record s { parker_masked = false; parker = running }

-- whose turn it is: a call begins only when the one before it is done
pub data Turn : Type 0 where
  writes parks boots : Turn
  calls : Op → Turn

abbrev pub begin : Writer → Op → Writer
begin resting op = loading_ready op
begin w op = w

unfoldable pub turn : Turn → System → System
turn writes s = write_at s.writer s
turn parks s = park_at s.parker s
turn boots s = record s { ready = true }
turn (calls op) s = record s { writer = begin s.writer op }

unfoldable pub run : List Turn → System → System
run [] s = s
run (t ∷ ts) s = run ts (turn t s)

-- before either core takes part
abbrev pub initial : System
initial = record {
  ready = false;
  lock = lock_idle;
  bell = false;
  writer = resting;
  writer_masked = false;
  parker = running;
  parker_masked = false;
  cache = true;
  flashed = [];
}
