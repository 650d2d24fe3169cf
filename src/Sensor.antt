-- ===== src/Sensor.antt =====
-- firmware/core1/src/sensor: the drivers of the motion and pressure sensors, and their task. Each
-- public call holds the bus mutex while it works.
pub mod Lps22hh
pub mod Lis2mdl
pub mod Lsm6dsv16x
pub mod Conversions
pub mod Reset
pub mod Schedule
mod Tests
use mokya_lora.Prelude.{ℕ, ◌+◌, ◌*◌, Bool, true, false, Option, none, some, List, get_or, add32}
use mokya_lora.Bus.Link.{Link, failed, succeeded}

-- what the three `_state_t` have in common
pub record Driver (S : Type 0) : Type 0 where
  pub link : Link
  pub sample : S

-- a little-endian word of a block
abbrev pub le16 : List ℕ → ℕ → ℕ
le16 b k = get_or b k 0 + 256 * get_or b (k + 1) 0

module _ {S W : Type 0} where
  -- the end of an `_init`, with the answer of `hw_init`
  unfoldable pub conclude_init : Option (Unit {0}) × W → Driver S → Bool × W × Driver S
  conclude_init (none, w) s = (
    false,
    w,
    record s { link = record { online = false; fail_count = add32 s.link.fail_count 1 } },
  )
  conclude_init (some _, w) s = (true, w, record s { link = record (s.link) { online = true } })

  -- the end of a `_poll`, with the answer of its transfers
  unfoldable pub conclude_poll :
      {B : Type 0} → (B → S) → Option B × W → Driver S → Bool × W × Driver S
  conclude_poll decode (none, w) s = (false, w, record s { link = failed 5 s.link })
  conclude_poll decode (some b, w) s = (true, w, record { link = succeeded; sample = decode b })
