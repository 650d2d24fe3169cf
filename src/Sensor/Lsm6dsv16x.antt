-- ===== src/Sensor/Lsm6dsv16x.antt =====
-- firmware/core1/src/sensor/lsm6dsv16x.c: the accelerometer and gyroscope.
use mokya_lora.Prelude.{
  ℕ, zero, suc, ◌%◌, Bool, false, Option, none, some, List, ◌==◌, if◌then◌else◌,
}
use mokya_lora.Prelude.Signed.{ℤ, as_int16, cast_int16, quot, times, offset}
use mokya_lora.Bus.{RegBus, Transfer, pure, fail, read_u8, read_block, write_u8, ◌>>=◌, ◌>>◌}
use mokya_lora.Sensor.{Driver, conclude_init, conclude_poll, le16}

-- an axis, with its raw word
pub record Axis : Type 0 where
  pub raw : ℤ
  pub value : ℤ

-- the converted part of `lsm6dsv16x_state_t`
pub record Sample : Type 0 where
  pub gyro_x : Axis
  pub gyro_y : Axis
  pub gyro_z : Axis
  pub accel_x : Axis
  pub accel_y : Axis
  pub accel_z : Axis
  pub temperature_cx10 : ℤ

-- rounds of the loops of `decode_burst`, for the word at `k`
unfoldable pub decode_gyro : List ℕ → ℕ → Axis
decode_gyro b k =
    let raw = as_int16 (le16 b k) in
    record { raw = raw; value = cast_int16 (quot 10000 (times 875 raw)) }

unfoldable pub decode_accel : List ℕ → ℕ → Axis
decode_accel b k =
    let raw = as_int16 (le16 b k) in
    record { raw = raw; value = cast_int16 (quot 1000 (times 61 raw)) }

unfoldable pub decode_temp : List ℕ → ℤ
decode_temp b = cast_int16 (offset 250 (quot 128 (times 5 (as_int16 (le16 b 0)))))

-- `decode_burst`
abbrev pub decode_burst : List ℕ → Sample
decode_burst b = record {
  gyro_x = decode_gyro b 2;
  gyro_y = decode_gyro b 4;
  gyro_z = decode_gyro b 6;
  accel_x = decode_accel b 8;
  accel_y = decode_accel b 10;
  accel_z = decode_accel b 12;
  temperature_cx10 = decode_temp b;
}

abbrev pub reg_ctrl3 : ℕ
reg_ctrl3 = 0x12

-- `elapse` is what a millisecond of `vTaskDelay` does to the world.
module _ (bus : RegBus) (elapse : bus.World → bus.World) where
  open bus use {World, acquire}

  -- the answer to a read in the loop that waits for the reset; `more` are its other rounds
  abbrev pub heard : (ℕ → World → ℕ × World) → ℕ → Option ℕ × World → ℕ × World
  heard more c (none, w) = more c w
  heard more c (some v, w) = if v % 2 == 1 then more v w else (v, w)

  -- The loop for that many rounds at most, from `c`, with the value read last.
  unfoldable pub wait_reset : ℕ → ℕ → World → ℕ × World
  wait_reset zero c w = (c, w)
  wait_reset (suc n) c w = heard (wait_reset n) c (read_u8 bus reg_ctrl3 (elapse w))

  -- the check after the loop
  abbrev pub is_reset : ℕ × World → Option (Unit {0}) × World
  is_reset (c, w) = if c % 2 == 1 then (none, w) else (some tt, w)

  abbrev pub reset : Transfer bus (Unit {0})
  reset w = is_reset (wait_reset 50 1 w)

  -- `hw_init`
  unfoldable pub hw_init : Transfer bus (Unit {0})
  hw_init = do
    id ← read_u8 bus 0x0F
    (if id == 0x70 then pure bus tt else fail bus)
    write_u8 bus reg_ctrl3 0x01
    reset
    write_u8 bus reg_ctrl3 0x44
    write_u8 bus 0x17 0x00
    write_u8 bus 0x15 0x01
    write_u8 bus 0x10 0x04
    write_u8 bus 0x11 0x04

  -- `lsm6dsv16x_init`
  unfoldable pub init : World → Driver Sample → Bool × World × Driver Sample
  init w s = if acquire w then conclude_init (hw_init w) s else (false, w, s)

  -- `lsm6dsv16x_poll`
  unfoldable pub poll : World → Driver Sample → Bool × World × Driver Sample
  poll w s =
      if acquire w then conclude_poll decode_burst (read_block bus 0x20 14 w) s else (false, w, s)
