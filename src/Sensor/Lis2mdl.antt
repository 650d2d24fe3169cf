-- ===== src/Sensor/Lis2mdl.antt =====
-- firmware/core1/src/sensor/lis2mdl.c: the magnetometer.
use mokya_lora.Prelude.{ℕ, Bool, false, some, List, ◌==◌, if◌then◌else◌}
use mokya_lora.Prelude.Signed.{ℤ, as_int16, cast_int16, quot, times, offset}
use mokya_lora.Bus.{RegBus, Transfer, pure, fail, read_u8, read_block, write_u8, ◌>>=◌, ◌>>◌}
use mokya_lora.Sensor.{Driver, conclude_init, conclude_poll, le16}

-- an axis, with its raw word
pub record Axis : Type 0 where
  pub raw : ℤ
  pub ut_x10 : ℤ

-- the converted part of `lis2mdl_state_t`
pub record Sample : Type 0 where
  pub x : Axis
  pub y : Axis
  pub z : Axis
  pub temperature_cx10 : ℤ

-- a round of the loop of `decode_mag`, for the word at `k`
unfoldable pub decode_mag : List ℕ → ℕ → Axis
decode_mag b k =
    let raw = as_int16 (le16 b k) in
    record { raw = raw; ut_x10 = cast_int16 (quot 2 (times 3 raw)) }

unfoldable pub decode_temp : List ℕ → ℤ
decode_temp b = cast_int16 (offset 250 (quot 4 (times 5 (as_int16 (le16 b 0)))))

abbrev pub decode : List ℕ × List ℕ → Sample
decode (m, t) = record {
  x = decode_mag m 0;
  y = decode_mag m 2;
  z = decode_mag m 4;
  temperature_cx10 = decode_temp t;
}

abbrev pub reg_cfg_reg_a : ℕ
reg_cfg_reg_a = 0x60

-- `elapse` is what the ten milliseconds after the reset do to the world.
module _ (bus : RegBus) (elapse : bus.World → bus.World) where
  open bus use {World, acquire}

  abbrev pub pause : Transfer bus (Unit {0})
  pause w = (some tt, elapse w)

  -- `hw_init`
  unfoldable pub hw_init : Transfer bus (Unit {0})
  hw_init = do
    id ← read_u8 bus 0x4F
    (if id == 0x40 then pure bus tt else fail bus)
    write_u8 bus reg_cfg_reg_a 0x20
    pause
    write_u8 bus 0x61 0x03
    write_u8 bus 0x62 0x10
    write_u8 bus reg_cfg_reg_a 0x80

  -- `lis2mdl_init`
  unfoldable pub init : World → Driver Sample → Bool × World × Driver Sample
  init w s = if acquire w then conclude_init (hw_init w) s else (false, w, s)

  -- the two reads of a poll
  abbrev pub read_both : Transfer bus (List ℕ × List ℕ)
  read_both = do m ← read_block bus 0x68 6; t ← read_block bus 0x6E 2; pure bus (m, t)

  -- `lis2mdl_poll`
  unfoldable pub poll : World → Driver Sample → Bool × World × Driver Sample
  poll w s = if acquire w then conclude_poll decode (read_both w) s else (false, w, s)
