-- ===== src/Sensor/Lps22hh.antt =====
-- firmware/core1/src/sensor/lps22hh.c: the barometer.
use mokya_lora.Prelude.{
  ℕ, zero, suc, ◌+◌, ◌-◌, ◌*◌, ◌/◌, ◌%◌, Bool, false, some, List, ◌==◌, if◌then◌else◌, get_or, ltb,
}
use mokya_lora.Prelude.Signed.{ℤ, as_int16, quot}
use mokya_lora.Bus.{RegBus, Transfer, pure, fail, read_u8, read_block, write_u8, ◌>>=◌, ◌>>◌}
use mokya_lora.Sensor.{Driver, conclude_init, conclude_poll, le16}

-- the converted part of `lps22hh_state_t`
pub record Sample : Type 0 where
  pub pressure_hpa_x100 : ℕ
  pub temperature_cx10 : ℤ

-- `decode_sample`. The division of a negative pressure rounds towards 0 before the cast.
unfoldable pub decode_sample : List ℕ → Sample
decode_sample b =
    let raw = get_or b 0 0 + 0x100 * get_or b 1 0 + 0x10000 * get_or b 2 0 in
    record {
      pressure_hpa_x100 =
          if ltb raw 0x800000
          then raw * 25 / 1024
          else (0x100000000 - (0x1000000 - raw) * 25 / 1024) % 0x100000000;
      temperature_cx10 = quot 10 (as_int16 (le16 b 3));
    }

abbrev pub reg_ctrl_reg1 : ℕ
reg_ctrl_reg1 = 0x10

abbrev pub reg_ctrl_reg2 : ℕ
reg_ctrl_reg2 = 0x11

-- `elapse` is what a millisecond of `vTaskDelay` does to the world.
module _ (bus : RegBus) (elapse : bus.World → bus.World) where
  open bus use {World, acquire}

  abbrev pub pause : Transfer bus (Unit {0})
  pause w = (some tt, elapse w)

  -- The loop that waits for the reset, for that many rounds at most. It gives up without an error.
  unfoldable pub wait_reset : ℕ → Transfer bus (Unit {0})
  wait_reset zero = pure bus tt
  wait_reset (suc n) = do
    v ← read_u8 bus reg_ctrl_reg2
    (if v / 4 % 2 == 0 then pure bus tt else (pause >> wait_reset n))

  -- `hw_init`
  unfoldable pub hw_init : Transfer bus (Unit {0})
  hw_init = do
    id ← read_u8 bus 0x0F
    (if id == 0xB3 then pure bus tt else fail bus)
    write_u8 bus reg_ctrl_reg2 0x04
    wait_reset 50
    write_u8 bus reg_ctrl_reg2 0x12
    write_u8 bus reg_ctrl_reg1 0x1A

  -- `lps22hh_init`
  unfoldable pub init : World → Driver Sample → Bool × World × Driver Sample
  init w s = if acquire w then conclude_init (hw_init w) s else (false, w, s)

  -- `lps22hh_poll`
  unfoldable pub poll : World → Driver Sample → Bool × World × Driver Sample
  poll w s =
      if acquire w then conclude_poll decode_sample (read_block bus 0x28 5 w) s else (false, w, s)
