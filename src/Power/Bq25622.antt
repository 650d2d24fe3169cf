-- ===== src/Power/Bq25622.antt =====
-- firmware/core1/src/power/bq25622.c: the charger. Each public call and each poll holds the bus mutex
-- while it works, so it takes effect as a whole.
pub mod Limits
pub mod Decode
pub mod Control
pub mod Setup
pub mod Polls
pub mod Start
use mokya_lora.Prelude.{
  ℕ, zero, suc, ◌+◌, ◌-◌, ◌*◌, ◌/◌, ◌%◌, Bool, true, false, Option, none, some, List, [], ◌∷◌, ◌==◌,
  if◌then◌else◌, get_or, bit_and, bit_or, add32,
}
use mokya_lora.Prelude.Signed.{ℤ, as_int16, cast_int16, shift_right, times}
use mokya_lora.Bus.{
  RegBus, Transfer, pure, fail, read_u8, read_block, write_u8, write_u16, ◌>>=◌, ◌>>◌,
}
use mokya_lora.Bus.Link.{Link, failed, succeeded, note}

-- `pack_vreg`: the bytes for the low and the high register
abbrev pub pack_vreg : ℕ → ℕ × ℕ
pack_vreg mv = let raw = mv / 10 in (raw % 0x20 * 8, raw / 32 % 0x10)

-- `pack_ichg`
abbrev pub pack_ichg : ℕ → ℕ × ℕ
pack_ichg ma = let raw = ma / 80 in (raw % 0x04 * 64, raw / 4 % 0x10)

-- `pack_iindpm`
abbrev pub pack_iindpm : ℕ → ℕ × ℕ
pack_iindpm ma = let raw = ma / 20 in (raw % 0x10 * 16, raw / 16 % 0x10)

abbrev pub reg_ichg : ℕ
reg_ichg = 0x02

abbrev pub reg_vreg : ℕ
reg_vreg = 0x04

abbrev pub reg_iindpm : ℕ
reg_iindpm = 0x06

abbrev pub reg_ctrl1 : ℕ
reg_ctrl1 = 0x16

abbrev pub reg_ctrl3 : ℕ
reg_ctrl3 = 0x18

abbrev pub reg_status0 : ℕ
reg_status0 = 0x1D

abbrev pub reg_adc_ctrl : ℕ
reg_adc_ctrl = 0x26

abbrev pub reg_ibus_adc : ℕ
reg_ibus_adc = 0x28

abbrev pub reg_part_info : ℕ
reg_part_info = 0x38

-- `CTRL1_EN_CHG`, `CTRL1_EN_HIZ`, `CTRL1_WD_RST`
abbrev pub en_chg : ℕ
en_chg = 0x20

abbrev pub en_hiz : ℕ
en_hiz = 0x10

abbrev pub wd_rst : ℕ
wd_rst = 0x04

-- `bq25622_wd_window_t` and `bq25622_batfet_mode_t`, in the order of their values
pub data Watchdog : Type 0 where
  off s50 s100 s200 : Watchdog

abbrev pub wd_value : Watchdog → ℕ
wd_value off = 0
wd_value s50 = 1
wd_value s100 = 2
wd_value s200 = 3

pub data Batfet : Type 0 where
  normal shutdown ship sysreset : Batfet

abbrev pub batfet_value : Batfet → ℕ
batfet_value normal = 0
batfet_value shutdown = 1
batfet_value ship = 2
batfet_value sysreset = 3

-- the converted part of `bq25622_state_t`
pub record Adc : Type 0 where
  pub ibus_ma : ℤ
  pub ibat_ma : ℤ
  pub vbus_mv : ℕ
  pub vpmid_mv : ℕ
  pub vbat_mv : ℕ
  pub vsys_mv : ℕ
  pub ts_pct_x10 : ℕ
  pub tdie_cx10 : ℤ

pub record Status : Type 0 where
  pub chg_stat : ℕ
  pub vbus_stat : ℕ
  pub ts_stat : ℕ
  pub tshut : Bool
  pub sys_fault : Bool
  pub bat_fault : Bool

pub record Charger : Type 0 where
  pub link : Link
  pub adc : Adc
  pub status : Status
  pub wd_window : Watchdog
  pub wd_expired_count : ℕ

-- a little-endian word of the block
abbrev pub word_at : List ℕ → ℕ → ℕ
word_at b k = get_or b k 0 + 256 * get_or b (k + 1) 0

-- the die temperature's 12 bits, with bit 11 extended
abbrev pub extend12 : ℕ → ℕ
extend12 raw = if raw / 0x800 % 2 == 1 then raw + 0xF000 else raw

-- `decode_adc`
unfoldable pub decode_adc : List ℕ → Adc
decode_adc b = record {
  ibus_ma = cast_int16 (times 2 (shift_right 2 (as_int16 (word_at b 0))));
  ibat_ma = cast_int16 (times 4 (shift_right 4 (as_int16 (word_at b 2))));
  vbus_mv = word_at b 4 / 4 % 0x2000 * 397 / 100 % 0x10000;
  vpmid_mv = word_at b 6 / 4 % 0x2000 * 397 / 100 % 0x10000;
  vbat_mv = word_at b 8 / 2 % 0x1000 * 199 / 100 % 0x10000;
  vsys_mv = word_at b 10 / 2 % 0x1000 * 199 / 100 % 0x10000;
  ts_pct_x10 = word_at b 12 % 0x1000 * 961 / 1000 % 0x10000;
  tdie_cx10 = cast_int16 (times 5 (as_int16 (extend12 (word_at b 14 % 0x1000))));
}

-- the status bits that a poll publishes
unfoldable pub decode_status : List ℕ → Status
decode_status st = record {
  chg_stat = get_or st 1 0 / 8 % 4;
  vbus_stat = get_or st 1 0 % 8;
  ts_stat = get_or st 2 0 % 8;
  tshut = get_or st 2 0 / 8 % 2 == 1;
  sys_fault = get_or st 2 0 / 32 % 2 == 1;
  bat_fault = get_or st 2 0 / 64 % 2 == 1;
}

module _ (bus : RegBus) where
  open bus use {World, acquire}

  -- `ctrl1_update`, on either control register
  abbrev pub update_bits : ℕ → ℕ → ℕ → Transfer bus (Unit {0})
  update_bits r clear set = do
    v ← read_u8 bus r
    write_u8 bus r (bit_or (bit_and v (0xFF - clear)) set)

  -- `hw_init`
  unfoldable pub hw_init : Watchdog → Transfer bus (Unit {0})
  hw_init wd = do
    pi ← read_u8 bus reg_part_info
    (if pi / 8 % 8 == 1 then pure bus tt else fail bus)
    write_u16 bus reg_vreg (pack_vreg 4100)
    write_u16 bus reg_ichg (pack_ichg 480)
    write_u16 bus reg_iindpm (pack_iindpm 500)
    update_bits reg_ctrl1 3 (bit_or (bit_or en_chg wd_rst) (wd_value wd))
    write_u8 bus reg_adc_ctrl 0x80

  -- A kick of the watchdog, if it is on.
  abbrev pub kick : Watchdog → Transfer bus (Unit {0})
  kick off = pure bus tt
  kick _ = update_bits reg_ctrl1 0 wd_rst

  -- The stages of `poll_once` behind its transactions, each with the answer before it. `false` is
  -- the jump to `fail`.
  abbrev pub Stage : Type 0
  Stage = Bool × World × Charger

  abbrev pub adc_read : Option (List ℕ) × World → Charger → Stage
  adc_read (none, w) s = (false, w, s)
  adc_read (some b, w) s = (true, w, record s { adc = decode_adc b })

  abbrev pub publish : List ℕ → World → Charger → Stage
  publish st w s =
      adc_read (read_block bus reg_ibus_adc 16 w) (record s { status = decode_status st })

  abbrev pub kicked : List ℕ → Option (Unit {0}) × World → Charger → Stage
  kicked st (none, w) s = (false, w, s)
  kicked st (some _, w) s = publish st w s

  abbrev pub read_again : Option (List ℕ) × World → Charger → Stage
  read_again (none, w) s = (false, w, s)
  read_again (some st, w) s = publish st w s

  abbrev pub recovered : Option (Unit {0}) × World → Charger → Stage
  recovered (none, w) s = (false, w, s)
  recovered (some _, w) s =
      read_again (read_block bus reg_status0 3 w)
        (record s { wd_expired_count = add32 s.wd_expired_count 1 })

  abbrev pub status_read : Option (List ℕ) × World → Charger → Stage
  status_read (none, w) s = (false, w, s)
  status_read (some st, w) s =
      if get_or st 0 0 % 2 == 1
      then recovered (hw_init s.wd_window w) s
      else kicked st (kick s.wd_window w) s

  abbrev pub attempt : World → Charger → Stage
  attempt w s = status_read (read_block bus reg_status0 3 w) s

  abbrev pub conclude : Stage → World × Charger
  conclude (done, w, s) = (w, record s { link = note 5 done s.link })

  -- `poll_once`
  unfoldable pub poll_once : World → Charger → World × Charger
  poll_once w s = if acquire w then conclude (attempt w s) else (w, s)

  -- the public calls that update a control register under the bus mutex
  abbrev pub under_bus : Transfer bus (Unit {0}) → Transfer bus (Unit {0})
  under_bus t w = if acquire w then t w else (none, w)

  -- `bq25622_set_charge_enabled`
  unfoldable pub set_charge_enabled : Bool → Transfer bus (Unit {0})
  set_charge_enabled enabled = under_bus (
      update_bits reg_ctrl1 (if enabled then 0 else en_chg)
        (if enabled then bit_or en_chg wd_rst else wd_rst))

  -- `bq25622_set_hiz`
  unfoldable pub set_hiz : Bool → Transfer bus (Unit {0})
  set_hiz enabled = under_bus (
      update_bits reg_ctrl1 (if enabled then 0 else en_hiz)
        (if enabled then bit_or en_hiz wd_rst else wd_rst))

  -- the register part of `bq25622_set_watchdog`
  unfoldable pub write_watchdog : Watchdog → Transfer bus (Unit {0})
  write_watchdog win = under_bus (update_bits reg_ctrl1 3 (bit_or wd_rst (wd_value win)))

  abbrev pub keep_window : Watchdog → Option (Unit {0}) × World → Charger → Bool × World × Charger
  keep_window win (none, w) s = (false, w, s)
  keep_window win (some _, w) s = (true, w, record s { wd_window = win })

  -- `bq25622_set_watchdog`
  unfoldable pub set_watchdog : Watchdog → World → Charger → Bool × World × Charger
  set_watchdog win w s = keep_window win (write_watchdog win w) s

  -- `bq25622_set_batfet_mode`
  unfoldable pub set_batfet_mode : Batfet → Transfer bus (Unit {0})
  set_batfet_mode mode = under_bus (update_bits reg_ctrl3 3 (bit_and (batfet_value mode) 3))

  abbrev pub first_up : Option (Unit {0}) × World → Charger → Bool × World × Charger
  first_up (none, w) s =
      (false, w, record s { link = record (s.link) { fail_count = add32 s.link.fail_count 1 } })
  first_up (some _, w) s = (true, w, record s { link = record (s.link) { online = true } })

  -- one attempt of the first loop of `charger_task`
  unfoldable pub bring_up : World → Charger → Bool × World × Charger
  bring_up w s = first_up (hw_init s.wd_window w) s

  -- The first loop of `charger_task`, for that many attempts at most; `elapse` is what half a second
  -- does to the world.
  module _ (elapse : World → World) where
    abbrev pub again :
        (World → Charger → Bool × World × Charger) → Bool × World × Charger → Bool × World × Charger
    again more (true, w, s) = (true, w, s)
    again more (false, w, s) = more (elapse w) s

    unfoldable pub start : ℕ → World → Charger → Bool × World × Charger
    start zero w s = (false, w, s)
    start (suc n) w s = again (start n) (bring_up w s)
