-- ===== src/Power/Lm27965.antt =====
-- firmware/core1/src/power/lm27965.c: the backlight and LED driver with its register cache.
-- The I2C bus with the chip behind it is a parameter. Each call holds the bus mutex, so it takes
-- effect as a whole.
pub mod Cache
use mokya_lora.Prelude.{
  ℕ, ◌-◌, ◌≡◌, ◌≢◌, Bool, true, false, not, if◌then◌else◌, ltb, bit_and, bit_or,
}

-- A bus with the chip's registers. A write that the chip acknowledges sets its register alone;
-- nothing is known of the register after one that fails.
pub record ChipBus : Type 1 where
  pub World : Type 0
  pub register : World → ℕ → ℕ
  -- `i2c_bus_acquire`; `false` is `NULL`
  pub acquire : World → Bool
  -- `i2c_write_timeout_us` of a register and a value; `false` is a negative result
  pub reg_write : World → ℕ → ℕ → Bool × World
  pub write-sets :
      (w : World) (r v : ℕ) → (reg_write w r v).0 ≡ true → register (reg_write w r v).1 r ≡ v
  pub write-keeps : (w : World) (r v q : ℕ) → q ≢ r → register (reg_write w r v).1 q ≡ register w q

-- `REG_GP`, `REG_BANKA`, `REG_BANKB` and `REG_BANKC`
abbrev pub reg_gp : ℕ
reg_gp = 0x10

abbrev pub reg_bank_a : ℕ
reg_bank_a = 0xA0

abbrev pub reg_bank_b : ℕ
reg_bank_b = 0xB0

abbrev pub reg_bank_c : ℕ
reg_bank_c = 0xC0

-- `GP_ENA`, `GP_ENB`, `GP_ENC`, `GP_EN3B` and `GP_RESERVED`
abbrev pub gp_ena : ℕ
gp_ena = 1

abbrev pub gp_enb : ℕ
gp_enb = 2

abbrev pub gp_enc : ℕ
gp_enc = 4

abbrev pub gp_en3b : ℕ
gp_en3b = 16

abbrev pub gp_reserved : ℕ
gp_reserved = 32

-- `lm27965_state_t`
pub record Driver : Type 0 where
  pub online : Bool
  pub gp : ℕ
  pub bank_a_duty : ℕ
  pub bank_b_duty : ℕ
  pub bank_c_duty : ℕ

abbrev pub power_on : Driver
power_on = record {
  online = false;
  gp = gp_reserved;
  bank_a_duty = 0;
  bank_b_duty = 0;
  bank_c_duty = 0;
}

abbrev pub clamp_ab : ℕ → ℕ
clamp_ab d = if ltb 31 d then 31 else d

abbrev pub clamp_c : ℕ → ℕ
clamp_c d = if ltb 3 d then 3 else d

-- `x & (uint8_t)~m`
abbrev pub clear : ℕ → ℕ → ℕ
clear x m = bit_and x (0xFF - m)

abbrev pub switch : Bool → ℕ → ℕ → ℕ
switch on m x = if on then bit_or x m else clear x m

-- the fields that the calls set once their duty register is written
abbrev pub with_tft : Driver → ℕ → Driver
with_tft s d = record s { bank_a_duty = d; gp = switch (ltb 0 d) gp_ena s.gp }

abbrev pub with_keypad : Driver → Bool → Bool → ℕ → Driver
with_keypad s kbd_on green_on d = record s {
  bank_b_duty = d;
  gp =
      bit_or (bit_or (clear s.gp (bit_or gp_enb gp_en3b)) (if kbd_on then gp_enb else 0))
        (if green_on then gp_en3b else 0);
}

abbrev pub with_red : Driver → Bool → ℕ → Driver
with_red s on d = record s { bank_c_duty = d; gp = switch on gp_enc s.gp }

module _ (bus : ChipBus) where
  open bus use {World, acquire, reg_write}

  abbrev pub Outcome : Type 0
  Outcome = Bool × World × Driver

  -- the end of every call: `apply_gp`, and `online` by its result
  abbrev pub finish : World → Driver → Outcome
  finish w s =
      let v = bit_or s.gp gp_reserved in
      let (ok, w') = reg_write w reg_gp v in
      (ok, w', record s { online = ok; gp = if ok then v else s.gp })

  -- a call that first writes a duty register
  abbrev pub set_duty : World → Driver → ℕ → ℕ → Driver → Outcome
  set_duty w s r d next =
      let (ok, w') = reg_write w r d in
      if ok then finish w' next else (false, w', record s { online = false })

  -- `lm27965_set_tft_backlight`
  unfoldable pub set_tft_backlight : World → Driver → ℕ → Outcome
  set_tft_backlight w s duty =
      if acquire w
      then set_duty w s reg_bank_a (clamp_ab duty) (with_tft s (clamp_ab duty))
      else (false, w, s)

  -- `lm27965_set_keypad_backlight`
  unfoldable pub set_keypad_backlight : World → Driver → Bool → Bool → ℕ → Outcome
  set_keypad_backlight w s kbd_on green_on duty =
      if acquire w
      then set_duty w s reg_bank_b (clamp_ab duty) (with_keypad s kbd_on green_on (clamp_ab duty))
      else (false, w, s)

  -- `lm27965_set_led_red`
  unfoldable pub set_led_red : World → Driver → Bool → ℕ → Outcome
  set_led_red w s on duty =
      if acquire w
      then set_duty w s reg_bank_c (clamp_c duty) (with_red s on (clamp_c duty))
      else (false, w, s)

  -- `lm27965_all_off`
  unfoldable pub all_off : World → Driver → Outcome
  all_off w s = if acquire w then finish w (record s { gp = gp_reserved }) else (false, w, s)

  abbrev offline : World → Driver → Outcome
  offline w s = (false, w, record s { online = false })

  -- `lm27965_init`
  unfoldable pub init : World → Driver → ℕ → Outcome
  init w s tft_duty =
      let duty = clamp_ab tft_duty in
      let (a, wa) = reg_write w reg_bank_a duty in
      let s' = record s { bank_a_duty = duty } in
      let (b, wb) = reg_write wa reg_bank_b 0 in
      let (c, wc) = reg_write wb reg_bank_c 0 in
      if not (acquire w)
      then (false, w, s)
      else if not a
      then offline wa s
      else if not b
      then offline wb s'
      else if not c
      then offline wc s'
      else finish wc (record s' { gp = bit_or gp_reserved (if ltb 0 duty then gp_ena else 0) })
