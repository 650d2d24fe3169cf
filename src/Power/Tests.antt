-- ===== src/Power/Tests.antt =====
-- The drivers on chips that acknowledge every transfer.
use mokya_lora.Prelude.{ℕ, ◌≡◌, ◌≢◌, refl, true, false, ◌==◌, if◌then◌else◌, arith, bit}
use mokya_lora.Power.Lm27965.{ChipBus, power_on, set_keypad_backlight, reg_gp}
use mokya_lora.Prelude.{List, [], ◌∷◌, AllBytes, ap}
use mokya_lora.Bus.{RegBus}
use mokya_lora.Bus.Memory.{memory_bus}
use mokya_lora.Power.Bq25622.{
  decode_adc, decode_status, Charger, s50, hw_init, set_charge_enabled, start,
}
use mokya_lora.Power.Bq25622.Control.{run, charge, run-register}
use mokya_lora.Power.Bq25622.Setup.{shown}
use mokya_lora.Power.Bq25622.Start.{at_attempt, Ended, start-ends}
use mokya_lora.Power.Lm27965.Cache.{keypad, call, InSync, call-InSync}

abbrev put : (ℕ → ℕ) → ℕ → ℕ → ℕ → ℕ
put w r v q = if q == r then v else w q

put_self : (w : ℕ → ℕ) (r v : ℕ) → true ≡ true → put w r v r ≡ v
put_self w r v e = ground arith

put_ne : (w : ℕ → ℕ) (r v q : ℕ) → q ≢ r → put w r v q ≡ w q
put_ne w r v q ne = ground (arith, ne)

abbrev chip : ChipBus
chip = record {
  World = ℕ → ℕ;
  register = λ w. w;
  acquire = λ w. true;
  reg_write = λ w r v. (true, put w r v);
  write-sets = put_self;
  write-keeps = put_ne;
}

-- the registers as `lm27965_init` with a duty of 0 leaves them
abbrev dark : ℕ → ℕ
dark r = if r == reg_gp then 0x20 else 0

dark-InSync : InSync chip dark power_on
dark-InSync = record { gp = refl; a = refl; b = refl; c = refl }

call-InSync_example :
    let (done, w', s') = call chip (keypad true false 40) dark power_on in
    InSync chip w' s' × (s'.online ≡ true) × (bit s'.gp 5 ≡ 1)
unfolding call set_keypad_backlight
call-InSync_example = call-InSync chip (keypad true false 40) dark power_on dark-InSync refl

-- the charger's registers, with CTRL1 as it is after a reset
abbrev ctrl_regs : ℕ → ℕ
ctrl_regs q = if q == 0x16 then 0xA1 else if q == 0x38 then 0x0A else 0

abbrev power_bus : RegBus
power_bus = memory_bus shown

abbrev idle : Charger
idle = record {
  link = record { online = true; fail_count = 0 };
  adc = decode_adc [];
  status = decode_status [];
  wd_window = s50;
  wd_expired_count = 0;
}

abbrev block : List ℕ
block =
    0x0F ∷ 0x00 ∷ 0xF1 ∷ 0xFF ∷ 0x00 ∷ 0x10 ∷ 0x00 ∷ 0x10 ∷ 0x00 ∷ 0x08 ∷ 0x00 ∷ 0x08 ∷ 0xFF ∷ 0x01
    ∷ 0x32 ∷ 0x0F ∷ []

block-AllBytes : AllBytes block
block-AllBytes = ground arith

run-register_example :
    let (_, w', s') = run power_bus (charge false) ctrl_regs idle in
    (bit (w' 0x16) 5 ≡ 0) × (w' 0x38 ≡ 0x0A) × (s' ≡ idle)
unfolding set_charge_enabled bit
run-register_example =
    run-register power_bus (charge false) ctrl_regs idle 5 0x38 refl refl (omega arith) refl
      (omega arith) refl

-- A charger that answers as another part first, and then as itself.
abbrev other_part : ℕ → ℕ
other_part q = if q == 0x16 then 0xA1 else 0

abbrev plug_in : (ℕ → ℕ) → ℕ → ℕ
plug_in w q = if q == 0x38 then 0x0A else w q

start-ends_example :
    Ended power_bus plug_in 1
      (hw_init power_bus s50 (at_attempt power_bus plug_in s50 1 other_part)).1
      idle
      (start power_bus plug_in 3 other_part idle)
unfolding hw_init
start-ends_example =
    start-ends power_bus plug_in 1 3 other_part idle (omega arith)
      (λ j h.
        ap (λ i. (hw_init power_bus s50 (at_attempt power_bus plug_in s50 i other_part)).0) {x = j}
          {y = 0} (omega arith))
      refl
