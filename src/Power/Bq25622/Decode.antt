-- ===== src/Power/Bq25622/Decode.antt =====
-- The conversions of the charger's ADC words.
use mokya_lora.Prelude.{
  ℕ, ◌+◌, ◌-◌, ◌*◌, ◌/◌, ◌%◌, ◌≤◌, ◌<◌, ◌≡◌, List, ltb, if◌then◌else◌, arith, AllBytes,
  get_or-IsByte,
}
use mokya_lora.Prelude.Signed.{
  ℤ, pos, negsuc, pos_part, neg_part, as_int16, cast_int16, shift_right, times,
}
use mokya_lora.Power.Bq25622.{decode_adc, word_at, extend12}

-- `got` is the multiple of `step` at or below `exact`.
pub record IsFloor (step : ℕ) (exact got : ℤ) : Type 0 where
  below : pos_part got + neg_part exact ≤ pos_part exact + neg_part got
  near : pos_part exact + neg_part got < pos_part got + neg_part exact + step
  pos_multiple : pos_part got % step ≡ 0
  neg_multiple : neg_part got % step ≡ 0

-- the same for a positive scale: `got` is `exact / scale`, rounded down
abbrev pub IsQuotient : ℕ → ℕ → ℕ → Type 0
IsQuotient scale exact got = (got * scale ≤ exact) × (exact < (got + 1) * scale)

-- the integer of 12 bits in two's complement
abbrev pub as_int12 : ℕ → ℤ
as_int12 w = if ltb w 0x800 then pos w else negsuc (0xFFF - w)

current2 :
    (w : ℕ)
    → w < 0x10000
    → IsFloor 2 (as_int16 w) (cast_int16 (times 2 (shift_right 2 (as_int16 w))))
current2 w h = record {
  below = ground arith;
  near = ground arith;
  pos_multiple = ground arith;
  neg_multiple = ground arith;
}

current4 :
    (w : ℕ)
    → w < 0x10000
    → IsFloor 4 (as_int16 w) (cast_int16 (times 4 (shift_right 4 (as_int16 w))))
current4 w h = record {
  below = ground arith;
  near = ground arith;
  pos_multiple = ground arith;
  neg_multiple = ground arith;
}

temperature :
    (w : ℕ) → w < 0x1000 → cast_int16 (times 5 (as_int16 (extend12 w))) ≡ times 5 (as_int12 w)
temperature w h = ground arith

word_at-bound : (b : List ℕ) (k : ℕ) → AllBytes b → word_at b k < 0x10000
word_at-bound b k h = omega (arith, get_or-IsByte b k h, get_or-IsByte b (k + 1) h)

-- From a block of bytes, the currents are the signed words of the chip, rounded down to the steps
-- of 2 mA and 4 mA that their fields have; the voltages are the fields at 3.97 mV and 1.99 mV and the
-- thermistor's share the field at 0.0961 %, rounded down, with nothing lost to the 16 bits of the
-- result; and the die temperature is exactly the signed field of 12 bits at half a degree, in tenths.
pub decode_adc_lem :
    (b : List ℕ)
    → AllBytes b
    → let s = decode_adc b in
      IsFloor 2 (as_int16 (word_at b 0)) s.ibus_ma
      × IsFloor 4 (as_int16 (word_at b 2)) s.ibat_ma
      × IsQuotient 100 (word_at b 4 / 4 % 0x2000 * 397) s.vbus_mv
      × IsQuotient 100 (word_at b 6 / 4 % 0x2000 * 397) s.vpmid_mv
      × IsQuotient 100 (word_at b 8 / 2 % 0x1000 * 199) s.vbat_mv
      × IsQuotient 100 (word_at b 10 / 2 % 0x1000 * 199) s.vsys_mv
      × IsQuotient 1000 (word_at b 12 % 0x1000 * 961) s.ts_pct_x10
      × (s.tdie_cx10 ≡ times 5 (as_int12 (word_at b 14 % 0x1000)))
unfolding decode_adc
decode_adc_lem b h = (
  current2 (word_at b 0) (word_at-bound b 0 h),
  current4 (word_at b 2) (word_at-bound b 2 h),
  (omega arith, omega arith),
  (omega arith, omega arith),
  (omega arith, omega arith),
  (omega arith, omega arith),
  (omega arith, omega arith),
  temperature (word_at b 14 % 0x1000) (omega arith),
)
