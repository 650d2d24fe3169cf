-- ===== src/Power/Bq25622/Limits.antt =====
-- The limits that the charger reads are those that were asked for, rounded down.
use mokya_lora.Prelude.{ℕ, ◌+◌, ◌*◌, ◌/◌, ◌%◌, ◌≤◌, ◌<◌, arith}
use mokya_lora.Power.Bq25622.{pack_vreg, pack_ichg, pack_iindpm}

-- the register pair as one little-endian word
abbrev pub word : ℕ × ℕ → ℕ
word (lo, hi) = lo + 256 * hi

-- the fields VREG[8:0] at bit 3, ICHG[5:0] at bit 6 and IINDPM[7:0] at bit 4, with their steps
abbrev pub vreg_mv : ℕ → ℕ
vreg_mv w = w / 8 % 512 * 10

abbrev pub ichg_ma : ℕ → ℕ
ichg_ma w = w / 64 % 64 * 80

abbrev pub iindpm_ma : ℕ → ℕ
iindpm_ma w = w / 16 % 256 * 20

-- `asked` is met from below, by less than `step`.
abbrev pub Meets : ℕ → ℕ → ℕ → Type 0
Meets step asked got = (got ≤ asked) × (asked < got + step)

-- For limits in the chip's ranges, the bytes that are packed fit their registers, and the fields that
-- the chip reads out of them are the limits, rounded down to the field's step: never more than was
-- asked for.
pub pack-Meets :
    (mv ichg iindpm : ℕ)
    → mv ≤ 4800
    → ichg ≤ 3520
    → iindpm ≤ 3200
    → Meets 10 mv (vreg_mv (word (pack_vreg mv)))
      × Meets 80 ichg (ichg_ma (word (pack_ichg ichg)))
      × Meets 20 iindpm (iindpm_ma (word (pack_iindpm iindpm)))
      × (word (pack_vreg mv) < 0x1000)
      × (word (pack_ichg ichg) < 0x1000)
      × (word (pack_iindpm iindpm) < 0x1000)
pack-Meets mv ichg iindpm h k l = (
  (omega arith, omega arith),
  (omega arith, omega arith),
  (omega arith, omega arith),
  omega arith,
  omega arith,
  omega arith,
)
