-- ===== src/Power/Bq25622/Setup.antt =====
-- What the initialisation of the charger leaves in its registers.
use mokya_lora.Prelude.{
  ℕ, ◌+◌, ◌*◌, ◌/◌, ◌%◌, ◌-◌, ◌≡◌, refl, ap, ap₂, ◌∙◌, Bool, true, false, ◌||◌, ◌&&◌, leb, ◌==◌,
  if◌then◌else◌, some, List, [], ◌∷◌, bit_and, bit_or,
}
use mokya_lora.Bus.{RegBus, pure, fail}
use mokya_lora.Bus.Facts.{
  Shows, Ensures, bind-Ensures, then-Ensures, read_u8-Ensures, write_u8-Ensures, write_u16-Ensures,
  imply-Ensures,
}
use mokya_lora.Power.Bq25622.{
  Watchdog, wd_value, hw_init, reg_part_info, reg_vreg, reg_ichg, reg_iindpm, reg_ctrl1,
  reg_adc_ctrl, pack_vreg, pack_ichg, pack_iindpm, en_chg, wd_rst,
}
use mokya_lora.Power.Bq25622.Control.{update_bits-Ensures}
use mokya_lora.Power.Bq25622.Limits.{vreg_mv, ichg_ma, iindpm_ma}

-- the registers that the initialisation sets
abbrev pub is_set_up : ℕ → Bool
is_set_up q = (leb 2 q && leb q 7) || (q == reg_ctrl1) || (q == reg_adc_ctrl)

-- All bits of these registers show what was written, but the WD_RST of CTRL1.
abbrev pub shown : ℕ → ℕ
shown q = if q == reg_ctrl1 then 0xFB else 0xFF

-- CTRL1 with the charger on and this window, from what it showed before
abbrev pub ctrl1_set : Watchdog → ℕ → ℕ
ctrl1_set wd old =
    bit_and (bit_or (bit_and old (0xFF - 3)) (bit_or (bit_or en_chg wd_rst) (wd_value wd))) 0xFB

module _ (bus : RegBus) where
  open bus use {World, register, steady, holds_bits}

  guard-Ensures :
      (b : Bool) (P : World → Type 0) → Ensures bus P (if b then pure bus tt else fail bus) P
  guard-Ensures true P = record { ends = λ w a p e. p }
  guard-Ensures false P = record { ends = λ w a p e. p }

  abbrev two : ℕ → ℕ × ℕ → List (ℕ × ℕ) → List (ℕ × ℕ)
  two r (lo, hi) fs = (r, bit_and lo (holds_bits r)) ∷ (r + 1, bit_and hi (holds_bits (r + 1))) ∷ fs

  abbrev limits : List (ℕ × ℕ) → List (ℕ × ℕ)
  limits fs =
      two reg_iindpm (pack_iindpm 500)
        (two reg_ichg (pack_ichg 480) (two reg_vreg (pack_vreg 4100) fs))

  abbrev ctrl1_bits : Watchdog → ℕ
  ctrl1_bits wd = bit_or (bit_or en_chg wd_rst) (wd_value wd)

  abbrev new_ctrl1 : Watchdog → ℕ → ℕ
  new_ctrl1 wd old =
      bit_and (bit_or (bit_and old (0xFF - 3)) (ctrl1_bits wd)) (holds_bits reg_ctrl1)

  abbrev set_up : Watchdog → ℕ → List (ℕ × ℕ)
  set_up wd old =
      (reg_adc_ctrl, bit_and 0x80 (holds_bits reg_adc_ctrl))
      ∷ (reg_ctrl1, new_ctrl1 wd old)
      ∷ limits []

  hw_init-Ensures :
      (wd : Watchdog) (old : ℕ)
      → ((q : ℕ) → is_set_up q ≡ true → steady q ≡ true)
      → Ensures bus (Shows bus ((reg_ctrl1, old) ∷ [])) (hw_init bus wd) (Shows bus (set_up wd old))
  unfolding hw_init
  hw_init-Ensures wd old st =
      let f0 : List (ℕ × ℕ) = (reg_ctrl1, old) ∷ [] in
      let f1 = two reg_vreg (pack_vreg 4100) f0 in
      let f2 = two reg_ichg (pack_ichg 480) f1 in
      let f3 = limits f0 in
      let f4 = (reg_ctrl1, new_ctrl1 wd old) ∷ limits [] in
      let adc = write_u8-Ensures bus reg_adc_ctrl 0x80 f4 (st reg_adc_ctrl refl) refl in
      let ctrl1 =
        imply-Ensures bus {P = Shows bus f3}
          (λ w (a, b, (c, d, (e, f, (g, h, (i, j, (k, l, m)))))).
            (m.0, m.1, (a, b, (c, d, (e, f, (g, h, (i, j, (k, l, tt))))))))
          (update_bits-Ensures bus reg_ctrl1 3 (ctrl1_bits wd) old (limits []) (st reg_ctrl1 refl)
            refl) in
      let iindpm = write_u16-Ensures bus reg_iindpm 144 1 f2 (st 6 refl) (st 7 refl) refl in
      let ichg = write_u16-Ensures bus reg_ichg 128 1 f1 (st 2 refl) (st 3 refl) refl in
      let vreg = write_u16-Ensures bus reg_vreg 208 12 f0 (st 4 refl) (st 5 refl) refl in
      bind-Ensures bus (read_u8-Ensures bus reg_part_info f0) (λ pi.
        then-Ensures bus (guard-Ensures (pi / 8 % 8 == 1) (Shows bus f0)) (
          then-Ensures bus vreg
            (then-Ensures bus ichg (then-Ensures bus iindpm (then-Ensures bus ctrl1 adc)))))

  masked :
      (w : World) (q v : ℕ)
      → holds_bits q ≡ shown q
      → register w q ≡ bit_and v (holds_bits q)
      → register w q ≡ bit_and v (shown q)
  masked w q v m e = e ∙ ap (bit_and v) m

  -- the register pair from `r` on, as one word
  abbrev pub pair : World → ℕ → ℕ
  pair w r = register w r + 256 * register w (r + 1)

  -- On a bus where the registers that are set up are steady and show what is written, but for the
  -- WD_RST of CTRL1, an initialisation that succeeds leaves the charger with a limit of 4100 mV, of
  -- 480 mA for charging and of 500 mA at the input, with its ADC on, and in CTRL1 with charging on,
  -- the watchdog's window as asked for, WD_RST at 0, and the other bits as they were.
  pub hw_init_lem :
      (wd : Watchdog) (w : World)
      → ((q : ℕ) → is_set_up q ≡ true → (steady q ≡ true) × (holds_bits q ≡ shown q))
      → (hw_init bus wd w).0 ≡ some tt
      → let w' = (hw_init bus wd w).1 in
        (vreg_mv (pair w' reg_vreg) ≡ 4100)
        × (ichg_ma (pair w' reg_ichg) ≡ 480)
        × (iindpm_ma (pair w' reg_iindpm) ≡ 500)
        × (register w' reg_adc_ctrl ≡ 0x80)
        × (register w' reg_ctrl1 ≡ ctrl1_set wd (register w reg_ctrl1))
  hw_init_lem wd w k e =
      let w' = (hw_init bus wd w).1 in
      let (_, adc, (_, ctrl1, (_, l6, (_, l7, (_, l2, (_, l3, (_, l4, (_, l5, _)))))))) =
        (hw_init-Ensures wd (register w reg_ctrl1) (λ q h. (k q h).0)).ends w tt
          ((k reg_ctrl1 refl).0, refl, tt) e in
      (
        ap₂ (λ lo hi. vreg_mv (lo + 256 * hi)) (masked w' 4 208 (k 4 refl).1 l4)
            (masked w' 5 12 (k 5 refl).1 l5),
        ap₂ (λ lo hi. ichg_ma (lo + 256 * hi)) (masked w' 2 128 (k 2 refl).1 l2)
            (masked w' 3 1 (k 3 refl).1 l3),
        ap₂ (λ lo hi. iindpm_ma (lo + 256 * hi)) (masked w' 6 144 (k 6 refl).1 l6)
            (masked w' 7 1 (k 7 refl).1 l7),
        masked w' reg_adc_ctrl 0x80 (k reg_adc_ctrl refl).1 adc,
        ctrl1
            ∙ ap (bit_and (bit_or (bit_and (register w reg_ctrl1) (0xFF - 3)) (ctrl1_bits wd)))
                (k reg_ctrl1 refl).1,
      )
