-- ===== src/Power/Lm27965/Cache.antt =====
-- The cache shows what stands in the chip's registers.
use mokya_lora.Prelude.{
  ℕ, ◌≡◌, refl, sym, ◌∙◌, Bool, true, false, not, if◌then◌else◌, ltb, bit_or, arith, bit,
  bit-bit_or, bit-le-one, Bool-cases, inl, inr, ◌⊎◌,
}
use mokya_lora.Power.Lm27965.{
  ChipBus, Driver, reg_gp, reg_bank_a, reg_bank_b, reg_bank_c, gp_reserved, finish, set_duty,
  set_tft_backlight, set_keypad_backlight, set_led_red, all_off, init, clamp_ab, clamp_c, with_tft,
  with_keypad, with_red, gp_ena, gp_ena,
}

-- the calls of the driver, `lm27965_init` first
pub data Call : Type 0 where
  start : ℕ → Call
  tft : ℕ → Call
  keypad : Bool → Bool → ℕ → Call
  red : Bool → ℕ → Call
  off : Call

module _ (bus : ChipBus) where
  open bus use {World, register, acquire, reg_write, write-sets, write-keeps}

  pub record InSync (w : World) (s : Driver) : Type 0 where
    pub gp : register w reg_gp ≡ s.gp
    pub a : register w reg_bank_a ≡ s.bank_a_duty
    pub b : register w reg_bank_b ≡ s.bank_b_duty
    pub c : register w reg_bank_c ≡ s.bank_c_duty

  pub record Duties (w : World) (s : Driver) : Type 0 where
    pub a : register w reg_bank_a ≡ s.bank_a_duty
    pub b : register w reg_bank_b ≡ s.bank_b_duty
    pub c : register w reg_bank_c ≡ s.bank_c_duty

  unfoldable pub call : Call → World → Driver → Bool × World × Driver
  call (start d) w s = init bus w s d
  call (tft d) w s = set_tft_backlight bus w s d
  call (keypad k g d) w s = set_keypad_backlight bus w s k g d
  call (red on d) w s = set_led_red bus w s on d
  call off w s = all_off bus w s

  -- What a call that returns true leaves: the cache shows the chip's registers, the driver is online
  -- and the reserved bit of the enable register is set.
  abbrev Shown : Bool × World × Driver → Type 0
  Shown (ok, w, s) = ok ≡ true → InSync w s × (s.online ≡ true) × (bit s.gp 5 ≡ 1)

  -- the last write of a call
  finish-InSync : (w : World) (s : Driver) → Duties w s → Shown (finish bus w s)
  finish-InSync w s v e =
      let v' = bit_or s.gp gp_reserved in
      rw e (
        record {
          gp = write-sets w reg_gp v' e;
          a = write-keeps w reg_gp v' reg_bank_a (omega arith) ∙ v.a;
          b = write-keeps w reg_gp v' reg_bank_b (omega arith) ∙ v.b;
          c = write-keeps w reg_gp v' reg_bank_c (omega arith) ∙ v.c;
        },
        refl,
        omega (arith, bit-bit_or 5 s.gp gp_reserved, bit-le-one 5 s.gp, reserved_bit),
      )
    where
      reserved_bit : bit gp_reserved 5 ≡ 1
      reserved_bit = unfold bit in refl

  -- Once the duty register has the new value, what remains is the last write.
  duty-InSync :
      (w : World) (s next : Driver) (r d : ℕ)
      → ((reg_write w r d).0 ≡ true → Duties (reg_write w r d).1 next)
      → Shown (set_duty bus w s r d next)
  duty-InSync w s next r d v = elim (Bool-cases (reg_write w r d).0) [
    | inl t ↦ rw t (finish-InSync (reg_write w r d).1 next (v t))
    | inr f ↦ rw f (λ e. absurd (ground (arith, e)))
  ]

  guarded :
      (free : Bool) (o : Bool × World × Driver) (w : World) (s : Driver)
      → Shown o
      → Shown (if free then o else (false, w, s))
  guarded true o w s h = h
  guarded false o w s h = λ e. absurd (ground (arith, e))

  refused :
      (done : Bool) (w : World) (s : Driver) (o : Bool × World × Driver)
      → (done ≡ true → Shown o)
      → Shown (if not done then (false, w, s) else o)
  refused true w s o h = h refl
  refused false w s o h = λ e. absurd (ground (arith, e))

  init-Shown :
      (w : World) (s : Driver) (duty : ℕ)
      → s.bank_b_duty ≡ 0
      → s.bank_c_duty ≡ 0
      → Shown (init bus w s duty)
  unfolding init
  init-Shown w s duty hb hc = refused (acquire w) w s _ (λ _.
      refused (reg_write w reg_bank_a d).0 wa (record s { online = false }) _
        (λ ta.
          refused (reg_write wa reg_bank_b 0).0 wb (record s' { online = false }) _
            (λ tb.
              refused (reg_write wb reg_bank_c 0).0 wc (record s' { online = false }) _
                (λ tc. finish-InSync wc next (record {
                  a =
                      write-keeps wb reg_bank_c 0 reg_bank_a (omega arith)
                      ∙ write-keeps wa reg_bank_b 0 reg_bank_a (omega arith)
                      ∙ write-sets w reg_bank_a d ta;
                  b =
                      write-keeps wb reg_bank_c 0 reg_bank_b (omega arith)
                      ∙ write-sets wa reg_bank_b 0 tb
                      ∙ sym hb;
                  c = write-sets wb reg_bank_c 0 tc ∙ sym hc;
                })))))
    where
      d : ℕ
      d = clamp_ab duty

      wa : World
      wa = (reg_write w reg_bank_a d).1

      wb : World
      wb = (reg_write wa reg_bank_b 0).1

      wc : World
      wc = (reg_write wb reg_bank_c 0).1

      s' : Driver
      s' = record s { bank_a_duty = d }

      next : Driver
      next = record s' { gp = bit_or gp_reserved (if ltb 0 d then gp_ena else 0) }

  -- What a call asks of the driver before it: `lm27965_init` that the duties of banks B and C are
  -- cached as 0, any other call that the cache shows the chip's registers.
  abbrev pub Before : Call → World → Driver → Type 0
  Before (start d) w s = (s.bank_b_duty ≡ 0) × (s.bank_c_duty ≡ 0)
  Before (tft d) w s = InSync w s
  Before (keypad k g d) w s = InSync w s
  Before (red on d) w s = InSync w s
  Before off w s = InSync w s

  call-Shown : (o : Call) (w : World) (s : Driver) → Before o w s → Shown (call o w s)
  unfolding call set_tft_backlight set_keypad_backlight set_led_red all_off
  call-Shown (start d) w s (hb, hc) = init-Shown w s d hb hc
  call-Shown (tft d) w s v = guarded (acquire w) _ w s (
      duty-InSync w s (with_tft s (clamp_ab d)) reg_bank_a (clamp_ab d) (λ t. record {
        a = write-sets w reg_bank_a (clamp_ab d) t;
        b = write-keeps w reg_bank_a (clamp_ab d) reg_bank_b (omega arith) ∙ v.b;
        c = write-keeps w reg_bank_a (clamp_ab d) reg_bank_c (omega arith) ∙ v.c;
      }))
  call-Shown (keypad k g d) w s v = guarded (acquire w) _ w s (
      duty-InSync w s (with_keypad s k g (clamp_ab d)) reg_bank_b (clamp_ab d) (λ t. record {
        a = write-keeps w reg_bank_b (clamp_ab d) reg_bank_a (omega arith) ∙ v.a;
        b = write-sets w reg_bank_b (clamp_ab d) t;
        c = write-keeps w reg_bank_b (clamp_ab d) reg_bank_c (omega arith) ∙ v.c;
      }))
  call-Shown (red on d) w s v = guarded (acquire w) _ w s (
      duty-InSync w s (with_red s on (clamp_c d)) reg_bank_c (clamp_c d) (λ t. record {
        a = write-keeps w reg_bank_c (clamp_c d) reg_bank_a (omega arith) ∙ v.a;
        b = write-keeps w reg_bank_c (clamp_c d) reg_bank_b (omega arith) ∙ v.b;
        c = write-sets w reg_bank_c (clamp_c d) t;
      }))
  call-Shown off w s v =
      guarded (acquire w) _ w s
        (finish-InSync w (record s { gp = gp_reserved }) (record { a = v.a; b = v.b; c = v.c }))

  -- A call of the driver that returns true leaves the cache showing the chip's registers, the driver
  -- online and the reserved bit of the enable register set: `lm27965_init` if the duties of banks B
  -- and C were cached as 0 before it, as at power-on, and any other call if the cache showed the
  -- chip's registers before it.
  pub call-InSync :
      (o : Call) (w : World) (s : Driver)
      → Before o w s
      → (call o w s).0 ≡ true
      → let (ok, w', s') = call o w s in InSync w' s' × (s'.online ≡ true) × (bit s'.gp 5 ≡ 1)
  call-InSync o w s v e = call-Shown o w s v e

  -- A call that holds the bus sets the driver online or offline by its result. A call that does not
  -- get the bus returns false and changes nothing.
  pub call-offline :
      (o : Call) (w : World) (s : Driver)
      → let (ok, w', s') = call o w s in
        (s'.online ≡ (if acquire w then ok else s.online))
        × (((ok ≡ false) × (w' ≡ w) × (s' ≡ s)) ⊎ (acquire w ≡ true))
  unfolding call init set_tft_backlight set_keypad_backlight set_led_red all_off
  call-offline (start d) w s = ground arith
  call-offline (tft d) w s = ground arith
  call-offline (keypad k g d) w s = ground arith
  call-offline (red on d) w s = ground arith
  call-offline off w s = ground arith
