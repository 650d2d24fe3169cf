-- ===== src/Sensor/Reset.antt =====
-- The waits for the sensors' resets, which end either way.
use mathlib.Core.Option.{none-ne-some, some-injective}
use mokya_lora.Prelude.{
  ℕ, zero, suc, ◌%◌, ◌/◌, ◌≡◌, refl, sym, ap, subst, Bool, true, false, Option, none, some, ◌==◌,
  if◌then◌else◌, arith, ==_iff, add32,
}
use mokya_lora.Bus.{RegBus, Transfer, pure, fail, read_u8, write_u8, after, ◌>>◌}
use mokya_lora.Sensor.{Driver, conclude_init}
use mokya_lora.Sensor.Lps22hh as Baro
use mokya_lora.Sensor.Lsm6dsv16x as Imu

module _ (bus : RegBus) (elapse : bus.World → bus.World) where
  open bus use {World, acquire}

  -- A sequence whose rest fails, fails.
  after-none :
      {A B : Type 0} (f : A → World → Option B × World) (o : Option A × World)
      → ((a : A) (w : World) → (f a w).0 ≡ none)
      → (after f o).0 ≡ none
  after-none f (none, w) h = refl
  after-none f (some a, w) h = h a w

  heard-odd :
      (more : ℕ → World → ℕ × World) (c : ℕ) (o : Option ℕ × World)
      → ((d : ℕ) (w : World) → d % 2 ≡ 1 → (more d w).0 % 2 ≡ 1)
      → ((v : ℕ) → o.0 ≡ some v → v % 2 ≡ 1)
      → c % 2 ≡ 1
      → (Imu.heard bus elapse more c o).0 % 2 ≡ 1
  heard-odd more c (none, w) m h odd = m c w odd
  heard-odd more c (some v, w) m h odd =
      let set : (v % 2 == 1) ≡ true = (==_iff (v % 2) 1).1 (h v refl) in
      subst (λ t. (if t then more v w else (v, w)).0 % 2 ≡ 1) (sym set) (m v w (h v refl))

  wait_reset-odd :
      (n c : ℕ) (w : World)
      → ((v : ℕ) (u : World) → (read_u8 bus Imu.reg_ctrl3 u).0 ≡ some v → v % 2 ≡ 1)
      → c % 2 ≡ 1
      → (Imu.wait_reset bus elapse n c w).0 % 2 ≡ 1
  unfolding Imu.wait_reset
  wait_reset-odd zero c w h odd = odd
  wait_reset-odd (suc n) c w h odd =
      heard-odd (Imu.wait_reset bus elapse n) c (read_u8 bus Imu.reg_ctrl3 (elapse w))
        (λ d u o. wait_reset-odd n d u h o) (λ v e. h v (elapse w) e) odd

  reset-none :
      (w : World)
      → ((v : ℕ) (u : World) → (read_u8 bus Imu.reg_ctrl3 u).0 ≡ some v → v % 2 ≡ 1)
      → (Imu.reset bus elapse w).0 ≡ none
  reset-none w h =
      let t = Imu.wait_reset bus elapse 50 1 w in
      let set : (t.0 % 2 == 1) ≡ true = (==_iff (t.0 % 2) 1).1 (wait_reset-odd 50 1 w h refl) in
      ap (λ b. let r : Option (Unit {0}) × World = if b then (none, t.1) else (some tt, t.1) in r.0)
        set

  after-fails :
      {A B : Type 0} (f : A → World → Option B × World) (o : Option A × World)
      → o.0 ≡ none
      → (after f o).0 ≡ none
  after-fails f (none, w) e = refl
  after-fails f (some a, w) e = absurd (none-ne-some a (sym e))

  hw_init-none :
      (w : World)
      → ((v : ℕ) (u : World) → (read_u8 bus Imu.reg_ctrl3 u).0 ≡ some v → v % 2 ≡ 1)
      → (Imu.hw_init bus elapse w).0 ≡ none
  unfolding Imu.hw_init
  hw_init-none w h = after-none _ (read_u8 bus 0x0F w) (λ id u.
      after-none _ ((if id == 0x70 then pure bus tt else fail bus) u) (λ _ u'.
        after-none _ (write_u8 bus Imu.reg_ctrl3 0x01 u')
          (λ _ u''. after-fails _ (Imu.reset bus elapse u'') (reset-none u'' h))))

  concluded-none :
      {S : Type 0} (b : Bool) (o : Option (Unit {0}) × World) (w : World) (s : Driver S)
      → b ≡ true
      → o.0 ≡ none
      → let (up, _, s') : Bool × World × Driver S =
          if b then conclude_init o s else (false, w, s) in
        (up ≡ false) × (s'.link.online ≡ false) × (s'.link.fail_count ≡ add32 s.link.fail_count 1)
  unfolding conclude_init
  concluded-none false o w s h e = ground arith
  concluded-none true (none, v) w s h e = (refl, refl, refl)
  concluded-none true (some a, v) w s h e = absurd (none-ne-some a (sym e))

  -- When the bus can be had and no read of CTRL3 shows that the reset is over, the initialisation of the
  -- accelerometer and gyroscope comes to an end with `false`, the sensor offline and one more failure.
  pub init-stuck :
      (w : World) (s : Driver Imu.Sample)
      → acquire w ≡ true
      → ((v : ℕ) (u : World) → (read_u8 bus Imu.reg_ctrl3 u).0 ≡ some v → v % 2 ≡ 1)
      → let (up, _, s') = Imu.init bus elapse w s in
        (up ≡ false) × (s'.link.online ≡ false) × (s'.link.fail_count ≡ add32 s.link.fail_count 1)
  unfolding Imu.init
  init-stuck w s h k =
      concluded-none (acquire w) (Imu.hw_init bus elapse w) w s h (hw_init-none w k)

  -- what succeeds, goes on
  after-some_goes :
      {A B : Type 0} (f : A → World → Option B × World) (o : Option A × World) (a : A) (b : B)
      → o.0 ≡ some a
      → ((u : World) → (f a u).0 ≡ some b)
      → (after f o).0 ≡ some b
  after-some_goes f (none, w) a b e h = absurd (none-ne-some a e)
  after-some_goes f (some c, w) a b e h =
      subst (λ x. (f x w).0 ≡ some b) (sym (some-injective c a e)) (h w)

  module _ (reads : (r : ℕ) (u : World) → (v : ℕ) × ((read_u8 bus r u).0 ≡ some v))
      (writes : (r v : ℕ) (u : World) → (write_u8 bus r v u).0 ≡ some tt) where
    next_round :
        (b : Bool) (rest : Transfer bus (Unit {0})) (u : World)
        → ((x : World) → (rest x).0 ≡ some tt)
        → ((if b then pure bus tt else (Baro.pause bus elapse >> rest)) u).0 ≡ some tt
    next_round true rest u h = refl
    next_round false rest u h = h (elapse u)

    wait_reset-some : (n : ℕ) (w : World) → (Baro.wait_reset bus elapse n w).0 ≡ some tt
    unfolding Baro.wait_reset
    wait_reset-some zero w = refl
    wait_reset-some (suc n) w =
        let (v, e) = reads Baro.reg_ctrl_reg2 w in
        after-some_goes _ (read_u8 bus Baro.reg_ctrl_reg2 w) v tt e
          (λ u. next_round (v / 4 % 2 == 0) (Baro.wait_reset bus elapse n) u (wait_reset-some n))

    baro_init-some :
        (w : World) → (read_u8 bus 0x0F w).0 ≡ some 0xB3 → (Baro.hw_init bus elapse w).0 ≡ some tt
    unfolding Baro.hw_init
    baro_init-some w e = after-some_goes _ (read_u8 bus 0x0F w) 0xB3 tt e (λ u1.
        after-some_goes _ (write_u8 bus Baro.reg_ctrl_reg2 0x04 u1) tt tt (writes _ _ u1) (λ u2.
          after-some_goes _ (Baro.wait_reset bus elapse 50 u2) tt tt (wait_reset-some 50 u2) (λ u3.
            after-some_goes _ (write_u8 bus Baro.reg_ctrl_reg2 0x12 u3) tt tt (writes _ _ u3)
              (λ u4. writes Baro.reg_ctrl_reg1 0x1A u4))))

  concluded-some :
      {S : Type 0} (b : Bool) (o : Option (Unit {0}) × World) (w : World) (s : Driver S)
      → b ≡ true
      → o.0 ≡ some tt
      → let (up, _, s') : Bool × World × Driver S =
          if b then conclude_init o s else (false, w, s) in
        (up ≡ true) × (s'.link.online ≡ true)
  unfolding conclude_init
  concluded-some false o w s h e = ground arith
  concluded-some true (none, v) w s h e = absurd (none-ne-some tt e)
  concluded-some true (some a, v) w s h e = (refl, refl)

  -- When the bus can be had, every transfer succeeds and the chip says who it is, the initialisation of
  -- the barometer comes to an end with `true` and the sensor online, also if its reset never ends.
  pub init-ends :
      (w : World) (s : Driver Baro.Sample)
      → acquire w ≡ true
      → ((r : ℕ) (u : World) → (v : ℕ) × ((read_u8 bus r u).0 ≡ some v))
      → ((r v : ℕ) (u : World) → (write_u8 bus r v u).0 ≡ some tt)
      → (read_u8 bus 0x0F w).0 ≡ some 0xB3
      → let (up, _, s') = Baro.init bus elapse w s in (up ≡ true) × (s'.link.online ≡ true)
  unfolding Baro.init
  init-ends w s h reads writes e =
      concluded-some (acquire w) (Baro.hw_init bus elapse w) w s h (baro_init-some reads writes w e)
