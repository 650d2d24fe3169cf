-- ===== src/Sensor/Schedule.antt =====
-- firmware/core1/src/sensor/sensor_task.c: the ticks of the sensors' task.
use mokya_lora.Prelude.{
  ℕ, zero, suc, ◌+◌, ◌/◌, ◌%◌, ◌≤◌, ◌<◌, ◌≡◌, refl, ap, ◌∙◌, Bool, true, false, Option, none, some,
  List, [], ◌∷◌, ◌==◌, if◌then◌else◌, length, arith,
}
use mokya_lora.Bus.{RegBus}
use mokya_lora.Bus.Link.{Link, note, history, Tracks, IsLink, tracks}
use mokya_lora.Sensor.{Driver, conclude_poll}
use mokya_lora.Sensor.Lps22hh as Baro
use mokya_lora.Sensor.Lis2mdl as Mag
use mokya_lora.Sensor.Lsm6dsv16x as Imu

pub record Sensors : Type 0 where
  pub baro : Driver Baro.Sample
  pub mag : Driver Mag.Sample
  pub imu : Driver Imu.Sample

-- `elapse` is what a delay of the drivers does to the world, `rest` what the rest of a tick does.
module _ (bus : RegBus) (elapse rest : bus.World → bus.World) where
  open bus use {World, acquire}

  -- a poll if it is due at this tick
  abbrev pub due :
      {A : Type 0} → ℕ → ℕ → (World → A → Bool × World × A) → World → A → Bool × World × A
  due period tick poll w s = if tick % period == 0 then poll w s else (false, w, s)

  abbrev pub baro_poll : ℕ → World → Sensors → Bool × World × Driver Baro.Sample
  baro_poll tick w s = due 10 tick (Baro.poll bus elapse) w s.baro

  abbrev pub mag_poll : ℕ → World → Sensors → Bool × World × Driver Mag.Sample
  mag_poll tick w s = due 1 tick (Mag.poll bus elapse) (baro_poll tick w s).1 s.mag

  abbrev pub imu_poll : ℕ → World → Sensors → Bool × World × Driver Imu.Sample
  imu_poll tick w s = due 1 tick (Imu.poll bus elapse) (mag_poll tick w s).1 s.imu

  -- one round of the endless loop of `sensor_task`
  unfoldable pub tick_once : ℕ → World → Sensors → World × Sensors
  tick_once tick w s = (
    rest (imu_poll tick w s).1,
    record {
      baro = (baro_poll tick w s).2;
      mag = (mag_poll tick w s).2;
      imu = (imu_poll tick w s).2;
    },
  )

  -- its first rounds, with the counter of 32 bits
  unfoldable pub ticks : ℕ → World → Sensors → World × Sensors
  ticks zero w s = (w, s)
  ticks (suc n) w s = let (w', s') = ticks n w s in tick_once (n % 0x100000000) w' s'

  -- the results of each sensor's polls in the first rounds, the newest first
  abbrev pub baro_results : ℕ → World → Sensors → List Bool
  baro_results zero w s = []
  baro_results (suc n) w s =
      let (w', s') = ticks n w s in
      let before = baro_results n w s in
      let tick = n % 0x100000000 in
      if tick % 10 == 0 then (baro_poll tick w' s').0 ∷ before else before

  abbrev pub mag_results : ℕ → World → Sensors → List Bool
  mag_results zero w s = []
  mag_results (suc n) w s =
      let (w', s') = ticks n w s in (mag_poll (n % 0x100000000) w' s').0 ∷ mag_results n w s

  abbrev pub imu_results : ℕ → World → Sensors → List Bool
  imu_results zero w s = []
  imu_results (suc n) w s =
      let (w', s') = ticks n w s in (imu_poll (n % 0x100000000) w' s').0 ∷ imu_results n w s

  -- A poll notes its result in the link, and only that.
  abbrev Notes :
      {S : Type 0} → (World → Driver S → Bool × World × Driver S) → World → Driver S → Type 0
  Notes poll w s = (poll w s).2.link ≡ note 5 (poll w s).0 s.link

  conclude-Notes :
      {S B : Type 0} (decode : B → S) (o : Option B × World) (s : Driver S)
      → (conclude_poll decode o s).2.link ≡ note 5 (conclude_poll decode o s).0 s.link
  unfolding conclude_poll note
  conclude-Notes decode (none, w) s = refl
  conclude-Notes decode (some b, w) s = refl

  if-Notes :
      {S : Type 0} (b : Bool) (t : Bool × World × Driver S) (w : World) (s : Driver S)
      → b ≡ true
      → t.2.link ≡ note 5 t.0 s.link
      → let r : Bool × World × Driver S = if b then t else (false, w, s) in
        r.2.link ≡ note 5 r.0 s.link
  if-Notes true t w s h e = e
  if-Notes false t w s h e = ground arith

  baro-Notes :
      (w : World) (s : Driver Baro.Sample) → acquire w ≡ true → Notes (Baro.poll bus elapse) w s
  unfolding Baro.poll
  baro-Notes w s h = if-Notes (acquire w) _ w s h (conclude-Notes Baro.decode_sample _ s)

  mag-Notes :
      (w : World) (s : Driver Mag.Sample) → acquire w ≡ true → Notes (Mag.poll bus elapse) w s
  unfolding Mag.poll
  mag-Notes w s h = if-Notes (acquire w) _ w s h (conclude-Notes Mag.decode _ s)

  imu-Notes :
      (w : World) (s : Driver Imu.Sample) → acquire w ≡ true → Notes (Imu.poll bus elapse) w s
  unfolding Imu.poll
  imu-Notes w s h = if-Notes (acquire w) _ w s h (conclude-Notes Imu.decode_burst _ s)

  due-link :
      {S : Type 0} (period tick : ℕ) (poll : World → Driver S → Bool × World × Driver S) (w : World)
      (s : Driver S) (old : Link) (h : List Bool)
      → Notes poll w s
      → s.link ≡ history 5 h old
      → (due period tick poll w s).2.link
        ≡ history 5 (if tick % period == 0 then (due period tick poll w s).0 ∷ h else h) old
  unfolding history
  due-link {S = S} period tick poll w s old h n e = go (tick % period == 0)
    where
      go :
          (b : Bool)
          → let r : Bool × World × Driver S = if b then poll w s else (false, w, s) in
            r.2.link ≡ history 5 (if b then r.0 ∷ h else h) old
      go true = n ∙ ap (note 5 (poll w s).0) e
      go false = e

  each_tick : (tick : ℕ) (a b : List Bool) → (if tick % 1 == 0 then a else b) ≡ a
  each_tick tick a b =
      let due_now : (tick % 1 == 0) ≡ true = ground arith in ap (λ t. if t then a else b) due_now

  -- The links of the three sensors are those that the results of their polls account for.
  abbrev Accounted : ℕ → World → Sensors → Type 0
  Accounted n w s =
      let (w', s') = ticks n w s in
      (s'.baro.link ≡ history 5 (baro_results n w s) s.baro.link)
      × (s'.mag.link ≡ history 5 (mag_results n w s) s.mag.link)
      × (s'.imu.link ≡ history 5 (imu_results n w s) s.imu.link)

  ticks-Accounted :
      (n : ℕ) (w : World) (s : Sensors) → ((v : World) → acquire v ≡ true) → Accounted n w s
  unfolding ticks tick_once history
  ticks-Accounted zero w s h = (refl, refl, refl)
  ticks-Accounted (suc n) w s h =
      let (w', s') = ticks n w s in
      let t = n % 0x100000000 in
      let (b, m, i) = ticks-Accounted n w s h in
      let w1 = (baro_poll t w' s').1 in
      let w2 = (mag_poll t w' s').1 in
      (
        due-link 10 t (Baro.poll bus elapse) w' s'.baro s.baro.link (baro_results n w s)
            (baro-Notes w' s'.baro (h w')) b,
        due-link 1 t (Mag.poll bus elapse) w1 s'.mag s.mag.link (mag_results n w s)
              (mag-Notes w1 s'.mag (h w1)) m
            ∙ ap (λ r. history 5 r s.mag.link) (each_tick t _ _),
        due-link 1 t (Imu.poll bus elapse) w2 s'.imu s.imu.link (imu_results n w s)
              (imu-Notes w2 s'.imu (h w2)) i
            ∙ ap (λ r. history 5 r s.imu.link) (each_tick t _ _),
      )

  length-if :
      (b : Bool) (x : Bool) (h : List Bool)
      → length (if b then x ∷ h else h) ≡ (if b then 1 else 0) + length h
  length-if true x h = omega arith
  length-if false x h = omega arith

  next_due :
      (n : ℕ)
      → n < 0x100000000
      → (if n % 0x100000000 % 10 == 0 then 1 else 0) + (n + 9) / 10 ≡ (suc n + 9) / 10
  next_due n h = ground arith

  -- how often each sensor was polled
  results-length :
      (n : ℕ) (w : World) (s : Sensors)
      → n ≤ 0x100000000
      → (length (baro_results n w s) ≡ (n + 9) / 10)
        × (length (mag_results n w s) ≡ n)
        × (length (imu_results n w s) ≡ n)
  results-length zero w s h = (refl, refl, refl)
  results-length (suc n) w s h =
      let (b, m, i) = results-length n w s (omega arith) in
      (
        length-if (n % 0x100000000 % 10 == 0) _ (baro_results n w s)
            ∙ ap (λ k. (if n % 0x100000000 % 10 == 0 then 1 else 0) + k) b
            ∙ next_due n h,
        ap suc m,
        ap suc i,
      )

  -- When the bus can always be had and each sensor is online exactly with fewer than five failures, then
  -- after `n` rounds, up to the wrap of the counter, the barometer was polled in every tenth round, the
  -- first included, and the other two in every round; each failure count is that of the sensor's polls
  -- failed in a row, up to its greatest value, and each is online exactly with fewer than five of them.
  pub ticks-Tracks :
      (n : ℕ) (w : World) (s : Sensors)
      → n ≤ 0x100000000
      → ((v : World) → acquire v ≡ true)
      → IsLink 5 s.baro.link
      → IsLink 5 s.mag.link
      → IsLink 5 s.imu.link
      → let s' = (ticks n w s).1 in
        Tracks 5 s.baro.link s'.baro.link (baro_results n w s)
        × Tracks 5 s.mag.link s'.mag.link (mag_results n w s)
        × Tracks 5 s.imu.link s'.imu.link (imu_results n w s)
        × (length (baro_results n w s) ≡ (n + 9) / 10)
        × (length (mag_results n w s) ≡ n)
        × (length (imu_results n w s) ≡ n)
  ticks-Tracks n w s h a b m i =
      let (baro, mag, imu) = ticks-Accounted n w s a in
      let (often, each, every) = results-length n w s h in
      (
        tracks 5 s.baro.link _ (baro_results n w s) (omega arith) (omega arith) b baro,
        tracks 5 s.mag.link _ (mag_results n w s) (omega arith) (omega arith) m mag,
        tracks 5 s.imu.link _ (imu_results n w s) (omega arith) (omega arith) i imu,
        often,
        each,
        every,
      )
