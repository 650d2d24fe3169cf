-- ===== src/Sensor/Tests.antt =====
-- The sensors on a bus that acknowledges every transfer and whose chips never end a reset.
use mokya_lora.Prelude.{
  ℕ, ◌≤◌, ◌<◌, ◌≡◌, ◌⊎◌, refl, true, false, some, List, [], ◌∷◌, ◌==◌, if◌then◌else◌, arith, length,
}
use mokya_lora.Prelude.Signed.{pos, IsTruncated, pos_part, neg_part}
use mokya_lora.Bus.{RegBus}
use mokya_lora.Bus.Link.{Link, Tracks}
use mokya_lora.Sensor.{Driver, conclude_poll}
use mokya_lora.Sensor.Lps22hh as Baro
use mokya_lora.Sensor.Lis2mdl as Mag
use mokya_lora.Sensor.Lsm6dsv16x as Imu
use mokya_lora.Sensor.Conversions.{decode_mag_lem}
use mokya_lora.Sensor.Schedule.{Sensors, ticks, tick_once, ticks-Tracks}

false-true : false ≡ true → {A : Type 0} → A
false-true e = ground arith

-- The chip answers `id` at the register 0x0F and `other` at all others; none is steady.
abbrev const_bus : ℕ → ℕ → RegBus
const_bus id other = record {
  World = Unit {0};
  register = λ w r. 0;
  steady = λ r. false;
  holds_bits = λ r. 0;
  acquire = λ w. true;
  reading = λ w r n. (some ((if r == 0x0F then id else other) ∷ []), w);
  writing = λ w r l. (true, w);
  read-register = λ w r b e h. false-true e;
  read-keeps = λ w r n q e. refl;
  write-sets = λ w r q i v l e h d g. false-true h;
  write-keeps = λ w r q l h k. refl;
}

abbrev stay : Unit {0} → Unit {0}
stay w = w

abbrev new_link : Link
new_link = record { online = true; fail_count = 0 }

abbrev imu_new : Driver Imu.Sample
imu_new = record { link = new_link; sample = Imu.decode_burst [] }

abbrev baro_new : Driver Baro.Sample
baro_new = record { link = new_link; sample = Baro.decode_sample [] }

abbrev mag_new : Driver Mag.Sample
mag_new = record { link = new_link; sample = Mag.decode ([], []) }

abbrev burst : List ℕ
burst =
    0x80 ∷ 0x00 ∷ 0xFF ∷ 0x7F ∷ 0x00 ∷ 0x80 ∷ 0x01 ∷ 0x00 ∷ 0x12 ∷ 0x40 ∷ 0xFF ∷ 0xFF ∷ 0x00 ∷ 0x80
    ∷ []

-- an axis of 22000 and one of 1000
abbrev field : List ℕ
field = 0xF0 ∷ 0x55 ∷ 0xE8 ∷ 0x03 ∷ 0x00 ∷ 0x00 ∷ []

decode_mag_lem_example :
    let a = Mag.decode_mag field 0 in
    (a.raw ≡ pos 22000)
    × (((22000 ≤ 21845) × (0 ≤ 21845) × IsTruncated 2 (pos 66000) a.ut_x10)
        ⊎ ((21845 < 22000) × (0 < neg_part a.ut_x10))
        ⊎ ((21845 < 0) × (0 < pos_part a.ut_x10)))
decode_mag_lem_example = decode_mag_lem field 0 (ground arith)

abbrev sensors : Sensors
sensors = record { baro = baro_new; mag = mag_new; imu = imu_new }

ticks-Tracks_example :
    let s' = (ticks (const_bus 0 4) stay stay 2 tt sensors).1 in
    Tracks 5 new_link s'.baro.link (true ∷ [])
    × Tracks 5 new_link s'.mag.link (true ∷ true ∷ [])
    × Tracks 5 new_link s'.imu.link (true ∷ true ∷ [])
    × (length (true ∷ []) ≡ 1)
    × (length (true ∷ true ∷ []) ≡ 2)
    × (length (true ∷ true ∷ []) ≡ 2)
unfolding ticks tick_once Baro.poll Mag.poll Imu.poll conclude_poll
ticks-Tracks_example =
    ticks-Tracks (const_bus 0 4) stay stay 2 tt sensors (omega arith) (λ v. refl)
      (omega arith, refl) (omega arith, refl) (omega arith, refl)
