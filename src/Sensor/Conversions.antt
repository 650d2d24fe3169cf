-- ===== src/Sensor/Conversions.antt =====
-- The conversions of the sensors' words.
use mokya_lora.Prelude.{
  le-or-gt, ℕ, ◌+◌, ◌≤◌, ◌<◌, ◌≡◌, refl, ◌⊎◌, inl, inr, List, arith, AllBytes, get_or-IsByte,
}
use mokya_lora.Prelude.Signed.{
  pos_part, neg_part, as_int16, cast_int16, quot, times, offset, IsTruncated,
}
use mokya_lora.Sensor.{le16}
use mokya_lora.Sensor.Lis2mdl as Mag
use mokya_lora.Sensor.Lsm6dsv16x as Imu

le16-bound : (b : List ℕ) (k : ℕ) → AllBytes b → le16 b k < 0x10000
le16-bound b k h = omega (arith, get_or-IsByte b k h, get_or-IsByte b (k + 1) h)

gyro :
    (w : ℕ)
    → w < 0x10000
    → IsTruncated 10000 (times 875 (as_int16 w)) (cast_int16 (quot 10000 (times 875 (as_int16 w))))
gyro w h = record {
  pos_below = ground arith;
  pos_near = ground arith;
  neg_below = ground arith;
  neg_near = ground arith;
}

accel :
    (w : ℕ)
    → w < 0x10000
    → IsTruncated 1000 (times 61 (as_int16 w)) (cast_int16 (quot 1000 (times 61 (as_int16 w))))
accel w h = record {
  pos_below = ground arith;
  pos_near = ground arith;
  neg_below = ground arith;
  neg_near = ground arith;
}

imu_temp :
    (w : ℕ)
    → w < 0x10000
    → cast_int16 (offset 250 (quot 128 (times 5 (as_int16 w))))
      ≡ offset 250 (quot 128 (times 5 (as_int16 w)))
imu_temp w h = ground arith

-- The axis holds its signed word and the word times `num / scale`, rounded towards 0.
abbrev pub IsScaled : ℕ → ℕ → ℕ → Imu.Axis → Type 0
IsScaled num scale w a = (a.raw ≡ as_int16 w) × IsTruncated scale (times num (as_int16 w)) a.value

-- From a burst of bytes, every axis of the gyroscope is its signed word at 87.5 / 1000 tenths of a
-- degree per second and every axis of the accelerometer its word at 61 / 1000 mg, rounded towards 0,
-- and the temperature is 25 degrees and the word at 5 / 128 tenths of a degree: the 16 bits of the
-- results hold every value.
pub decode_burst_lem :
    (b : List ℕ)
    → AllBytes b
    → let s = Imu.decode_burst b in
      IsScaled 875 10000 (le16 b 2) s.gyro_x
      × IsScaled 875 10000 (le16 b 4) s.gyro_y
      × IsScaled 875 10000 (le16 b 6) s.gyro_z
      × IsScaled 61 1000 (le16 b 8) s.accel_x
      × IsScaled 61 1000 (le16 b 10) s.accel_y
      × IsScaled 61 1000 (le16 b 12) s.accel_z
      × (s.temperature_cx10 ≡ offset 250 (quot 128 (times 5 (as_int16 (le16 b 0)))))
unfolding Imu.decode_gyro Imu.decode_accel Imu.decode_temp
decode_burst_lem b h = (
  (refl, gyro (le16 b 2) (le16-bound b 2 h)),
  (refl, gyro (le16 b 4) (le16-bound b 4 h)),
  (refl, gyro (le16 b 6) (le16-bound b 6 h)),
  (refl, accel (le16 b 8) (le16-bound b 8 h)),
  (refl, accel (le16 b 10) (le16-bound b 10 h)),
  (refl, accel (le16 b 12) (le16-bound b 12 h)),
  imu_temp (le16 b 0) (le16-bound b 0 h),
)

mag_axis :
    (w : ℕ)
    → w < 0x10000
    → pos_part (as_int16 w) ≤ 21845
    → neg_part (as_int16 w) ≤ 21845
    → IsTruncated 2 (times 3 (as_int16 w)) (cast_int16 (quot 2 (times 3 (as_int16 w))))
mag_axis w h k l = record {
  pos_below = ground arith;
  pos_near = ground arith;
  neg_below = ground arith;
  neg_near = ground arith;
}

mag_wraps :
    (w : ℕ)
    → w < 0x10000
    → 21845 < pos_part (as_int16 w)
    → 0 < neg_part (cast_int16 (quot 2 (times 3 (as_int16 w))))
mag_wraps w h k = ground arith

mag_wraps_neg :
    (w : ℕ)
    → w < 0x10000
    → 21845 < neg_part (as_int16 w)
    → 0 < pos_part (cast_int16 (quot 2 (times 3 (as_int16 w))))
mag_wraps_neg w h k = ground arith

-- From a block of bytes, an axis of the magnetometer is its signed word at 3 / 2, rounded towards 0,
-- when the word is at most 21845 in size; a larger word changes its sign, since the result has 16 bits.
pub decode_mag_lem :
    (b : List ℕ) (k : ℕ)
    → AllBytes b
    → let a = Mag.decode_mag b k in
      let raw = as_int16 (le16 b k) in
      (a.raw ≡ raw)
      × (((pos_part raw ≤ 21845) × (neg_part raw ≤ 21845) × IsTruncated 2 (times 3 raw) a.ut_x10)
          ⊎ ((21845 < pos_part raw) × (0 < neg_part a.ut_x10))
          ⊎ ((21845 < neg_part raw) × (0 < pos_part a.ut_x10)))
unfolding Mag.decode_mag
decode_mag_lem b k h =
    let w = le16 b k in
    let l = le16-bound b k h in
    (
      refl,
      elim (le-or-gt (pos_part (as_int16 w)) 21845) [
        | inr big ↦ inr (inl (big, mag_wraps w l big))
        | inl small ↦ elim (le-or-gt (neg_part (as_int16 w)) 21845) [
          | inr big ↦ inr (inr (big, mag_wraps_neg w l big))
          | inl less ↦ inl (small, less, mag_axis w l small less)
        ]
      ],
    )
