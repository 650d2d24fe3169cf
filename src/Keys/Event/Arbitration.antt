-- ===== src/Keys/Event/Arbitration.antt =====
-- The hardware-pressed bitmap, and who wins a key.
use mokya_lora.Prelude.{
  ℕ, ◌<◌, ◌≡◌, ◌↔◌, ◌^◌, ◌-◌, Bool, true, false, ◌&&◌, arith, ◌==◌, if◌then◌else◌, bit, bit-bit_and,
  bit-bit_or, bit-pow_self, bit-pow_ne, bit-complement_self, bit-complement_ne, bit_and-pow-eq-zero,
  bit-le-one, zero-bit, add32, bit_and, bit_or,
}
use native.Mathlib.Decide.{ℕ_discrete}
use mokya_lora.Keys.Code.{keycode_valid}
use mokya_lora.Keys.Queue.{QueueApi}
use mokya_lora.Keys.Event.{
  Event, State, busy, hw_pressed_set, hw_pressed_test, push_hw_flags, push_inject_flags,
}

test-bit : (mask k : ℕ) → hw_pressed_test mask k ≡ (bit mask k == 1)
unfolding hw_pressed_test
test-bit mask k = ground (arith, bit_and-pow-eq-zero k mask, bit-le-one k mask)

pub test-zero : (k : ℕ) → hw_pressed_test 0 k ≡ false
test-zero k = ground (arith, test-bit 0 k, zero-bit k)

-- Setting one key's bit is read back at that key and at no other.
pub test-set :
    (mask k j : ℕ) (pressed : Bool)
    → k < 64
    → j < 64
    → hw_pressed_test (hw_pressed_set mask k pressed) j
      ≡ (if j == k then pressed else hw_pressed_test mask j)
unfolding hw_pressed_set
test-set mask k j true hk hj = elim (ℕ_discrete j k) [
  | yes e ↦ ground (
    arith,
    e,
    test-bit (bit_or mask (2 ^ k)) j,
    bit-bit_or j mask (2 ^ k),
    bit-pow_self k,
    bit-le-one j mask,
  )
  | no ne ↦ ground (
    arith,
    test-bit (bit_or mask (2 ^ k)) j,
    test-bit mask j,
    bit-bit_or j mask (2 ^ k),
    bit-pow_ne j k ne,
    bit-le-one j mask,
  )
]
test-set mask k j false hk hj = elim (ℕ_discrete j k) [
  | yes e ↦ ground (
    arith,
    e,
    test-bit (bit_and mask (2 ^ 64 - 1 - 2 ^ k)) j,
    bit-bit_and j mask (2 ^ 64 - 1 - 2 ^ k),
    bit-complement_self 64 k hk,
    bit-le-one j mask,
  )
  | no ne ↦ ground (
    arith,
    test-bit (bit_and mask (2 ^ 64 - 1 - 2 ^ k)) j,
    test-bit mask j,
    bit-bit_and j mask (2 ^ 64 - 1 - 2 ^ k),
    bit-complement_ne 64 j k hj hk ne,
    bit-le-one j mask,
  )
]

module _ (api : QueueApi Event) where
  open api use {Queue}

  -- A hardware event that is in range marks its key, whatever becomes of the event itself, and
  -- touches no other key's mark; one out of range changes nothing.
  pub push_hw_flags-marks :
      (s : State Queue) (k j : ℕ) (pressed : Bool) (flags : ℕ)
      → j < 64
      → let s' = (push_hw_flags api s k pressed flags).1 in
        hw_pressed_test s'.hw_pressed j
        ≡ (if keycode_valid k && j == k then pressed else hw_pressed_test s.hw_pressed j)
  unfolding push_hw_flags
  push_hw_flags-marks s k j pressed flags hj = ground (arith, test-set s.hw_pressed k j pressed)

  -- An injected event loses exactly when it is a press, in range, of a key that the hardware holds
  -- down. It then changes nothing but the count of rejections.
  pub push_inject_flags-busy :
      (s : State Queue) (k : ℕ) (pressed : Bool) (flags : ℕ)
      → let (r, s') = push_inject_flags api s k pressed flags in
        ((r ≡ busy)
          ↔ ((keycode_valid k ≡ true) × (pressed ≡ true) × (hw_pressed_test s.hw_pressed k ≡ true)))
        × (r ≡ busy → s' ≡ record s { rejected = add32 s.rejected 1 })
  unfolding push_inject_flags
  push_inject_flags-busy s k pressed flags = ground arith
