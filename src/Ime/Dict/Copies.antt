-- ===== src/Ime/Dict/Copies.antt =====
-- What a copy and an invalidation do to an address of PSRAM.
use mokya_lora.Prelude.{ℕ, ◌+◌, ◌-◌, ◌≤◌, ◌<◌, ◌≡◌, false, arith, ◌⊎◌}
use mokya_lora.Ime.Dict.{Psram, copy, invalidate, copy_section, drop_lines}

-- an address that the copy does not reach
abbrev pub Outside : ℕ → ℕ → ℕ → Type 0
Outside a dst n = (a < dst) ⊎ (dst + n ≤ a)

module _ (blob : ℕ → ℕ) (dst src n a : ℕ) (m : Psram) where
  pub chip-copy_section_in :
      dst ≤ a → a < dst + n → (copy_section blob dst (src, n) m).chip a ≡ blob (src + (a - dst))
  unfolding copy
  chip-copy_section_in h k = ground arith

  pub chip-copy_section_out : Outside a dst n → (copy_section blob dst (src, n) m).chip a ≡ m.chip a
  unfolding copy
  chip-copy_section_out h = ground arith

pub chip-drop_lines : (dst n a : ℕ) (m : Psram) → (drop_lines dst n m).chip a ≡ m.chip a
unfolding invalidate
chip-drop_lines dst n a m = ground arith

pub stale-drop_lines_in :
    (dst n a : ℕ) (m : Psram) → dst ≤ a → a < dst + n → (drop_lines dst n m).stale a ≡ false
unfolding invalidate
stale-drop_lines_in dst n a m h k = ground arith

-- No invalidation makes an address stale.
pub stale-drop_lines-false :
    (dst n a : ℕ) (m : Psram) → m.stale a ≡ false → (drop_lines dst n m).stale a ≡ false
unfolding invalidate
stale-drop_lines-false dst n a m h = ground arith
