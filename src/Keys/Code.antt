-- ===== src/Keys/Code.antt =====
-- The keycodes of firmware/mie/include/mie/keycode.h that the keypad sources name.
use mokya_lora.Prelude.{ℕ, Bool, ltb, leb, ◌&&◌}

-- `MOKYA_KEY_NONE`
abbrev pub none_key : ℕ
none_key = 0

-- `MOKYA_KEY_MODE`
abbrev pub mode_key : ℕ
mode_key = 0x19

-- `MOKYA_KEY_FUNC`
abbrev pub func_key : ℕ
func_key = 0x06

-- `MOKYA_KEY_LIMIT`
abbrev pub key_limit : ℕ
key_limit = 0x40

-- `MOKYA_KEY_FLAG_LONG_PRESS`
abbrev pub long_press_flag : ℕ
long_press_flag = 1

-- `keycode_valid`
unfoldable pub keycode_valid : ℕ → Bool
keycode_valid k = leb 1 k && ltb k key_limit
