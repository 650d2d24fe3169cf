-- ===== src/Gnss/Nmea.antt =====
-- The text of a sentence: its checksum and its fields. Characters are their codes.
pub mod Fields
use mathlib.Core.Option
use mokya_lora.Prelude.{
  ℕ, zero, suc, ◌+◌, ◌-◌, ◌%◌, Bool, true, false, not, ◌||◌, Option, none, some, List, [], ◌∷◌,
  length, get_or, drop, ltb, ◌==◌, if◌then◌else◌, bit_xor,
}

abbrev pub dollar : ℕ
dollar = 0x24

abbrev pub star : ℕ
star = 0x2A

abbrev pub comma : ℕ
comma = 0x2C

-- The loop of `nmea_xor`.
unfoldable pub xor_from : ℕ → List ℕ → ℕ
xor_from c [] = c
xor_from c (b ∷ bs) = xor_from (bit_xor c b) bs

abbrev pub nmea_xor : List ℕ → ℕ
nmea_xor body = xor_from 0 body

-- `memchr`: what stands before the first `c`, and the rest from it on
abbrev pub prepend : ℕ → Option (List ℕ × List ℕ) → Option (List ℕ × List ℕ)
prepend x none = none
prepend x (some (before, rest)) = some (x ∷ before, rest)

unfoldable pub memchr : ℕ → List ℕ → Option (List ℕ × List ℕ)
memchr c [] = none
memchr c (x ∷ xs) = let rest = memchr c xs in if x == c then some ([], x ∷ xs) else prepend x rest

-- `strtoul` is the library's, in base 16.
module _ (strtoul : List ℕ → ℕ) where
  abbrev pub verify_at : Option (List ℕ × List ℕ) → Bool
  verify_at none = false
  verify_at (some (before, tail)) =
      if ltb (length tail) 3
      then false
      else nmea_xor (drop 1 before) == strtoul (get_or tail 1 0 ∷ get_or tail 2 0 ∷ []) % 0x100

  unfoldable pub nmea_verify : List ℕ → Bool
  nmea_verify line =
      if ltb (length line) 4 || not (get_or line 0 0 == dollar)
      then false
      else verify_at (memchr star line)

-- Past the `n`-th comma, unless a star or the end of the text comes first.
unfoldable pub skip_to : ℕ → List ℕ → Option (List ℕ)
skip_to zero p = some p
skip_to (suc n) [] = none
skip_to (suc n) (c ∷ p) =
    let next = skip_to n p in
    let further = skip_to (suc n) p in
    if (c == 0) || (c == star) then none else if c == comma then next else further

-- the loop that copies a field, into that much room
unfoldable pub copy_field : ℕ → List ℕ → List ℕ
copy_field zero p = []
copy_field (suc room) [] = []
copy_field (suc room) (c ∷ p) =
    let rest = copy_field room p in if (c == 0) || (c == comma) || (c == star) then [] else c ∷ rest

-- `nmea_field`; the buffer is empty where it returns `false`
unfoldable pub nmea_field : List ℕ → ℕ → ℕ → Option (List ℕ)
nmea_field body n out_sz =
    if out_sz == 0 then none else Option.map (copy_field (out_sz - 1)) (skip_to n body)
