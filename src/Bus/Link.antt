-- ===== src/Bus/Link.antt =====
-- The drivers' account of their connection: `online` and `i2c_fail_count`, and the threshold
-- `FAIL_DISCONNECT_COUNT` of each driver.
use mokya_lora.Prelude.{
  ℕ, suc, ◌+◌, ◌≤◌, ◌<◌, ◌≡◌, ap, ◌∙◌, Bool, true, false, List, [], ◌∷◌, ltb, leb, min,
  if◌then◌else◌, arith,
}

pub record Link : Type 0 where
  pub online : Bool
  pub fail_count : ℕ

abbrev pub fail_max : ℕ
fail_max = 0xFFFFFFFF

-- the end of a poll that failed, and of one that did not
unfoldable pub failed : ℕ → Link → Link
failed limit l =
    let count = if ltb l.fail_count fail_max then l.fail_count + 1 else l.fail_count in
    record { online = if leb limit count then false else l.online; fail_count = count }

unfoldable pub succeeded : Link
succeeded = record { online = true; fail_count = 0 }

unfoldable pub note : ℕ → Bool → Link → Link
note limit true l = succeeded
note limit false l = failed limit l

-- The failures since the last success of a history, the newest first, or `before` it began.
abbrev pub failures : ℕ → List Bool → ℕ
failures before [] = before
failures before (true ∷ h) = 0
failures before (false ∷ h) = suc (failures before h)

unfoldable pub history : ℕ → List Bool → Link → Link
history limit [] l = l
history limit (b ∷ h) l = note limit b (history limit h l)

-- The counter saturates, and the driver is online while fewer than `limit` failures are in a row.
pub history_lem :
    (limit : ℕ) (h : List Bool) (l : Link)
    → 0 < limit
    → limit ≤ fail_max
    → l.fail_count ≤ fail_max
    → l.online ≡ ltb l.fail_count limit
    → let l' = history limit h l in
      (l'.fail_count ≡ min (failures l.fail_count h) fail_max)
      × (l'.online ≡ ltb (failures l.fail_count h) limit)
unfolding history note failed succeeded
history_lem limit [] l p q r s = (omega arith, s)
history_lem limit (true ∷ h) l p q r s = ground arith
history_lem limit (false ∷ h) l p q r s = ground (arith, history_lem limit h l p q r s)

-- a link as the results of the polls account for it
abbrev pub Tracks : ℕ → Link → Link → List Bool → Type 0
Tracks limit old new results =
    (new.fail_count ≡ min (failures old.fail_count results) fail_max)
    × (new.online ≡ ltb (failures old.fail_count results) limit)

-- A link that is online exactly with fewer than `limit` failures.
abbrev pub IsLink : ℕ → Link → Type 0
IsLink limit l = (l.fail_count ≤ fail_max) × (l.online ≡ ltb l.fail_count limit)

pub tracks :
    (limit : ℕ) (old new : Link) (results : List Bool)
    → 0 < limit
    → limit ≤ fail_max
    → IsLink limit old
    → new ≡ history limit results old
    → Tracks limit old new results
tracks limit old new results p q h e =
    let (count, online) = history_lem limit results old p q h.0 h.1 in
    (ap (λ l. l.fail_count) e ∙ count, ap (λ l. l.online) e ∙ online)
