-- ===== src/Gnss/Sats.antt =====
-- The satellites in view: `parse_gsv` and what it calls. A list stands for the part of an array that its
-- counter says is in use.
pub mod Views
use mathlib.Core.Option
use mokya_lora.Prelude.{
  ℕ, zero, suc, ◌+◌, ◌*◌, ◌%◌, Bool, true, false, not, Option, none, some, List, [], ◌∷◌, ◌++◌,
  length, get_or, set, replicate, ltb, ◌==◌, if◌then◌else◌, add32,
}
use mokya_lora.Gnss.Nmea.{nmea_field}

-- `teseo_sat_info_t`
pub record Sat : Type 0 where
  pub prn : ℕ
  pub elevation_deg : ℕ
  pub azimuth_deg : ℕ
  pub snr_dbhz : ℕ

-- `gsv_accum_t`
pub record Accum : Type 0 where
  pub talker : ℕ
  pub expected_total : ℕ
  pub next_idx : ℕ
  pub sats : List Sat

-- `s_gsv` and `s_sat_view`
pub record Gsv : Type 0 where
  pub accums : List Accum
  pub view : List Sat
  pub update_count : ℕ

abbrev pub no_accum : Accum
no_accum = record { talker = 0; expected_total = 0; next_idx = 0; sats = [] }

abbrev pub power_on : Gsv
power_on = record { accums = replicate 4 no_accum; view = []; update_count = 0 }

-- the first slot with this talker, from the slot `i` on
unfoldable pub slot_of : ℕ → List Accum → ℕ → Option ℕ
slot_of talker [] i = none
slot_of talker (a ∷ accums) i =
    let rest = slot_of talker accums (i + 1) in if a.talker == talker then some i else rest

abbrev pub claim : ℕ → List Accum → Option ℕ → Option (ℕ × List Accum)
claim talker accums none = none
claim talker accums (some i) =
    some (i, set accums i (record (get_or accums i no_accum) { talker = talker }))

abbrev pub known_or_claim : ℕ → List Accum → Option ℕ → Option (ℕ × List Accum)
known_or_claim talker accums (some i) = some (i, accums)
known_or_claim talker accums none = claim talker accums (slot_of 0 accums 0)

-- `gsv_accum_for`: the slot, and the slots with it claimed
unfoldable pub gsv_accum_for : ℕ → List Accum → Option (ℕ × List Accum)
gsv_accum_for talker accums = known_or_claim talker accums (slot_of talker accums 0)

-- the loops of `publish_sat_view`
unfoldable pub fill : List Sat → List Sat → List Sat
fill [] out = out
fill (s ∷ sats) out =
    let rest = fill sats (out ++ s ∷ []) in if ltb (length out) 32 then rest else out

unfoldable pub pool : List Accum → List Sat → List Sat
pool [] out = out
pool (a ∷ accums) out = pool accums (fill a.sats out)

-- `publish_sat_view`
abbrev pub publish_sat_view : Gsv → Gsv
publish_sat_view g = record g { view = pool g.accums []; update_count = add32 g.update_count 1 }

-- a field, which is empty where there is none
abbrev pub text_of : Option (List ℕ) → List ℕ
text_of none = []
text_of (some t) = t

abbrev pub is_empty : List ℕ → Bool
is_empty [] = true
is_empty (c ∷ t) = c == 0

-- `atoi` is the library's, as a pattern of 32 bits.
module _ (atoi : List ℕ → ℕ) where
  abbrev pub byte_of : List ℕ → ℕ
  byte_of t = atoi t % 0x100

  -- the satellite whose fields start at `base`
  abbrev pub sat_at : List ℕ → ℕ → List ℕ → Sat
  sat_at body base prn =
      let snr = text_of (nmea_field body (base + 3) 8) in
      record {
        prn = byte_of prn;
        elevation_deg = byte_of (text_of (nmea_field body (base + 1) 8));
        azimuth_deg = atoi (text_of (nmea_field body (base + 2) 8)) % 0x10000;
        snr_dbhz = if is_empty snr then 0 else byte_of snr;
      }

  -- the loop over the four satellites of a sentence, from the one whose fields start at `base`
  unfoldable pub add_sats : ℕ → List ℕ → ℕ → List Sat → List Sat
  add_sats zero body base sats = sats
  add_sats (suc n) body base sats =
      let prn = text_of (nmea_field body base 8) in
      let more = add_sats n body (base + 4) (sats ++ sat_at body base prn ∷ []) in
      if not (ltb (length sats) 16) then sats else if is_empty prn then sats else more

  -- the start of a cycle
  abbrev pub begin : ℕ → ℕ → Accum → Accum
  begin total idx a =
      if idx == 1 then record a { expected_total = total; next_idx = 1; sats = [] } else a

  abbrev pub put : ℕ → Accum → Gsv → Gsv
  put i a g = record g { accums = set g.accums i a }

  -- A sentence of the cycle, in its turn.
  abbrev pub in_turn : ℕ → ℕ → ℕ → List ℕ → Accum → Gsv → Gsv
  in_turn i total idx body a g =
      let sats = add_sats 4 body 4 a.sats in
      if idx == total
      then publish_sat_view (put i (record a { sats = sats; next_idx = 0 }) g)
      else put i (record a { sats = sats; next_idx = (idx + 1) % 0x100 }) g

  abbrev pub sentence : ℕ → ℕ → ℕ → List ℕ → Gsv → Gsv
  sentence i total idx body g =
      let a = begin total idx (get_or g.accums i no_accum) in
      if not (idx == a.next_idx)
      then put i (record a { next_idx = 0 }) g
      else in_turn i total idx body a g

  abbrev pub with_fields : ℕ → List ℕ → Option (List ℕ) → Option (List ℕ) → Gsv → Gsv
  with_fields i body none idx g = g
  with_fields i body (some total) none g = g
  with_fields i body (some total) (some idx) g = sentence i (byte_of total) (byte_of idx) body g

  abbrev pub with_slot : List ℕ → Option (ℕ × List Accum) → Gsv → Gsv
  with_slot body none g = g
  with_slot body (some (i, accums)) g =
      with_fields i body (nmea_field body 1 16) (nmea_field body 2 16)
        (record g { accums = accums })

  -- `parse_gsv`; the type is the start of the body
  unfoldable pub parse_gsv : List ℕ → Gsv → Gsv
  parse_gsv body g =
      with_slot body (gsv_accum_for (get_or body 0 0 * 0x100 + get_or body 1 0) g.accums) g
