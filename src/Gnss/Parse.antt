-- ===== src/Gnss/Parse.antt =====
-- The parsers of the sentences, as `dispatch_line` and `dispatch_pstm` call them. The library's
-- conversions are parameters: `atoi` as a pattern of 32 bits, and each use of `atof` with the
-- arithmetic in double precision and the cast that follow it.
pub mod Counts
use mathlib.Core.Option
use mokya_lora.Prelude.{
  ℕ, zero, suc, ◌+◌, ◌-◌, ◌*◌, ◌%◌, Bool, true, false, not, ◌&&◌, ◌||◌, Option, none, some, List,
  [], ◌∷◌, ◌++◌, length, take, drop, get_or, ltb, ◌==◌, if◌then◌else◌, add32,
}
use mokya_lora.Gnss.Nmea.{nmea_field}
use mokya_lora.Gnss.Line.{
  Sentence, gga, rmc, gsv, gst, savepar_error, setpar_error, savepar_ok, setpar_ok, setpar,
  notchstatus, noise, cpu, rf_sats,
}
use mokya_lora.Gnss.Diagnostics.{
  RfState, or_old, field, parse_pstm_noise, parse_pstm_cpu, parse_pstm_notchstatus, parse_pstm_rf,
}
use mokya_lora.Gnss.Sats.{Gsv, parse_gsv, text_of, is_empty}

-- `tenths` is `(uint16_t)(atof(f) * 10.0)`, `signed_tenths` the same with `int16_t`, `kmh_tenths`
-- `(int16_t)(atof(f) * KNOTS_TO_KMH_X10)`, and `coord_e7` is `nmea_coord_e7`; each a bit pattern.
pub record Libc : Type 0 where
  pub atoi : List ℕ → ℕ
  pub tenths : List ℕ → ℕ
  pub signed_tenths : List ℕ → ℕ
  pub kmh_tenths : List ℕ → ℕ
  pub total_e7 : ℕ → List ℕ → Bool → ℕ

-- `teseo_state_t` without the link, signed fields as bit patterns
pub record Fix : Type 0 where
  pub fix_valid : Bool
  pub fix_quality : ℕ
  pub num_sats : ℕ
  pub lat_e7 : ℕ
  pub lon_e7 : ℕ
  pub altitude_m : ℕ
  pub speed_kmh_x10 : ℕ
  pub course_deg_x10 : ℕ
  pub hdop_x10 : ℕ
  pub utc_time : ℕ
  pub utc_date : ℕ
  pub sentence_count : ℕ
  pub gst_sigma_lat_m_x10 : ℕ
  pub gst_sigma_lon_m_x10 : ℕ
  pub gst_sigma_alt_m_x10 : ℕ
  pub gst_count : ℕ

-- `teseo_resp_t`
pub data Resp : Type 0 where
  resp_none resp_setpar_ok resp_setpar_err resp_savepar_ok resp_savepar_err : Resp

pub record Teseo : Type 0 where
  pub fix : Fix
  pub gsv : Gsv
  pub rf : RfState
  pub last_resp : Resp
  pub last_resp_count : ℕ
  pub last_getpar : Option (List ℕ)

-- a field that is not empty
abbrev pub full : Option (List ℕ) → Option (List ℕ)
full none = none
full (some t) = if is_empty t then none else some t

-- what stands before the first dot, if there is one
unfoldable pub digits_before_dot : List ℕ → Option ℕ
digits_before_dot [] = none
digits_before_dot (c ∷ t) =
    let rest = digits_before_dot t in if c == 0x2E then some 0 else Option.map suc rest

module _ (c : Libc) where
  open c use {atoi, tenths, signed_tenths, kmh_tenths, total_e7}

  -- `nmea_coord_e7`, of a field that is not empty, with its hemisphere
  abbrev pub coord_at : List ℕ → Bool → Option ℕ → ℕ
  coord_at f negative none = 0
  coord_at f negative (some dot) =
      if ltb dot 3 || ltb 5 dot
      then 0
      else total_e7 (atoi (take (dot - 2) f)) (drop (dot - 2) f) negative

  unfoldable pub nmea_coord_e7 : List ℕ → ℕ → ℕ
  nmea_coord_e7 f hem = coord_at f ((hem == 0x53) || (hem == 0x57)) (digits_before_dot f)

  -- the position, when the fix is usable and both coordinates are there
  abbrev pub position : Option (List ℕ) → Option (List ℕ) → ℕ → ℕ → Fix → Fix
  position (some lat) (some lon) ns ew s =
      if ltb 0 s.fix_quality
      then record s { lat_e7 = nmea_coord_e7 lat ns; lon_e7 = nmea_coord_e7 lon ew }
      else s
  position lat lon ns ew s = s

  -- the first letter of a field, or the default
  abbrev pub letter : List ℕ → ℕ → ℕ → ℕ
  letter body n other = or_old (full (field body n)) (λ t. get_or t 0 0) other

  -- the fields of a GGA sentence but the position
  abbrev pub gga_fields : List ℕ → Fix → Fix
  gga_fields body s = record s {
    utc_time = or_old (full (field body 1)) atoi s.utc_time;
    fix_quality = or_old (field body 6) (λ t. atoi t % 0x100) s.fix_quality;
    num_sats = or_old (field body 7) (λ t. atoi t % 0x100) s.num_sats;
    hdop_x10 = or_old (field body 8) tenths s.hdop_x10;
    altitude_m = or_old (field body 9) (λ t. atoi t % 0x10000) s.altitude_m;
  }

  -- `parse_gga`
  unfoldable pub parse_gga : List ℕ → Fix → Fix
  parse_gga body s =
      let placed =
        position (full (field body 2)) (full (field body 4)) (letter body 3 0x4E)
          (letter body 5 0x45) (gga_fields body s) in
      record placed { sentence_count = add32 placed.sentence_count 1 }

  -- `parse_gst`
  unfoldable pub parse_gst : List ℕ → Fix → Fix
  parse_gst body s = record s {
    gst_sigma_lat_m_x10 = or_old (full (field body 6)) tenths s.gst_sigma_lat_m_x10;
    gst_sigma_lon_m_x10 = or_old (full (field body 7)) tenths s.gst_sigma_lon_m_x10;
    gst_sigma_alt_m_x10 = or_old (full (field body 8)) tenths s.gst_sigma_alt_m_x10;
    gst_count = add32 s.gst_count 1;
  }

  -- `parse_rmc`
  unfoldable pub parse_rmc : List ℕ → Fix → Fix
  parse_rmc body s = record s {
    fix_valid = or_old (field body 2) (λ t. get_or t 0 0 == 0x41) s.fix_valid;
    speed_kmh_x10 = or_old (full (field body 7)) kmh_tenths s.speed_kmh_x10;
    course_deg_x10 = or_old (full (field body 8)) signed_tenths s.course_deg_x10;
    utc_date = or_old (full (field body 9)) atoi s.utc_date;
    sentence_count = add32 s.sentence_count 1;
  }

  -- the reply to a command
  abbrev pub reply : Resp → Teseo → Teseo
  reply r s = record s { last_resp = r; last_resp_count = add32 s.last_resp_count 1 }

  -- the reply to `$PSTMGETPAR`, told from an echo by the field behind the value
  abbrev pub getpar : Option (List ℕ) → Option (List ℕ) → Teseo → Teseo
  getpar (some value) none s = record s { last_getpar = some value }
  getpar _ _ s = s

  -- the calls of `dispatch_line` and `dispatch_pstm`
  unfoldable pub parse : Sentence → List ℕ → Teseo → Teseo
  parse Sentence.gga body s = record s { fix = parse_gga body s.fix }
  parse Sentence.rmc body s = record s { fix = parse_rmc body s.fix }
  parse Sentence.gst body s = record s { fix = parse_gst body s.fix }
  parse Sentence.gsv body s = record s { gsv = parse_gsv atoi body s.gsv }
  parse savepar_error body s = reply resp_savepar_err s
  parse setpar_error body s = reply resp_setpar_err s
  parse savepar_ok body s = reply resp_savepar_ok s
  parse setpar_ok body s = reply resp_setpar_ok s
  parse setpar body s = getpar (full (nmea_field body 2 32)) (full (nmea_field body 3 4)) s
  parse notchstatus body s = record s { rf = parse_pstm_notchstatus atoi tenths body s.rf }
  parse noise body s = record s { rf = parse_pstm_noise atoi tenths body s.rf }
  parse cpu body s = record s { rf = parse_pstm_cpu atoi tenths body s.rf }
  parse rf_sats body s = record s { rf = parse_pstm_rf atoi tenths body s.rf }
