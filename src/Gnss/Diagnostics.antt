-- ===== src/Gnss/Diagnostics.antt =====
-- The parsers of the receiver's diagnostic sentences. A list stands for the part of an array that its
-- counter says is in use.
use mokya_lora.Prelude.{
  ℕ, zero, suc, ◌+◌, ◌%◌, not, Option, none, some, List, [], ◌∷◌, ◌++◌, length, ltb, ◌==◌,
  if◌then◌else◌, add32,
}
use mokya_lora.Gnss.Nmea.{nmea_field}
use mokya_lora.Gnss.Sats.{text_of, is_empty}

-- `teseo_rf_sat_t`, signed fields as bit patterns
pub record RfSat : Type 0 where
  pub prn : ℕ
  pub cn0_dbhz : ℕ
  pub phase_noise : ℕ
  pub freq_hz : ℕ

-- `teseo_anf_path_t`
pub record AnfPath : Type 0 where
  pub freq_hz : ℕ
  pub power : ℕ
  pub ovfs : ℕ
  pub lock : ℕ
  pub mode : ℕ

-- `teseo_rf_state_t`, with the accumulator `s_rf_expected_total`, `s_rf_next_idx` and `s_rf_tmp`
pub record RfState : Type 0 where
  pub noise_gps : ℕ
  pub noise_gln : ℕ
  pub noise_count : ℕ
  pub anf_gps : AnfPath
  pub anf_gln : AnfPath
  pub anf_count : ℕ
  pub cpu_pct_x10 : ℕ
  pub cpu_mhz : ℕ
  pub cpu_count : ℕ
  pub rf_sats : List RfSat
  pub rf_update_count : ℕ
  pub expected_total : ℕ
  pub next_idx : ℕ
  pub tmp : List RfSat

-- what a field gives, or what was there
abbrev pub or_old : {A : Type 0} → Option (List ℕ) → (List ℕ → A) → A → A
or_old none f old = old
or_old (some t) f old = f t

-- a field into a buffer of 16
abbrev pub field : List ℕ → ℕ → Option (List ℕ)
field body n = nmea_field body n 16

-- `tenths` is `(uint16_t)(atof(f) * 10.0)`
module _ (atoi tenths : List ℕ → ℕ) where
  abbrev pub number_at : List ℕ → ℕ → ℕ → ℕ → ℕ
  number_at body n modulus old = or_old (field body n) (λ t. atoi t % modulus) old

  -- `parse_pstm_noise`
  unfoldable pub parse_pstm_noise : List ℕ → RfState → RfState
  parse_pstm_noise body s = record s {
    noise_gps = or_old (field body 1) atoi s.noise_gps;
    noise_gln = or_old (field body 2) atoi s.noise_gln;
    noise_count = add32 s.noise_count 1;
  }

  -- `parse_pstm_cpu`
  unfoldable pub parse_pstm_cpu : List ℕ → RfState → RfState
  parse_pstm_cpu body s = record s {
    cpu_pct_x10 = or_old (field body 1) tenths s.cpu_pct_x10;
    cpu_mhz = number_at body 3 0x10000 s.cpu_mhz;
    cpu_count = add32 s.cpu_count 1;
  }

  -- a path whose fields start at `base`
  abbrev pub anf_path : List ℕ → ℕ → AnfPath → AnfPath
  anf_path body base p = record {
    freq_hz = or_old (field body base) atoi p.freq_hz;
    power = or_old (field body (base + 2)) atoi p.power;
    ovfs = number_at body (base + 3) 0x10000 p.ovfs;
    lock = number_at body (base + 1) 0x100 p.lock;
    mode = number_at body (base + 4) 0x100 p.mode;
  }

  -- `parse_pstm_notchstatus`
  unfoldable pub parse_pstm_notchstatus : List ℕ → RfState → RfState
  parse_pstm_notchstatus body s = record s {
    anf_gps = anf_path body 1 s.anf_gps;
    anf_gln = anf_path body 6 s.anf_gln;
    anf_count = add32 s.anf_count 1;
  }

  -- the satellite whose fields start at `base`
  abbrev pub rf_sat_at : List ℕ → ℕ → List ℕ → RfSat
  rf_sat_at body base id =
      let cn = text_of (nmea_field body (base + 3) 8) in
      record {
        prn = atoi id % 0x100;
        cn0_dbhz = if is_empty cn then 0 else atoi cn % 0x100;
        phase_noise = atoi (text_of (nmea_field body (base + 1) 8)) % 0x10000;
        freq_hz = atoi (text_of (nmea_field body (base + 2) 12));
      }

  -- the loop over the three satellites of a sentence, from the one whose fields start at `base`
  unfoldable pub add_rf_sats : ℕ → List ℕ → ℕ → List RfSat → List RfSat
  add_rf_sats zero body base tmp = tmp
  add_rf_sats (suc n) body base tmp =
      let id = text_of (nmea_field body base 8) in
      let more = add_rf_sats n body (base + 4) (tmp ++ rf_sat_at body base id ∷ []) in
      if not (ltb (length tmp) 32) then tmp else if is_empty id then tmp else more

  abbrev pub begin_group : ℕ → ℕ → RfState → RfState
  begin_group total idx s =
      if idx == 1 then record s { expected_total = total; next_idx = 1; tmp = [] } else s

  -- A sentence of the group, in its turn.
  abbrev pub group_in_turn : ℕ → ℕ → List ℕ → RfState → RfState
  group_in_turn total idx body s =
      let tmp = add_rf_sats 3 body 4 s.tmp in
      if idx == total
      then record s {
        tmp = tmp;
        rf_sats = tmp;
        rf_update_count = add32 s.rf_update_count 1;
        next_idx = 0;
      }
      else record s { tmp = tmp; next_idx = (idx + 1) % 0x100 }

  abbrev pub group_sentence : ℕ → ℕ → List ℕ → RfState → RfState
  group_sentence total idx body s =
      let begun = begin_group total idx s in
      if not (idx == begun.next_idx)
      then record begun { next_idx = 0 }
      else group_in_turn total idx body begun

  abbrev pub with_counts : List ℕ → Option (List ℕ) → Option (List ℕ) → RfState → RfState
  with_counts body (some total) (some idx) s =
      group_sentence (atoi total % 0x100) (atoi idx % 0x100) body s
  with_counts body total idx s = s

  -- `parse_pstm_rf`
  unfoldable pub parse_pstm_rf : List ℕ → RfState → RfState
  parse_pstm_rf body s = with_counts body (field body 1) (field body 2) s
