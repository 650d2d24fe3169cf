-- ===== src/Gnss/Tests.antt =====
-- The stream with a counter for the parsers, and with hexadecimal digits as the C library has them.
use mokya_lora.Prelude.{
  ℕ, ◌+◌, ◌-◌, ◌*◌, ◌/◌, ◌%◌, ◌≤◌, ◌<◌, ◌≡◌, ◌⊎◌, refl, Bool, true, false, Option, none, some, List,
  [], ◌∷◌, ◌++◌, u32, length, drop, ltb, if◌then◌else◌, arith,
}
use mokya_lora.Bus.Link.{Link}
use mokya_lora.Gnss.Nmea.{dollar, nmea_field, skip_to, copy_field, nmea_verify, xor_from, memchr}
use mokya_lora.Gnss.Nmea.Fields.{nmea_field-join}
use mokya_lora.Gnss.Line.{Sentence, Receiver, checked, command, dispatch_line, kind, starts}
use mokya_lora.Gnss.Line.Stream.{stream, polls, accept, polls-accept}
use mokya_lora.Gnss.Sats.{power_on, parse_gsv, gsv_accum_for, slot_of, add_sats, pool, fill}
use mokya_lora.Gnss.Sats.Views.{AllFit, Views, parse_gsv-Views}
use mokya_lora.Gnss.Diagnostics.{RfState, AnfPath}
use mokya_lora.Gnss.Parse.{
  Libc, Fix, Teseo, Resp, resp_none, resp_setpar_ok, resp_savepar_ok, parse,
}
use mokya_lora.Gnss.Rate.{
  Talk, Rig, off, hz5, set_fix_rate, commit, send_await, await, get_fix_rate_from_device,
  await_value,
}
use mokya_lora.Gnss.Rate.Script.{Runs, Changed, script, set_fix_rate-Changed}
use mokya_lora.Gnss.Parse.Counts.{polls-counts}
use mokya_lora.Gnss.Line.Command.{command-verified}

abbrev hex_digit : ℕ → ℕ
hex_digit n = if ltb n 10 then 0x30 + n else 0x37 + n

abbrev digits : ℕ → ℕ × ℕ
digits n = (hex_digit (n / 16), hex_digit (n % 16))

abbrev digit_value : ℕ → ℕ
digit_value c = if ltb c 0x3A then c - 0x30 else c - 0x37

abbrev strtoul : List ℕ → ℕ
strtoul [] = 0
strtoul (c ∷ []) = digit_value c
strtoul (c ∷ d ∷ cs) = digit_value c * 16 + digit_value d

strtoul-digits : (c : ℕ) → c < 256 → strtoul ((digits c).0 ∷ (digits c).1 ∷ []) ≡ c
strtoul-digits c h = ground arith

-- `PSTMCPU,5`
abbrev cpu_body : List ℕ
cpu_body = 0x50 ∷ 0x53 ∷ 0x54 ∷ 0x4D ∷ 0x43 ∷ 0x50 ∷ 0x55 ∷ 0x2C ∷ 0x35 ∷ []

abbrev cpu_line : List ℕ
cpu_line = cpu_body ++ 0x2A ∷ 0x34 ∷ 0x35 ∷ []

abbrev count : Sentence → List ℕ → ℕ → ℕ
count k body s = s + 1

-- Padding, a cut within the line and a read that fails.
abbrev reads : List (Option (List ℕ))
reads =
    some (0xFF ∷ 0x24 ∷ 0x50 ∷ [])
    ∷ none
    ∷ some (0x53 ∷ 0xFF ∷ [])
    ∷ some (drop 2 cpu_line ++ 0x0D ∷ 0x0A ∷ [])
    ∷ []

abbrev fresh : Receiver ℕ
fresh = record { line = 0x24 ∷ 0x41 ∷ []; state = 0 }

abbrev link : Link
link = record { online = false; fail_count = 0 }

polls-accept_example :
    (polls strtoul count reads link fresh).1.state ≡ accept strtoul count (cpu_line ∷ []) 0
polls-accept_example =
    polls-accept strtoul count reads (cpu_line ∷ []) link fresh (ground arith) refl

cpu_accepted : accept strtoul count (cpu_line ∷ []) 0 ≡ 1
unfolding dispatch_line nmea_verify xor_from memchr kind starts
cpu_accepted = refl

command-verified_example :
    ((9 ≤ 57)
      × (command digits cpu_body ≡ some (stream (checked digits cpu_body ∷ [])))
      × (nmea_verify strtoul (dollar ∷ checked digits cpu_body) ≡ true))
    ⊎ ((57 < 9) × (command digits cpu_body ≡ none))
command-verified_example =
    command-verified strtoul digits cpu_body (ground arith) (ground arith) strtoul-digits

-- `AB,,C`
nmea_field-join_example : nmea_field (0x41 ∷ 0x42 ∷ 0x2C ∷ 0x2C ∷ 0x43 ∷ 0x2A ∷ []) 1 16 ≡ some []
nmea_field-join_example =
    nmea_field-join (0x41 ∷ 0x42 ∷ []) ([] ∷ (0x43 ∷ []) ∷ []) [] 1 16 (omega arith) (ground arith)

-- a decimal number, without its sign
abbrev decimal : ℕ → List ℕ → ℕ
decimal n [] = n
decimal n (c ∷ t) =
    let rest = decimal (n * 10 + (c - 0x30)) t in
    if ltb c 0x30 then n else if ltb 0x39 c then n else rest

abbrev libc : Libc
libc = record {
  atoi = decimal 0;
  tenths = decimal 0;
  signed_tenths = decimal 0;
  kmh_tenths = decimal 0;
  total_e7 = λ degrees minutes negative. degrees * 10000000;
}

-- `GPGSV,1,1,01,05,40,083,46*`
abbrev gsv_body : List ℕ
gsv_body =
    0x47 ∷ 0x50 ∷ 0x47 ∷ 0x53 ∷ 0x56 ∷ 0x2C ∷ 0x31 ∷ 0x2C ∷ 0x31 ∷ 0x2C ∷ 0x30 ∷ 0x31 ∷ 0x2C ∷ 0x30
    ∷ 0x35 ∷ 0x2C ∷ 0x34 ∷ 0x30 ∷ 0x2C ∷ 0x30 ∷ 0x38 ∷ 0x33 ∷ 0x2C ∷ 0x34 ∷ 0x36 ∷ 0x2A ∷ []

parse_gsv-Views_example : Views libc.atoi power_on (parse_gsv libc.atoi gsv_body power_on)
parse_gsv-Views_example = parse_gsv-Views libc.atoi gsv_body power_on (ground arith)

gsv_shown :
    (parse_gsv libc.atoi gsv_body power_on).view
    ≡ record { prn = 5; elevation_deg = 40; azimuth_deg = 83; snr_dbhz = 46 } ∷ []
unfolding parse_gsv gsv_accum_for slot_of add_sats pool fill nmea_field skip_to copy_field
gsv_shown = refl

abbrev no_fix : Fix
no_fix = record {
  fix_valid = false;
  fix_quality = 0;
  num_sats = 0;
  lat_e7 = 0;
  lon_e7 = 0;
  altitude_m = 0;
  speed_kmh_x10 = 0;
  course_deg_x10 = 0;
  hdop_x10 = 0;
  utc_time = 0;
  utc_date = 0;
  sentence_count = 7;
  gst_sigma_lat_m_x10 = 0;
  gst_sigma_lon_m_x10 = 0;
  gst_sigma_alt_m_x10 = 0;
  gst_count = 0;
}

abbrev no_path : AnfPath
no_path = record { freq_hz = 0; power = 0; ovfs = 0; lock = 0; mode = 0 }

abbrev no_rf : RfState
no_rf = record {
  noise_gps = 0;
  noise_gln = 0;
  noise_count = 0;
  anf_gps = no_path;
  anf_gln = no_path;
  anf_count = 0;
  cpu_pct_x10 = 0;
  cpu_mhz = 0;
  cpu_count = 0;
  rf_sats = [];
  rf_update_count = 0;
  expected_total = 0;
  next_idx = 0;
  tmp = [];
}

abbrev receiver : Receiver Teseo
receiver = record {
  line = [];
  state = record {
    fix = no_fix;
    gsv = power_on;
    rf = no_rf;
    last_resp = resp_none;
    last_resp_count = 0;
    last_getpar = none;
  };
}

-- `GPRMC,0` with its checksum, on the wire in one read
abbrev rmc_line : List ℕ
rmc_line = 0x47 ∷ 0x50 ∷ 0x52 ∷ 0x4D ∷ 0x43 ∷ 0x2C ∷ 0x30 ∷ 0x2A ∷ 0x35 ∷ 0x37 ∷ []

polls-counts_example :
    let s' =
      (polls strtoul (parse libc) (some (stream (rmc_line ∷ [])) ∷ []) link receiver).1.state in
    (s'.fix.sentence_count ≡ 8) × AllFit s'.gsv.accums × (length s'.gsv.view ≤ 32)
unfolding nmea_verify xor_from memchr kind starts
polls-counts_example =
    polls-counts libc strtoul (some (stream (rmc_line ∷ [])) ∷ []) (rmc_line ∷ []) link receiver
      (ground arith) refl (omega arith, ground arith, omega arith)

-- a receiver that grants what it is told, by the number of commands it was told
abbrev answer : List (List ℕ) → Resp
answer [] = resp_none
answer (a ∷ []) = resp_none
answer (a ∷ b ∷ []) = resp_setpar_ok
answer (a ∷ b ∷ c ∷ []) = resp_savepar_ok
answer (a ∷ b ∷ c ∷ d ∷ l) = resp_none

abbrev talk : Talk
talk = record {
  World = List (List ℕ) × ℕ;
  send = λ b w. (true, (w.0 ++ b ∷ [], w.1));
  poll = λ t w. (record t { last_resp = answer w.0 }, w);
  ticks = λ w. w.1 % u32;
  delay = λ w. (w.0, w.1 + 20);
  ticks_of = λ ms. ms;
  handed = λ w. w.0;
  handed-send = λ b w. refl;
  handed-poll = λ t w. refl;
  handed-delay = λ w. refl;
}

ticks_add : (n : ℕ) → (n + 20) % u32 ≡ (n % u32 + 20) % u32
ticks_add n = omega arith

abbrev clock : Runs talk
clock = record {
  beat = λ t w. 20;
  beat_moves = λ t w. omega arith;
  beat_short = λ t w. omega arith;
  word = λ w. omega arith;
  ticks-beat = λ t w. ticks_add w.1;
  short = λ ms h. omega (arith, h);
}

-- suspended, just before the tick count wraps
abbrev parked : Rig (List (List ℕ) × ℕ)
parked = record { teseo = receiver.state; fix_rate = off; outside = ([], 4294967290) }

set_fix_rate-Changed_example :
    (f : ℕ) × (g : ℕ) × (ok : Bool) × (s' : Rig (List (List ℕ) × ℕ)) × (set_fix_rate talk f g hz5
        parked
      ≡ some (ok, s'))
    × Changed talk hz5 (script hz5 off) parked ok s'
set_fix_rate-Changed_example = set_fix_rate-Changed talk clock hz5 parked

abbrev told : Option (Bool × Rig (List (List ℕ) × ℕ)) → Option (Bool × ℕ)
told none = none
told (some (ok, s)) = some (ok, length s.outside.0)

parked_changed : told (set_fix_rate talk 1 1 hz5 parked) ≡ some (true, 4)
unfolding set_fix_rate commit send_await await
parked_changed = refl

-- without an answer, the query of the period gives up with an empty text
abbrev answered : Option (Bool × Option (List ℕ) × Rig (List (List ℕ) × ℕ)) → Bool × ℕ
answered (some (ok, some text, s)) = (ok, s.outside.1 - 4294967290)
answered _ = (true, 0)

query_unanswered : answered (get_fix_rate_from_device talk 26 (some 32) parked) ≡ (false, 500)
unfolding get_fix_rate_from_device await_value
query_unanswered = refl
