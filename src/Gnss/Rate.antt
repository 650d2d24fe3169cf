-- ===== src/Gnss/Rate.antt =====
-- firmware/core1/src/sensor/teseo_liv3fl.c: the start of the driver and the calls that set or
-- query the receiver's rate or its messages and wait for the replies. Sending a command, a poll and the
-- clock are a parameter.
pub mod Script
use mokya_lora.Prelude.{
  ℕ, zero, suc, ◌+◌, ◌≡◌, Bool, true, false, not, ◌&&◌, Option, none, some, List, [], ◌∷◌, ◌++◌,
  leb, ltb, take, ◌-◌, ◌==◌, sub32, if◌then◌else◌,
}
use mokya_lora.Gnss.Line.{pstm, savepar_text, setpar_text}
use mokya_lora.Gnss.Parse.{
  Teseo, Resp, resp_none, resp_setpar_ok, resp_setpar_err, resp_savepar_ok, resp_savepar_err,
}

-- `gnss_rate_t`; any other value is `no_rate`
pub data Rate : Type 0 where
  off hz1 hz2 hz5 hz10 no_rate : Rate

-- What the calls use: `send_nmea` with the body of a command, `teseo_poll`, the tick count, a delay of
-- 20 ms and `pdMS_TO_TICKS`. `handed` is what `send_nmea` was given so far.
pub record Talk : Type 1 where
  pub World : Type 0
  pub send : List ℕ → World → Bool × World
  pub poll : Teseo → World → Teseo × World
  pub ticks : World → ℕ
  pub delay : World → World
  pub ticks_of : ℕ → ℕ
  pub handed : World → List (List ℕ)
  pub handed-send : (b : List ℕ) (w : World) → handed (send b w).1 ≡ handed w ++ b ∷ []
  pub handed-poll : (t : Teseo) (w : World) → handed (poll t w).1 ≡ handed w
  pub handed-delay : (w : World) → handed (delay w) ≡ handed w

-- the module's statics, and the outside
pub record Rig (W : Type 0) : Type 0 where
  pub teseo : Teseo
  pub fix_rate : Rate
  pub outside : W

-- `PSTMGPSSUSPEND`, `PSTMGPSRESTART`, `PSTMSRR` and `PSTMSAVEPAR`
abbrev pub gps_text : List ℕ
gps_text = 0x47 ∷ 0x50 ∷ 0x53 ∷ []

abbrev pub suspend_body : List ℕ
suspend_body = pstm ++ (gps_text ++ 0x53 ∷ 0x55 ∷ 0x53 ∷ 0x50 ∷ 0x45 ∷ 0x4E ∷ 0x44 ∷ [])

abbrev pub restart_body : List ℕ
restart_body = pstm ++ (gps_text ++ 0x52 ∷ 0x45 ∷ 0x53 ∷ 0x54 ∷ 0x41 ∷ 0x52 ∷ 0x54 ∷ [])

abbrev pub reboot_body : List ℕ
reboot_body = pstm ++ 0x53 ∷ 0x52 ∷ 0x52 ∷ []

abbrev pub save_body : List ℕ
save_body = pstm ++ savepar_text

-- `PSTMSETPAR,1303,` and the period, a digit, a point and a digit
abbrev pub period_body : ℕ → ℕ → List ℕ
period_body whole tenth =
    pstm
    ++ (setpar_text
        ++ 0x2C ∷ 0x31 ∷ 0x33 ∷ 0x30 ∷ 0x33 ∷ 0x2C ∷ (0x30 + whole) ∷ 0x2E ∷ (0x30 + tenth) ∷ [])

-- `PSTMSETPAR,1231,408000A8,` and the mode, 1 or 2
abbrev pub mask_body : Bool → List ℕ
mask_body on =
    pstm
    ++ (setpar_text
        ++ 0x2C
          ∷ 0x31
          ∷ 0x32
          ∷ 0x33
          ∷ 0x31
          ∷ 0x2C
          ∷ 0x34
          ∷ 0x30
          ∷ 0x38
          ∷ 0x30
          ∷ 0x30
          ∷ 0x30
          ∷ 0x41
          ∷ 0x38
          ∷ 0x2C
          ∷ (if on then 0x31 else 0x32)
          ∷ [])

abbrev pub rate_body : Rate → Option (List ℕ)
rate_body hz1 = some (period_body 1 0)
rate_body hz2 = some (period_body 0 5)
rate_body hz5 = some (period_body 0 2)
rate_body hz10 = some (period_body 0 1)
rate_body off = none
rate_body no_rate = none

abbrev pub is_off : Rate → Bool
is_off off = true
is_off hz1 = false
is_off hz2 = false
is_off hz5 = false
is_off hz10 = false
is_off no_rate = false

-- `PSTMGETPAR,11303`
abbrev pub period_query : List ℕ
period_query =
    pstm ++ 0x47 ∷ 0x45 ∷ 0x54 ∷ 0x50 ∷ 0x41 ∷ 0x52 ∷ 0x2C ∷ 0x31 ∷ 0x31 ∷ 0x33 ∷ 0x30 ∷ 0x33 ∷ []

-- what a reply is to a command that waits for one: granted, refused or another's
pub data Verdict : Type 0 where
  granted refused waiting : Verdict

abbrev pub setpar_verdict : Resp → Verdict
setpar_verdict resp_setpar_ok = granted
setpar_verdict resp_setpar_err = refused
setpar_verdict resp_savepar_ok = waiting
setpar_verdict resp_savepar_err = waiting
setpar_verdict resp_none = waiting

abbrev pub savepar_verdict : Resp → Verdict
savepar_verdict resp_savepar_ok = granted
savepar_verdict resp_savepar_err = refused
savepar_verdict resp_setpar_ok = waiting
savepar_verdict resp_setpar_err = waiting
savepar_verdict resp_none = waiting

module _ (talk : Talk) where
  open talk use {World, send, poll, ticks, delay, ticks_of}

  -- the loop of `send_await` on fuel; `none` means that it ran out
  unfoldable pub await : ℕ → (Resp → Verdict) → ℕ → ℕ → Rig World → Option (Bool × Rig World)
  await zero verdict start timeout s = none
  await (suc f) verdict start timeout s =
      let (t, w) = poll s.teseo s.outside in
      let s' = record s { teseo = t; outside = w } in
      let rest = await f verdict start timeout (record s' { outside = delay w }) in
      elim (verdict t.last_resp) [
        | granted ↦ some (true, s')
        | refused ↦ some (false, s')
        | waiting ↦ if leb timeout (sub32 (ticks w) start) then some (false, s') else rest
      ]

  -- `send_await`, with its timeout in milliseconds
  unfoldable pub send_await :
      ℕ → List ℕ → (Resp → Verdict) → ℕ → Rig World → Option (Bool × Rig World)
  send_await f body verdict ms s =
      let (sent, w) = send body s.outside in
      let s' = record s { teseo = record (s.teseo) { last_resp = resp_none }; outside = w } in
      if sent then await f verdict (ticks w) (ticks_of ms) s' else some (false, s')

  -- `send_nmea` whose result is not looked at
  abbrev pub tell : List ℕ → Rig World → Rig World
  tell body s = record s { outside = (send body s.outside).1 }

  -- what follows a step that may fail
  abbrev pub and_then :
      Option (Bool × Rig World)
      → (Rig World → Option (Bool × Rig World))
      → Option (Bool × Rig World)
  and_then none k = none
  and_then (some (false, s)) k = some (false, s)
  and_then (some (true, s)) k = k s

  -- the steps that `teseo_set_fix_rate` and `teseo_enable_rf_debug_messages` share
  unfoldable pub commit : ℕ → ℕ → List ℕ → Rig World → Option (Bool × Rig World)
  commit f g body s = and_then (send_await f body setpar_verdict 500 s) (λ s.
      and_then (send_await g save_body savepar_verdict 1500 s)
        (λ s. some (true, tell reboot_body s)))

  -- `teseo_set_fix_rate`
  unfoldable pub set_fix_rate : ℕ → ℕ → Rate → Rig World → Option (Bool × Rig World)
  set_fix_rate f g rate s =
      if is_off rate
      then (let (sent, w) = send suspend_body s.outside in
          if sent
          then some (true, record s { fix_rate = off; outside = w })
          else some (false, record s { outside = w }))
      else let s = if is_off s.fix_rate then tell restart_body s else s in
        elim (rate_body rate) [
          | none ↦ some (false, s)
          | some body ↦
              and_then (commit f g body s) (λ s. some (true, record s { fix_rate = rate }))
        ]

  -- `teseo_enable_rf_debug_messages`; its text is shorter than its buffer
  unfoldable pub enable_rf_debug_messages : ℕ → ℕ → Bool → Rig World → Option (Bool × Rig World)
  enable_rf_debug_messages f g on s = commit f g (mask_body on) s

  -- `teseo_init`
  unfoldable pub init : Rig World → Rig World
  init s = record (tell restart_body s) {
    teseo = record (s.teseo) { fix = record (s.teseo.fix) { fix_valid = false } };
    fix_rate = hz1;
  }

  -- The loop of `teseo_get_fix_rate_from_device` on fuel: the result, and what is in `out`.
  unfoldable pub await_value :
      ℕ → ℕ → ℕ → ℕ → Rig World → Option (Bool × Option (List ℕ) × Rig World)
  await_value zero size start timeout s = none
  await_value (suc f) size start timeout s =
      let (t, w) = poll s.teseo s.outside in
      let s' = record s { teseo = t; outside = w } in
      let rest = await_value f size start timeout (record s' { outside = delay w }) in
      if ltb (sub32 (ticks s.outside) start) timeout
      then elim t.last_getpar [
        | some value ↦ some (true, some (take (size - 1) value), s')
        | none ↦ rest
      ]
      else some (false, some [], s)

  -- `teseo_get_fix_rate_from_device` with the size of `out`, `none` for `NULL`; as to `out`, `none`
  -- means untouched
  unfoldable pub get_fix_rate_from_device :
      ℕ → Option ℕ → Rig World → Option (Bool × Option (List ℕ) × Rig World)
  get_fix_rate_from_device f none s = some (false, none, s)
  get_fix_rate_from_device f (some size) s =
      let (sent, w) = send period_query s.outside in
      let s' = record s { teseo = record (s.teseo) { last_getpar = none }; outside = w } in
      if size == 0
      then some (false, none, s)
      else if sent
      then await_value f size (ticks w) (ticks_of 500) s'
      else some (false, none, s')
