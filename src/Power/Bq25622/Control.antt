-- ===== src/Power/Bq25622/Control.antt =====
-- The public calls on the charger's control registers CTRL1 and CTRL3.
use mathlib.Core.Option.{none-ne-some}
use mokya_lora.Prelude.{
  ℕ, ◌+◌, ◌-◌, ◌*◌, ◌/◌, ◌%◌, ◌<◌, ◌≤◌, ◌≡◌, inl, inr, refl, ap, ◌∙◌, ◌≢◌, Bool, true, false,
  Option, none, some, min, max, ltb, ◌==◌, if◌then◌else◌, bit_and, bit_or, bit, all_below,
  all_below_sound, bit-bit_and, bit-bit_or, bit-le-one, arith, List, [], ◌∷◌, subst, ==_iff,
  Bool-cases, sym,
}
use mokya_lora.Bus.{RegBus, Transfer, read_u8, write_u8}
use mokya_lora.Bus.Writes.{
  after-some, read_u8-register, write_u8-register, write_u8-keeps, after-keeps,
}
use mokya_lora.Bus.Facts.{Shows, Ensures, clear_of, Shows-reading, Shows-writing}
use mokya_lora.Power.Bq25622.{
  Charger, Watchdog, off, s50, s100, s200, wd_value, Batfet, normal, shutdown, ship, sysreset,
  batfet_value, reg_ctrl1, reg_ctrl3, en_chg, en_hiz, wd_rst, update_bits, under_bus,
  set_charge_enabled, set_hiz, set_watchdog, write_watchdog, keep_window, set_batfet_mode,
}

-- what may be asked of the charger
pub data Call : Type 0 where
  charge : Bool → Call
  hiz : Bool → Call
  watchdog : Watchdog → Call
  batfet : Batfet → Call

abbrev pub target : Call → ℕ
target (batfet m) = reg_ctrl3
target _ = reg_ctrl1

abbrev digit : Bool → ℕ
digit b = if b then 1 else 0

-- Bit `j` of the target register as the call means it, from the bit that it finds: the field of the
-- call takes its value, and each other bit stays as it is. Bit 2 of CTRL1, WD_RST, reads as 0.
abbrev pub meant : Call → ℕ → ℕ → ℕ
meant (charge b) j old = if j == 5 then digit b else if j == 2 then 0 else old
meant (hiz b) j old = if j == 4 then digit b else if j == 2 then 0 else old
meant (watchdog win) j old = if ltb j 2 then bit (wd_value win) j else if j == 2 then 0 else old
meant (batfet m) j old = if ltb j 2 then bit (batfet_value m) j else old

abbrev clears : Call → ℕ
clears (charge b) = if b then 0 else en_chg
clears (hiz b) = if b then 0 else en_hiz
clears (watchdog win) = 3
clears (batfet m) = 3

abbrev sets : Call → ℕ
sets (charge b) = if b then bit_or en_chg wd_rst else wd_rst
sets (hiz b) = if b then bit_or en_hiz wd_rst else wd_rst
sets (watchdog win) = bit_or wd_rst (wd_value win)
sets (batfet m) = bit_and (batfet_value m) 3

abbrev pub holds : Call → ℕ
holds (batfet m) = 0xFF
holds _ = 0xFB

-- the bit that an update leaves
abbrev updated : ℕ → ℕ → ℕ → ℕ → ℕ → ℕ
updated clear set mask old j = min (max (min old (bit (0xFF - clear) j)) (bit set j)) (bit mask j)

abbrev agrees : Call → ℕ → Bool
agrees c n = updated (clears c) (sets c) (holds c) (n % 2) (n / 2) == meant c (n / 2) (n % 2)

table : (c : Call) → all_below (agrees c) 16 ≡ true
unfolding all_below bit
table (charge true) = refl
table (charge false) = refl
table (hiz true) = refl
table (hiz false) = refl
table (watchdog off) = refl
table (watchdog s50) = refl
table (watchdog s100) = refl
table (watchdog s200) = refl
table (batfet normal) = refl
table (batfet shutdown) = refl
table (batfet ship) = refl
table (batfet sysreset) = refl

abbrev Fits : Call → ℕ → ℕ → Type 0
Fits c old j = updated (clears c) (sets c) (holds c) old j ≡ meant c j old

row : (c : Call) (n : ℕ) → n < 16 → Fits c (n % 2) (n / 2)
row c n h =
    (==_iff (updated (clears c) (sets c) (holds c) (n % 2) (n / 2)) (meant c (n / 2) (n % 2))).0
      (all_below_sound (agrees c) 16 (table c) n h)

fields : (c : Call) (old j : ℕ) → old ≤ 1 → j < 8 → Fits c old j
fields c old j h k =
    subst (λ x. Fits c x j) {x = (j * 2 + old) % 2} (omega arith)
      (subst (λ i. Fits c ((j * 2 + old) % 2) i) {x = (j * 2 + old) / 2} (omega arith)
        (row c (j * 2 + old) (omega arith)))

module _ (bus : RegBus) where
  open bus use {World, register, steady, holds_bits, acquire, read-keeps}

  pub update_bits-register :
      (r clear set : ℕ) (w : World)
      → steady r ≡ true
      → (update_bits bus r clear set w).0 ≡ some tt
      → register (update_bits bus r clear set w).1 r
        ≡ bit_and (bit_or (bit_and (register w r) (0xFF - clear)) set) (holds_bits r)
  update_bits-register r clear set w h e =
      let change : ℕ → Transfer bus (Unit {0}) =
        λ v. write_u8 bus r (bit_or (bit_and v (0xFF - clear)) set) in
      let (v, read, wrote, same) = after-some change (read_u8 bus r w) tt e in
      ap (λ t. register t.1 r) same
      ∙ write_u8-register bus r (bit_or (bit_and v (0xFF - clear)) set) (read_u8 bus r w).1 h wrote
      ∙ ap (λ x. bit_and (bit_or (bit_and x (0xFF - clear)) set) (holds_bits r))
          (read_u8-register bus r v w h read)

  pub update_bits-keeps :
      (r clear set q : ℕ) (w : World)
      → steady q ≡ true
      → q ≢ r
      → register (update_bits bus r clear set w).1 q ≡ register w q
  update_bits-keeps r clear set q w h k =
      after-keeps (λ w'. register w' q ≡ register w q)
        (λ v. write_u8 bus r (bit_or (bit_and v (0xFF - clear)) set)) (read_u8 bus r w)
        (read-keeps w r 1 q h)
        (λ v w' e. write_u8-keeps bus r (bit_or (bit_and v (0xFF - clear)) set) q w' h k ∙ e)

  pub update_bits-Ensures :
      (r clear set old : ℕ) (fs : List (ℕ × ℕ))
      → steady r ≡ true
      → clear_of r 1 fs ≡ true
      → Ensures bus
          (Shows bus ((r, old) ∷ fs))
          (update_bits bus r clear set)
          (Shows bus ((r, bit_and (bit_or (bit_and old (0xFF - clear)) set) (holds_bits r)) ∷ fs))
  update_bits-Ensures r clear set old fs h c = record {
    ends = λ w a (h', o, p) e. (
      h,
      update_bits-register r clear set w h e
          ∙ ap (λ x. bit_and (bit_or (bit_and x (0xFF - clear)) set) (holds_bits r)) o,
      after-keeps (Shows bus fs) (λ v. write_u8 bus r (bit_or (bit_and v (0xFF - clear)) set))
          (read_u8 bus r w) (Shows-reading bus fs r 1 w p)
          (λ v w' s. Shows-writing bus fs r (bit_or (bit_and v (0xFF - clear)) set ∷ []) w' c s),
    );
  }

  abbrev pub answer : Option (Unit {0}) × World → Charger → Bool × World × Charger
  answer (none, w) s = (false, w, s)
  answer (some _, w) s = (true, w, s)

  abbrev pub run : Call → World → Charger → Bool × World × Charger
  run (charge b) w s = answer (set_charge_enabled bus b w) s
  run (hiz b) w s = answer (set_hiz bus b w) s
  run (watchdog win) w s = set_watchdog bus win w s
  run (batfet m) w s = answer (set_batfet_mode bus m w) s

  abbrev settle : Call → Option (Unit {0}) × World → Charger → Bool × World × Charger
  settle (watchdog win) o s = keep_window bus win o s
  settle _ o s = answer o s

  abbrev update : Call → Transfer bus (Unit {0})
  update c = update_bits bus (target c) (clears c) (sets c)

  run_form :
      (c : Call) (w : World) (s : Charger) → run c w s ≡ settle c (under_bus bus (update c) w) s
  unfolding set_charge_enabled set_hiz set_watchdog write_watchdog set_batfet_mode
  run_form (charge b) w s = refl
  run_form (hiz b) w s = refl
  run_form (watchdog win) w s = refl
  run_form (batfet m) w s = refl

  abbrev pub window : Call → Watchdog → Watchdog
  window (watchdog win) old = win
  window _ old = old

  settle-true :
      (c : Call) (o : Option (Unit {0}) × World) (s : Charger)
      → (settle c o s).0 ≡ true
      → (o.0 ≡ some tt)
        × (settle c o s ≡ (true, o.1, record s { wd_window = window c s.wd_window }))
  settle-true (charge b) (none, w) s e = ground arith
  settle-true (charge b) (some _, w) s e = (refl, refl)
  settle-true (hiz b) (none, w) s e = ground arith
  settle-true (hiz b) (some _, w) s e = (refl, refl)
  settle-true (watchdog win) (none, w) s e = ground arith
  settle-true (watchdog win) (some _, w) s e = (refl, refl)
  settle-true (batfet m) (none, w) s e = ground arith
  settle-true (batfet m) (some _, w) s e = (refl, refl)

  under_bus-some :
      (t : Transfer bus (Unit {0})) (w : World)
      → (under_bus bus t w).0 ≡ some tt
      → under_bus bus t w ≡ t w
  under_bus-some t w e = elim (Bool-cases (acquire w)) [
    | inl y ↦ rw y
    | inr n ↦ absurd (none-ne-some tt (subst (λ b. (if b then t w else (none, w)).0 ≡ some tt) n e))
  ]

  update-bit :
      (c : Call) (w : World) (j : ℕ)
      → steady (target c) ≡ true
      → holds_bits (target c) ≡ holds c
      → (update c w).0 ≡ some tt
      → j < 8
      → bit (register (update c w).1 (target c)) j ≡ meant c j (bit (register w (target c)) j)
  update-bit c w j h m e k =
      let old = register w (target c) in
      let kept = bit_and old (0xFF - clears c) in
      ap (λ v. bit v j) (update_bits-register (target c) (clears c) (sets c) w h e)
      ∙ ap (λ x. bit (bit_and (bit_or kept (sets c)) x) j) m
      ∙ bit-bit_and j (bit_or kept (sets c)) (holds c)
      ∙ ap (λ x. min x (bit (holds c) j)) (bit-bit_or j kept (sets c))
      ∙ ap (λ x. min (max x (bit (sets c) j)) (bit (holds c) j))
          (bit-bit_and j old (0xFF - clears c))
      ∙ fields c (bit old j) j (bit-le-one j old) k

  -- On a bus where the target register is steady and shows the bits written, all but the WD_RST of
  -- CTRL1, a call that returns `true` has set its field of its register to the value asked for and
  -- left that register's other bits as they were (WD_RST reads as 0), has changed no other steady
  -- register, and of the driver's state only the watchdog's window, which is the one asked for.
  pub run-register :
      (c : Call) (w : World) (s : Charger) (j q : ℕ)
      → steady (target c) ≡ true
      → holds_bits (target c) ≡ holds c
      → j < 8
      → steady q ≡ true
      → q ≢ target c
      → (run c w s).0 ≡ true
      → let (_, w', s') = run c w s in
        (bit (register w' (target c)) j ≡ meant c j (bit (register w (target c)) j))
        × (register w' q ≡ register w q)
        × (s' ≡ record s { wd_window = window c s.wd_window })
  run-register c w s j q h m k l n e =
      let (done, settled) =
        settle-true c (under_bus bus (update c) w) s (sym (ap (λ r. r.0) (run_form c w s)) ∙ e) in
      let there = under_bus-some (update c) w done in
      let end = run_form c w s ∙ settled in
      let world : (run c w s).1 ≡ (update c w).1 = ap (λ r. r.1) end ∙ ap (λ r. r.1) there in
      (
        ap (λ v. bit (register v (target c)) j) world
            ∙ update-bit c w j h m (sym (ap (λ r. r.0) there) ∙ done) k,
        ap (λ v. register v q) world ∙ update_bits-keeps (target c) (clears c) (sets c) q w l n,
        ap (λ r. r.2) end,
      )
