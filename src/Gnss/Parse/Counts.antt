-- ===== src/Gnss/Parse/Counts.antt =====
-- The whole receiver on a stream of lines: what its counters count, and the bounds of its arrays.
use mokya_lora.Prelude.{
  ℕ, ◌+◌, ◌%◌, ◌≤◌, ◌<◌, ◌≡◌, inl, inr, refl, sym, ap, ◌∙◌, subst, Bool, true, false, not, ◌&&◌,
  Option, none, some, List, [], ◌∷◌, length, ltb, leb, if◌then◌else◌, arith, add32, u32,
}
use mokya_lora.Bus.Link.{Link}
use mokya_lora.Gnss.Nmea.{dollar, nmea_verify, nmea_field}
use mokya_lora.Gnss.Line.{
  Sentence, savepar_error, setpar_error, savepar_ok, setpar_ok, setpar, notchstatus, noise, cpu,
  rf_sats, Receiver, kind, handle, dispatch_line,
}
use mokya_lora.Gnss.Line.Stream.{AllLines, stream, unpadded, received, polls, accept, polls-accept}
use mokya_lora.Gnss.Sats.Views.{AllFit, parse_gsv-Views}
use mokya_lora.Gnss.Diagnostics.{field}
use mokya_lora.Gnss.Parse.{
  Libc, Fix, Teseo, parse, parse_gga, parse_rmc, parse_gst, position, full, getpar, letter,
  gga_fields, nmea_coord_e7,
}

-- the sentence of a line without its dollar sign, when it fits the buffer, is long enough and verified
abbrev pub sentence_of : (List ℕ → ℕ) → List ℕ → Option Sentence
sentence_of strtoul l =
    if leb (length l) 94 && (not (ltb (length (dollar ∷ l)) 8) && nmea_verify strtoul (dollar ∷ l))
    then kind l
    else none

-- The sentences that `sentence_count` counts.
abbrev pub counts : Option Sentence → ℕ
counts (some Sentence.gga) = 1
counts (some Sentence.rmc) = 1
counts _ = 0

abbrev pub counted : (List ℕ → ℕ) → List (List ℕ) → ℕ
counted strtoul [] = 0
counted strtoul (l ∷ ls) = counts (sentence_of strtoul l) + counted strtoul ls

module _ (c : Libc) (strtoul : List ℕ → ℕ) where
  accepted :
      (l : List ℕ) (s : Teseo)
      → (if leb (length l) 94 then dispatch_line strtoul (parse c) (dollar ∷ l) s else s)
        ≡ handle strtoul (parse c) (sentence_of strtoul l) l s
  unfolding dispatch_line
  accepted l s =
      go (leb (length l) 94) (ltb (length (dollar ∷ l)) 8) (nmea_verify strtoul (dollar ∷ l))
    where
      go :
          (fits short ok : Bool)
          → (if fits
              then (if short
                  then s
                  else if false
                  then s
                  else if not ok
                  then s
                  else handle strtoul (parse c) (kind l) l s)
              else s)
            ≡ handle strtoul (parse c) (if fits && (not short && ok) then kind l else none) l s
      go false short ok = refl
      go true true ok = refl
      go true false true = refl
      go true false false = refl

  position-count :
      (lat lon : Option (List ℕ)) (ns ew : ℕ) (s : Fix)
      → (position c lat lon ns ew s).sentence_count ≡ s.sentence_count
  position-count none lon ns ew s = refl
  position-count (some lat) none ns ew s = refl
  position-count (some lat) (some lon) ns ew s = go (ltb 0 s.fix_quality)
    where
      go :
          (b : Bool)
          → let placed : Fix =
              if b
              then record s { lat_e7 = nmea_coord_e7 c lat ns; lon_e7 = nmea_coord_e7 c lon ew }
              else s in
            placed.sentence_count ≡ s.sentence_count
      go true = refl
      go false = refl

  getpar-count :
      (value mode : Option (List ℕ)) (s : Teseo)
      → (getpar c value mode s).fix.sentence_count ≡ s.fix.sentence_count
  getpar-count none mode s = refl
  getpar-count (some v) none s = refl
  getpar-count (some v) (some m) s = refl

  getpar-gsv : (value mode : Option (List ℕ)) (s : Teseo) → (getpar c value mode s).gsv ≡ s.gsv
  getpar-gsv none mode s = refl
  getpar-gsv (some v) none s = refl
  getpar-gsv (some v) (some m) s = refl

  parse_gga-count :
      (l : List ℕ) (s : Fix) → (parse_gga c l s).sentence_count ≡ add32 s.sentence_count 1
  unfolding parse_gga
  parse_gga-count l s =
      ap (λ x. add32 x 1)
        (position-count (full (field l 2)) (full (field l 4)) (letter c l 3 0x4E)
          (letter c l 5 0x45) (gga_fields c l s))

  handle-count :
      (k : Option Sentence) (l : List ℕ) (s : Teseo)
      → s.fix.sentence_count < u32
      → (handle strtoul (parse c) k l s).fix.sentence_count
        ≡ (s.fix.sentence_count + counts k) % u32
  unfolding parse parse_rmc parse_gst
  handle-count none l s h = omega arith
  handle-count (some Sentence.gga) l s h = parse_gga-count l s.fix
  handle-count (some Sentence.rmc) l s h = refl
  handle-count (some Sentence.gsv) l s h = omega arith
  handle-count (some Sentence.gst) l s h = omega arith
  handle-count (some savepar_error) l s h = omega arith
  handle-count (some setpar_error) l s h = omega arith
  handle-count (some savepar_ok) l s h = omega arith
  handle-count (some setpar_ok) l s h = omega arith
  handle-count (some setpar) l s h =
      getpar-count (full (nmea_field l 2 32)) (full (nmea_field l 3 4)) s ∙ omega (arith, h)
  handle-count (some notchstatus) l s h = omega arith
  handle-count (some noise) l s h = omega arith
  handle-count (some cpu) l s h = omega arith
  handle-count (some rf_sats) l s h = omega arith

  -- Every accumulator of a receiver is within its bounds, and so are the satellites in view.
  abbrev pub IsBounded : Teseo → Type 0
  IsBounded s = (s.fix.sentence_count < u32) × AllFit s.gsv.accums × (length s.gsv.view ≤ 32)

  handle-AllFit :
      (k : Option Sentence) (l : List ℕ) (s : Teseo)
      → AllFit s.gsv.accums
      → length s.gsv.view ≤ 32
      → let s' = handle strtoul (parse c) k l s in AllFit s'.gsv.accums × (length s'.gsv.view ≤ 32)
  unfolding parse
  handle-AllFit none l s h v = (h, v)
  handle-AllFit (some Sentence.gga) l s h v = (h, v)
  handle-AllFit (some Sentence.rmc) l s h v = (h, v)
  handle-AllFit (some Sentence.gsv) l s h v =
      let (fit, size, shown) = parse_gsv-Views c.atoi l s.gsv h in
      (
        fit,
        elim shown [
          | inl (same, counted) ↦ subst (λ t. length t ≤ 32) (sym same) v
          | inr (pooled, bound, counted) ↦ bound
        ],
      )
  handle-AllFit (some Sentence.gst) l s h v = (h, v)
  handle-AllFit (some savepar_error) l s h v = (h, v)
  handle-AllFit (some setpar_error) l s h v = (h, v)
  handle-AllFit (some savepar_ok) l s h v = (h, v)
  handle-AllFit (some setpar_ok) l s h v = (h, v)
  handle-AllFit (some setpar) l s h v =
      subst (λ g. AllFit g.accums × (length g.view ≤ 32))
        (sym (getpar-gsv (full (nmea_field l 2 32)) (full (nmea_field l 3 4)) s)) (h, v)
  handle-AllFit (some notchstatus) l s h v = (h, v)
  handle-AllFit (some noise) l s h v = (h, v)
  handle-AllFit (some cpu) l s h v = (h, v)
  handle-AllFit (some rf_sats) l s h v = (h, v)

  accept-counts :
      (ls : List (List ℕ)) (s : Teseo)
      → IsBounded s
      → let s' = accept strtoul (parse c) ls s in
        (s'.fix.sentence_count ≡ (s.fix.sentence_count + counted strtoul ls) % u32) × IsBounded s'
  accept-counts [] s (h, k, v) = (omega (arith, h), (h, k, v))
  accept-counts (l ∷ ls) s (h, k, v) =
      let next = handle strtoul (parse c) (sentence_of strtoul l) l s in
      let more = counts (sentence_of strtoul l) in
      let one = handle-count (sentence_of strtoul l) l s h in
      let small : next.fix.sentence_count < u32 = omega (arith, one) in
      let (fit, view) = handle-AllFit (sentence_of strtoul l) l s k v in
      let (rest, bounded) = accept-counts ls next (small, fit, view) in
      let sum : (next.fix.sentence_count + counted strtoul ls) % u32
          ≡ (s.fix.sentence_count + (more + counted strtoul ls)) % u32 =
        omega (arith, one) in
      subst
        (λ t.
          let s' = accept strtoul (parse c) ls t in
          (s'.fix.sentence_count ≡ (s.fix.sentence_count + (more + counted strtoul ls)) % u32)
          × IsBounded s')
        (sym (accepted l s)) (rest ∙ sum, bounded)

  -- When what successive polls read, some of which may fail, is a stream of lines of text, cut anywhere
  -- and padded anywhere, then from a receiver within its bounds, `sentence_count` goes up, modulo 2^32,
  -- by the number of lines that fit the buffer, pass their check and are GGA or RMC sentences; no
  -- accumulator of satellites holds more than sixteen, and no more than thirty-two are in view.
  pub polls-counts :
      (os : List (Option (List ℕ))) (ls : List (List ℕ)) (k : Link) (r : Receiver Teseo)
      → AllLines ls
      → unpadded (received os) ≡ stream ls
      → IsBounded r.state
      → let s' = (polls strtoul (parse c) os k r).1.state in
        (s'.fix.sentence_count ≡ (r.state.fix.sentence_count + counted strtoul ls) % u32)
        × AllFit s'.gsv.accums
        × (length s'.gsv.view ≤ 32)
  polls-counts os ls k r h e b =
      let (count, (_, fit, view)) = accept-counts ls r.state b in
      subst
        (λ s'.
          (s'.fix.sentence_count ≡ (r.state.fix.sentence_count + counted strtoul ls) % u32)
          × AllFit s'.gsv.accums
          × (length s'.gsv.view ≤ 32))
        (sym (polls-accept strtoul (parse c) os ls k r h e)) (count, fit, view)
