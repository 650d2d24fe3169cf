-- ===== src/Gnss/Sats/Views.antt =====
-- The bounds of the satellites' arrays, and what is published.
use mathlib.Core.List.{append_assoc, append-nil}
use mokya_lora.Prelude.{
  sym, ap, take, length-take, take-length-append, lt-or-ge, ℕ, zero, suc, ◌+◌, ◌*◌, ◌≤◌, ◌≡◌, ◌⊎◌,
  inl, inr, refl, ◌∙◌, Bool, true, false, not, Option, none, some, List, [], ◌∷◌, ◌++◌, length,
  get_or, set, ltb, ◌==◌, if◌then◌else◌, ◌%◌, arith, length-append, length-set, add32,
}
use mokya_lora.Gnss.Nmea.{nmea_field}
use mokya_lora.Gnss.Sats.{
  Sat, Accum, Gsv, no_accum, slot_of, gsv_accum_for, fill, pool, add_sats, text_of, is_empty,
  sat_at, byte_of, parse_gsv, with_slot, with_fields, sentence, put, begin, publish_sat_view,
  known_or_claim, claim,
}

-- every accumulator holds at most its sixteen satellites
abbrev pub AllFit : List Accum → Type 0
AllFit [] = Unit
AllFit (a ∷ accums) = (length a.sats ≤ 16) × AllFit accums

AllFit-set :
    (accums : List Accum) (i : ℕ) (a : Accum)
    → AllFit accums
    → length a.sats ≤ 16
    → AllFit (set accums i a)
AllFit-set [] i a h l = tt
AllFit-set (b ∷ accums) zero a (h, k) l = (l, k)
AllFit-set (b ∷ accums) (suc i) a (h, k) l = (h, AllFit-set accums i a k l)

AllFit-get_or :
    (accums : List Accum) (i : ℕ) → AllFit accums → length (get_or accums i no_accum).sats ≤ 16
AllFit-get_or [] i h = omega arith
AllFit-get_or (b ∷ accums) zero (h, k) = h
AllFit-get_or (b ∷ accums) (suc i) (h, k) = AllFit-get_or accums i k

-- the satellites of all accumulators, in order
abbrev pub all_sats : List Accum → List Sat
all_sats [] = []
all_sats (a ∷ accums) = a.sats ++ all_sats accums

take-within {ℓ} : {A : Type ℓ} (n : ℕ) (xs : List A) → length xs ≤ n → take n xs ≡ xs
take-within zero [] h = refl
take-within zero (x ∷ xs) h = absurd (omega arith)
take-within (suc n) [] h = refl
take-within (suc n) (x ∷ xs) h = ap (λ t. x ∷ t) (take-within n xs (omega arith))

-- what is cut off before an append would be cut off behind it
take-append-take {ℓ} :
    {A : Type ℓ} (n : ℕ) (xs ys : List A) → take n (take n xs ++ ys) ≡ take n (xs ++ ys)
take-append-take zero xs ys = refl
take-append-take (suc n) [] ys = refl
take-append-take (suc n) (x ∷ xs) ys = ap (λ t. x ∷ t) (take-append-take n xs ys)

fill-take : (sats out : List Sat) → length out ≤ 32 → fill sats out ≡ take 32 (out ++ sats)
unfolding fill
fill-take [] out h = sym (ap (take 32) (append-nil out) ∙ take-within 32 out h)
fill-take (s ∷ sats) out h = elim (lt-or-ge (length out) 32) [
  | inl room ↦
      let more : fill sats (out ++ s ∷ []) ≡ take 32 ((out ++ s ∷ []) ++ sats) =
        fill-take sats (out ++ s ∷ []) (omega (◌%◌, arith, length-append out (s ∷ []))) in
      ground (arith, room) ∙ more ∙ ap (take 32) (append_assoc out (s ∷ []) sats)
  | inr full ↦
      ground (arith, full) ∙ sym (take-length-append 32 out (s ∷ sats) full ∙ take-within 32 out h)
]

pool-take :
    (accums : List Accum) (out : List Sat)
    → length out ≤ 32
    → pool accums out ≡ take 32 (out ++ all_sats accums)
unfolding pool
pool-take [] out h = sym (ap (take 32) (append-nil out) ∙ take-within 32 out h)
pool-take (a ∷ accums) out h =
    ap (pool accums) (fill-take a.sats out h)
    ∙ pool-take accums (take 32 (out ++ a.sats)) (omega (arith, length-take 32 (out ++ a.sats)))
    ∙ take-append-take 32 (out ++ a.sats) (all_sats accums)
    ∙ ap (take 32) (append_assoc out a.sats (all_sats accums))

length-if :
    (b : Bool) (x y : List Sat) → length x ≤ 16 → length y ≤ 16 → length (if b then x else y) ≤ 16
length-if true x y h k = h
length-if false x y h k = k

module _ (atoi : List ℕ → ℕ) where
  length-add_sats :
      (n : ℕ) (body : List ℕ) (base : ℕ) (sats : List Sat)
      → length sats ≤ 16
      → length (add_sats atoi n body base sats) ≤ 16
  unfolding add_sats
  length-add_sats zero body base sats h = h
  length-add_sats (suc n) body base sats h = elim (lt-or-ge (length sats) 16) [
    | inl room ↦
        let prn = text_of (nmea_field body base 8) in
        let next = sats ++ sat_at atoi body base prn ∷ [] in
        let more : length (add_sats atoi n body (base + 4) next) ≤ 16 =
          length-add_sats n body (base + 4) next
            (omega (◌%◌, arith, length-append sats (sat_at atoi body base prn ∷ []))) in
        length-if (not (ltb (length sats) 16)) sats _ h (length-if (is_empty prn) sats _ h more)
    | inr full ↦ ground (arith, full, h)
  ]

  -- what a sentence may do to the satellites
  abbrev pub Views : Gsv → Gsv → Type 0
  Views g g' =
      AllFit g'.accums
      × (length g'.accums ≡ length g.accums)
      × (((g'.view ≡ g.view) × (g'.update_count ≡ g.update_count))
          ⊎ ((g'.view ≡ take 32 (all_sats g'.accums))
              × (length g'.view ≤ 32)
              × (g'.update_count ≡ add32 g.update_count 1)))

  put-Views :
      (i : ℕ) (a : Accum) (g : Gsv)
      → AllFit g.accums
      → length a.sats ≤ 16
      → Views g (put atoi i a g)
  put-Views i a g h l = (AllFit-set g.accums i a h l, length-set g.accums i a, inl (refl, refl))

  publish-Views :
      (i : ℕ) (a : Accum) (g : Gsv)
      → AllFit g.accums
      → length a.sats ≤ 16
      → Views g (publish_sat_view (put atoi i a g))
  publish-Views i a g h l = (
    AllFit-set g.accums i a h l,
    length-set g.accums i a,
    inr (
      pool-take (set g.accums i a) [] (omega arith),
      omega (
        arith,
        ap length (pool-take (set g.accums i a) [] (omega arith)),
        length-take 32 (all_sats (set g.accums i a)),
      ),
      refl,
    ),
  )

  if-Views : (b : Bool) (g x y : Gsv) → Views g x → Views g y → Views g (if b then x else y)
  if-Views true g x y h k = h
  if-Views false g x y h k = k

  begin-fits :
      (total idx : ℕ) (a : Accum) → length a.sats ≤ 16 → length (begin atoi total idx a).sats ≤ 16
  begin-fits total idx a h = go (idx == 1)
    where
      go :
          (b : Bool)
          → let a' : Accum =
              if b then record a { expected_total = total; next_idx = 1; sats = [] } else a in
            length a'.sats ≤ 16
      go true = omega arith
      go false = h

  sentence-Views :
      (i total idx : ℕ) (body : List ℕ) (g : Gsv)
      → AllFit g.accums
      → Views g (sentence atoi i total idx body g)
  sentence-Views i total idx body g h =
      let a = begin atoi total idx (get_or g.accums i no_accum) in
      let fits = begin-fits total idx (get_or g.accums i no_accum) (AllFit-get_or g.accums i h) in
      let more = length-add_sats 4 body 4 a.sats fits in
      if-Views (not (idx == a.next_idx)) g _ _ (put-Views i (record a { next_idx = 0 }) g h fits) (
        if-Views (idx == total) g _ _
          (publish-Views i (record a { sats = add_sats atoi 4 body 4 a.sats; next_idx = 0 }) g h
            more)
          (put-Views i
            (record a { sats = add_sats atoi 4 body 4 a.sats; next_idx = (idx + 1) % 0x100 }) g h
            more))

  with_fields-Views :
      (i : ℕ) (body : List ℕ) (t x : Option (List ℕ)) (g : Gsv)
      → AllFit g.accums
      → Views g (with_fields atoi i body t x g)
  with_fields-Views i body none x g h = (h, refl, inl (refl, refl))
  with_fields-Views i body (some t) none g h = (h, refl, inl (refl, refl))
  with_fields-Views i body (some t) (some x) g h =
      sentence-Views i (byte_of atoi t) (byte_of atoi x) body g h

  claim-Views :
      (talker : ℕ) (o : Option ℕ) (body : List ℕ) (g : Gsv)
      → AllFit g.accums
      → Views g (with_slot atoi body (claim talker g.accums o) g)
  claim-Views talker none body g h = (h, refl, inl (refl, refl))
  claim-Views talker (some i) body g h =
      let a = record (get_or g.accums i no_accum) { talker = talker } in
      let accums = set g.accums i a in
      let (fit, size, shown) =
        with_fields-Views i body (nmea_field body 1 16) (nmea_field body 2 16)
          (record g { accums = accums }) (AllFit-set g.accums i a h (AllFit-get_or g.accums i h)) in
      (fit, size ∙ length-set g.accums i a, shown)

  known-Views :
      (talker : ℕ) (o : Option ℕ) (body : List ℕ) (g : Gsv)
      → AllFit g.accums
      → Views g (with_slot atoi body (known_or_claim talker g.accums o) g)
  known-Views talker none body g h = claim-Views talker (slot_of 0 g.accums 0) body g h
  known-Views talker (some i) body g h =
      with_fields-Views i body (nmea_field body 1 16) (nmea_field body 2 16) g h

  -- From accumulators of at most sixteen satellites each, any GSV sentence, in its turn or out of it,
  -- leaves as many accumulators, of at most sixteen satellites each. The satellites in view stay as they
  -- were, or they are the first thirty-two of all accumulators' in order, with the update counted once.
  pub parse_gsv-Views :
      (body : List ℕ) (g : Gsv) → AllFit g.accums → Views g (parse_gsv atoi body g)
  unfolding parse_gsv gsv_accum_for
  parse_gsv-Views body g h =
      let talker = get_or body 0 0 * 0x100 + get_or body 1 0 in
      known-Views talker (slot_of talker g.accums 0) body g h
