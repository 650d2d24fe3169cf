-- ===== src/Gnss/Line/Stream.antt =====
-- A stream of sentences, in whatever pieces it is read.
use mathlib.Core.List.{append_assoc, append-nil}
use mokya_lora.Prelude.{
  lt-or-ge, ℕ, ◌+◌, ◌≤◌, ◌<◌, ◌≡◌, ◌≢◌, inl, inr, refl, sym, ap, ◌∙◌, Bool, true, false, not, ◌&&◌,
  ◌||◌, Option, none, some, List, [], ◌∷◌, ◌++◌, length, ltb, leb, ◌==◌, if◌then◌else◌, arith,
  length-append, Bool-cases,
}
use mokya_lora.Bus.Link.{Link}
use mokya_lora.Gnss.Nmea.{dollar}
use mokya_lora.Gnss.Line.{
  Sentence, Receiver, fill_byte, dispatch_line, accumulate_byte, drain, poll,
}

-- a character of a sentence
abbrev pub IsText : ℕ → Type 0
IsText c = (0x20 ≤ c) × (c ≢ dollar) × (c ≢ fill_byte)

abbrev pub AllText : List ℕ → Type 0
AllText [] = Unit
AllText (c ∷ cs) = IsText c × AllText cs

abbrev pub AllLines : List (List ℕ) → Type 0
AllLines [] = Unit
AllLines (l ∷ ls) = AllText l × AllLines ls

-- the lines on the wire
abbrev pub stream : List (List ℕ) → List ℕ
stream [] = []
stream (l ∷ ls) = dollar ∷ (l ++ 0x0D ∷ 0x0A ∷ stream ls)

-- the padding that the drain passes over
abbrev pub is_pad : ℕ → Bool
is_pad c = (c == fill_byte) || (ltb c 0x20 && not (c == 0x0D) && not (c == 0x0A))

abbrev pub unpadded : List ℕ → List ℕ
unpadded [] = []
unpadded (c ∷ cs) = let rest = unpadded cs in if is_pad c then rest else c ∷ rest

-- what the reads brought that did not fail
abbrev pub received : List (Option (List ℕ)) → List ℕ
received [] = []
received (none ∷ os) = received os
received (some cs ∷ os) = cs ++ received os

module _ {S : Type 0} (strtoul : List ℕ → ℕ) (parse : Sentence → List ℕ → S → S) where
  abbrev pub polls : List (Option (List ℕ)) → Link → Receiver S → Link × Receiver S
  polls [] l r = (l, r)
  polls (o ∷ os) l r = let (_, l', r') = poll strtoul parse o l r in polls os l' r'

  -- the lines that fit the buffer, dispatched in order
  abbrev pub accept : List (List ℕ) → S → S
  accept [] s = s
  accept (l ∷ ls) s =
      accept ls (if leb (length l) 94 then dispatch_line strtoul parse (dollar ∷ l) s else s)

  drain_pad :
      (x : ℕ) (xs : List ℕ) (r : Receiver S)
      → is_pad x ≡ true
      → drain strtoul parse (x ∷ xs) r ≡ drain strtoul parse xs r
  unfolding drain
  drain_pad x xs r h =
      ap
        (λ b.
          if b
          then drain strtoul parse xs r
          else drain strtoul parse xs (accumulate_byte strtoul parse x r))
        h

  drain_text :
      (x : ℕ) (xs : List ℕ) (r : Receiver S)
      → is_pad x ≡ false
      → drain strtoul parse (x ∷ xs) r ≡ drain strtoul parse xs (accumulate_byte strtoul parse x r)
  unfolding drain
  drain_text x xs r h =
      ap
        (λ b.
          if b
          then drain strtoul parse xs r
          else drain strtoul parse xs (accumulate_byte strtoul parse x r))
        h

  drain_nil : (r : Receiver S) → drain strtoul parse [] r ≡ r
  unfolding drain
  drain_nil r = refl

  drain-append :
      (xs ys : List ℕ) (r : Receiver S)
      → drain strtoul parse (xs ++ ys) r ≡ drain strtoul parse ys (drain strtoul parse xs r)
  drain-append [] ys r = ap (drain strtoul parse ys) (sym (drain_nil r))
  drain-append (x ∷ xs) ys r = elim (Bool-cases (is_pad x)) [
    | inl pad ↦
        drain_pad x (xs ++ ys) r pad
        ∙ drain-append xs ys r
        ∙ ap (drain strtoul parse ys) (sym (drain_pad x xs r pad))
    | inr text ↦
        drain_text x (xs ++ ys) r text
        ∙ drain-append xs ys (accumulate_byte strtoul parse x r)
        ∙ ap (drain strtoul parse ys) (sym (drain_text x xs r text))
  ]

  drain-unpadded :
      (xs : List ℕ) (r : Receiver S)
      → drain strtoul parse (unpadded xs) r ≡ drain strtoul parse xs r
  drain-unpadded [] r = refl
  drain-unpadded (x ∷ xs) r = elim (Bool-cases (is_pad x)) [
    | inl pad ↦
        ap (λ b. drain strtoul parse (if b then unpadded xs else x ∷ unpadded xs) r) pad
        ∙ drain-unpadded xs r
        ∙ sym (drain_pad x xs r pad)
    | inr text ↦
        ap (λ b. drain strtoul parse (if b then unpadded xs else x ∷ unpadded xs) r) text
        ∙ drain_text x (unpadded xs) r text
        ∙ drain-unpadded xs (accumulate_byte strtoul parse x r)
        ∙ sym (drain_text x xs r text)
  ]

  -- a character of a sentence is appended while there is room
  accumulate-text :
      (c : ℕ) (line : List ℕ) (s : S)
      → IsText c
      → 0 < length line
      → length line < 95
      → accumulate_byte strtoul parse c (record { line = line; state = s })
        ≡ record { line = line ++ c ∷ []; state = s }
  unfolding accumulate_byte
  accumulate-text c line s (h, k, l) p q = ground arith

  accumulate-over :
      (c : ℕ) (line : List ℕ) (s : S)
      → IsText c
      → 95 ≤ length line
      → accumulate_byte strtoul parse c (record { line = line; state = s })
        ≡ record { line = []; state = s }
  unfolding accumulate_byte
  accumulate-over c line s (h, k, l) p = ground arith

  accumulate-nil :
      (c : ℕ) (s : S)
      → IsText c
      → accumulate_byte strtoul parse c (record { line = []; state = s })
        ≡ record { line = []; state = s }
  unfolding accumulate_byte
  accumulate-nil c s (h, k, l) = ground arith

  text-kept : (c : ℕ) → IsText c → is_pad c ≡ false
  text-kept c (h, k, l) = ground (arith, h, l)

  drain_nothing :
      (l rest : List ℕ) (s : S)
      → AllText l
      → drain strtoul parse (l ++ rest) (record { line = []; state = s })
        ≡ drain strtoul parse rest (record { line = []; state = s })
  drain_nothing [] rest s h = refl
  drain_nothing (c ∷ l) rest s (h, k) =
      drain_text c (l ++ rest) (record { line = []; state = s }) (text-kept c h)
      ∙ ap (drain strtoul parse (l ++ rest)) (accumulate-nil c s h)
      ∙ drain_nothing l rest s k

  -- the accumulator behind the text of a line
  abbrev held : List ℕ → List ℕ → List ℕ
  held line l = if leb (length line + length l) 95 then line ++ l else []

  held-nil : (line : List ℕ) → length line ≤ 95 → line ≡ held line []
  held-nil line q =
      let fits : true ≡ leb (length line + 0) 95 = ground arith in
      sym (append-nil line) ∙ ap (λ b. if b then line ++ [] else []) fits

  held-snoc : (line l : List ℕ) (c : ℕ) → held (line ++ c ∷ []) l ≡ held line (c ∷ l)
  held-snoc line l c =
      let same : length (line ++ c ∷ []) + length l ≡ length line + length (c ∷ l) =
        omega (arith, length-append line (c ∷ [])) in
      ap (λ n. if leb n 95 then (line ++ c ∷ []) ++ l else []) same
      ∙ ap (λ t. if leb (length line + length (c ∷ l)) 95 then t else [])
          (append_assoc line (c ∷ []) l)

  held-over : (line l : List ℕ) (c : ℕ) → 95 ≤ length line → [] ≡ held line (c ∷ l)
  held-over line l c q =
      let over : false ≡ leb (length line + length (c ∷ l)) 95 = ground arith in
      ap (λ b. if b then line ++ c ∷ l else []) over

  drain_line :
      (l line rest : List ℕ) (s : S)
      → AllText l
      → 0 < length line
      → length line ≤ 95
      → drain strtoul parse (l ++ rest) (record { line = line; state = s })
        ≡ drain strtoul parse rest (record { line = held line l; state = s })
  drain_line [] line rest s h p q =
      ap (λ t. drain strtoul parse rest (record { line = t; state = s })) (held-nil line q)
  drain_line (c ∷ l) line rest s (h, k) p q =
      drain_text c (l ++ rest) (record { line = line; state = s }) (text-kept c h)
      ∙ elim (lt-or-ge (length line) 95) [
        | inl room ↦
            ap (drain strtoul parse (l ++ rest)) (accumulate-text c line s h p room)
            ∙ drain_line l (line ++ c ∷ []) rest s k (omega (arith, length-append line (c ∷ [])))
                (omega (arith, length-append line (c ∷ [])))
            ∙ ap (λ t. drain strtoul parse rest (record { line = t; state = s }))
                (held-snoc line l c)
        | inr full ↦
            ap (drain strtoul parse (l ++ rest)) (accumulate-over c line s h full)
            ∙ drain_nothing l rest s k
            ∙ ap (λ t. drain strtoul parse rest (record { line = t; state = s }))
                (held-over line l c full)
      ]

  accumulate-dollar :
      (r : Receiver S)
      → accumulate_byte strtoul parse dollar r ≡ record { line = dollar ∷ []; state = r.state }
  unfolding accumulate_byte
  accumulate-dollar r = refl

  -- the end of a line
  drain-crlf :
      (rest : List ℕ) (r : Receiver S)
      → drain strtoul parse (0x0D ∷ 0x0A ∷ rest) r
        ≡ drain strtoul parse rest
            (record { line = []; state = dispatch_line strtoul parse r.line r.state })
  unfolding drain accumulate_byte
  drain-crlf rest r = refl

  dispatch-if :
      (b : Bool) (line : List ℕ) (s : S)
      → dispatch_line strtoul parse (if b then line else []) s
        ≡ (if b then dispatch_line strtoul parse line s else s)
  unfolding dispatch_line
  dispatch-if true line s = refl
  dispatch-if false line s = refl

  dispatch-held :
      (l : List ℕ) (s : S)
      → dispatch_line strtoul parse (held (dollar ∷ []) l) s
        ≡ (if leb (length l) 94 then dispatch_line strtoul parse (dollar ∷ l) s else s)
  dispatch-held l s =
      let fits : leb (length (dollar ∷ []) + length l) 95 ≡ leb (length l) 94 = ground arith in
      ap (λ b. dispatch_line strtoul parse (if b then dollar ∷ l else []) s) fits
      ∙ dispatch-if (leb (length l) 94) (dollar ∷ l) s

  -- The lines of a stream go to the parsers one by one.
  drain-stream :
      (ls : List (List ℕ)) (r : Receiver S)
      → AllLines ls
      → (drain strtoul parse (stream ls) r).state ≡ accept ls r.state
  drain-stream [] r h = ap (λ t. t.state) (drain_nil r)
  drain-stream (l ∷ ls) r (h, k) =
      let rest = 0x0D ∷ 0x0A ∷ stream ls in
      ap (λ t. t.state) (drain_text dollar (l ++ rest) r refl)
      ∙ ap (λ t. (drain strtoul parse (l ++ rest) t).state) (accumulate-dollar r)
      ∙ ap (λ t. t.state) (drain_line l (dollar ∷ []) rest r.state h (omega arith) (omega arith))
      ∙ ap (λ t. t.state)
          (drain-crlf (stream ls) (record { line = held (dollar ∷ []) l; state = r.state }))
      ∙ drain-stream ls
          (record { line = []; state = dispatch_line strtoul parse (held (dollar ∷ []) l) r.state })
          k
      ∙ ap (accept ls) (dispatch-held l r.state)

  polls-drain :
      (os : List (Option (List ℕ))) (l : Link) (r : Receiver S)
      → (polls os l r).1 ≡ drain strtoul parse (received os) r
  unfolding poll
  polls-drain [] l r = sym (drain_nil r)
  polls-drain (none ∷ os) l r = polls-drain os _ r
  polls-drain (some cs ∷ os) l r =
      polls-drain os _ (drain strtoul parse cs r) ∙ sym (drain-append cs (received os) r)

  -- When what successive polls read, some of which may fail, is a stream of lines of text, cut anywhere
  -- and padded anywhere, then whatever the accumulator held before, each line that fits the buffer is
  -- dispatched once, as a whole and in order, and nothing else is.
  pub polls-accept :
      (os : List (Option (List ℕ))) (ls : List (List ℕ)) (l : Link) (r : Receiver S)
      → AllLines ls
      → unpadded (received os) ≡ stream ls
      → (polls os l r).1.state ≡ accept ls r.state
  polls-accept os ls l r h e =
      ap (λ t. t.state) (polls-drain os l r ∙ sym (drain-unpadded (received os) r))
      ∙ ap (λ t. (drain strtoul parse t r).state) e
      ∙ drain-stream ls r h
