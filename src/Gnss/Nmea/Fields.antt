-- ===== src/Gnss/Nmea/Fields.antt =====
-- The fields of a sentence, against the list of them.
use mathlib.Core.Option
use mathlib.Core.List.{append_assoc}
use mokya_lora.Prelude.{
  ℕ, zero, suc, ◌-◌, ◌<◌, ◌≡◌, ◌≢◌, refl, sym, ap, ◌∙◌, Bool, true, false, ◌||◌, none, some, List,
  [], ◌∷◌, ◌++◌, length, get_elem?, ◌==◌, if◌then◌else◌, arith,
}
use mokya_lora.Gnss.Nmea.{star, comma, skip_to, copy_field, nmea_field}

-- the fields, with a comma between any two
abbrev pub join : List (List ℕ) → List ℕ
join [] = []
join (f ∷ []) = f
join (f ∷ g ∷ fs) = f ++ comma ∷ join (g ∷ fs)

abbrev pub IsPlain : ℕ → Type 0
IsPlain c = (c ≢ 0) × (c ≢ comma) × (c ≢ star)

abbrev pub AllPlain : List ℕ → Type 0
AllPlain [] = Unit
AllPlain (c ∷ cs) = IsPlain c × AllPlain cs

abbrev pub AllFields : List (List ℕ) → ℕ → Type 0
AllFields [] size = Unit
AllFields (f ∷ fs) size = AllPlain f × (length f < size) × AllFields fs size

-- a text that ends a field
abbrev ends_field : List ℕ → Bool
ends_field [] = true
ends_field (c ∷ p) = (c == 0) || (c == comma) || (c == star)

plain-goes_on : (c : ℕ) → IsPlain c → ((c == 0) || (c == comma) || (c == star)) ≡ false
plain-goes_on c (h, k, l) = ground (arith, h, k, l)

plain-skips : (c : ℕ) → IsPlain c → (((c == 0) || (c == star)) ≡ false) × ((c == comma) ≡ false)
plain-skips c (h, k, l) = (ground (arith, h, l), ground (arith, k))

copy_field-append :
    (room : ℕ) (f rest : List ℕ)
    → AllPlain f
    → length f < suc room
    → ends_field rest ≡ true
    → copy_field room (f ++ rest) ≡ f
unfolding copy_field
copy_field-append zero [] rest h l e = refl
copy_field-append (suc room) [] [] h l e = refl
copy_field-append (suc room) [] (c ∷ p) h l e = ap (λ b. if b then [] else c ∷ copy_field room p) e
copy_field-append zero (c ∷ f) rest h l e = absurd (omega arith)
copy_field-append (suc room) (c ∷ f) rest (h, k) l e =
    ap (λ b. if b then [] else c ∷ copy_field room (f ++ rest)) (plain-goes_on c h)
    ∙ ap (λ r. c ∷ r) (copy_field-append room f rest k (omega arith) e)

skip_to-append :
    (n : ℕ) (f rest : List ℕ) → AllPlain f → skip_to (suc n) (f ++ comma ∷ rest) ≡ skip_to n rest
unfolding skip_to
skip_to-append n [] rest h = refl
skip_to-append n (c ∷ f) rest (h, k) =
    let (going, same) = plain-skips c h in
    let more = skip_to (suc n) (f ++ comma ∷ rest) in
    let next = skip_to n (f ++ comma ∷ rest) in
    ap (λ b. if b then none else if c == comma then next else more) going
    ∙ ap (λ b. if b then next else more) same
    ∙ skip_to-append n f rest k

skip_to-last : (n : ℕ) (f rest : List ℕ) → AllPlain f → skip_to (suc n) (f ++ star ∷ rest) ≡ none
unfolding skip_to
skip_to-last n [] rest h = refl
skip_to-last n (c ∷ f) rest (h, k) =
    let (going, same) = plain-skips c h in
    let more = skip_to (suc n) (f ++ star ∷ rest) in
    let next = skip_to n (f ++ star ∷ rest) in
    ap (λ b. if b then none else if c == comma then next else more) going
    ∙ ap (λ b. if b then next else more) same
    ∙ skip_to-last n f rest k

field_form :
    (body : List ℕ) (n room : ℕ)
    → nmea_field body n (suc room) ≡ Option.map (copy_field room) (skip_to n body)
unfolding nmea_field
field_form body n room =
    let some_room : (suc room == 0) ≡ false = ground arith in
    let less : suc room - 1 ≡ room = omega arith in
    ap (λ b. if b then none else Option.map (copy_field (suc room - 1)) (skip_to n body)) some_room
    ∙ ap (λ r. Option.map (copy_field r) (skip_to n body)) less

skip_to-zero : (p : List ℕ) → skip_to 0 p ≡ some p
unfolding skip_to
skip_to-zero p = refl

first_field :
    (f rest : List ℕ) (room : ℕ)
    → AllPlain f
    → length f < suc room
    → ends_field rest ≡ true
    → nmea_field (f ++ rest) 0 (suc room) ≡ some f
first_field f rest room h k e =
    field_form (f ++ rest) 0 room
    ∙ ap (Option.map (copy_field room)) (skip_to-zero (f ++ rest))
    ∙ ap some (copy_field-append room f rest h k e)

-- For a body of at least one field, whose fields hold no comma, star or 0 and fit the buffer, and that a
-- star ends, `nmea_field` finds the `n`-th field, and none behind the last.
pub nmea_field-join :
    (f : List ℕ) (fs : List (List ℕ)) (rest : List ℕ) (n size : ℕ)
    → 0 < size
    → AllFields (f ∷ fs) size
    → nmea_field (join (f ∷ fs) ++ star ∷ rest) n size ≡ get_elem? (f ∷ fs) n
nmea_field-join f fs rest n zero l h = absurd (omega arith)
nmea_field-join f [] rest zero (suc room) l (h, k, _) = first_field f (star ∷ rest) room h k refl
nmea_field-join f [] rest (suc n) (suc room) l (h, k, _) =
    field_form (f ++ star ∷ rest) (suc n) room
    ∙ ap (Option.map (copy_field room)) (skip_to-last n f rest h)
nmea_field-join f (g ∷ fs) rest zero (suc room) l (h, k, m) =
    let more = join (g ∷ fs) ++ star ∷ rest in
    ap (λ b. nmea_field b 0 (suc room)) (append_assoc f (comma ∷ join (g ∷ fs)) (star ∷ rest))
    ∙ first_field f (comma ∷ more) room h k refl
nmea_field-join f (g ∷ fs) rest (suc n) (suc room) l (h, k, m) =
    let more = join (g ∷ fs) ++ star ∷ rest in
    ap (λ b. nmea_field b (suc n) (suc room)) (append_assoc f (comma ∷ join (g ∷ fs)) (star ∷ rest))
    ∙ field_form (f ++ comma ∷ more) (suc n) room
    ∙ ap (Option.map (copy_field room)) (skip_to-append n f more h)
    ∙ sym (field_form more n room)
    ∙ nmea_field-join g fs rest n (suc room) l m
