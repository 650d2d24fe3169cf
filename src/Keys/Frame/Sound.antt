-- ===== src/Keys/Frame/Sound.antt =====
-- The parser reports nothing but frames that stood in its input, whole and with their checksum.
use mathlib.Core.List.{append_assoc, append-nil}
use mokya_lora.Prelude.{
  ℕ, suc, ◌≤◌, ◌<◌, ◌≡◌, refl, sym, ap, ◌∙◌, subst, Option, none, some, List, [], ◌∷◌, ◌++◌, length,
  arith, set, take, take-set_snoc, length-take, Bool-cases, inl, inr, ◌==◌, leb, ltb, inc8, ==_iff,
}
use mokya_lora.Keys.Frame.{
  Phase, st_magic0, st_magic1, st_type, st_len, st_payload, st_crc, Parser, Frame, max_payload,
  step_in, step, push, reset, reported, encode, magic0, magic1, crc8, covered,
}
use mokya_lora.Keys.Frame.Bounds.{PhaseInv, IsValid, step-IsValid}

-- the bytes of a frame that the parser has so far
abbrev partial : Phase → Parser → List ℕ
partial st_magic0 p = []
partial st_magic1 p = magic0 ∷ []
partial st_type p = magic0 ∷ magic1 ∷ []
partial st_len p = magic0 ∷ magic1 ∷ p.type ∷ []
partial st_payload p = magic0 ∷ magic1 ∷ p.type ∷ p.len ∷ take p.idx p.payload
partial st_crc p = magic0 ∷ magic1 ∷ p.type ∷ p.len ∷ take p.len p.payload

-- These end what was seen.
abbrev Tracks : Phase → Parser → List ℕ → Type 0
Tracks m p seen = (pre : List ℕ) × (seen ≡ pre ++ partial m p)

abbrev Good : Parser × Option Frame → List ℕ → Type 0
Good (q, none) seen = Tracks q.phase q seen
Good (q, some f) seen = (q.phase ≡ st_magic0) × ((pre : List ℕ) × (seen ≡ pre ++ encode f))

snoc :
    (seen pre part : List ℕ) (b : ℕ) → seen ≡ pre ++ part → seen ++ b ∷ [] ≡ pre ++ (part ++ b ∷ [])
snoc seen pre part b e = ap (λ l. l ++ b ∷ []) e ∙ append_assoc pre part (b ∷ [])

restart : (seen : List ℕ) → seen ≡ seen ++ []
restart seen = sym (append-nil seen)

-- A frame's bytes, once its checksum has come.
taken : Parser → Frame
taken p = record { type = p.type; payload = take p.len p.payload }

encode-taken :
    (p : Parser) (b : ℕ)
    → length p.payload ≡ max_payload
    → p.len ≤ max_payload
    → crc8 (covered p) ≡ b
    → partial st_crc p ++ b ∷ [] ≡ encode (taken p)
unfolding encode taken
encode-taken p b room fits sum =
    ap (λ x. magic0 ∷ magic1 ∷ p.type ∷ p.len ∷ (take p.len p.payload ++ x ∷ [])) (sym sum)
    ∙ ap
        (λ n.
          magic0
          ∷ magic1
          ∷ p.type
          ∷ n
          ∷ (take p.len p.payload ++ crc8 (p.type ∷ n ∷ take p.len p.payload) ∷ []))
        size
  where
    size : p.len ≡ length (take p.len p.payload)
    size = omega (arith, length-take p.len p.payload)

-- The buffer, once a byte of the payload has come.
store-partial :
    (p : Parser) (b n : ℕ)
    → length p.payload ≡ max_payload
    → p.idx < max_payload
    → n ≡ suc p.idx
    → take p.idx p.payload ++ b ∷ [] ≡ take n (set p.payload p.idx b)
store-partial p b n room h e =
    sym (ap (λ n. take n (set p.payload p.idx b)) e ∙ take-set_snoc p.payload p.idx b (omega arith))

step_in-Good :
    (m : Phase) (p : Parser) (b : ℕ) (seen : List ℕ)
    → p.phase ≡ m
    → length p.payload ≡ max_payload
    → PhaseInv m p.len p.idx
    → Tracks m p seen
    → Good (step_in m p b) (seen ++ b ∷ [])
unfolding step_in taken
step_in-Good st_magic0 p b seen e room k (pre, at) = elim (Bool-cases (b == magic0)) [
  | inl t ↦ rw t (seen, ap (λ x. seen ++ x ∷ []) ((==_iff b magic0).0 t))
  | inr f ↦ rw (f, e) (seen ++ b ∷ [], restart (seen ++ b ∷ []))
]
step_in-Good st_magic1 p b seen e room k (pre, at) = elim (Bool-cases (b == magic1)) [
  | inl t ↦
      rw t (pre, snoc seen pre _ b at ∙ ap (λ x. pre ++ magic0 ∷ x ∷ []) ((==_iff b magic1).0 t))
  | inr f ↦ elim (Bool-cases (b == magic0)) [
    | inl t ↦ rw (f, t) (seen, ap (λ x. seen ++ x ∷ []) ((==_iff b magic0).0 t))
    | inr g ↦ rw (f, g) (seen ++ b ∷ [], restart (seen ++ b ∷ []))
  ]
]
step_in-Good st_type p b seen e room k (pre, at) = (pre, snoc seen pre _ b at)
step_in-Good st_len p b seen e room k (pre, at) = elim (Bool-cases (ltb max_payload b)) [
  | inl t ↦ rw t (seen ++ b ∷ [], restart (seen ++ b ∷ []))
  | inr f ↦ elim (Bool-cases (b == 0)) [
    | inl z ↦
        rw (f, z)
          (
            pre,
            snoc seen pre _ b at
                ∙ ap (λ n. pre ++ magic0 ∷ magic1 ∷ p.type ∷ b ∷ take n p.payload)
                    (sym ((==_iff b 0).0 z)),
          )
    | inr z ↦ rw (f, z) (pre, snoc seen pre _ b at)
  ]
]
step_in-Good st_payload p b seen e room k (pre, at) = elim (Bool-cases (leb p.len (inc8 p.idx))) [
  | inl t ↦ rw t (
    pre,
    snoc seen pre _ b at
        ∙ ap (λ l. pre ++ magic0 ∷ magic1 ∷ p.type ∷ p.len ∷ l)
            (store-partial p b p.len room (omega arith) (ground arith)),
  )
  | inr f ↦ rw f (
    pre,
    snoc seen pre _ b at
        ∙ ap (λ l. pre ++ magic0 ∷ magic1 ∷ p.type ∷ p.len ∷ l)
            (store-partial p b (inc8 p.idx) room (omega arith) (ground arith)),
  )
]
step_in-Good st_crc p b seen e room k (pre, at) = elim (Bool-cases (crc8 (covered p) == b)) [
  | inl t ↦ rw t (
    refl,
    (pre, snoc seen pre _ b at ∙ ap (λ l. pre ++ l) (encode-taken p b room k ((==_iff _ b).0 t))),
  )
  | inr f ↦ rw f (seen ++ b ∷ [], restart (seen ++ b ∷ []))
]

-- The input holds the encodings of these frames, one behind the other, with anything between them.
abbrev pub Splits : List Frame → List ℕ → Type 0
Splits [] l = Unit
Splits (f ∷ fs) l =
    (gap : List ℕ) × ((rest : List ℕ) × (l ≡ gap ++ (encode f ++ rest)) × Splits fs rest)

-- the same behind one byte, from what is known of the rest
step-Splits :
    (bs seen : List ℕ) (b : ℕ)
    → ((seen' : List ℕ) (q : Parser)
        → IsValid q
        → Tracks q.phase q seen'
        → Splits (push q bs).1 (seen' ++ bs))
    → (r : Parser × Option Frame) → Good r (seen ++ b ∷ [])
    → IsValid r.0
    → Splits (reported r.1 ++ (push r.0 bs).1) (seen ++ b ∷ bs)
step-Splits bs seen b ih (q, none) g w =
    subst (Splits (push q bs).1) (append_assoc seen (b ∷ []) bs) (ih (seen ++ b ∷ []) q w g)
step-Splits bs seen b ih (q, some f) (m, (pre, at)) w = (
  pre,
  (
    bs,
    sym (append_assoc seen (b ∷ []) bs) ∙ ap (λ l. l ++ bs) at ∙ append_assoc pre (encode f) bs,
    ih [] q w (subst (λ m. Tracks m q []) (sym m) ([], refl)),
  ),
)

push-Splits_from :
    (bs seen : List ℕ) (p : Parser)
    → IsValid p
    → Tracks p.phase p seen
    → Splits (push p bs).1 (seen ++ bs)
unfolding push
push-Splits_from [] seen p v t = tt
push-Splits_from (b ∷ bs) seen p v t =
    step-Splits bs seen b (push-Splits_from bs) (step p b)
      (step_in-Good p.phase p b seen refl v.buffer v.phase t) (step-IsValid p b v)

-- Whatever bytes come in after a reset, noise, damaged frames and cut-off frames included, the
-- frames that the parser reports stand in them whole, with both start bytes, their length and
-- their checksum, one behind the other and in that order.
pub push-Splits :
    (p : Parser) (bs : List ℕ) → length p.payload ≡ max_payload → Splits (push (reset p) bs).1 bs
unfolding reset
push-Splits p bs h = push-Splits_from bs [] _ (record { buffer = h; phase = tt }) ([], refl)
