-- ===== src/Keys/Frame/RoundTrip.antt =====
-- What a sender encodes, the parser reports.
use mathlib.Core.List.{append_assoc}
use mokya_lora.Prelude.{
  ℕ, suc, ◌+◌, ◌≤◌, ◌<◌, ◌≡◌, ◌≢◌, refl, ap, ap₂, ◌∙◌, List, [], ◌∷◌, ◌++◌, length, arith, set,
  take, leb, true, false, take-set_snoc, length-set, ◌==◌, if◌then◌else◌, some, none,
}
use mokya_lora.Keys.Frame.{
  Phase, st_magic0, st_magic1, st_type, st_len, st_payload, st_crc, Parser, Frame, max_payload,
  step_in, step, push, encode, magic0, magic1, crc8, covered,
}

-- A byte that completes no frame only moves the parser.
pub push-quiet :
    (p q : Parser) (b : ℕ) (bs : List ℕ) → step p b ≡ (q, none) → push p (b ∷ bs) ≡ push q bs
unfolding push
push-quiet p q b bs e = rw e

pub push-reports :
    (p q : Parser) (b : ℕ) (bs : List ℕ) (f : Frame)
    → step p b ≡ (q, some f)
    → push p (b ∷ bs) ≡ ((push q bs).0, f ∷ (push q bs).1)
unfolding push
push-reports p q b bs f e = rw e

-- the parser after a byte of the payload
abbrev stored : Parser → ℕ → Phase → Parser
stored p b m = record p { payload = set p.payload p.idx b; idx = p.idx + 1; phase = m }

step-stored :
    (p : Parser) (b : ℕ)
    → p.phase ≡ st_payload
    → p.idx < max_payload
    → step p b ≡ (stored p b (if leb p.len (p.idx + 1) then st_crc else st_payload), none)
unfolding step_in
step-stored p b m h = rw m (ground arith)

-- What is left of the payload fills the buffer from `idx` on.
fill_payload :
    (bs rest : List ℕ) (p : Parser)
    → p.phase ≡ st_payload
    → p.len ≤ max_payload
    → p.len ≤ length p.payload
    → p.idx + length bs ≡ p.len
    → bs ≢ []
    → (q : Parser) × (push p (bs ++ rest) ≡ push q rest)
      × (q.phase ≡ st_crc)
      × (q.type ≡ p.type)
      × (q.len ≡ p.len)
      × (take q.len q.payload ≡ take p.idx p.payload ++ bs)
      × (length q.payload ≡ length p.payload)
fill_payload [] rest p m fits room count ne = absurd (ne refl)
fill_payload (b ∷ []) rest p m fits room count ne = (
  stored p b st_crc,
  push-quiet p (stored p b st_crc) b rest (
      step-stored p b m (omega arith)
      ∙ ap (λ t. (stored p b (if t then st_crc else st_payload), none)) full),
  refl,
  refl,
  refl,
  ap (λ k. take k (set p.payload p.idx b)) at_end ∙ take-set_snoc p.payload p.idx b (omega arith),
  length-set p.payload p.idx b,
)
  where
    full : leb p.len (p.idx + 1) ≡ true
    full = ground arith

    at_end : p.len ≡ suc p.idx
    at_end = omega arith
fill_payload (b ∷ c ∷ bs) rest p m fits room count ne =
    let (q, run, m', t, l, content, kept) =
      fill_payload (c ∷ bs) rest (stored p b st_payload) refl fits
        (omega (arith, length-set p.payload p.idx b)) (omega arith) (λ e. cc) in
    (
      q,
      push-quiet p (stored p b st_payload) b (c ∷ bs ++ rest) (
            step-stored p b m (omega arith)
            ∙ ap (λ t. (stored p b (if t then st_crc else st_payload), none)) more)
          ∙ run,
      m',
      t,
      l,
      content
          ∙ ap (λ k. take k (set p.payload p.idx b) ++ c ∷ bs) next
          ∙ ap (λ l. l ++ c ∷ bs) (take-set_snoc p.payload p.idx b (omega arith))
          ∙ append_assoc (take p.idx p.payload) (b ∷ []) (c ∷ bs),
      kept ∙ length-set p.payload p.idx b,
    )
  where
    more : leb p.len (p.idx + 1) ≡ false
    more = ground arith

    next : p.idx + 1 ≡ suc p.idx
    next = omega arith

-- the parser once the header of a frame is in
abbrev opened : Parser → ℕ → ℕ → Parser
opened p t n = record p {
  type = t;
  len = n;
  idx = 0;
  phase = if n == 0 then st_crc else st_payload;
}

push_header :
    (p : Parser) (t n : ℕ) (bs : List ℕ)
    → p.phase ≡ st_magic0
    → n ≤ max_payload
    → push p (magic0 ∷ magic1 ∷ t ∷ n ∷ bs) ≡ push (opened p t n) bs
unfolding step_in
push_header p t n bs m h =
    push-quiet p (record p { phase = st_magic1 }) magic0 _ (rw m)
    ∙ push-quiet (record p { phase = st_magic1 }) (record p { phase = st_type }) magic1 _ refl
    ∙ push-quiet (record p { phase = st_type }) (record p { phase = st_len; type = t }) t _ refl
    ∙ push-quiet (record p { phase = st_len; type = t }) (opened p t n) n bs (ground arith)

-- The payload, if there is one.
push_body :
    (p : Parser) (t : ℕ) (bs rest : List ℕ)
    → length p.payload ≡ max_payload
    → length bs ≤ max_payload
    → (q : Parser) × (push (opened p t (length bs)) (bs ++ rest) ≡ push q rest)
      × (q.phase ≡ st_crc)
      × (q.type ≡ t)
      × (q.len ≡ length bs)
      × (take q.len q.payload ≡ bs)
      × (length q.payload ≡ length p.payload)
push_body p t [] rest h k = (opened p t 0, refl, refl, refl, refl, refl, refl)
push_body p t (b ∷ bs) rest h k =
    fill_payload (b ∷ bs) rest (opened p t (length (b ∷ bs))) (ground arith) k (omega (arith, h))
      (omega arith) (λ e. cc)

push_checksum :
    (q : Parser) (f : Frame) (rest : List ℕ)
    → q.phase ≡ st_crc
    → q.type ≡ f.type
    → q.len ≡ length f.payload
    → take q.len q.payload ≡ f.payload
    → push q (crc8 (f.type ∷ length f.payload ∷ f.payload) ∷ rest)
      ≡ (let r = record q { phase = st_magic0 } in ((push r rest).0, f ∷ (push r rest).1))
unfolding step_in
push_checksum q f rest m t l content =
    push-reports q (record q { phase = st_magic0 }) _ rest f step_crc
  where
    sum : crc8 (covered q) ≡ crc8 (f.type ∷ length f.payload ∷ f.payload)
    sum = ap crc8 (ap₂ ◌∷◌ t (ap₂ ◌∷◌ l content))

    frame : record { type = q.type; payload = take q.len q.payload } ≡ f
    frame = λ i. record { type = t i; payload = content i }

    step_crc :
        step q (crc8 (f.type ∷ length f.payload ∷ f.payload))
        ≡ (record q { phase = st_magic0 }, some f)
    step_crc = rw m (ground (arith, sum, frame))

-- A parser that waits for a frame, with its buffer whole.
abbrev pub IsWaiting : Parser → Type 0
IsWaiting p = (p.phase ≡ st_magic0) × (length p.payload ≡ max_payload)

-- A parser that waits reports an encoded frame, whatever follows it, and waits again.
pub push-encode :
    (f : Frame) (rest : List ℕ) (p : Parser)
    → IsWaiting p
    → length f.payload ≤ max_payload
    → (q : Parser) × IsWaiting q
      × (push p (encode f ++ rest) ≡ ((push q rest).0, f ∷ (push q rest).1))
unfolding encode
push-encode f rest p w h =
    let (q, body, m, t, l, content, kept) =
      push_body p f.type f.payload (crc8 (f.type ∷ length f.payload ∷ f.payload) ∷ rest) w.1 h in
    (
      record q { phase = st_magic0 },
      (refl, kept ∙ w.1),
      push_header p f.type (length f.payload) _ w.0 h
          ∙ ap (push (opened p f.type (length f.payload))) (append_assoc f.payload _ rest)
          ∙ body
          ∙ push_checksum q f rest m t l content,
    )

-- What a link carries: line noise with no start byte in it, or a frame.
pub data Piece : Type 0 where
  noise : List ℕ → Piece
  frame : Frame → Piece

abbrev pub IsNoise : List ℕ → Type 0
IsNoise [] = Unit
IsNoise (b ∷ bs) = (b ≢ magic0) × IsNoise bs

abbrev pub IsPiece : Piece → Type 0
IsPiece (noise bs) = IsNoise bs
IsPiece (frame f) = length f.payload ≤ max_payload

abbrev pub AllPieces : List Piece → Type 0
AllPieces [] = Unit
AllPieces (x ∷ xs) = IsPiece x × AllPieces xs

abbrev pub wire : List Piece → List ℕ
wire [] = []
wire (noise bs ∷ xs) = bs ++ wire xs
wire (frame f ∷ xs) = encode f ++ wire xs

abbrev pub frames : List Piece → List Frame
frames [] = []
frames (noise bs ∷ xs) = frames xs
frames (frame f ∷ xs) = f ∷ frames xs

push-noise :
    (bs rest : List ℕ) (p : Parser)
    → p.phase ≡ st_magic0
    → IsNoise bs
    → push p (bs ++ rest) ≡ push p rest
unfolding step_in
push-noise [] rest p m h = refl
push-noise (b ∷ bs) rest p m h =
    push-quiet p p b (bs ++ rest) (rw m (ground (arith, h.0))) ∙ push-noise bs rest p m h.1

-- From a parser that waits, any mix of well-sized frames and noise without the start byte makes
-- the parser report exactly the frames, in order, and wait again.
pub push-wire :
    (xs : List Piece) (p : Parser)
    → IsWaiting p
    → AllPieces xs
    → ((push p (wire xs)).1 ≡ frames xs) × IsWaiting (push p (wire xs)).0
unfolding push
push-wire [] p w h = (refl, w)
push-wire (noise bs ∷ xs) p w h = rw (push-noise bs (wire xs) p w.0 h.0) (push-wire xs p w h.1)
push-wire (frame f ∷ xs) p w h =
    let (q, w', run) = push-encode f (wire xs) p w h.0 in
    let (same, w'') = push-wire xs q w' h.1 in rw run (ap (λ fs. f ∷ fs) same, w'')
