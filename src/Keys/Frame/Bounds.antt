-- ===== src/Keys/Frame/Bounds.antt =====
-- Every write of the parser falls into its payload buffer.
use mokya_lora.Prelude.{
  ℕ, Bool-cases, inl, inr, ◌==◌, subst, ◌≤◌, ◌<◌, ◌≡◌, refl, sym, List, [], ◌∷◌, length, length-set,
  arith,
}
use mokya_lora.Keys.Frame.{
  Phase, st_magic0, st_payload, st_crc, Parser, max_payload, step_in, step, push, reset, magic0,
}

-- what each phase knows of `len` and `idx`
abbrev pub PhaseInv : Phase → ℕ → ℕ → Type 0
PhaseInv st_payload len idx = (len ≤ max_payload) × (idx < len)
PhaseInv st_crc len idx = len ≤ max_payload
PhaseInv _ len idx = Unit

pub record IsValid (p : Parser) : Type 0 where
  pub buffer : length p.payload ≡ max_payload
  pub phase : PhaseInv p.phase p.len p.idx

step_in-IsValid :
    (m : Phase) (p : Parser) (b : ℕ)
    → p.phase ≡ m
    → length p.payload ≡ max_payload
    → PhaseInv m p.len p.idx
    → IsValid (step_in m p b).0
unfolding step_in
step_in-IsValid st_magic0 p b e h k = elim (Bool-cases (b == magic0)) [
  | inl t ↦ rw t (record { buffer = h; phase = tt })
  | inr f ↦ rw f (record { buffer = h; phase = subst (λ m. PhaseInv m p.len p.idx) (sym e) tt })
]
step_in-IsValid st_payload p b e h k = ground (arith, length-set p.payload p.idx b)
step_in-IsValid _ p b e h k = ground arith

pub step-IsValid : (p : Parser) (b : ℕ) → IsValid p → IsValid (step p b).0
step-IsValid p b v = step_in-IsValid p.phase p b refl v.buffer v.phase

pub push-IsValid : (bs : List ℕ) (p : Parser) → IsValid p → IsValid (push p bs).0
unfolding push
push-IsValid [] p v = v
push-IsValid (b ∷ bs) p v = push-IsValid bs (step p b).0 (step-IsValid p b v)

-- After `mokya_kij_parser_reset` on a parser with its 16-byte buffer, and any bytes whatever: if
-- the next byte is written to the buffer, its index is within it; if a checksum is due, the length
-- that was announced is within it; and the buffer has kept its size.
pub push-in_bounds :
    (p : Parser) (bs : List ℕ)
    → length p.payload ≡ max_payload
    → let q = (push (reset p) bs).0 in
      (length q.payload ≡ max_payload)
      × (q.phase ≡ st_payload → q.idx < length q.payload)
      × (q.phase ≡ st_crc → q.len ≤ length q.payload)
unfolding reset
push-in_bounds p bs h = (v.buffer, writes, reads)
  where
    q : Parser
    q = (push (reset p) bs).0

    v : IsValid q
    v = push-IsValid bs (reset p) (record { buffer = h; phase = tt })

    writes : q.phase ≡ st_payload → q.idx < length q.payload
    writes e = let k = subst (λ m. PhaseInv m q.len q.idx) e v.phase in omega (arith, v.buffer)

    reads : q.phase ≡ st_crc → q.len ≤ length q.payload
    reads e = let k = subst (λ m. PhaseInv m q.len q.idx) e v.phase in omega (arith, v.buffer)
