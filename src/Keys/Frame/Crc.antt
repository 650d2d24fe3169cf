-- ===== src/Keys/Frame/Crc.antt =====
-- The checksum tells apart any two byte strings that differ in one byte.
use mokya_lora.Prelude.{
  IsByte, AllBytes, ℕ, ◌+◌, ◌/◌, ◌%◌, ◌≡◌, ◌≢◌, refl, sym, ap, ◌∙◌, true, List, [], ◌∷◌, ◌++◌,
  bit_xor, ◌==◌, ==_iff, if◌then◌else◌, zero, suc, arith, all_below, all_below_sound,
  bit_xor_injective, bit_xor_comm, bit_xor-lt,
}
use mokya_lora.Keys.Frame.{crc_round, crc_rounds, crc_byte, crc_from, crc8}

-- A round backwards: the polynomial is odd, so the lowest bit says which way the round went.
abbrev unround : ℕ → ℕ
unround c = if c % 2 == 1 then bit_xor c 0x07 / 2 + 0x80 else c / 2

round_table : all_below (λ c. unround (crc_round c) == c) 256 ≡ true
unfolding all_below crc_round
round_table = refl

crc_round_injective : (a b : ℕ) → IsByte a → IsByte b → crc_round a ≡ crc_round b → a ≡ b
crc_round_injective a b ha hb e = sym (undone a ha) ∙ ap unround e ∙ undone b hb
  where
    undone : (c : ℕ) → IsByte c → unround (crc_round c) ≡ c
    undone c h = (==_iff _ c).0 (all_below_sound _ 256 round_table c h)

crc_round-IsByte : (c : ℕ) → IsByte (crc_round c)
unfolding crc_round
crc_round-IsByte c = ground arith

crc_rounds-IsByte : (n c : ℕ) → IsByte c → IsByte (crc_rounds n c)
unfolding crc_rounds
crc_rounds-IsByte zero c h = h
crc_rounds-IsByte (suc n) c h = crc_rounds-IsByte n (crc_round c) (crc_round-IsByte c)

crc_rounds_injective : (n a b : ℕ) → IsByte a → IsByte b → crc_rounds n a ≡ crc_rounds n b → a ≡ b
unfolding crc_rounds
crc_rounds_injective zero a b ha hb e = e
crc_rounds_injective (suc n) a b ha hb e =
    crc_round_injective a b ha hb
      (crc_rounds_injective n _ _ (crc_round-IsByte a) (crc_round-IsByte b) e)

pub crc_byte-IsByte : (c b : ℕ) → IsByte c → IsByte b → IsByte (crc_byte c b)
unfolding crc_byte
crc_byte-IsByte c b hc hb = crc_rounds-IsByte 8 (bit_xor c b) (bit_xor-lt 8 c b hc hb)

-- One step loses nothing of the byte that it takes in, nor of the checksum so far.
crc_byte_injective :
    (c a b : ℕ) → IsByte c → IsByte a → IsByte b → crc_byte c a ≡ crc_byte c b → a ≡ b
unfolding crc_byte
crc_byte_injective c a b hc ha hb e =
    bit_xor_injective c a b
      (crc_rounds_injective 8 _ _ (bit_xor-lt 8 c a hc ha) (bit_xor-lt 8 c b hc hb) e)

crc_byte_injective_crc :
    (c d b : ℕ) → IsByte c → IsByte d → IsByte b → crc_byte c b ≡ crc_byte d b → c ≡ d
unfolding crc_byte
crc_byte_injective_crc c d b hc hd hb e =
    bit_xor_injective b c d (bit_xor_comm b c ∙ same ∙ bit_xor_comm d b)
  where
    same : bit_xor c b ≡ bit_xor d b
    same = crc_rounds_injective 8 _ _ (bit_xor-lt 8 c b hc hb) (bit_xor-lt 8 d b hd hb) e

pub crc_from-IsByte : (bs : List ℕ) (c : ℕ) → IsByte c → AllBytes bs → IsByte (crc_from c bs)
unfolding crc_from
crc_from-IsByte [] c hc h = hc
crc_from-IsByte (b ∷ bs) c hc h = crc_from-IsByte bs (crc_byte c b) (crc_byte-IsByte c b hc h.0) h.1

crc_from_injective :
    (bs : List ℕ) (c d : ℕ)
    → IsByte c
    → IsByte d
    → AllBytes bs
    → crc_from c bs ≡ crc_from d bs
    → c ≡ d
unfolding crc_from
crc_from_injective [] c d hc hd h e = e
crc_from_injective (b ∷ bs) c d hc hd h e =
    crc_byte_injective_crc c d b hc hd h.0
      (crc_from_injective bs _ _ (crc_byte-IsByte c b hc h.0) (crc_byte-IsByte d b hd h.0) h.1 e)

crc_from-single :
    (pre post : List ℕ) (c a b : ℕ)
    → IsByte c
    → IsByte a
    → IsByte b
    → AllBytes pre
    → AllBytes post
    → crc_from c (pre ++ a ∷ post) ≡ crc_from c (pre ++ b ∷ post)
    → a ≡ b
unfolding crc_from
crc_from-single [] post c a b hc ha hb hp hs e =
    crc_byte_injective c a b hc ha hb
      (crc_from_injective post _ _ (crc_byte-IsByte c a hc ha) (crc_byte-IsByte c b hc hb) hs e)
crc_from-single (x ∷ pre) post c a b hc ha hb hp hs e =
    crc_from-single pre post (crc_byte c x) a b (crc_byte-IsByte c x hc hp.0) ha hb hp.1 hs e

-- `mokya_kij_crc8` never gives two byte strings that differ in exactly one byte the same checksum,
-- whatever stands before and behind that byte.
pub crc8_single :
    (pre post : List ℕ) (a b : ℕ)
    → IsByte a
    → IsByte b
    → AllBytes pre
    → AllBytes post
    → a ≢ b
    → crc8 (pre ++ a ∷ post) ≢ crc8 (pre ++ b ∷ post)
unfolding crc8
crc8_single pre post a b ha hb hp hs ne e =
    ne (crc_from-single pre post 0 a b (omega arith) ha hb hp hs e)
