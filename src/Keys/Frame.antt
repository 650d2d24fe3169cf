-- ===== src/Keys/Frame.antt =====
-- firmware/core1/src/keypad/key_inject_frame.c and .h: the wire frames of the injection transports.
pub mod Crc
pub mod Bounds
pub mod RoundTrip
pub mod Sound
use mokya_lora.Prelude.{
  ℕ, ◌+◌, ◌*◌, ◌%◌, zero, suc, Bool, not, Option, none, some, List, [], ◌∷◌, ◌++◌, bit_and, bit_xor,
  ◌==◌, ltb, leb, if◌then◌else◌, set, take, length, inc8,
}

-- `MOKYA_KIJ_MAGIC0`, `MOKYA_KIJ_MAGIC1`, `MOKYA_KIJ_MAX_PAYLOAD`
abbrev pub magic0 : ℕ
magic0 = 0xAA

abbrev pub magic1 : ℕ
magic1 = 0x55

abbrev pub max_payload : ℕ
max_payload = 16

-- one round of the inner loop of `mokya_kij_crc8`
unfoldable pub crc_round : ℕ → ℕ
crc_round crc = if not (bit_and crc 0x80 == 0) then bit_xor (crc * 2) 0x07 % 256 else crc * 2 % 256

unfoldable pub crc_rounds : ℕ → ℕ → ℕ
crc_rounds zero crc = crc
crc_rounds (suc n) crc = crc_rounds n (crc_round crc)

-- the body of the outer loop
unfoldable pub crc_byte : ℕ → ℕ → ℕ
unfolding crc_rounds crc_round
crc_byte crc b = crc_rounds 8 (bit_xor crc b)

unfoldable pub crc_from : ℕ → List ℕ → ℕ
unfolding crc_byte
crc_from crc [] = crc
crc_from crc (b ∷ bs) = crc_from (crc_byte crc b) bs

-- `mokya_kij_crc8`
unfoldable pub crc8 : List ℕ → ℕ
unfolding crc_from
crc8 = crc_from 0

pub data Phase : Type 0 where
  st_magic0 st_magic1 st_type st_len st_payload st_crc : Phase

-- `mokya_kij_parser_t`
pub record Parser : Type 0 where
  pub phase : Phase
  pub type : ℕ
  pub len : ℕ
  pub idx : ℕ
  pub payload : List ℕ

-- what `on_frame` is called with
pub record Frame : Type 0 where
  pub type : ℕ
  pub payload : List ℕ

-- `mokya_kij_parser_reset`
unfoldable pub reset : Parser → Parser
reset p = record p { phase = st_magic0; type = 0; len = 0; idx = 0 }

-- the bytes that the checksum covers
abbrev pub covered : Parser → List ℕ
covered p = p.type ∷ p.len ∷ take p.len p.payload

-- One round of the loop in `mokya_kij_parser_push`, with the frame that it reports.
unfoldable pub step_in : Phase → Parser → ℕ → Parser × Option Frame
step_in st_magic0 p b = (if b == magic0 then record p { phase = st_magic1 } else p, none)
step_in st_magic1 p b = (
  if b == magic1
      then record p { phase = st_type }
      else if b == magic0
      then record p { phase = st_magic1 }
      else record p { phase = st_magic0 },
  none,
)
step_in st_type p b = (record p { type = b; phase = st_len }, none)
step_in st_len p b = (
  if ltb max_payload b
      then record p { len = b; phase = st_magic0 }
      else record p { len = b; idx = 0; phase = if b == 0 then st_crc else st_payload },
  none,
)
step_in st_payload p b = (
  record p {
    payload = set p.payload p.idx b;
    idx = inc8 p.idx;
    phase = if leb p.len (inc8 p.idx) then st_crc else st_payload;
  },
  none,
)
step_in st_crc p b = (
  record p { phase = st_magic0 },
  if crc8 (covered p) == b
      then some (record { type = p.type; payload = take p.len p.payload })
      else none,
)

abbrev pub step : Parser → ℕ → Parser × Option Frame
step p b = step_in p.phase p b

abbrev pub reported : Option Frame → List Frame
reported none = []
reported (some f) = f ∷ []

-- `mokya_kij_parser_push`, with the frames that it reports in order
unfoldable pub push : Parser → List ℕ → Parser × List Frame
push p [] = (p, [])
push p (b ∷ bs) = let (p', f) = step p b in let (q, fs) = push p' bs in (q, reported f ++ fs)

-- a frame on the wire, as the header lays it out
unfoldable pub encode : Frame → List ℕ
encode f =
    magic0
    ∷ magic1
    ∷ f.type
    ∷ length f.payload
    ∷ (f.payload ++ crc8 (f.type ∷ length f.payload ∷ f.payload) ∷ [])
