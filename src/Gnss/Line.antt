-- ===== src/Gnss/Line.antt =====
-- The lines of the stream: their assembly from the reads of the bus, and their dispatch. The parsers of
-- the sentences are an argument.
pub mod Stream
pub mod Command
use mathlib.Core.Option
use mokya_lora.Prelude.{
  ℕ, zero, suc, ◌+◌, ◌-◌, Bool, true, false, not, ◌&&◌, ◌||◌, Option, none, some, List, [], ◌∷◌,
  ◌++◌, length, get_or, drop, ltb, leb, ◌==◌, if◌then◌else◌,
}
use mokya_lora.Bus.Link.{Link, failed, succeeded}
use mokya_lora.Gnss.Nmea.{dollar, star, nmea_verify, nmea_xor}

-- `LINE_BUF_SIZE`, `CMD_BUF_SIZE` and `NMEA_FILL_BYTE`
abbrev pub line_size : ℕ
line_size = 96

abbrev pub command_size : ℕ
command_size = 64

abbrev pub fill_byte : ℕ
fill_byte = 0xFF

-- the sentences that are told apart, by their parser or reply
pub data Sentence : Type 0 where
  gga rmc gsv gst : Sentence
  savepar_error setpar_error savepar_ok setpar_ok setpar : Sentence
  notchstatus noise cpu rf_sats : Sentence

-- `memcmp` with a constant, at the start of a text
unfoldable pub starts : List ℕ → List ℕ → Bool
starts [] p = true
starts (c ∷ cs) [] = false
starts (c ∷ cs) (x ∷ p) = let rest = starts cs p in (c == x) && rest

-- `PSTM`
abbrev pub pstm : List ℕ
pstm = 0x50 ∷ 0x53 ∷ 0x54 ∷ 0x4D ∷ []

-- `SAVEPAR`, `SETPAR`, `ERROR` and `OK`
abbrev pub savepar_text : List ℕ
savepar_text = 0x53 ∷ 0x41 ∷ 0x56 ∷ 0x45 ∷ 0x50 ∷ 0x41 ∷ 0x52 ∷ []

abbrev pub setpar_text : List ℕ
setpar_text = 0x53 ∷ 0x45 ∷ 0x54 ∷ 0x50 ∷ 0x41 ∷ 0x52 ∷ []

abbrev pub error_text : List ℕ
error_text = 0x45 ∷ 0x52 ∷ 0x52 ∷ 0x4F ∷ 0x52 ∷ []

abbrev pub ok_text : List ℕ
ok_text = 0x4F ∷ 0x4B ∷ []

-- `NOTCHSTATUS`, `NOISE`, `CPU` and `RF,`
abbrev pub notchstatus_text : List ℕ
notchstatus_text = 0x4E ∷ 0x4F ∷ 0x54 ∷ 0x43 ∷ 0x48 ∷ 0x53 ∷ 0x54 ∷ 0x41 ∷ 0x54 ∷ 0x55 ∷ 0x53 ∷ []

abbrev pub noise_text : List ℕ
noise_text = 0x4E ∷ 0x4F ∷ 0x49 ∷ 0x53 ∷ 0x45 ∷ []

abbrev pub cpu_text : List ℕ
cpu_text = 0x43 ∷ 0x50 ∷ 0x55 ∷ []

abbrev pub rf_text : List ℕ
rf_text = 0x52 ∷ 0x46 ∷ 0x2C ∷ []

-- the choice of `dispatch_pstm`
abbrev pub pstm_kind : List ℕ → Option Sentence
pstm_kind body =
    if starts (pstm ++ (savepar_text ++ error_text)) body
    then some savepar_error
    else if starts (pstm ++ (setpar_text ++ error_text)) body
    then some setpar_error
    else if starts (pstm ++ (savepar_text ++ ok_text)) body
    then some savepar_ok
    else if starts (pstm ++ (setpar_text ++ ok_text)) body
    then some setpar_ok
    else if starts (pstm ++ (setpar_text ++ 0x2C ∷ [])) body
    then some setpar
    else if starts (pstm ++ notchstatus_text) body
    then some notchstatus
    else if starts (pstm ++ noise_text) body
    then some noise
    else if starts (pstm ++ cpu_text) body
    then some cpu
    else if starts (pstm ++ rf_text) body
    then some rf_sats
    else none

-- the choice of `dispatch_line` by the type that follows the talker
abbrev pub nmea_kind : List ℕ → Option Sentence
nmea_kind type =
    if starts (0x47 ∷ 0x47 ∷ 0x41 ∷ []) type
    then some gga
    else if starts (0x52 ∷ 0x4D ∷ 0x43 ∷ []) type
    then some rmc
    else if starts (0x47 ∷ 0x53 ∷ 0x56 ∷ []) type
    then some gsv
    else if starts (0x47 ∷ 0x53 ∷ 0x54 ∷ []) type
    then some gst
    else none

-- A verified line is longer than seven characters, so the second check of the length never fails. It
-- holds a star, which no constant does, so what the buffer holds behind the line is never matched.
unfoldable pub kind : List ℕ → Option Sentence
kind body = if starts pstm body then pstm_kind body else nmea_kind (drop 2 body)

-- The accumulator with the state of the parsers.
pub record Receiver (S : Type 0) : Type 0 where
  pub line : List ℕ
  pub state : S

module _ {S : Type 0} (strtoul : List ℕ → ℕ) (parse : Sentence → List ℕ → S → S) where
  abbrev pub handle : Option Sentence → List ℕ → S → S
  handle none body s = s
  handle (some k) body s = parse k body s

  -- `dispatch_line`
  unfoldable pub dispatch_line : List ℕ → S → S
  dispatch_line line s =
      if ltb (length line) 8
      then s
      else if not (get_or line 0 0 == dollar)
      then s
      else if not (nmea_verify strtoul line)
      then s
      else handle (kind (drop 1 line)) (drop 1 line) s

  -- `accumulate_byte`
  unfoldable pub accumulate_byte : ℕ → Receiver S → Receiver S
  accumulate_byte c r =
      if c == dollar
      then record r { line = dollar ∷ [] }
      else if c == 0x0A
      then record { line = []; state = dispatch_line r.line r.state }
      else if c == 0x0D
      then r
      else if ltb 0 (length r.line) && ltb (length r.line) (line_size - 1)
      then record r { line = r.line ++ c ∷ [] }
      else if leb (line_size - 1) (length r.line)
      then record r { line = [] }
      else r

  -- the loop of `teseo_poll` over what was read
  unfoldable pub drain : List ℕ → Receiver S → Receiver S
  drain [] r = r
  drain (c ∷ cs) r =
      if (c == fill_byte) || (ltb c 0x20 && not (c == 0x0D) && not (c == 0x0A))
      then drain cs r
      else drain cs (accumulate_byte c r)

  -- `teseo_poll`, with the answer of the read, once the bus is had; the link is `online` and
  -- `i2c_fail_count`
  unfoldable pub poll : Option (List ℕ) → Link → Receiver S → Bool × Link × Receiver S
  poll none l r = (false, failed 50 l, r)
  poll (some cs) l r = (true, succeeded, drain cs r)

-- `send_nmea`: the command, when it fits its buffer; `digits` are the two that `%02X` prints
module _ (digits : ℕ → ℕ × ℕ) where
  abbrev pub checked : List ℕ → List ℕ
  checked body = let (high, low) = digits (nmea_xor body) in body ++ star ∷ high ∷ low ∷ []

  unfoldable pub command : List ℕ → Option (List ℕ)
  command body =
      let out = dollar ∷ (checked body ++ 0x0D ∷ 0x0A ∷ []) in
      if leb command_size (length out) then none else some out
