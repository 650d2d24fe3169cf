-- ===== src/Gnss/Line/Command.antt =====
-- The commands to the receiver, which echoes them.
use mokya_lora.Prelude.{
  le-or-gt, ℕ, ◌+◌, ◌%◌, ◌≤◌, ◌<◌, ◌≡◌, ◌≢◌, ◌⊎◌, inl, inr, refl, ap, ◌∙◌, true, false, ◌||◌, none,
  some, List, [], ◌∷◌, ◌++◌, length, ltb, leb, ◌==◌, if◌then◌else◌, arith, length-append, AllBytes,
  bit_xor, bit_xor-lt, ==_iff,
}
use mokya_lora.Gnss.Nmea.{dollar, star, memchr, prepend, verify_at, nmea_verify, nmea_xor, xor_from}
use mokya_lora.Gnss.Line.{checked, command}
use mokya_lora.Gnss.Line.Stream.{stream}

abbrev pub NoStar : List ℕ → Type 0
NoStar [] = Unit
NoStar (c ∷ cs) = (c ≢ star) × NoStar cs

memchr-append : (xs ys : List ℕ) → NoStar xs → memchr star (xs ++ star ∷ ys) ≡ some (xs, star ∷ ys)
unfolding memchr
memchr-append [] ys h = refl
memchr-append (x ∷ xs) ys (h, k) =
    let differs : (x == star) ≡ false = ground (arith, h) in
    let rest = memchr star (xs ++ star ∷ ys) in
    ap (λ b. if b then some ([], x ∷ (xs ++ star ∷ ys)) else prepend x rest) differs
    ∙ ap (prepend x) (memchr-append xs ys k)

xor_from-lt : (c : ℕ) (l : List ℕ) → c < 256 → AllBytes l → xor_from c l < 256
unfolding xor_from
xor_from-lt c [] h k = h
xor_from-lt c (b ∷ l) h (j, k) = xor_from-lt (bit_xor c b) l (bit_xor-lt 8 c b h j) k

module _ (strtoul : List ℕ → ℕ) (digits : ℕ → ℕ × ℕ) where
  length-checked : (body : List ℕ) → length (checked digits body) ≡ length body + 3
  length-checked body =
      let (high, low) = digits (nmea_xor body) in length-append body (star ∷ high ∷ low ∷ [])

  verified :
      (body : List ℕ)
      → AllBytes body
      → NoStar body
      → ((c : ℕ) → c < 256 → strtoul ((digits c).0 ∷ (digits c).1 ∷ []) ≡ c)
      → nmea_verify strtoul (dollar ∷ checked digits body) ≡ true
  unfolding nmea_verify
  verified body h k reads =
      let x = nmea_xor body in
      let d = digits x in
      let line = dollar ∷ checked digits body in
      let long : ltb (length line) 4 ≡ false = ground (arith, length-checked body) in
      let xor_byte : x < 256 = xor_from-lt 0 body (omega arith) h in
      let sum : x ≡ strtoul (d.0 ∷ d.1 ∷ []) % 0x100 = omega (arith, reads x xor_byte) in
      ap (λ b. if b || false then false else verify_at strtoul (memchr star line)) long
      ∙ ap (verify_at strtoul) (memchr-append (dollar ∷ body) (d.0 ∷ d.1 ∷ []) (omega arith, k))
      ∙ (==_iff x (strtoul (d.0 ∷ d.1 ∷ []) % 0x100)).1 sum

  -- For a body of at most 57 bytes without a star, and digits that `strtoul` reads back, `send_nmea`
  -- builds a command: one line of the stream, which passes the check of a line that is received. A
  -- longer body is refused.
  pub command-verified :
      (body : List ℕ)
      → AllBytes body
      → NoStar body
      → ((c : ℕ) → c < 256 → strtoul ((digits c).0 ∷ (digits c).1 ∷ []) ≡ c)
      → ((length body ≤ 57)
          × (command digits body ≡ some (stream (checked digits body ∷ [])))
          × (nmea_verify strtoul (dollar ∷ checked digits body) ≡ true))
        ⊎ ((57 < length body) × (command digits body ≡ none))
  unfolding command
  command-verified body h k reads =
      let line = checked digits body in
      let out = dollar ∷ (line ++ 0x0D ∷ 0x0A ∷ []) in
      let size : length out ≡ length body + 6 =
        omega (arith, length-append line (0x0D ∷ 0x0A ∷ []), length-checked body) in
      elim (le-or-gt (length body) 57) [
        | inl fits ↦
            let room : leb 64 (length out) ≡ false = ground (arith, size) in
            inl (fits, ap (λ b. if b then none else some out) room, verified body h k reads)
        | inr over ↦
            let full : leb 64 (length out) ≡ true = ground (arith, size) in
            inr (over, ap (λ b. if b then none else some out) full)
      ]
