-- ===== src/Keys/Scan/Matrix/Rows.antt =====
-- The keys of the matrix do not disturb one another, and `g_kp_stable` shows their states.
use mokya_lora.Prelude.{
  ℕ, ◌+◌, ◌*◌, ◌/◌, ◌%◌, ◌≤◌, ◌<◌, ◌≡◌, ◌≢◌, refl, sym, ap₂, ◌∙◌, Bool, true, false, ◌&&◌, List, [],
  ◌∷◌, ltb, ◌==◌, if◌then◌else◌, length, arith, all_below, all_below_sound,
}
use mokya_lora.Keys.Scan.{Cell, commits, scan_cell, same}
use mokya_lora.Keys.Scan.Matrix.{bit_at, put_bit, scan_row}

-- one bit of a row byte, decided for all of them
abbrev check_bit : ℕ → Bool → ℕ → Bool
check_bit c b v =
    let row = v % 64 in
    let j = v / 64 in
    ltb (put_bit row c b) 64
    && same (bit_at (put_bit row c b) j) (if j == c then b else bit_at row j)

abbrev check_put : ℕ → Bool
check_put v = check_bit (v / 384) true (v % 384) && check_bit (v / 384) false (v % 384)

checked_put : all_below check_put 2304 ≡ true
unfolding all_below put_bit
checked_put = refl

module _ (row c j : ℕ) (h : row < 64) (k : c < 6) (l : j < 6) where
  both_checked : (check_bit c true (j * 64 + row) && check_bit c false (j * 64 + row)) ≡ true
  both_checked =
      let e : c ≡ (c * 384 + (j * 64 + row)) / 384 = omega arith in
      let d : j * 64 + row ≡ (c * 384 + (j * 64 + row)) % 384 = omega arith in
      ap₂ (λ x y. check_bit x true y && check_bit x false y) e d
      ∙ all_below_sound check_put 2304 checked_put (c * 384 + (j * 64 + row)) (omega arith)

  one_checked : (b : Bool) → check_bit c b (j * 64 + row) ≡ true
  one_checked true = ground (arith, both_checked)
  one_checked false = ground (arith, both_checked)

  put_checked :
      (b : Bool)
      → (ltb (put_bit row c b) 64
          && same (bit_at (put_bit row c b) j) (if j == c then b else bit_at row j))
        ≡ true
  put_checked b =
      let e : row ≡ (j * 64 + row) % 64 = omega arith in
      let d : j ≡ (j * 64 + row) / 64 = omega arith in
      ap₂
        (λ r i.
          ltb (put_bit r c b) 64
          && same (bit_at (put_bit r c b) i) (if i == c then b else bit_at r i))
        e d
      ∙ one_checked b

  same-eq : (x y : Bool) → same x y ≡ true → x ≡ y
  same-eq true true e = refl
  same-eq true false e = cc
  same-eq false true e = cc
  same-eq false false e = refl

  bit_at-put_bit : (b : Bool) → bit_at (put_bit row c b) j ≡ (if j == c then b else bit_at row j)
  bit_at-put_bit b = same-eq _ _ (ground (arith, put_checked b))

  put_bit-lt : (b : Bool) → put_bit row c b < 64
  put_bit-lt b = ground (arith, put_checked b)

-- Bit `c` of the byte is the state of the first key, and so on.
abbrev pub Packed : ℕ → List Cell → ℕ → Type 0
Packed c [] row = Unit
Packed c (x ∷ xs) row = (bit_at row c ≡ x.stable) × Packed (c + 1) xs row

Packed-same :
    (xs : List Cell) (c : ℕ) (row row' : ℕ)
    → ((j : ℕ) → c ≤ j → j < c + length xs → bit_at row' j ≡ bit_at row j)
    → Packed c xs row
    → Packed c xs row'
Packed-same [] c row row' h p = tt
Packed-same (x ∷ xs) c row row' h p = (
  h c (omega arith) (omega arith) ∙ p.0,
  Packed-same xs (c + 1) row row' (λ j a b. h j (omega arith) (omega arith)) p.1,
)

-- what one key does to the byte
abbrev next_row : ℕ → ℕ → Cell → Bool → ℕ
next_row row c x b = if commits x b then put_bit row c b else row

stable-scan_cell :
    (k now : ℕ) (b : Bool) (x : Cell)
    → (scan_cell k now b x).0.stable ≡ (if commits x b then b else x.stable)
unfolding scan_cell commits
stable-scan_cell k now b x = ground arith

module _ (row c : ℕ) (x : Cell) (b : Bool) (h : row < 64) (k : c < 6) where
  next_row-lt : next_row row c x b < 64
  next_row-lt = ground (arith, put_bit-lt row c c h k k b)

  next_row-other : (j : ℕ) → j < 6 → j ≢ c → bit_at (next_row row c x b) j ≡ bit_at row j
  next_row-other j l ne = ground (arith, bit_at-put_bit row c j h k l b, ne)

  next_row-own :
      bit_at row c ≡ x.stable
      → bit_at (next_row row c x b) c ≡ (if commits x b then b else x.stable)
  next_row-own e = ground (arith, bit_at-put_bit row c c h k k b, e)

-- What the row pass does to a row: each key takes its own step, the byte keeps to six bits, shows the
-- keys of the pass and keeps the bits below.
pub record Scanned (now raw c : ℕ) (ks : List ℕ) (xs : List Cell) (row : ℕ) (xs' : List Cell)
    (row' : ℕ) : Type 0 where
  pub size : row' < 64
  pub below : (j : ℕ) → j < c → bit_at row' j ≡ bit_at row j
  pub packed : Packed c xs' row'

pub scan_row-Scanned :
    (now raw c : ℕ) (ks : List ℕ) (xs : List Cell) (row : ℕ)
    → row < 64
    → length ks ≡ length xs
    → c + length xs ≤ 6
    → Packed c xs row
    → let r = scan_row now raw c ks xs row in Scanned now raw c ks xs row r.0 r.1
unfolding scan_row
scan_row-Scanned now raw c [] [] row h k l p = record { size = h; below = λ j b. refl; packed = tt }
scan_row-Scanned now raw c [] (x ∷ xs) row h k l p = absurd (omega (arith, k))
scan_row-Scanned now raw c (k0 ∷ ks) [] row h k l p = absurd (omega (arith, k))
scan_row-Scanned now raw c (k0 ∷ ks) (x ∷ xs) row h k l p =
    let b = bit_at raw c in
    let fits : c < 6 = omega (arith, l) in
    let mid = next_row row c x b in
    let r =
      scan_row-Scanned now raw (c + 1) ks xs mid (next_row-lt row c x b h fits) (omega (arith, k))
        (omega (arith, l))
        (Packed-same xs (c + 1) row mid
          (λ j a z. next_row-other row c x b h fits j (omega (arith, l)) (omega arith)) p.1) in
    record {
      size = r.size;
      below = λ j z.
          r.below j (omega arith) ∙ next_row-other row c x b h fits j (omega arith) (omega arith);
      packed = (
        r.below c (omega arith)
            ∙ next_row-own row c x b h fits p.0
            ∙ sym (stable-scan_cell k0 now b x),
        r.packed,
      );
    }
