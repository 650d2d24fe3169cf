-- ===== src/Bridge/Serial.antt =====
-- No serial byte is lost while the device is mounted.
use mokya_lora.Prelude.{
  ℕ, zero, suc, ◌+◌, ◌≤◌, ◌<◌, ◌≡◌, ◌≢◌, refl, sym, ap, ◌∙◌, Bool, true, false, not, Option, some,
  List, [], ◌∷◌, ◌++◌, ◌==◌, if◌then◌else◌, take, drop, length, min, add32, u32, ◌%◌, ◌⊎◌, inl, inr,
  arith, length-take, length-drop, length-append, take-take, take-append-drop,
}
use mathlib.Core.List.{append_assoc, append-nil}
use mokya_lora.Bridge.{Outside}
use mokya_lora.Bridge.Loop.{Pass, gone, full, took, write_pass, write_bytes}

module _ (o : Outside) where
  open o use {
    World, mounted, write_available, write, flush, yield, sent, write-le, sent-write, sent-mounted,
    sent-write_available, sent-flush, sent-yield,
  }

  -- A host that goes on reading: what fits in the room that the buffer tells is taken, in part at
  -- least, and a device that stays mounted does not answer that it is full for ever, but at most
  -- `patience` times in a row, each followed by a flush and a turn of the USB task.
  pub record Drains : Type 0 where
    pub patience : World → ℕ
    pub takes_some :
        (l : List ℕ) (w : World)
        → 0 < length l
        → length l ≤ (write_available w).0
        → 0 < (write l (write_available w).1).0
    pub wears_off :
        (w : World)
        → (mounted w).0 ≡ true
        → (write_available (mounted w).1).0 ≡ 0
        → patience (yield (flush (write_available (mounted w).1).1)) < patience w

  -- what one pass is, of bytes that are left
  data Passed (p : List ℕ) (w : World) : Pass o → Type 0 where
    is_gone : (mounted w).0 ≡ false → Passed p w (gone (mounted w).1)
    is_full :
        (w' : World)
        → sent w' ≡ sent w
        → ((d : Drains) → d.patience w' < d.patience w)
        → Passed p w (full w')
    has_taken :
        (n : ℕ) (w' : World)
        → n ≤ length p
        → sent w' ≡ sent w ++ take n p
        → (Drains → 0 < n)
        → Passed p w (took n w')

  -- bytes that a pass has in front of it, in a world
  module _ (b : ℕ) (l : List ℕ) (w : World) where
    abbrev bytes : List ℕ
    bytes = b ∷ l

    abbrev asked : World
    asked = (mounted w).1

    abbrev told : World
    told = (write_available asked).1

    abbrev room : ℕ
    room = min (length bytes) (write_available asked).0

    abbrev wrote : ℕ
    wrote = (write (take room bytes) told).0

    sent-told : sent told ≡ sent w
    sent-told = sent-write_available asked ∙ sent-mounted w

    n-le : wrote ≤ room
    n-le = omega (arith, write-le (take room bytes) told, length-take room bytes)

    n_positive : Drains → (write_available asked).0 ≢ 0 → 0 < wrote
    n_positive d h =
        d.takes_some (take room bytes) asked (omega (arith, length-take room bytes, h))
          (omega (arith, length-take room bytes))

    sent-took : sent (write (take room bytes) told).1 ≡ sent w ++ take wrote bytes
    sent-took =
        sent-write (take room bytes) told
        ∙ ap (λ s. s ++ take wrote (take room bytes)) sent-told
        ∙ ap (λ t. sent w ++ t) (take-take wrote room bytes n-le)

    Passed-choice :
        (up empty : Bool)
        → (mounted w).0 ≡ up
        → ((write_available asked).0 == 0) ≡ empty
        → Passed bytes w (
            if not up
            then gone asked
            else if empty
            then full (yield (flush told))
            else took wrote (write (take room bytes) told).1)
    Passed-choice false empty h e = is_gone h
    Passed-choice true true h e =
        is_full (yield (flush told)) (sent-yield (flush told) ∙ sent-flush told ∙ sent-told)
          (λ d. d.wears_off w h (ground (arith, e)))
    Passed-choice true false h e =
        has_taken wrote (write (take room bytes) told).1 (omega (arith, n-le)) sent-took
          (λ d. n_positive d (ground (arith, e)))

    write_pass-Passed : Passed bytes w (write_pass o bytes w)
    write_pass-Passed = Passed-choice _ _ refl refl

  -- What the loop does to the bytes `p`: those in front of what is left are sent, in order, and
  -- counted; some are left only if the device is gone.
  pub record Written (p : List ℕ) (total : ℕ) (w : World) (rest : List ℕ) (total' : ℕ) (w' : World)
      : Type 0 where
    pub front : List ℕ
    pub splits : front ++ rest ≡ p
    pub sends : sent w' ≡ sent w ++ front
    pub counts : total' ≡ (total + length front) % u32
    pub whole : (rest ≡ []) ⊎ ((v : World) × ((mounted v).0 ≡ false) × (w' ≡ (mounted v).1))

  Written-took :
      (p : List ℕ) (total n : ℕ) (w w1 : World) {rest : List ℕ} {total' : ℕ} {w' : World}
      → n ≤ length p
      → sent w1 ≡ sent w ++ take n p
      → Written (drop n p) (add32 total n) w1 rest total' w'
      → Written p total w rest total' w'
  Written-took p total n w w1 {rest} h s r = record {
    front = take n p ++ r.front;
    splits =
        append_assoc (take n p) r.front rest
        ∙ ap (λ t. take n p ++ t) r.splits
        ∙ take-append-drop n p;
    sends = r.sends ∙ ap (λ t. t ++ r.front) s ∙ append_assoc (sent w) (take n p) r.front;
    counts = omega (arith, r.counts, length-append (take n p) r.front, length-take n p);
    whole = r.whole;
  }

  abbrev Result : Type 0
  Result = Option (List ℕ × ℕ × World)

  -- what the loop does behind a pass, given what it does next
  abbrev behind : (List ℕ → ℕ → World → Result) → List ℕ → ℕ → Pass o → Result
  behind more p total x = elim x [
    | gone w' ↦ some (p, total, w')
    | full w' ↦ more p total w'
    | took n w' ↦ more (drop n p) (add32 total n) w'
  ]

  abbrev Sound : (List ℕ → ℕ → World → Result) → Type 0
  Sound more =
      (p : List ℕ) (total : ℕ) (w : World) (rest : List ℕ) (total' : ℕ) (w' : World)
      → total < u32
      → more p total w ≡ some (rest, total', w')
      → Written p total w rest total' w'

  behind-Written :
      (more : List ℕ → ℕ → World → Result) (p : List ℕ) (total : ℕ) (w : World) (x : Pass o)
      (rest : List ℕ) (total' : ℕ) (w' : World)
      → Sound more
      → total < u32
      → Passed p w x
      → behind more p total x ≡ some (rest, total', w')
      → Written p total w rest total' w'
  behind-Written more p total w _ rest total' w' ih h (is_gone down) e = record {
    front = [];
    splits = cc;
    sends = ap sent (sym world) ∙ sent-mounted w ∙ sym (append-nil (sent w));
    counts = omega (arith, total_same, h);
    whole = inr (w, down, sym world);
  }
    where
      world : (mounted w).1 ≡ w'
      world = cc

      total_same : total' ≡ total
      total_same = cc
  behind-Written more p total w _ rest total' w' ih h (is_full w1 same wears) e =
      let r = ih p total w1 rest total' w' h e in
      record {
        front = r.front;
        splits = r.splits;
        sends = r.sends ∙ ap (λ t. t ++ r.front) same;
        counts = r.counts;
        whole = r.whole;
      }
  behind-Written more p total w _ rest total' w' ih h (has_taken n w1 le s some_of) e =
      Written-took p total n w w1 le s
        (ih (drop n p) (add32 total n) w1 rest total' w' (omega arith) e)

  pub write_bytes-Written : (f : ℕ) → Sound (write_bytes o f)
  unfolding write_bytes
  write_bytes-Written zero p total w rest total' w' h e = cc
  write_bytes-Written (suc f) [] total w rest total' w' h e = record {
    front = [];
    splits = cc;
    sends = ap sent world ∙ sym (append-nil (sent w));
    counts = omega (arith, total_same, h);
    whole = inl cc;
  }
    where
      world : w' ≡ w
      world = cc

      total_same : total' ≡ total
      total_same = cc
  write_bytes-Written (suc f) (b ∷ p) total w rest total' w' h e =
      behind-Written (write_bytes o f) (b ∷ p) total w (write_pass o (b ∷ p) w) rest total' w'
        (write_bytes-Written f) h (write_pass-Passed b p w) e

  abbrev pub Ends : ℕ → List ℕ → ℕ → World → Type 0
  Ends f p total w = (r : List ℕ × ℕ × World) × (write_bytes o f p total w ≡ some r)

  behind-Ends :
      (d : Drains) (p : List ℕ) (total : ℕ) (w : World) (x : Pass o)
      → Passed p w x
      → ((w' : World) → d.patience w' < d.patience w → (f : ℕ) × Ends f p total w')
      → ((n : ℕ) (w' : World) → 0 < n → (f : ℕ) × Ends f (drop n p) (add32 total n) w')
      → (f : ℕ) × ((r : List ℕ × ℕ × World) × (behind (write_bytes o f) p total x ≡ some r))
  behind-Ends d p total w _ (is_gone down) wait on = (0, ((p, total, (mounted w).1), refl))
  behind-Ends d p total w _ (is_full w' same wears) wait on = wait w' (wears d)
  behind-Ends d p total w _ (has_taken n w' le s some_of) wait on = on n w' (some_of d)

  -- `k` bounds the bytes that are left and `m` the host's patience
  pub write_bytes-Ends :
      (d : Drains) (k m : ℕ) (p : List ℕ) (total : ℕ) (w : World)
      → length p ≤ k
      → d.patience w < m
      → (f : ℕ) × Ends f p total w
  unfolding write_bytes
  write_bytes-Ends d k m [] total w h j = (1, (([], total, w), refl))
  write_bytes-Ends d zero m (b ∷ p) total w h j = absurd (omega arith)
  write_bytes-Ends d k zero (b ∷ p) total w h j = absurd (omega arith)
  write_bytes-Ends d (suc k) (suc m) (b ∷ p) total w h j =
      let (f, (r, e)) =
        behind-Ends d (b ∷ p) total w (write_pass o (b ∷ p) w) (write_pass-Passed b p w)
          (λ w' t. write_bytes-Ends d (suc k) m (b ∷ p) total w' h (omega arith))
          (λ n w' t.
            write_bytes-Ends d k (suc (d.patience w')) (drop n (b ∷ p)) (add32 total n) w'
              (omega (arith, length-drop n (b ∷ p))) (omega arith)) in
      (suc f, (r, e))

  -- With a host that goes on reading while it is there, the loop over the bytes of a serial message
  -- ends. What it hands to the CDC endpoint is a front of the bytes, in order and without a gap,
  -- which `g_rx_total` counts modulo 2 ^ 32; it is all of them unless the device was found unmounted.
  pub write_bytes-whole :
      (p : List ℕ) (total : ℕ) (w : World)
      → Drains
      → total < u32
      → (f : ℕ) × (rest : List ℕ) × (total' : ℕ) × (w' : World) × (write_bytes o f p total w
          ≡ some (rest, total', w'))
        × Written p total w rest total' w'
  write_bytes-whole p total w d h =
      let (f, ((rest, total', w'), e)) =
        write_bytes-Ends d (length p) (suc (d.patience w)) p total w (omega arith) (omega arith) in
      (f, rest, total', w', e, write_bytes-Written f p total w rest total' w' h e)
