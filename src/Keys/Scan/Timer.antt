-- ===== src/Keys/Scan/Timer.antt =====
-- What a slot key emits for one gesture: a tap or a long press.
use native.Mathlib.Decide.{dec_lt}
use mokya_lora.Prelude.{
  ℕ, zero, suc, ◌+◌, ◌-◌, ◌≤◌, ◌<◌, ◌≡◌, refl, sym, ap, ◌∙◌, Bool, true, false, List, [], ◌∷◌, ◌++◌,
  leb, if◌then◌else◌, arith, add32, u32, replicate, replicate-append,
}
use mokya_lora.Keys.Code.{long_press_flag}
use mokya_lora.Keys.Scan.{
  Cell, Emit, lp_idle, lp_press_pending, lp_long_emitted, fresh_cell, keycode_defers_press,
  run_cell, emit, long_press_ticks,
}
use mokya_lora.Keys.Scan.Slot.{
  tick_slot, tick_slot-eq, up, down, tick-up, tick-press, tick-long, tick-release, tick-young,
  tick-old,
}

module _ (k : ℕ) (slot : keycode_defers_press k ≡ true) where
  -- one round of a run
  run-step :
      (now : ℕ) (bit : Bool) (bits : List Bool) (cell cell' : Cell) (es : List Emit)
      → tick_slot k now bit cell ≡ (cell', es)
      → run_cell k now (bit ∷ bits) cell
        ≡ ((run_cell k (add32 now 1) bits cell').0, es ++ (run_cell k (add32 now 1) bits cell').1)
  unfolding run_cell
  run-step now bit bits cell cell' es e = rw (tick_slot-eq k slot now bit cell ∙ e)

  -- a press that is held, while it is younger than the long press
  run-pending :
      (n j p : ℕ) (rest : List Bool)
      → p < u32
      → j + n ≤ long_press_ticks
      → run_cell k (add32 p j) (replicate n true ++ rest) (down lp_press_pending p 0)
        ≡ run_cell k (add32 p (j + n)) rest (down lp_press_pending p 0)
  run-pending zero j p rest w h =
      ap (λ i. run_cell k (add32 p i) rest (down lp_press_pending p 0)) (omega arith)
  run-pending (suc n) j p rest w h =
      run-step (add32 p j) true (replicate n true ++ rest) (down lp_press_pending p 0)
        (down lp_press_pending p 0) [] (tick-young k p true 0 j w (omega arith) (omega arith))
      ∙ ap (λ i. run_cell k i (replicate n true ++ rest) (down lp_press_pending p 0)) (omega arith)
      ∙ run-pending n (j + 1) p rest w (omega arith)
      ∙ ap (λ i. run_cell k (add32 p i) rest (down lp_press_pending p 0)) (omega arith)

  -- one whose long press is out
  run-long :
      (n now p : ℕ) (rest : List Bool)
      → now < u32
      → run_cell k now (replicate n true ++ rest) (down lp_long_emitted p 0)
        ≡ run_cell k (add32 now n) rest (down lp_long_emitted p 0)
  run-long zero now p rest w = ap (λ i. run_cell k i rest (down lp_long_emitted p 0)) (omega arith)
  run-long (suc n) now p rest w =
      run-step now true (replicate n true ++ rest) (down lp_long_emitted p 0)
        (down lp_long_emitted p 0) [] (tick-long k now p true 0 (omega arith))
      ∙ run-long n (add32 now 1) p rest (omega arith)
      ∙ ap (λ i. run_cell k i rest (down lp_long_emitted p 0)) (omega arith)

  abbrev long_up : List Emit
  long_up = emit k false long_press_flag ∷ []

  release-long :
      (m c now p : ℕ)
      → m + c ≡ 3
      → run_cell k now (replicate (suc m) false) (down lp_long_emitted p c) ≡ (up p 0, long_up)
  unfolding run_cell
  release-long zero c now p h =
      ap (λ c. run_cell k now (false ∷ []) (down lp_long_emitted p c)) {y = 3} (omega arith)
      ∙ run-step now false [] (down lp_long_emitted p 3) (up p 0) long_up
          (tick-release k now p lp_long_emitted)
  release-long (suc m) c now p h =
      run-step now false (replicate (suc m) false) (down lp_long_emitted p c)
        (down lp_long_emitted p (c + 1)) [] (tick-long k now p false c (omega arith))
      ∙ release-long m (c + 1) (add32 now 1) p (omega arith)

  abbrev long_press : List Emit
  long_press = emit k true long_press_flag ∷ emit k false long_press_flag ∷ []

  abbrev tap : List Emit
  tap = emit k true 0 ∷ emit k false 0 ∷ []

  -- A release that begins with the press still pending: the timer may yet run out before the
  -- release is committed.
  release-pending :
      (m c j p : ℕ)
      → p < u32
      → m + c ≡ 3
      → j ≤ long_press_ticks
      → run_cell k (add32 p j) (replicate (suc m) false) (down lp_press_pending p c)
        ≡ (up p 0, if leb 101 (j + m) then long_press else tap)
  unfolding run_cell
  release-pending zero c j p w h old =
      ap (λ c. run_cell k (add32 p j) (false ∷ []) (down lp_press_pending p c)) {y = 3}
        (omega arith)
      ∙ run-step (add32 p j) false [] (down lp_press_pending p 3) (up p 0) tap
          (tick-release k (add32 p j) p lp_press_pending)
      ∙ ap (λ t. (up p 0, if t then long_press else tap)) (sym short)
    where
      short : leb 101 (j + 0) ≡ false
      short = ground arith
  release-pending (suc m) c j p w h old = elim (dec_lt j long_press_ticks) [
    | yes young ↦
        run-step (add32 p j) false (replicate (suc m) false) (down lp_press_pending p c)
          (down lp_press_pending p (c + 1)) [] (tick-young k p false c j w (omega arith) young)
        ∙ ap (λ i. run_cell k i (replicate (suc m) false) (down lp_press_pending p (c + 1)))
            (omega arith)
        ∙ release-pending m (c + 1) (j + 1) p w (omega arith) (omega arith)
        ∙ ap (λ n. (up p 0, if leb 101 n then long_press else tap)) (omega arith)
    | no out ↦
        run-step (add32 p j) false (replicate (suc m) false) (down lp_press_pending p c)
          (down lp_long_emitted p (c + 1)) (emit k true long_press_flag ∷ [])
          (tick-old k p false c j w (omega arith) (omega arith))
        ∙ ap (λ (r : Cell × List Emit). (r.0, emit k true long_press_flag ∷ r.1))
            (release-long m (c + 1) (add32 (add32 p j) 1) p (omega arith))
        ∙ ap (λ t. (up p 0, if t then long_press else tap)) (late out)
  ]
    where
      late : ¬ (j < long_press_ticks) → true ≡ leb 101 (j + suc m)
      late out = ground arith

  press :
      (t : ℕ) (rest : List Bool)
      → run_cell k t (replicate 4 true ++ rest) fresh_cell
        ≡ run_cell k (add32 (add32 t 3) 1) rest (down lp_press_pending (add32 t 3) 0)
  press t rest =
      run-step t true _ (up 0 0) (up 0 1) [] (tick-up k t 0 0 (omega arith))
      ∙ run-step (add32 t 1) true _ (up 0 1) (up 0 2) [] (tick-up k (add32 t 1) 0 1 (omega arith))
      ∙ run-step (add32 (add32 t 1) 1) true _ (up 0 2) (up 0 3) []
          (tick-up k (add32 (add32 t 1) 1) 0 2 (omega arith))
      ∙ run-step (add32 (add32 (add32 t 1) 1) 1) true rest (up 0 3)
          (down lp_press_pending (add32 (add32 (add32 t 1) 1) 1) 0) [] (tick-press k _ 0)
      ∙ ap (λ p. run_cell k (add32 p 1) rest (down lp_press_pending p 0)) (omega arith)

  -- a press that is held for `n` rounds and then released
  held_and_up :
      (p n : ℕ)
      → p < u32
      → run_cell k (add32 p 1) (replicate n true ++ replicate 4 false) (down lp_press_pending p 0)
        ≡ (up p 0, if leb 97 n then long_press else tap)
  held_and_up p n w = elim (dec_lt n long_press_ticks) [
    | yes short ↦
        run-pending n 1 p (replicate 4 false) w (omega arith)
        ∙ release-pending 3 0 (1 + n) p w refl (omega arith)
        ∙ ap (λ t. (up p 0, if t then long_press else tap)) (both short)
    | no long ↦
        ap (λ bits. run_cell k (add32 p 1) bits (down lp_press_pending p 0)) (cut long)
        ∙ run-pending 99 1 p _ w (omega arith)
        ∙ run-step (add32 p 100) true _ (down lp_press_pending p 0) (down lp_long_emitted p 0)
            (emit k true long_press_flag ∷ []) (tick-old k p true 0 100 w (omega arith) refl)
        ∙ ap (λ (r : Cell × List Emit). (r.0, emit k true long_press_flag ∷ r.1))
            (run-long (n - 100) (add32 (add32 p 100) 1) p (replicate 4 false) (omega arith)
              ∙ release-long 3 0 _ p refl)
        ∙ ap (λ t. (up p 0, if t then long_press else tap)) (late long)
  ]
    where
      both : n < long_press_ticks → leb 101 (1 + n + 3) ≡ leb 97 n
      both h = ground arith

      late : ¬ (n < long_press_ticks) → true ≡ leb 97 n
      late h = ground arith

      cut :
          ¬ (n < long_press_ticks)
          → replicate n true ++ replicate 4 false
            ≡ replicate 99 true ++ (true ∷ (replicate (n - 100) true ++ replicate 4 false))
      cut h =
          ap (λ m. replicate m true ++ replicate 4 false) {y = 99 + suc (n - 100)} (omega arith)
          ∙ sym (replicate-append 99 (suc (n - 100)) true (replicate 4 false))

  -- A slot key that is sampled down `4 + n` times from start-up, at whatever tick, and then up 4
  -- times is up again and has emitted a press and its release, both flagged as long when `n` is 97
  -- or more and both without a flag when it is less. So the long press takes effect once 100 ticks
  -- of 5 ms lie between the committed press and a round before the committed release.
  pub gesture :
      (t n : ℕ)
      → let (cell, es) =
          run_cell k t (replicate 4 true ++ (replicate n true ++ replicate 4 false)) fresh_cell in
        (cell.stable ≡ false)
        × (cell.lp_state ≡ lp_idle)
        × (es ≡ (
            if leb 97 n
            then emit k true long_press_flag ∷ emit k false long_press_flag ∷ []
            else emit k true 0 ∷ emit k false 0 ∷ []))
  gesture t n =
      rw (press t (replicate n true ++ replicate 4 false) ∙ held_and_up (add32 t 3) n (omega arith))
        (refl, refl, refl)
