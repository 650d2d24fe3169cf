-- ===== src/Keys/Inject/Swd.antt =====
-- A poll of the SWD ring forwards exactly the events that the host has published.
use mokya_lora.Prelude.{
  ℕ, zero, suc, ◌+◌, ◌-◌, ◌%◌, ◌≤◌, ◌<◌, ◌≡◌, refl, List, [], ◌∷◌, if◌then◌else◌, add32, sub32,
  arith, u32,
}
use mokya_lora.Keys.Queue.{QueueApi}
use mokya_lora.Keys.Event.{Event, State}
use mokya_lora.Keys.Inject.{Buf, forward, event_at, consume, drain, poll, mode_swd}

-- the `n` events from index `k` on
abbrev pub published : List ℕ → ℕ → ℕ → List (ℕ × ℕ)
published events k zero = []
published events k (suc n) = event_at events k ∷ published events (add32 k 1) n

module _ (api : QueueApi Event) where
  open api use {Queue}

  -- forwarding events one after another, with the number of those that were accepted
  unfoldable pub forward_all : State Queue → List (ℕ × ℕ) → ℕ × State Queue
  forward_all s [] = (0, s)
  forward_all s ((ev, flags) ∷ es) =
      let (done, s') = forward api s ev flags in
      let (n, last) = forward_all s' es in ((if done then n + 1 else n), last)

  drain-forward_all :
      (n : ℕ) (prod : ℕ) (b : Buf) (s : State Queue)
      → prod < u32
      → b.consumer_idx < u32
      → sub32 prod b.consumer_idx ≡ n
      → let (b', s') = drain api n prod b s in
        let (taken, last) = forward_all s (published b.events b.consumer_idx n) in
        (s' ≡ last)
        × (b'.consumer_idx ≡ prod)
        × (taken ≤ n)
        × (b'.pushed % u32 ≡ (b.pushed + taken) % u32)
        × (b'.rejected % u32 ≡ (b.rejected + (n - taken)) % u32)
  unfolding drain forward_all consume
  drain-forward_all zero prod b s h k e = (refl, omega arith, omega arith, omega arith, omega arith)
  drain-forward_all (suc n) prod b s h k e =
      let ih =
        drain-forward_all n prod (consume api b s).0 (consume api b s).1 h (omega arith)
          (omega arith) in
      ground (arith, ih)

  -- A round of `key_inject_task_fn` in SWD mode takes every event that the host had published, in
  -- order, and no other: the key events are left as forwarding them one by one leaves them, the
  -- consumer's index meets the producer's, and the counters grow by the accepted and the refused.
  pub poll-published :
      (b : Buf) (s : State Queue)
      → b.producer_idx < u32
      → b.consumer_idx < u32
      → let n = sub32 b.producer_idx b.consumer_idx in
        let (b', s') = poll api mode_swd b s in
        let (taken, last) = forward_all s (published b.events b.consumer_idx n) in
        (s' ≡ last)
        × (b'.consumer_idx ≡ b.producer_idx)
        × (taken ≤ n)
        × (b'.pushed % u32 ≡ (b.pushed + taken) % u32)
        × (b'.rejected % u32 ≡ (b.rejected + (n - taken)) % u32)
  unfolding poll
  poll-published b s h k = drain-forward_all _ b.producer_idx b s h k refl
