-- ===== src/Bridge/Loop.antt =====
-- One round of `bridge_task`. Its two inner loops wait on the host and on core 0; they run on fuel,
-- and `none` means that it ran out.
use mathlib.Core.Option
use mokya_lora.Prelude.{
  ℕ, zero, suc, ◌+◌, Bool, true, false, not, Option, none, some, List, [], ◌∷◌, ◌==◌, if◌then◌else◌,
  take, drop, length, min, add32, inc8,
}
use mokya_lora.Ipc.Ring.{
  Header, Ring, Message, Popped, push, pop, payload_max, ring_slot_count, log_ring_slot_count,
  copy_over,
}
use mokya_lora.Ipc.Ring.Spec.{bytes_of}
use mokya_lora.Bridge.{
  Outside, Kept, Kind, reboot, node, ack, text, serial, other, kind, store, serial_bytes_id,
}

-- The task's locals and what it works on: the three rings of `g_ipc_shared`, the stores of core 1
-- and the counters, which `dbg_u32` also writes to `rx_shown`, `tx_shown` and `usb_state`.
pub record Bridge (W : Type 0) : Type 0 where
  pub reboot_pending : Bool
  pub tx_seq : ℕ
  pub scratch : List ℕ
  pub from_core0 : Ring
  pub log : Ring
  pub cmd : Ring
  pub kept : Kept
  pub rx_total : ℕ
  pub tx_total : ℕ
  pub rx_shown : ℕ
  pub tx_shown : ℕ
  pub usb_state : ℕ
  pub outside : W

module _ (o : Outside) where
  open o use {
    World, mounted, connected, available, write_available, write, read, flush, disconnect, yield,
    ring_doorbell, idle, delay,
  }

  -- one pass through the loop that writes serial bytes: the device is gone, its buffer is full, or it
  -- took that many bytes
  pub data Pass : Type 0 where
    gone : World → Pass
    full : World → Pass
    took : ℕ → World → Pass

  abbrev pub write_pass : List ℕ → World → Pass
  write_pass p w =
      let (up, w1) = mounted w in
      let (avail, w2) = write_available w1 in
      let (wrote, w3) = write (take (min (length p) avail) p) w2 in
      if not up then gone w1 else if avail == 0 then full (yield (flush w2)) else took wrote w3

  -- `while (remaining > 0u)`: what is left of the bytes at `p`, `g_rx_total` and the outside
  unfoldable pub write_bytes : ℕ → List ℕ → ℕ → World → Option (List ℕ × ℕ × World)
  write_bytes zero p total w = none
  write_bytes (suc f) [] total w = some ([], total, w)
  write_bytes (suc f) (b ∷ p) total w = elim (write_pass (b ∷ p) w) [
    | gone w' ↦ some (b ∷ p, total, w')
    | full w' ↦ write_bytes f (b ∷ p) total w'
    | took n w' ↦ write_bytes f (drop n (b ∷ p)) (add32 total n) w'
  ]

  -- `while (!ipc_ring_push(..))`
  unfoldable pub push_until : ℕ → Message → Ring → World → Option (Ring × World)
  push_until zero m r w = none
  push_until (suc f) m r w =
      let (ok, r') = push ring_slot_count r m in
      let rest = push_until f m (delay r' w).0 (delay r' w).1 in if ok then some (r', w) else rest

  -- the state counter at the end of a round, and the wait of a round without work
  abbrev pub state_bits : Bool → Bool → ℕ
  state_bits up cdc = (if up then 1 else 0) + (if cdc then 2 else 0)

  abbrev pub finish : Bool → Bridge World → Bridge World
  finish did_work s =
      let (up, w1) = mounted s.outside in
      let (cdc, w2) = connected w1 in
      record s { usb_state = state_bits up cdc; outside = if did_work then w2 else idle w2 }

  abbrev pub command : ℕ → List ℕ → ℕ → Message
  command seq scratch n = record {
    id = serial_bytes_id;
    number = seq;
    bytes = some scratch;
    len = n;
  }

  abbrev pub pushed : Bridge World → ℕ → Ring × World → Bridge World
  pushed s n (r, w) = record s {
    cmd = r;
    tx_seq = inc8 s.tx_seq;
    tx_total = add32 s.tx_total n;
    tx_shown = add32 s.tx_total n;
    outside = ring_doorbell w;
  }

  -- CDC OUT to the command ring, then the end of the round
  abbrev pub forward : ℕ → Bool → List ℕ → Bridge World → Option (Bridge World)
  forward g did_work [] s = some (finish did_work s)
  forward g did_work (b ∷ l) s =
      let scratch = copy_over (b ∷ l) s.scratch in
      Option.map (λ p. finish true (pushed (record s { scratch = scratch }) (length (b ∷ l)) p))
        (push_until g (command s.tx_seq scratch (length (b ∷ l))) s.cmd s.outside)

  unfoldable pub from_host : ℕ → Bool → Bridge World → Option (Bridge World)
  from_host g did_work s =
      let (any, w1) = available s.outside in
      let (l, w2) = read payload_max w1 in
      if any
      then forward g did_work l (record s { outside = w2 })
      else some (finish did_work (record s { outside = w1 }))

  -- a serial message: what was written, and the flush behind the loop
  abbrev pub written : Bridge World → List ℕ × ℕ × World → Bridge World
  written s (rest, total, w) = record s { rx_total = total; rx_shown = total; outside = flush w }

  -- A message in `scratch`: all kinds but the last two end the round.
  unfoldable pub dispatch : ℕ → ℕ → Kind → Header → Bridge World → Option (Bridge World)
  dispatch f g reboot h s =
      some (record s { reboot_pending = true; outside = disconnect s.outside })
  dispatch f g node h s = some (record s { kept = store node h s.scratch s.kept })
  dispatch f g ack h s = some (record s { kept = store ack h s.scratch s.kept })
  dispatch f g text h s = some (record s { kept = store text h s.scratch s.kept })
  dispatch f g serial h s =
      elim (write_bytes f (take h.payload_len s.scratch) s.rx_total s.outside) [
        | none ↦ none
        | some r ↦ from_host g true (written s r)
      ]
  dispatch f g other h s = from_host g true s

  -- A slot of the log ring is taken and dropped.
  abbrev pub drop_log : Bridge World → Option Popped × Ring → Bridge World
  drop_log s (none, r) = record s { log = r }
  drop_log s (some p, r) = record s { log = r; scratch = bytes_of p.buffer }

  abbrev pub received : ℕ → ℕ → Bridge World → Option Popped × Ring → Option (Bridge World)
  received f g s (none, r) = from_host g false (
      drop_log (record s { from_core0 = r })
        (pop log_ring_slot_count s.log payload_max (some s.scratch)))
  received f g s (some p, r) =
      dispatch f g (kind p.header) p.header
        (record s { from_core0 = r; scratch = bytes_of p.buffer })

  -- a round of `for (;;)`
  unfoldable pub round : ℕ → ℕ → Bridge World → Option (Bridge World)
  round f g s =
      if s.reboot_pending
      then some (record s { outside = idle s.outside })
      else received f g s (pop ring_slot_count s.from_core0 payload_max (some s.scratch))
