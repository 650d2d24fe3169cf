-- ===== src/Bridge/Tests.antt =====
-- A buffer of two bytes that the host empties when the USB task has its turn, and a core 0 that takes
-- a command per delay.
use mokya_lora.Prelude.{
  ℕ, ◌+◌, ◌-◌, ◌≤◌, ◌<◌, ◌≡◌, refl, ap, ◌∙◌, true, false, Option, none, some, List, [], ◌∷◌, ◌++◌,
  take, drop, length, min, ltb, arith, length-take, length-drop, replicate,
}
use mokya_lora.Ipc.Ring.{Ring, Message, empty_slot, push, pop, payload_max, ring_slot_count}
use mokya_lora.Ipc.Ring.Spec.{Queue, packet, dequeue}
use mokya_lora.Ipc.Ring.Inv.{IsValid, pop-IsValid}
use mokya_lora.Ipc.Ring.Refine.{contents, pop_refines}
use mokya_lora.Messages.Inbox
use mokya_lora.Messages.Nodes.{empty_node}
use mokya_lora.Messages.Status
use mokya_lora.Bridge.{Outside, Kept, kind, store}
use mokya_lora.Bridge.Fields.{handle, store-packet}
use mokya_lora.Bridge.Loop.{Bridge, round, write_bytes, push_until, dispatch, from_host}
use mokya_lora.Bridge.Serial.{Drains, Written, write_bytes-whole}
use mokya_lora.Bridge.Packets.{handle_all, any_reboot, NoneBehind}
use mokya_lora.Bridge.History.{
  After, start, pushes, rounds, IsFresh, After-stores, After-stream, pending_of, core0_push,
}
use mokya_lora.Bridge.Commands.{Listens, round-ends}

record Host : Type 0 where
  used : ℕ
  sent : List ℕ
  typed : List ℕ

abbrev taken : Host → List ℕ → ℕ
taken w l = min (2 - w.used) (length l)

rest-dequeue : (c : Queue) → (dequeue c payload_max none).1 ≡ drop 1 c
unfolding dequeue
rest-dequeue [] = refl
rest-dequeue (p ∷ c) = refl

rest-pop :
    (r : Ring)
    → IsValid ring_slot_count r
    → contents ring_slot_count (pop ring_slot_count r payload_max none).1
      ≡ drop 1 (contents ring_slot_count r)
rest-pop r v =
    ap (λ x. x.1) (pop_refines ring_slot_count payload_max none v)
    ∙ rest-dequeue (contents ring_slot_count r)

delay-drop :
    (r : Ring)
    → IsValid ring_slot_count r
    → IsValid ring_slot_count (pop ring_slot_count r payload_max none).1
      × ((k : ℕ) × (contents ring_slot_count (pop ring_slot_count r payload_max none).1
            ≡ drop k (contents ring_slot_count r)))
delay-drop r v = (pop-IsValid ring_slot_count payload_max none v, (1, rest-pop r v))

abbrev host : Outside
host = record {
  World = Host;
  mounted = λ w. (true, w);
  connected = λ w. (true, w);
  available = λ w. (ltb 0 (length w.typed), w);
  write_available = λ w. (2 - w.used, w);
  write = λ l w.
      (taken w l, record w { used = w.used + taken w l; sent = w.sent ++ take (taken w l) l });
  read = λ n w. (take n w.typed, record w { typed = drop n w.typed });
  flush = λ w. w;
  disconnect = λ w. w;
  yield = λ w. record w { used = 0 };
  ring_doorbell = λ w. w;
  idle = λ w. w;
  delay = λ r w. ((pop ring_slot_count r payload_max none).1, w);
  sent = λ w. w.sent;
  write-le = λ l w. omega arith;
  read-le = λ n w. omega (arith, length-take n w.typed);
  sent-write = λ l w. refl;
  sent-mounted = λ w. refl;
  sent-connected = λ w. refl;
  sent-available = λ w. refl;
  sent-write_available = λ w. refl;
  sent-read = λ n w. refl;
  sent-flush = λ w. refl;
  sent-disconnect = λ w. refl;
  sent-yield = λ w. refl;
  sent-ring_doorbell = λ w. refl;
  sent-idle = λ w. refl;
  sent-delay = λ r w. refl;
  delay-pops = λ r w v. delay-drop r v;
}

host-Drains : Drains host
host-Drains = record {
  patience = λ w. w.used;
  takes_some = λ l w h k. omega (arith, h, k);
  wears_off = λ w up full. omega (arith, full);
}

host-Listens : Listens host
host-Listens = record { patience = λ c w. length c; wears_off = λ r w v full. shrinks r v full }
  where
    shrinks :
        (r : Ring)
        → IsValid ring_slot_count r
        → ring_slot_count ≤ length (contents ring_slot_count r)
        → length (contents ring_slot_count (pop ring_slot_count r payload_max none).1)
          < length (contents ring_slot_count r)
    shrinks r v full =
        omega (arith, ap length (rest-pop r v), length-drop 1 (contents ring_slot_count r), full)

abbrev idle_host : Host
idle_host = record { used = 2; sent = []; typed = 104 ∷ 105 ∷ [] }

write_bytes-whole_example :
    (f : ℕ) × (rest : List ℕ) × (total : ℕ) × (w : Host) × (write_bytes host f
        (1 ∷ 2 ∷ 3 ∷ [])
        7
        idle_host
      ≡ some (rest, total, w))
    × Written host (1 ∷ 2 ∷ 3 ∷ []) 7 idle_host rest total w
write_bytes-whole_example =
    write_bytes-whole host (1 ∷ 2 ∷ 3 ∷ []) 7 idle_host host-Drains (omega arith)

abbrev ring : ℕ → Ring
ring n = record { head = 0; tail = 0; overflow = 0; slots = replicate n empty_slot }

ring-IsValid : IsValid ring_slot_count (ring 32)
ring-IsValid = record {
  room = omega arith;
  pos = omega arith;
  fits = omega arith;
  folds = ∣ (134217728, refl) ∣₁;
  head_word = omega arith;
  tail_word = omega arith;
  bounded = omega arith;
}

abbrev letter : Message
letter = record { id = 6; number = 3; bytes = some (65 ∷ []); len = 1 }

abbrev kept : Kept
kept = record {
  nodes = record { table = replicate 8 empty_node; change_seq = 0; touch_clock = 0 };
  inbox = Inbox.initial;
  status = Status.initial;
}

abbrev fresh : Bridge Host
fresh = record {
  reboot_pending = false;
  tx_seq = 0;
  scratch = replicate 4 7;
  from_core0 = ring 32;
  log = ring 16;
  cmd = ring 32;
  kept = kept;
  rx_total = 0;
  tx_total = 0;
  rx_shown = 0;
  tx_shown = 0;
  usb_state = 0;
  outside = idle_host;
}

-- a text that claims more bytes than its packet has
abbrev text_bytes : List ℕ
text_bytes = 5 ∷ 0 ∷ 0 ∷ 0 ∷ 255 ∷ 255 ∷ 255 ∷ 255 ∷ 1 ∷ 0 ∷ 9 ∷ 0 ∷ 72 ∷ 105 ∷ []

abbrev text_message : Message
text_message = record { id = 1; number = 0; bytes = some text_bytes; len = 14 }

store-packet_example :
    store
      (kind (packet text_message).header)
      (packet text_message).header
      (text_bytes ++ 90 ∷ 90 ∷ [])
      kept
    ≡ handle (packet text_message) kept
store-packet_example =
    store-packet (packet text_message) (90 ∷ 90 ∷ [])
      (record { whole = omega arith; fits = omega arith; bytes = omega arith }) kept

abbrev reboot_message : Message
reboot_message = record { id = 9; number = 1; bytes = none; len = 0 }

abbrev serial_message : Message
serial_message = record { id = 6; number = 2; bytes = some (1 ∷ 2 ∷ 3 ∷ []); len = 3 }

-- three serial bytes, a buffer that is full and what the host typed
abbrev with_serial : Bridge Host
with_serial = (core0_push host fresh serial_message).1

round-ends_example : (f : ℕ) × (g : ℕ) × ((s : Bridge Host) × (round host f g with_serial ≡ some s))
unfolding push
round-ends_example = round-ends host host-Listens host-Drains with_serial ring-IsValid

fresh-IsFresh : IsFresh host fresh
fresh-IsFresh = record { ring = ring-IsValid; empty = refl; total = omega arith; running = refl }

abbrev or_fresh : Option (Bridge Host) → Bridge Host
or_fresh none = fresh
or_fresh (some s) = s

abbrev with_text : Bridge Host
with_text = (core0_push host fresh text_message).1

abbrev with_all : Bridge Host
with_all = (core0_push host (core0_push host with_text serial_message).1 reboot_message).1

abbrev first : Bridge Host
first = or_fresh (round host 6 1 with_all)

abbrev second : Bridge Host
second = or_fresh (round host 6 1 first)

abbrev third : Bridge Host
third = or_fresh (round host 6 1 second)

round-first : round host 6 1 with_all ≡ some first
unfolding round pop push dispatch kind from_host store
round-first = refl

round-second : round host 6 1 first ≡ some second
unfolding round pop push dispatch kind from_host store write_bytes push_until
round-second = refl

round-third : round host 6 1 second ≡ some third
unfolding round pop push dispatch kind from_host store write_bytes push_until
round-third = refl

abbrev three : Queue
three = packet text_message ∷ packet serial_message ∷ packet reboot_message ∷ []

-- a text, serial bytes and the announcement of a reboot, and three rounds
history : After host fresh third three three
unfolding round pop push dispatch kind from_host store write_bytes push_until
history =
    rounds 6 1
      (rounds 6 1
        (rounds 6 1
          (pushes reboot_message
            (pushes serial_message (pushes text_message start (omega arith, omega arith))
              (omega arith, omega arith))
            (omega arith, tt))
          round-first)
        round-second)
      round-third

After-stores_example :
    (three ≡ three ++ pending_of host third)
    × (third.kept ≡ handle_all kept three)
    × (third.reboot_pending ≡ any_reboot three)
    × NoneBehind three
After-stores_example = After-stores host fresh third three three fresh-IsFresh history

After-stream_example : third.outside.sent ≡ 1 ∷ 2 ∷ 3 ∷ []
unfolding kind
After-stream_example = After-stream host fresh third three three fresh-IsFresh history (λ w. refl)
