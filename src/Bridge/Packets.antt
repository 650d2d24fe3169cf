-- ===== src/Bridge/Packets.antt =====
-- The packets of the data ring as the bridge sees them.
use mathlib.Core.List.{append_assoc}
use mokya_lora.Prelude.{
  ℕ, zero, suc, ◌≤◌, ◌≡◌, refl, sym, ap, Bool, true, false, ◌||◌, ◌∙◌, some, List, [], ◌∷◌, ◌++◌,
  take, drop, length, min, arith, AllBytes, le-or-gt, ◌⊎◌, inl, inr, length-take, lt→ltb,
}
use mokya_lora.Ipc.Ring.{Message, payload_max, copy_from, copy_over}
use mokya_lora.Ipc.Ring.Spec.{Packet, Queue, IsMessage, packet, bytes_of, deliver, enqueue}
use mokya_lora.Bridge.{Kept, kind}
use mokya_lora.Bridge.Round.{is_reboot, wire}
use mokya_lora.Bridge.Fields.{IsPacket, handle}

abbrev pub AllPackets : Queue → Type 0
AllPackets [] = Unit
AllPackets (p ∷ q) = IsPacket p × AllPackets q

pub AllPackets-snoc :
    (q : Queue) (p : Packet) → AllPackets q → IsPacket p → AllPackets (q ++ p ∷ [])
AllPackets-snoc [] p h v = (v, tt)
AllPackets-snoc (x ∷ q) p h v = (h.0, AllPackets-snoc q p h.1 v)

-- the stores after some packets, one behind the other, and the serial bytes in them
abbrev pub handle_all : Kept → Queue → Kept
handle_all k [] = k
handle_all k (p ∷ q) = handle_all (handle p k) q

pub handle_all-append :
    (k : Kept) (q ps : Queue) → handle_all k (q ++ ps) ≡ handle_all (handle_all k q) ps
handle_all-append k [] ps = refl
handle_all-append k (x ∷ q) ps = handle_all-append (handle x k) q ps

AllBytes-take : (n : ℕ) (l : List ℕ) → AllBytes l → AllBytes (take n l)
AllBytes-take zero l h = tt
AllBytes-take (suc n) [] h = tt
AllBytes-take (suc n) (b ∷ l) h = (h.0, AllBytes-take n l h.1)

-- a message that core 0 pushes: its bytes are there, and they are bytes
abbrev pub IsSent : Message → Type 0
IsSent m = IsMessage m × AllBytes (bytes_of m.bytes)

pub packet-IsPacket : (m : Message) → IsSent m → m.len ≤ payload_max → IsPacket (packet m)
packet-IsPacket m h le = record {
  whole = omega (arith, length-take m.len (bytes_of m.bytes), h.0);
  fits = le;
  bytes = AllBytes-take m.len (bytes_of m.bytes) h.1;
}

take-all : (n : ℕ) (l : List ℕ) → length l ≤ n → take n l ≡ l
take-all zero [] h = refl
take-all zero (b ∷ l) h = absurd (omega arith)
take-all (suc n) [] h = refl
take-all (suc n) (b ∷ l) h = ap (λ t. b ∷ t) (take-all n l (omega arith))

copy_from-all :
    (b l : List ℕ) (n : ℕ) → n ≡ length b → (stale : List ℕ) × (copy_from (some b) n l ≡ b ++ stale)
copy_from-all [] l n h = (l, ground (arith, h))
copy_from-all (x ∷ b) l n h = (
  drop (length (x ∷ b)) l,
  rw (lt→ltb 0 n (omega arith)) (ap (λ t. copy_over t l) (take-all n (x ∷ b) (omega arith))),
)

-- What the buffer holds behind a pop: the packet's bytes, and then what it held before.
pub deliver-buffer :
    (p : Packet) (b : List ℕ)
    → IsPacket p
    → (stale : List ℕ) × (bytes_of (deliver p payload_max (some b)).buffer ≡ p.bytes ++ stale)
deliver-buffer p b v =
    copy_from-all p.bytes b (min p.header.payload_len payload_max) (omega (arith, v.whole, v.fits))

-- the serial bytes in some packets, and whether core 0 announces a reboot in one
abbrev pub serial_of : Queue → List ℕ
serial_of [] = []
serial_of (p ∷ q) = wire (kind p.header) p.bytes ++ serial_of q

pub serial_of-append : (q ps : Queue) → serial_of (q ++ ps) ≡ serial_of q ++ serial_of ps
serial_of-append [] ps = refl
serial_of-append (x ∷ q) ps =
    ap (λ t. wire (kind x.header) x.bytes ++ t) (serial_of-append q ps)
    ∙ sym (append_assoc (wire (kind x.header) x.bytes) (serial_of q) (serial_of ps))

abbrev pub any_reboot : Queue → Bool
any_reboot [] = false
any_reboot (p ∷ q) = is_reboot (kind p.header) || any_reboot q

pub any_reboot-append : (q ps : Queue) → any_reboot (q ++ ps) ≡ (any_reboot q || any_reboot ps)
any_reboot-append [] ps = refl
any_reboot-append (x ∷ q) ps = ground (arith, any_reboot-append q ps)

-- Nothing stands behind a message that announces a reboot.
abbrev pub NoneBehind : Queue → Type 0
NoneBehind [] = Unit
NoneBehind (p ∷ q) = (is_reboot (kind p.header) ≡ true → q ≡ []) × NoneBehind q

pub NoneBehind-take :
    (q c : Queue) → NoneBehind q → any_reboot q ≡ false → NoneBehind (q ++ take 1 c)
NoneBehind-take [] [] h e = tt
NoneBehind-take [] (p ∷ c) h e = (λ i. refl, tt)
NoneBehind-take (x ∷ q) c h e =
    (λ i. absurd (ground (arith, i, e)), NoneBehind-take q c h.1 (ground (arith, e)))

pub AllPackets-drop : (n : ℕ) (q : Queue) → AllPackets q → AllPackets (drop n q)
AllPackets-drop zero q h = h
AllPackets-drop (suc n) [] h = tt
AllPackets-drop (suc n) (p ∷ q) h = AllPackets-drop n q h.1

-- a push on the bounded queue: the packet joins the others, or nothing changes
pub enqueue-cases :
    (cap : ℕ) (c : Queue) (m : Message)
    → ((m.len ≤ payload_max) × (enqueue cap c m ≡ (true, c ++ packet m ∷ [])))
      ⊎ (enqueue cap c m ≡ (false, c))
unfolding enqueue
enqueue-cases cap c m = elim (le-or-gt m.len payload_max) [
  | inl fits ↦ elim (le-or-gt cap (length c)) [
    | inl full ↦ inr (ground arith)
    | inr room ↦ inl (fits, ground arith)
  ]
  | inr long ↦ inr (ground arith)
]
