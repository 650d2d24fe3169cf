-- ===== src/Keys/Inject/Rtt.antt =====
-- Key events that come over the RTT channel, from the bytes on the wire to the event queue.
use mokya_lora.Prelude.{
  ℕ, ◌+◌, ◌/◌, ◌%◌, ◌<◌, ◌≡◌, refl, ◌∙◌, Bool, true, false, List, [], ◌∷◌, ◌==◌, if◌then◌else◌,
  add32, arith, u32, length, map,
}
use mokya_lora.Keys.Queue.{QueueApi}
use mokya_lora.Keys.Event.{Event, State, push_inject_flags}
use mokya_lora.Keys.Frame.{Parser, Frame}
use mokya_lora.Keys.Frame.RoundTrip.{Piece, wire, frames, IsWaiting, AllPieces, push-wire}
use mokya_lora.Keys.Inject.{
  Counters, is_ok, in_range, reject_unless, forward, on_key_event, on_frame, on_frames, read_bytes,
}

-- a key that a host presses or releases
pub record KeyCommand : Type 0 where
  pub keycode : ℕ
  pub pressed : Bool
  pub flags : ℕ

abbrev pub IsCommand : KeyCommand → Type 0
IsCommand k = (0 < k.keycode) × (k.keycode < 0x40)

abbrev pub AllCommands : List KeyCommand → Type 0
AllCommands [] = Unit
AllCommands (k ∷ ks) = IsCommand k × AllCommands ks

-- its frame, as the host tools build it: the key byte and the flags byte
abbrev pub command_frame : KeyCommand → Frame
command_frame k = record {
  type = 1;
  payload = (if k.pressed then 0x80 + k.keycode else k.keycode) ∷ k.flags ∷ [];
}

module _ (api : QueueApi Event) where
  open api use {Queue}

  -- the calls of `key_event_push_inject_flags` for the commands, with the number of refusals
  unfoldable pub inject_all : State Queue → List KeyCommand → ℕ × State Queue
  inject_all s [] = (0, s)
  inject_all s (k ∷ ks) =
      let (r, s') = push_inject_flags api s k.keycode k.pressed k.flags in
      let (n, last) = inject_all s' ks in ((if is_ok r then n else n + 1), last)

  ranged : (k : ℕ) → 0 < k → k < 0x40 → in_range k ≡ true
  ranged k h l = ground arith

  forward-command :
      (s : State Queue) (k : ℕ) (pressed : Bool) (flags : ℕ)
      → 0 < k
      → k < 0x40
      → let (r, s') = push_inject_flags api s k pressed flags in
        forward api s (if pressed then 0x80 + k else k) flags ≡ (is_ok r, s')
  unfolding forward
  forward-command s k true flags h l = rw (key, down, ranged k h l) refl
    where
      key : (0x80 + k) % 0x80 ≡ k
      key = omega arith

      down : ((0x80 + k) / 0x80 % 2 == 1) ≡ true
      down = ground arith
  forward-command s k false flags h l = rw (key, up, ranged k h l) refl
    where
      key : k % 0x80 ≡ k
      key = omega arith

      up : (k / 0x80 % 2 == 1) ≡ false
      up = ground arith

  on_frames-commands :
      (ks : List KeyCommand) (c : Counters) (s : State Queue)
      → AllCommands ks
      → let (c', s') = on_frames api c s (map command_frame ks) in
        let (refused, last) = inject_all s ks in
        (s' ≡ last)
        × (c'.frames_ok % u32 ≡ (c.frames_ok + length ks) % u32)
        × (c'.rejected % u32 ≡ (c.rejected + refused) % u32)
  unfolding on_frames on_frame on_key_event inject_all
  on_frames-commands [] c s h = (refl, omega arith, omega arith)
  on_frames-commands (k ∷ ks) c s h =
      let (r, s') = push_inject_flags api s k.keycode k.pressed k.flags in
      let ih =
        on_frames-commands ks
          (reject_unless (is_ok r) (record c { frames_ok = add32 c.frames_ok 1 })) s' h.1 in
      rw
        (
          forward-command s k.keycode k.pressed k.flags h.0.0 h.0.1,
          on_frames,
          on_frame,
          on_key_event,
        )
        (ih.0, omega (arith, ih.1), ground (arith, ih.2))

  -- A read from the RTT channel that delivers frames of key commands, in whatever noise, to a
  -- parser that waits leaves the key events as the calls of `key_event_push_inject_flags` for these
  -- commands leave them, in order. Each frame counts as received and each refused call as rejected,
  -- and the parser waits again.
  pub read_bytes-commands :
      (xs : List Piece) (ks : List KeyCommand) (p : Parser) (c : Counters) (s : State Queue)
      → IsWaiting p
      → AllPieces xs
      → AllCommands ks
      → frames xs ≡ map command_frame ks
      → let (p', c', s') = read_bytes api p c s (wire xs) in
        let (refused, last) = inject_all s ks in
        IsWaiting p'
        × (s' ≡ last)
        × (c'.frames_ok % u32 ≡ (c.frames_ok + length ks) % u32)
        × (c'.rejected % u32 ≡ (c.rejected + refused) % u32)
  unfolding read_bytes
  read_bytes-commands xs ks p c s w v h e =
      let (got, w') = push-wire xs p w v in
      let (same, received, refused) = on_frames-commands ks c s h in
      rw (got ∙ e) (w', same, received, refused)
