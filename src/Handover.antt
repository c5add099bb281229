-- ===== src/Handover.antt =====
-- The cursor's way to the client and back: the capture of crates/ss-input/src/warp_capture.rs, and what
-- src/main.rs does with its events at the server and with the messages at the client.
use supershare.Base.{
  ◌+◌, ◌∙◌, List, length-append, ◌/◌, ◌<◌, ◌≡◌, refl, Bool, true, false, [], ◌∷◌, ◌++◌, Text,
  length, arith,
}
use supershare.Base.Int.{ℤ, pos, ◌+ℤ◌, ◌-ℤ◌, ◌≤ℤ◌, +ℤ_parts}
use supershare.Base.Coord.{of_px}
use supershare.Protocol.Kind.{Message}
use supershare.Protocol.Content.{Hash, ClipboardContent}
use supershare.Capture.{
  WarpInputEvent, CallbackState, EventType, move_to, queue_capacity, try_send, check_exit, track,
  advance, after_move, on_move, dispatch, callback, enter_event, to_message, is_zero,
}
use supershare.Capture.Deltas.{IsDriving, callback_sends}
use supershare.Capture.Modes.{crosses, moved, callback_mode}
use supershare.Server.{ServerState, ConnectedClient, forward_input, broadcast_control}
use supershare.Passive.{PassiveClient, Effects, apply}
use supershare.Passive
use supershare.Clipboard.Sync.{Zstd, Slot}
use supershare.Clipboard.Tasks.{exit_remote, server_receive}

-- What the server knows of one client, and the client's own side.
pub record Sides : Type 0 where
  pub hash : Hash
  pub zstd : Zstd
  pub can_write : ClipboardContent → Bool
  pub capture : CallbackState
  pub server : ServerState
  pub name : Text
  pub client : ConnectedClient
  pub passive : PassiveClient
  pub slot : Slot

-- A server in local mode, with a client that is connected, the only one, and room for two events in
-- the queue.
pub record IsReady (s : Sides) : Type 0 where
  pub local_mode : s.capture.is_remote ≡ false
  pub has_client : s.capture.has_client ≡ true
  pub room : length s.capture.tx + 1 < queue_capacity
  pub only : s.server.clients ≡ (s.name, s.client) ∷ []

moves_left : (dx : ℤ) → of_px 6 +ℤ dx ≤ℤ pos 0 → is_zero dx ≡ false
moves_left dx left = ground (arith, +ℤ_parts (of_px 6) dx)

module _ (s : Sides) (ready : IsReady s) (x y : ℤ)
    (over_edge : crosses s.capture (move_to x y) ≡ true) where
  abbrev entered : CallbackState
  entered = (callback s.hash s.capture (move_to x y)).0

  abbrev enters : WarpInputEvent
  enters = enter_event (moved s.capture x y)

  callback_enters :
      IsDriving entered
      × (entered.tx ≡ s.capture.tx ++ enters ∷ [])
      × (entered.prev_x ≡ x)
      × (entered.prev_y ≡ y)
  unfolding callback dispatch on_move track advance after_move check_exit try_send
  callback_enters = ground (arith, ready.local_mode, ready.has_client, ready.room, over_edge)

  -- The movement that follows is sent as its delta, if it goes to the left.
  drives_on :
      (x' y' : ℤ)
      → of_px 6 +ℤ (x' -ℤ x) ≤ℤ pos 0
      → (callback s.hash entered (move_to x' y')).0.tx
        ≡ entered.tx ++ WarpInputEvent.mouse_delta (x' -ℤ x) (y' -ℤ y) ∷ []
  drives_on x' y' left =
      let (driving, queued, px, py) = callback_enters in
      let longer = length-append s.capture.tx (enters ∷ []) in
      let sends =
        callback_sends s.hash entered x' y' driving
          (rw queued (omega (arith, longer, ready.room))) in
      sends ∙ rw (px, py, moves_left (x' -ℤ x) left) refl

  -- The server sends the crossing to the client, and the client's cursor starts near its left edge, in
  -- the middle of its height.
  arrives :
      let message = to_message enters in
      let (c, told) = Passive.on_control s.passive message in
      (forward_input s.server true enters ≡ (s.client.control_tx, message) ∷ [])
      × (c.x ≡ of_px 6)
      × (told.injected ≡ Message.mouse_move (of_px 6) (of_px (s.passive.screen_h / 2)) ∷ [])
  unfolding forward_input broadcast_control to_message Passive.on_control
  arrives = (rw (ready.only, forward_input) refl, refl, refl)

-- A delta that takes the cursor to the left edge or beyond makes the client ask for its return.
returns :
    (c : PassiveClient) (dx dy : ℤ)
    → c.x +ℤ dx ≤ℤ pos 0
    → (Passive.on_data c (Message.mouse_delta dx dy)).1.sent ≡ Message.boundary_leave 1 ∷ []
unfolding Passive.on_data apply
returns c dx dy h = ground (arith, +ℤ_parts c.x dx)

-- Asked to leave remote mode, the capture does so with the next event, unless that crosses again.
leaves_remote :
    (h : Hash) (t : CallbackState) (e : EventType)
    → let u = record t { exit_remote = true } in
      crosses u e ≡ false → (callback h u e).0.is_remote ≡ false
leaves_remote h t e stays =
    let u = record t { exit_remote = true } in
    let mode = callback_mode h u e in ground (arith, mode, stays)

-- The capture, after some events.
abbrev pub captured : Hash → CallbackState → List EventType → CallbackState
captured h s [] = s
captured h s (e ∷ es) = captured h (callback h s e).0 es

-- The way to the client and back, for a server in local mode that is connected to one client and has room
-- for two events in its queue. A movement that crosses the right edge puts the server into remote mode; the
-- crossing goes to the client, whose cursor starts six pixels from its left edge in the middle of its
-- height, whatever the height of the crossing, and is injected there. A movement by six pixels or more to
-- the left is queued as its delta, which goes to the client and makes it send `BoundaryLeave`. What the
-- server does with that is to set its flag. Whatever events the capture has had by then, its next one,
-- unless it crosses again, ends in local mode.
pub handover :
    (s : Sides) (x y x' y' : ℤ) (between : List EventType) (e : EventType)
    → IsReady s
    → crosses s.capture (move_to x y) ≡ true
    → of_px 6 +ℤ (x' -ℤ x) ≤ℤ pos 0
    → let t = (callback s.hash s.capture (move_to x y)).0 in
      let event = enter_event (moved s.capture x y) in
      let (c, told) = Passive.on_control s.passive (to_message event) in
      let u = (callback s.hash t (move_to x' y')).0 in
      let delta = WarpInputEvent.mouse_delta (x' -ℤ x) (y' -ℤ y) in
      let (c', back) = Passive.on_data c (to_message delta) in
      let asked = record (captured s.hash u between) { exit_remote = true } in
      crosses asked e ≡ false
      → (t.is_remote ≡ true)
        × (t.tx ≡ s.capture.tx ++ event ∷ [])
        × (forward_input s.server true event ≡ (s.client.control_tx, to_message event) ∷ [])
        × (told.injected ≡ Message.mouse_move (of_px 6) (of_px (s.passive.screen_h / 2)) ∷ [])
        × (u.tx ≡ t.tx ++ delta ∷ [])
        × (forward_input s.server true delta ≡ (s.client.data_tx, to_message delta) ∷ [])
        × (back.sent ≡ Message.boundary_leave 1 ∷ [])
        × (server_receive s.hash s.zstd s.can_write s.slot (Message.boundary_leave 1)
            ≡ (s.slot, exit_remote ∷ []))
        × ((callback s.hash asked e).0.is_remote ≡ false)
unfolding server_receive forward_input
handover s x y x' y' between e ready over_edge left stays =
    let event = enter_event (moved s.capture x y) in
    let c = (Passive.on_control s.passive (to_message event)).0 in
    let (driving, queued, px, py) = callback_enters s ready x y over_edge in
    let (forwarded, at_x, injected) = arrives s ready x y over_edge in
    let u = (callback s.hash (callback s.hash s.capture (move_to x y)).0 (move_to x' y')).0 in
    (
      driving.remote,
      queued,
      forwarded,
      injected,
      drives_on s ready x y over_edge x' y' left,
      unfold to_message in rw ready.only refl,
      unfold to_message in returns c (x' -ℤ x) (y' -ℤ y) (rw at_x left),
      refl,
      leaves_remote s.hash (captured s.hash u between) e stays,
    )
