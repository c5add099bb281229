-- ===== src/Capture/Modes.antt =====
-- crates/ss-input/src/warp_capture.rs: local and remote mode.
use supershare.Base.{◌≡◌, Bool, true, false, ◌&&◌, ◌||◌, not, arith, if◌then◌else◌}
use supershare.Base.Int.{ℤ, pos, leb_ℤ, ◌+ℤ◌, ◌-ℤ◌}
use supershare.Base.Coord.{of_px, clamp}
use supershare.Protocol.Content.{Hash}
use supershare.Capture.{
  CallbackState, EventType, move_to, try_send, check_exit, track, advance, after_move, on_move,
  forward, dispatch, callback, at_right_edge, enter_event,
}

-- Whether a callback leaves remote mode first.
abbrev pub leaves : CallbackState → Bool
leaves s = s.exit_remote || not s.has_client

check_exit_remote : (s : CallbackState) → (check_exit s).is_remote ≡ s.is_remote && not (leaves s)
unfolding check_exit
check_exit_remote s = ground arith

-- The position that a movement to `(x, y)` leads to, in a callback.
abbrev pub moved : CallbackState → ℤ → ℤ → CallbackState
moved s x y = let (t, dx, dy) = track (check_exit s) x y in advance t dx dy

-- In remote mode, unless it is left, every event is kept from the X server and the mode stays.
pub callback_remote :
    (h : Hash) (s : CallbackState) (e : EventType)
    → s.is_remote ≡ true
    → s.exit_remote ≡ false
    → s.has_client ≡ true
    → ((callback h s e).1 ≡ false) × ((callback h s e).0.is_remote ≡ true)
unfolding callback dispatch on_move track advance after_move forward check_exit
callback_remote h s (move_to x y) r ex c = ground arith
callback_remote h s _ r ex c = ground arith

-- Whether the event crosses into the client's screen: a movement that leads to the right edge, while a
-- client is connected.
abbrev pub crosses : CallbackState → EventType → Bool
crosses s (move_to x y) = at_right_edge (moved s x y) && s.has_client
crosses s _ = false

-- A callback ends in remote mode exactly if it was in remote mode and neither asked to leave it nor
-- left without a client, or if the event crosses into the client's screen.
pub callback_mode :
    (h : Hash) (s : CallbackState) (e : EventType)
    → (callback h s e).0.is_remote ≡ s.is_remote && not (leaves s) || crosses s e
unfolding callback dispatch on_move track advance after_move forward check_exit
callback_mode h s (move_to x y) = ground arith
callback_mode h s _ = ground arith

-- An event goes on to the X server exactly if the callback ends in local mode.
pub callback_passes :
    (h : Hash) (s : CallbackState) (e : EventType)
    → (callback h s e).1 ≡ not (callback h s e).0.is_remote
unfolding callback dispatch on_move track advance after_move forward check_exit
callback_passes h s (move_to x y) = ground arith
callback_passes h s _ = ground arith

-- Outside remote mode nothing of the user's input is sent: the queue stays as it is, but for the
-- boundary event of a crossing.
pub callback_private :
    (h : Hash) (s : CallbackState) (e : EventType)
    → s.is_remote && not (leaves s) ≡ false
    → (callback h s e).0.tx ≡ (
        if crosses s e
        then elim e [ move_to x y ↦ try_send s.tx (enter_event (moved s x y)) | _ ↦ s.tx ]
        else s.tx)
unfolding callback dispatch on_move track advance after_move forward check_exit
callback_private h s (move_to x y) l = ground arith
callback_private h s _ l = ground arith

-- After the client has given the cursor back, the very next movement by `x - prev_x` starts over from
-- the frozen column, so it enters remote mode again exactly if it does not leave the last column.
pub callback_bounce :
    (h : Hash) (s : CallbackState) (x y : ℤ)
    → s.exit_remote ≡ true
    → s.is_remote ≡ true
    → s.has_client ≡ true
    → s.prev_initialized ≡ true
    → (callback h s (move_to x y)).0.is_remote
      ≡ leb_ℤ
          (s.screen_width -ℤ of_px 1)
          (clamp (pos 0) s.screen_width (s.frozen_x +ℤ (x -ℤ s.prev_x)))
unfolding callback dispatch on_move track advance after_move forward check_exit
callback_bounce h s x y ex r c p = ground arith
