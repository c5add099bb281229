-- ===== src/Capture/Bounds.antt =====
-- crates/ss-input/src/warp_capture.rs: the positions stay on the screen, and the queue within its size.
use supershare.Base.{
  ℕ, ◌≤◌, ◌≡◌, true, false, Option, none, some, List, [], ◌∷◌, length, arith, length-append,
}
use supershare.Base.Int.{ℤ, pos, ◌+ℤ◌, ◌-ℤ◌, ◌≤ℤ◌}
use supershare.Base.Coord.{of_px, clamp_bounds}
use supershare.Protocol.Content.{Hash}
use supershare.Capture.{
  WarpInputEvent, CallbackState, EventType, move_to, button_press, button_release, wheel, press,
  release, start_capture, queue_capacity, try_send, check_exit, track, advance, after_move, on_move,
  forward, dispatch, callback, button_event, enter_event,
}

-- The positions lie on the screen, its edges included; the cursor was frozen at the right edge; and
-- the queue is within its capacity.
pub record IsValid (s : CallbackState) : Type 0 where
  pub wide : pos 0 ≤ℤ s.screen_width
  pub tall : pos 0 ≤ℤ s.screen_height
  pub in_x : (pos 0 ≤ℤ s.pos_x) × (s.pos_x ≤ℤ s.screen_width)
  pub in_y : (pos 0 ≤ℤ s.pos_y) × (s.pos_y ≤ℤ s.screen_height)
  pub frozen_in_x : (pos 0 ≤ℤ s.frozen_x) × (s.frozen_x ≤ℤ s.screen_width)
  pub frozen_in_y : (pos 0 ≤ℤ s.frozen_y) × (s.frozen_y ≤ℤ s.screen_height)
  pub at_edge : s.is_remote ≡ true → s.screen_width -ℤ of_px 1 ≤ℤ s.frozen_x
  pub queue : length s.tx ≤ queue_capacity

pub start_capture-IsValid : (w h : ℕ) → IsValid (start_capture w h)
unfolding start_capture
start_capture-IsValid w h = ground arith

try_send-le :
    (q : List WarpInputEvent) (e : WarpInputEvent)
    → length q ≤ queue_capacity
    → length (try_send q e) ≤ queue_capacity
unfolding try_send
try_send-le q e h = ground (arith, length-append q (e ∷ []))

check_exit-IsValid : (s : CallbackState) → IsValid s → IsValid (check_exit s)
unfolding check_exit
check_exit-IsValid s v = ground arith

-- Wherever the position was, it is on the screen after `advance`.
advance-IsValid :
    (s : CallbackState) (dx dy : ℤ)
    → IsValid (record s { pos_x = pos 0; pos_y = pos 0 })
    → IsValid (advance s dx dy)
unfolding advance
advance-IsValid s dx dy v = ground (
  arith,
  clamp_bounds (pos 0) s.screen_width (s.pos_x +ℤ dx),
  clamp_bounds (pos 0) s.screen_height (s.pos_y +ℤ dy),
)

forward-IsValid :
    (s : CallbackState) (e : Option WarpInputEvent) → IsValid s → IsValid (forward s e).0
unfolding forward
forward-IsValid s none v = ground arith
forward-IsValid s (some e) v = ground (arith, try_send-le s.tx e)

after_move-IsValid : (u : CallbackState) (dx dy : ℤ) → IsValid u → IsValid (after_move u dx dy).0
unfolding after_move
after_move-IsValid u dx dy v =
    ground
      (arith, try_send-le u.tx (WarpInputEvent.mouse_delta dx dy), try_send-le u.tx (enter_event u))

track-IsValid :
    (s : CallbackState) (x y : ℤ)
    → IsValid s
    → IsValid (record (track s x y).0 { pos_x = pos 0; pos_y = pos 0 })
unfolding track
track-IsValid s x y v = ground arith

on_move-IsValid : (s : CallbackState) (x y : ℤ) → IsValid s → IsValid (on_move s x y).0
unfolding on_move
on_move-IsValid s x y v =
    let (t, dx, dy) = track s x y in
    after_move-IsValid (advance t dx dy) dx dy (advance-IsValid t dx dy (track-IsValid s x y v))

dispatch-IsValid :
    (h : Hash) (e : EventType) (s : CallbackState) → IsValid s → IsValid (dispatch h s e).0
unfolding dispatch
dispatch-IsValid h (move_to x y) s v = on_move-IsValid s x y v
dispatch-IsValid h (button_press b) s v = forward-IsValid s (button_event true b) v
dispatch-IsValid h (button_release b) s v = forward-IsValid s (button_event false b) v
dispatch-IsValid h (wheel dx dy) s v = forward-IsValid s (some _) v
dispatch-IsValid h (press k) s v = forward-IsValid s (some _) v
dispatch-IsValid h (release k) s v = forward-IsValid s (some _) v

-- Every event keeps the positions on the screen, the frozen one at the right edge in remote mode,
-- and the queue within its capacity, whatever the other threads have set the flags to.
pub callback-IsValid :
    (h : Hash) (s : CallbackState) (e : EventType) → IsValid s → IsValid (callback h s e).0
unfolding callback
callback-IsValid h s e v = dispatch-IsValid h e (check_exit s) (check_exit-IsValid s v)
