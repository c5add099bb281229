-- ===== src/Capture.antt =====
-- crates/ss-input/src/warp_capture.rs: the callback that every input event of the server goes through.
-- The atomics that other threads set (`exit_remote`, `has_client`) are fields; a callback sees them as
-- they are when it starts.
pub mod Bounds
pub mod Modes
pub mod Deltas
use supershare.Base.{
  ℕ, zero, suc, ◌+◌, ◌*◌, ◌-◌, ◌/◌, ◌%◌, ◌^◌, eqb, Bool, true, false, ◌&&◌, ◌||◌, not, Option, none,
  some, List, [], ◌∷◌, ◌++◌, length, ltb, if◌then◌else◌,
}
use supershare.Base.Int.{ℤ, pos, negsuc, ltb_ℤ, leb_ℤ, ◌+ℤ◌, ◌-ℤ◌}
use supershare.Base.Coord.{of_px, clamp}
use supershare.Protocol.Kind.{Button, left, right, middle, Message}
use supershare.Protocol.Content.{Hash}
use supershare.Keys.{Key, key_to_u32}

pub data WarpInputEvent : Type 0 where
  mouse_delta : (dx dy : ℤ) → WarpInputEvent
  mouse_button : (button : Button) (pressed : Bool) → WarpInputEvent
  key_press : (keycode : ℕ) (pressed : Bool) → WarpInputEvent
  scroll : (dx dy : ℤ) → WarpInputEvent
  boundary_enter : (enter_x enter_y : ℤ) → WarpInputEvent

-- `rdev::Button` and `rdev::EventType`.
pub data RdevButton : Type 0 where
  left_button right_button middle_button : RdevButton
  unknown_button : ℕ → RdevButton

pub data EventType : Type 0 where
  move_to : (x y : ℤ) → EventType
  button_press : RdevButton → EventType
  button_release : RdevButton → EventType
  wheel : (delta_x delta_y : ℤ) → EventType
  press : Key → EventType
  release : Key → EventType

-- The queue holds what was sent and not yet received.
pub record CallbackState : Type 0 where
  pub tx : List WarpInputEvent
  pub screen_width : ℤ
  pub screen_height : ℤ
  pub prev_x : ℤ
  pub prev_y : ℤ
  pub prev_initialized : Bool
  pub pos_x : ℤ
  pub pos_y : ℤ
  pub frozen_x : ℤ
  pub frozen_y : ℤ
  pub is_remote : Bool
  pub exit_remote : Bool
  pub has_client : Bool

-- The state that `start_capture` hands to the callback.
unfoldable pub start_capture : ℕ → ℕ → CallbackState
start_capture screen_width screen_height = record {
  tx = [];
  screen_width = of_px screen_width;
  screen_height = of_px screen_height;
  prev_x = pos 0;
  prev_y = pos 0;
  prev_initialized = false;
  pos_x = of_px (screen_width / 2);
  pos_y = of_px (screen_height / 2);
  frozen_x = pos 0;
  frozen_y = pos 0;
  is_remote = false;
  exit_remote = false;
  has_client = false;
}

abbrev pub queue_capacity : ℕ
queue_capacity = 256

-- `tx.try_send`, whose failure on a full queue is ignored.
unfoldable pub try_send : List WarpInputEvent → WarpInputEvent → List WarpInputEvent
try_send q e = if ltb (length q) queue_capacity then q ++ e ∷ [] else q

unfoldable pub map_button : RdevButton → Option Button
map_button left_button = some left
map_button right_button = some right
map_button middle_button = some middle
map_button (unknown_button n) = none

-- To the 24 bits of an `f32`: the nearest multiple of `unit`, the even one of two, for the first unit that
-- leaves 24 bits. The fuel is a bound on the bits above these.
unfoldable pub round_to : ℕ → (unit n : ℕ) → ℕ
round_to zero unit n = n
round_to (suc fuel) unit n =
    let coarser = round_to fuel (unit * 2) n in
    if ltb (n / unit) (2 ^ 24)
    then (n / unit
        + (if ltb (n % unit * 2) (unit + (if eqb (n / unit % 2) 0 then 1 else 0)) then 0 else 1))
      * unit
    else coarser

-- An `i64` as `f32`.
unfoldable pub of_i64 : ℤ → ℤ
unfolding round_to
of_i64 (pos n) = pos (round_to 64 1 n * 256)
of_i64 (negsuc n) = negsuc (round_to 64 1 (n + 1) * 256 - 1)

-- What every callback does first: leave remote mode if asked to, or if there is no client.
unfoldable pub check_exit : CallbackState → CallbackState
check_exit s =
    let client_gone = s.is_remote && not s.has_client in
    if (s.exit_remote || client_gone) && s.is_remote
    then record s { exit_remote = false; is_remote = false; pos_x = s.frozen_x; pos_y = s.frozen_y }
    else record s { exit_remote = false }

-- The movement since the last reported position; the first report only sets the position.
unfoldable pub track : CallbackState → ℤ → ℤ → CallbackState × ℤ × ℤ
track s x y =
    if s.prev_initialized
    then (record s { prev_x = x; prev_y = y }, x -ℤ s.prev_x, y -ℤ s.prev_y)
    else (
      record s { prev_initialized = true; pos_x = x; pos_y = y; prev_x = x; prev_y = y },
      pos 0,
      pos 0,
    )

-- The logical position after a movement.
unfoldable pub advance : CallbackState → ℤ → ℤ → CallbackState
advance s dx dy = record s {
  pos_x = clamp (pos 0) s.screen_width (s.pos_x +ℤ dx);
  pos_y = clamp (pos 0) s.screen_height (s.pos_y +ℤ dy);
}

-- The last column of the screen, where remote mode is entered.
abbrev pub at_right_edge : CallbackState → Bool
at_right_edge s = leb_ℤ (s.screen_width -ℤ of_px 1) s.pos_x

abbrev pub enter_event : CallbackState → WarpInputEvent
enter_event s = WarpInputEvent.boundary_enter (of_px 6) s.pos_y

abbrev pub is_zero : ℤ → Bool
is_zero (pos n) = not (ltb 0 n)
is_zero (negsuc n) = false

-- The movement branch, once the position has moved by `(dx, dy)`. The Boolean says whether the event
-- goes on to the X server.
unfoldable pub after_move : CallbackState → ℤ → ℤ → CallbackState × Bool
unfolding try_send
after_move u dx dy =
    if u.is_remote
    then (if not (is_zero dx) || not (is_zero dy)
        then (record u { tx = try_send u.tx (WarpInputEvent.mouse_delta dx dy) }, false)
        else (u, false))
    else if at_right_edge u && u.has_client
    then (
      record u {
        is_remote = true;
        frozen_x = u.pos_x;
        frozen_y = u.pos_y;
        tx = try_send u.tx (enter_event u);
      },
      false,
    )
    else (u, true)

unfoldable pub on_move : CallbackState → ℤ → ℤ → CallbackState × Bool
unfolding track advance after_move
on_move s x y = let (t, dx, dy) = track s x y in after_move (advance t dx dy) dx dy

-- A branch that forwards `e` in remote mode, if there is one, and passes the event on in local mode.
unfoldable pub forward : CallbackState → Option WarpInputEvent → CallbackState × Bool
unfolding try_send
forward s e =
    if s.is_remote
    then (elim e [ none ↦ s | some w ↦ record s { tx = try_send s.tx w } ], false)
    else (s, true)

abbrev pub button_event : Bool → RdevButton → Option WarpInputEvent
button_event pressed b = elim (map_button b) [
  | none ↦ none
  | some m ↦ some (WarpInputEvent.mouse_button m pressed)
]

unfoldable pub dispatch : Hash → CallbackState → EventType → CallbackState × Bool
unfolding on_move forward map_button
dispatch h s (move_to x y) = on_move s x y
dispatch h s (button_press b) = forward s (button_event true b)
dispatch h s (button_release b) = forward s (button_event false b)
dispatch h s (wheel dx dy) = forward s (some (WarpInputEvent.scroll (of_i64 dx) (of_i64 dy)))
dispatch h s (press k) = forward s (some (WarpInputEvent.key_press (key_to_u32 h k) true))
dispatch h s (release k) = forward s (some (WarpInputEvent.key_press (key_to_u32 h k) false))

-- The callback of `rdev::grab`.
unfoldable pub callback : Hash → CallbackState → EventType → CallbackState × Bool
unfolding check_exit dispatch
callback h s e = dispatch h (check_exit s) e

-- `to_message`.
unfoldable pub to_message : WarpInputEvent → Message
to_message (WarpInputEvent.mouse_delta dx dy) = Message.mouse_delta dx dy
to_message (WarpInputEvent.mouse_button button pressed) = Message.mouse_button button pressed
to_message (WarpInputEvent.key_press keycode pressed) = Message.key_press keycode pressed
to_message (WarpInputEvent.scroll dx dy) = Message.mouse_scroll dx dy
to_message (WarpInputEvent.boundary_enter x y) = Message.boundary_enter 1 x y
