-- ===== src/Listen.antt =====
-- crates/ss-input/src/capture.rs: the capture that only listens. Its `map_button`, `key_to_u32` and queue of
-- 256 events are those of the other capture, word for word.
pub mod Agrees
use supershare.Base.{
  ℕ, Bool, true, false, Option, none, some, List, [], ◌∷◌, ◌++◌, length, ltb, if◌then◌else◌,
}
use supershare.Base.Int.{ℤ}
use supershare.Protocol.Kind.{Button, Message}
use supershare.Protocol.Content.{Hash}
use supershare.Keys.{key_to_u32}
use supershare.Capture.{
  EventType, move_to, button_press, button_release, wheel, press, release, RdevButton, map_button,
  of_i64, queue_capacity,
}

pub data InputEvent : Type 0 where
  mouse_move : (x y : ℤ) → InputEvent
  mouse_button : (button : Button) (pressed : Bool) → InputEvent
  mouse_scroll : (dx dy : ℤ) → InputEvent
  key_press : (keycode : ℕ) (pressed : Bool) → InputEvent

-- The queue holds what was sent and not yet received; another thread sets `suppressed`.
pub record CaptureState : Type 0 where
  pub tx : List InputEvent
  pub suppressed : Bool

unfoldable pub start_capture : Bool → CaptureState
start_capture suppressed = record { tx = []; suppressed = suppressed }

unfoldable pub try_send : List InputEvent → InputEvent → List InputEvent
try_send q e = if ltb (length q) queue_capacity then q ++ e ∷ [] else q

abbrev pub button_event : Bool → RdevButton → Option InputEvent
button_event pressed b = elim (map_button b) [
  | none ↦ none
  | some m ↦ some (mouse_button m pressed)
]

unfoldable pub event_of : Hash → EventType → Option InputEvent
unfolding map_button
event_of h (move_to x y) = some (mouse_move x y)
event_of h (button_press b) = button_event true b
event_of h (button_release b) = button_event false b
event_of h (wheel dx dy) = some (mouse_scroll (of_i64 dx) (of_i64 dy))
event_of h (press k) = some (key_press (key_to_u32 h k) true)
event_of h (release k) = some (key_press (key_to_u32 h k) false)

-- The callback of `rdev::listen`.
unfoldable pub callback : Hash → CaptureState → EventType → CaptureState
unfolding event_of try_send
callback h s e =
    if s.suppressed
    then s
    else (elim (event_of h e) [ none ↦ s | some i ↦ record s { tx = try_send s.tx i } ])

unfoldable pub to_message : InputEvent → Message
to_message (mouse_move x y) = Message.mouse_move x y
to_message (mouse_button button pressed) = Message.mouse_button button pressed
to_message (mouse_scroll dx dy) = Message.mouse_scroll dx dy
to_message (key_press keycode pressed) = Message.key_press keycode pressed

-- Events one after the other.
unfoldable pub listen : Hash → CaptureState → List EventType → CaptureState
unfolding callback
listen h s [] = s
listen h s (e ∷ es) = listen h (callback h s e) es
