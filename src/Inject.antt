-- ===== src/Inject.antt =====
-- crates/ss-input/src/inject.rs: the event that each message of the server is injected as.
pub mod Forwarded
use supershare.Base.{ℕ, ◌+◌, ◌-◌, ◌/◌, Bool, true, false, Option, none, some, eqb, if◌then◌else◌}
use supershare.Base.Int.{ℤ, pos, negsuc}
use supershare.Protocol.Kind.{Button, left, right, middle, Message}
use supershare.Protocol.Content.{Hash}
use supershare.Capture.{
  EventType, move_to, button_press, button_release, wheel, press, release, RdevButton, left_button,
  right_button, middle_button,
}
use supershare.Keys.{Key, u32_to_key}

unfoldable pub to_rdev_button : Button → RdevButton
to_rdev_button left = left_button
to_rdev_button right = right_button
to_rdev_button middle = middle_button

-- An `f32` as `i64`: towards zero.
abbrev pub to_i64 : ℤ → ℤ
to_i64 (pos n) = pos (n / 256)
to_i64 (negsuc n) = if eqb ((n + 1) / 256) 0 then pos 0 else negsuc ((n + 1) / 256 - 1)

-- What is handed to `rdev::simulate`, if anything.
unfoldable pub inject_event : Hash → Message → Option EventType
unfolding to_rdev_button
inject_event h (Message.mouse_move x y) = some (move_to x y)
inject_event h (Message.mouse_button button pressed) = some (
    if pressed
    then button_press (to_rdev_button button)
    else button_release (to_rdev_button button))
inject_event h (Message.mouse_scroll dx dy) = some (wheel (to_i64 dx) (to_i64 dy))
inject_event h (Message.key_press keycode pressed) = elim (u32_to_key h keycode) [
  | some key ↦ some (if pressed then press key else release key)
  | none ↦ none
]
inject_event h m = none
