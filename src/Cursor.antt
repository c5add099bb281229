-- ===== src/Cursor.antt =====
-- crates/ss-input/src/virtual_cursor.rs: the cursor of the server in global coordinates.
pub mod Motion
use supershare.Base.{
  ℕ, ◌+◌, ◌-◌, ◌/◌, ◌%◌, ◌^◌, Option, none, some, List, [], ◌∷◌, eqb, unwrap_or, if◌then◌else◌, not,
  Bool,
}
use supershare.Base.Int.{ℤ, pos, ltb_ℤ, leb_ℤ, ◌+ℤ◌, ◌-ℤ◌}
use supershare.Base.Coord.{of_px}
use supershare.Layout.{ScreenInfo, CoordinateSystem, screen_at_x, screen_by_id, total_width, max_of}
use mathlib.Core.Option

pub data BoundaryEvent : Type 0 where
  enter : (target_screen : ℕ) (enter_x enter_y : ℤ) → BoundaryEvent
  leave : (source_screen : ℕ) → BoundaryEvent

pub record VirtualCursor : Type 0 where
  pub global_x : ℤ
  pub global_y : ℤ
  pub current_screen_id : ℕ
  pub total_width : ℕ
  pub max_height : ℕ

unfoldable pub new : ℕ → ℕ → VirtualCursor
new server_width server_height = record {
  global_x = of_px (server_width / 2);
  global_y = of_px (server_height / 2);
  current_screen_id = 0;
  total_width = server_width;
  max_height = server_height;
}

unfoldable pub update_bounds : VirtualCursor → CoordinateSystem → VirtualCursor
update_bounds v c = record v {
  total_width = total_width c;
  max_height = unwrap_or (max_of (λ s. s.height) c.screens) 1080;
}

-- `(extent - 1) as f64`, where the `u32` subtraction wraps at 0.
abbrev pub last_px : ℕ → ℤ
last_px extent = of_px ((extent + (2 ^ 32 - 1)) % 2 ^ 32)

-- The two clamping tests of one axis, one after the other.
unfoldable pub clamp_axis : ℕ → ℤ → ℤ
clamp_axis extent x =
    let x' = if ltb_ℤ x (pos 0) then pos 0 else x in
    if leb_ℤ (of_px extent) x' then last_px extent else x'

unfoldable pub screen_or_server : CoordinateSystem → ℤ → ℕ
screen_or_server c x = unwrap_or (Option.map (λ s. s.id) (screen_at_x c x)) 0

-- The event of a crossing from `old` to the screen `s` that was found.
unfoldable pub crossing : ℕ → ℕ → ℤ → ℤ → Option ScreenInfo → Option BoundaryEvent
crossing old id x y none = none
crossing old id x y (some s) =
    if eqb id 0 then some (leave old) else some (enter id (x -ℤ of_px s.offset_x) y)

unfoldable pub apply_delta :
    VirtualCursor → ℤ → ℤ → CoordinateSystem → VirtualCursor × Option BoundaryEvent
unfolding screen_or_server crossing
apply_delta v dx dy c =
    let x = clamp_axis v.total_width (v.global_x +ℤ dx) in
    let y = clamp_axis v.max_height (v.global_y +ℤ dy) in
    let id = screen_or_server c x in
    if not (eqb id v.current_screen_id)
    then (
      record v { global_x = x; global_y = y; current_screen_id = id },
      crossing v.current_screen_id id x y (screen_by_id c id),
    )
    else (record v { global_x = x; global_y = y }, none)

unfoldable pub current_screen : VirtualCursor → CoordinateSystem → Option ScreenInfo
current_screen v c = screen_at_x c v.global_x

unfoldable pub set_position : VirtualCursor → ℤ → ℤ → VirtualCursor
set_position v x y = record v { global_x = x; global_y = y }

unfoldable pub local_position : VirtualCursor → CoordinateSystem → ℤ × ℤ
local_position v c = elim (screen_at_x c v.global_x) [
  | some s ↦ (v.global_x -ℤ of_px s.offset_x, v.global_y)
  | none ↦ (v.global_x, v.global_y)
]
