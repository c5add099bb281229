-- ===== src/Cursor/Motion.antt =====
-- crates/ss-input/src/virtual_cursor.rs: where a delta takes the cursor, and the crossing it reports.
use supershare.Base.{ℕ, ◌^◌, ◌<◌, ◌≡◌, ◌≢◌, ◌∙◌, Option, none, some, arith}
use supershare.Base.Int.{ℤ, pos, ◌+ℤ◌, ◌-ℤ◌, ◌≤ℤ◌, ◌<ℤ◌}
use supershare.Base.Coord.{of_px}
use supershare.Layout.{ScreenInfo, CoordinateSystem, screen_by_id, total_width}
use supershare.Layout.Tiling.{IsTiled, total_width-sum_widths}
use supershare.Layout.Convert.{DistinctIds}
use supershare.Cursor.{
  BoundaryEvent, enter, leave, VirtualCursor, clamp_axis, screen_or_server, apply_delta,
}

-- A coordinate within `extent` pixels.
abbrev pub Within : ℕ → ℤ → Type 0
Within extent x = (pos 0 ≤ℤ x) × (x <ℤ of_px extent)

clamp_axis-Within :
    (extent : ℕ) (x : ℤ) → 0 < extent → extent < 2 ^ 32 → Within extent (clamp_axis extent x)
unfolding clamp_axis
clamp_axis-Within extent x pos_ext small = ground arith

clamp_axis_inside : (extent : ℕ) (x : ℤ) → Within extent x → clamp_axis extent x ≡ x
unfolding clamp_axis
clamp_axis_inside extent x w = ground arith

-- The cursor agrees with the screens: its extents are theirs, it is on them, and it knows where.
pub record IsSettled (c : CoordinateSystem) (v : VirtualCursor) : Type 0 where
  pub tiled : IsTiled c
  pub distinct : DistinctIds c.screens
  pub wide : v.total_width ≡ total_width c
  pub tall : v.max_height < 2 ^ 32
  pub in_x : Within v.total_width v.global_x
  pub in_y : Within v.max_height v.global_y
  pub on : v.current_screen_id ≡ screen_or_server c v.global_x

apply_delta_fields :
    (v : VirtualCursor) (dx dy : ℤ) (c : CoordinateSystem)
    → let w = (apply_delta v dx dy c).0 in
      (w.global_x ≡ clamp_axis v.total_width (v.global_x +ℤ dx))
      × (w.global_y ≡ clamp_axis v.max_height (v.global_y +ℤ dy))
      × (w.total_width ≡ v.total_width)
      × (w.max_height ≡ v.max_height)
      × (w.current_screen_id ≡ screen_or_server c w.global_x)
unfolding apply_delta
apply_delta_fields v dx dy c = ground arith

-- A move keeps the cursor on the screens and its screen identifier right.
pub apply_delta-IsSettled :
    (v : VirtualCursor) (dx dy : ℤ) (c : CoordinateSystem)
    → IsSettled c v
    → IsSettled c (apply_delta v dx dy c).0
apply_delta-IsSettled v dx dy c i =
    let (ex, ey, et, eh, eo) = apply_delta_fields v dx dy c in
    record {
      tiled = i.tiled;
      distinct = i.distinct;
      wide = et ∙ i.wide;
      tall = rw eh i.tall;
      in_x =
          rw (et, ex)
            (clamp_axis-Within v.total_width (v.global_x +ℤ dx) (omega (arith, i.in_x))
              (omega (arith, i.wide, total_width-sum_widths c i.tiled, i.tiled.fits)));
      in_y =
          rw (eh, ey)
            (clamp_axis-Within v.max_height (v.global_y +ℤ dy) (omega (arith, i.in_y)) i.tall);
      on = eo;
    }

-- What a move may report: nothing if it stays on its screen; the screen it left, if
-- it comes back to the server's screen 0; else the screen it enters, with its position there, which
-- lies on that screen.
pub data Reports (c : CoordinateSystem) (v w : VirtualCursor) (o : Option BoundaryEvent)
    : Type 0 where
  stays : o ≡ none → w.current_screen_id ≡ v.current_screen_id → Reports c v w o
  returns :
      o ≡ some (leave v.current_screen_id)
      → w.current_screen_id ≢ v.current_screen_id
      → w.current_screen_id ≡ 0
      → Reports c v w o
  enters :
      (s : ScreenInfo)
      → o ≡ some (enter w.current_screen_id (w.global_x -ℤ of_px s.offset_x) w.global_y)
      → w.current_screen_id ≢ v.current_screen_id
      → w.current_screen_id ≢ 0
      → screen_by_id c w.current_screen_id ≡ some s
      → Within s.width (w.global_x -ℤ of_px s.offset_x)
      → Reports c v w o
