-- ===== src/Examples/Screens.antt =====
-- Two screens side by side, and a cursor that crosses from one to the other.
use supershare.Base.{map, [], ◌∷◌, ◌≡◌, ◌≡◌, refl, some, [], ◌∷◌, ◌++◌, Text, codes, arith}
use supershare.Base.Coord.{of_px}
use supershare.Base.Strings.{is_whitespace}
use supershare.Connect.{decimal}
use supershare.Display.{at_origin, line_size, lines, detect_screen_size}
use supershare.Display.Primary.{primary_line, detect_screen_size-primary_line}
use supershare.Layout.{ScreenInfo, CoordinateSystem, remove_screen, total_width}
use supershare.Layout.Tiling.{IsTiled, shape, remove_screen-IsTiled}
use supershare.Cursor.{VirtualCursor}

abbrev server : ScreenInfo
server = record { id = 0; name = codes "server"; width = 1920; height = 1080; offset_x = 0 }

abbrev laptop : ScreenInfo
laptop = record { id = 1; name = codes "laptop"; width = 1280; height = 800; offset_x = 1920 }

abbrev two : CoordinateSystem
two = record { screens = server ∷ laptop ∷ [] }

two-IsTiled : IsTiled two
two-IsTiled = record { tiles = (refl, (refl, tt)); fits = omega arith }

remove_screen-IsTiled_example :
    IsTiled (remove_screen two 0) × (map shape (remove_screen two 0).screens ≡ shape laptop ∷ [])
remove_screen-IsTiled_example = remove_screen-IsTiled two 0 two-IsTiled

abbrev cursor : VirtualCursor
cursor = record {
  global_x = of_px 1900;
  global_y = of_px 500;
  current_screen_id = 0;
  total_width = 3200;
  max_height = 1080;
}

-- What xrandr prints for a laptop.
abbrev xrandr : Text
xrandr =
    codes "Screen 0: minimum 320 x 200\n"
    ++ primary_line (codes "eDP-1") 1680 1050 (codes "(normal left)")

abbrev xrandr_first : Text
xrandr_first = codes "Screen 0: minimum 320 x 200"

detect_screen_size-primary_line_example : detect_screen_size (some xrandr) ≡ (1680, 1050)
detect_screen_size-primary_line_example =
    detect_screen_size-primary_line xrandr (codes "eDP-1") (codes "(normal left)") 1680 1050
      (xrandr_first ∷ []) [] (unfold is_whitespace in (refl, (refl, (refl, (refl, (refl, tt))))))
      refl (unfold at_origin in refl) (omega arith) (omega arith) (unfold lines decimal in refl)
      (unfold line_size in refl, tt)

-- The primary display is not looked for where it is not at the origin: the other one is taken.
primary_right :
    detect_screen_size
      (some (codes "DP-1 connected primary 2560x1440+1920+0\nHDMI-1 connected 1920x1080+0+0"))
    ≡ (1920, 1080)
unfolding detect_screen_size is_whitespace
primary_right = refl
