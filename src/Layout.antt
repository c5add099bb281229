-- ===== src/Layout.antt =====
-- crates/ss-input/src/boundary.rs: the screens side by side in one coordinate system.
-- Sums of `u32` wrap, as in a release build.
pub mod Tiling
pub mod Lookup
pub mod Convert
use supershare.Base.{
  ℕ, ◌+◌, ◌%◌, ◌^◌, ◌&&◌, not, Bool, Option, none, some, List, [], ◌∷◌, ◌++◌, Text, codes, leb, ltb,
  eqb, find, retain, unwrap_or, max, if◌then◌else◌,
}
use supershare.Base.Int.{ℤ, ◌+ℤ◌, ◌-ℤ◌}
use supershare.Base.Coord.{of_px, to_u32}
use mathlib.Core.Option

-- `a + b` on `u32`.
unfoldable pub add_u32 : ℕ → ℕ → ℕ
add_u32 a b = (a + b) % 2 ^ 32

pub record ScreenInfo : Type 0 where
  pub id : ℕ
  pub name : Text
  pub width : ℕ
  pub height : ℕ
  pub offset_x : ℕ

pub record CoordinateSystem : Type 0 where
  pub screens : List ScreenInfo

unfoldable pub new : ℕ → ℕ → CoordinateSystem
new server_width server_height = record { screens = server ∷ [] }
  where
    server : ScreenInfo
    server = record {
      id = 0;
      name = codes "server";
      width = server_width;
      height = server_height;
      offset_x = 0;
    }

-- `.max()` of an iterator, `none` for an empty one.
unfoldable pub max_of : (ScreenInfo → ℕ) → List ScreenInfo → Option ℕ
max_of f [] = none
max_of f (s ∷ ss) = some (elim (max_of f ss) [ none ↦ f s | some m ↦ max (f s) m ])

unfoldable pub right_edge : ScreenInfo → ℕ
unfolding add_u32
right_edge s = add_u32 s.offset_x s.width

unfoldable pub total_width : CoordinateSystem → ℕ
total_width c = unwrap_or (max_of right_edge c.screens) 0

-- The screen that `add_screen` pushes, right of all others.
abbrev pub screen_right_of : CoordinateSystem → ℕ → Text → ℕ → ℕ → ScreenInfo
screen_right_of c id name width height = record {
  id = id;
  name = name;
  width = width;
  height = height;
  offset_x = unwrap_or (max_of right_edge c.screens) 0;
}

unfoldable pub add_screen : CoordinateSystem → ℕ → Text → ℕ → ℕ → CoordinateSystem
add_screen c id name width height = record {
  screens = c.screens ++ screen_right_of c id name width height ∷ [];
}

-- The loop that recalculates the offsets.
unfoldable pub reoffset : ℕ → List ScreenInfo → List ScreenInfo
unfolding add_u32
reoffset offset [] = []
reoffset offset (s ∷ ss) = record s { offset_x = offset } ∷ reoffset (add_u32 offset s.width) ss

unfoldable pub remove_screen : CoordinateSystem → ℕ → CoordinateSystem
remove_screen c id = record { screens = reoffset 0 (retain (λ s. not (eqb s.id id)) c.screens) }

unfoldable pub covers : ℕ → ScreenInfo → Bool
unfolding right_edge
covers x s = leb s.offset_x x && ltb x (right_edge s)

unfoldable pub screen_at_x : CoordinateSystem → ℤ → Option ScreenInfo
screen_at_x c global_x = find (covers (to_u32 global_x)) c.screens

unfoldable pub screen_id_at_x : CoordinateSystem → ℤ → Option ℕ
screen_id_at_x c global_x = Option.map (λ s. s.id) (screen_at_x c global_x)

-- The first screen with the identifier.
abbrev pub screen_by_id : CoordinateSystem → ℕ → Option ScreenInfo
screen_by_id c id = find (λ s. eqb s.id id) c.screens

unfoldable pub local_to_global : CoordinateSystem → ℕ → ℤ → ℤ → ℤ × ℤ
local_to_global c id local_x local_y = elim (screen_by_id c id) [
  | some s ↦ (of_px s.offset_x +ℤ local_x, local_y)
  | none ↦ (local_x, local_y)
]

unfoldable pub global_to_local : CoordinateSystem → ℤ → ℤ → Option (ℕ × ℤ × ℤ)
global_to_local c global_x global_y =
    Option.map (λ s. (s.id, global_x -ℤ of_px s.offset_x, global_y)) (screen_at_x c global_x)
