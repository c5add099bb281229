-- ===== src/Layout/Tiling.antt =====
-- crates/ss-input/src/boundary.rs: the screens tile the line from 0 on.
use supershare.Base.{
  ℕ, ◌+◌, ◌-◌, ◌^◌, ◌≤◌, ◌<◌, ◌≡◌, refl, ◌∙◌, ap, map, Bool, not, Option, none, some, List, [], ◌∷◌,
  ◌++◌, Text, ltb, eqb, retain, unwrap_or, arith, if◌then◌else◌,
}
use supershare.Layout.{
  ScreenInfo, CoordinateSystem, add_u32, new, max_of, right_edge, total_width, screen_right_of,
  add_screen, reoffset, remove_screen,
}

-- The widths together.
abbrev pub sum_widths : List ScreenInfo → ℕ
sum_widths [] = 0
sum_widths (s ∷ ss) = s.width + sum_widths ss

-- Each screen begins where the one before it ends, the first at `offset`.
abbrev pub Tiles : ℕ → List ScreenInfo → Type 0
Tiles offset [] = Unit {0}
Tiles offset (s ∷ ss) = (s.offset_x ≡ offset) × Tiles (offset + s.width) ss

-- The screens tile the line from 0 on, and their widths add up to a `u32`.
pub record IsTiled (c : CoordinateSystem) : Type 0 where
  pub tiles : Tiles 0 c.screens
  pub fits : sum_widths c.screens < 2 ^ 32

-- The reference for the search: walk along the widths.
abbrev pub walk : ℕ → List ScreenInfo → Option ScreenInfo
walk x [] = none
walk x (s ∷ ss) = if ltb x s.width then some s else walk (x - s.width) ss

max_of-Tiles :
    (offset : ℕ) (s : ScreenInfo) (ss : List ScreenInfo)
    → Tiles offset (s ∷ ss)
    → offset + sum_widths (s ∷ ss) < 2 ^ 32
    → max_of right_edge (s ∷ ss) ≡ some (offset + sum_widths (s ∷ ss))
unfolding max_of right_edge
max_of-Tiles offset s [] t f = ground arith
max_of-Tiles offset s (s' ∷ ss) t f =
    let ih = max_of-Tiles (offset + s.width) s' ss t.1 (omega arith) in ground (arith, ih)

-- `total_width` is the sum of the widths.
pub total_width-sum_widths :
    (c : CoordinateSystem) → IsTiled c → total_width c ≡ sum_widths c.screens
unfolding total_width
total_width-sum_widths c t = total_of c.screens t.tiles t.fits
  where
    total_of :
        (ss : List ScreenInfo)
        → Tiles 0 ss
        → sum_widths ss < 2 ^ 32
        → unwrap_or (max_of right_edge ss) 0 ≡ sum_widths ss
    total_of [] t f = unfold max_of in refl
    total_of (s ∷ ss) t f = rw (max_of-Tiles 0 s ss t (omega arith)) (omega arith)

pub new-IsTiled : (w h : ℕ) → w < 2 ^ 32 → IsTiled (new w h)
unfolding new
new-IsTiled w h f = record { tiles = (refl, tt); fits = omega arith }

Tiles-append :
    (offset : ℕ) (ss : List ScreenInfo) (s : ScreenInfo)
    → Tiles offset ss
    → s.offset_x ≡ offset + sum_widths ss
    → Tiles offset (ss ++ s ∷ [])
Tiles-append offset [] s t e = (omega arith, tt)
Tiles-append offset (x ∷ ss) s t e = (t.0, Tiles-append (offset + x.width) ss s t.1 (omega arith))

sum_widths-append :
    (ss : List ScreenInfo) (s : ScreenInfo) → sum_widths (ss ++ s ∷ []) ≡ sum_widths ss + s.width
sum_widths-append [] s = omega arith
sum_widths-append (x ∷ ss) s = omega (arith, sum_widths-append ss s)

add_screen-IsTiled_alone :
    (c : CoordinateSystem) (id : ℕ) (name : Text) (width height : ℕ)
    → IsTiled c
    → sum_widths c.screens + width < 2 ^ 32
    → IsTiled (add_screen c id name width height)
unfolding add_screen
add_screen-IsTiled_alone c id name width height t f = record {
  tiles =
      Tiles-append 0 c.screens (screen_right_of c id name width height) t.tiles
        (omega (arith, total_offset c t));
  fits = omega (arith, sum_widths-append c.screens (screen_right_of c id name width height));
}
  where
    total_offset :
        (c : CoordinateSystem)
        → IsTiled c
        → unwrap_or (max_of right_edge c.screens) 0 ≡ sum_widths c.screens
    total_offset c t = unfold total_width in total_width-sum_widths c t

sum_widths-add_screen :
    (c : CoordinateSystem) (id : ℕ) (name : Text) (width height : ℕ)
    → sum_widths (add_screen c id name width height).screens ≡ sum_widths c.screens + width
unfolding add_screen
sum_widths-add_screen c id name width height =
    sum_widths-append c.screens (screen_right_of c id name width height)

-- `add_screen` keeps the screens tiled, and widens the whole by the new screen's width, as long as
-- the widths add up to less than 2 ^ 32.
pub add_screen-IsTiled :
    (c : CoordinateSystem) (id : ℕ) (name : Text) (width height : ℕ)
    → IsTiled c
    → sum_widths c.screens + width < 2 ^ 32
    → IsTiled (add_screen c id name width height)
      × (total_width (add_screen c id name width height) ≡ total_width c + width)
add_screen-IsTiled c id name width height t f =
    let wider = add_screen-IsTiled_alone c id name width height t f in
    (
      wider,
      omega (
        arith,
        total_width-sum_widths c t,
        total_width-sum_widths (add_screen c id name width height) wider,
        sum_widths-add_screen c id name width height,
      ),
    )

reoffset-Tiles :
    (offset : ℕ) (ss : List ScreenInfo)
    → offset + sum_widths ss < 2 ^ 32
    → Tiles offset (reoffset offset ss) × (sum_widths (reoffset offset ss) ≡ sum_widths ss)
unfolding reoffset
reoffset-Tiles offset [] f = (tt, refl)
reoffset-Tiles offset (s ∷ ss) f =
    let next : add_u32 offset s.width ≡ offset + s.width = unfold add_u32 in omega arith in
    let ih = reoffset-Tiles (offset + s.width) ss (omega arith) in
    rw next ((refl, ih.0), omega (arith, ih.1))

sum_widths-retain :
    (p : ScreenInfo → Bool) (ss : List ScreenInfo) → sum_widths (retain p ss) ≤ sum_widths ss
sum_widths-retain p [] = omega arith
sum_widths-retain p (s ∷ ss) = ground (arith, sum_widths-retain p ss)

-- A screen without its place.
abbrev pub shape : ScreenInfo → ℕ × Text × ℕ × ℕ
shape s = (s.id, s.name, s.width, s.height)

-- The screens with other identifiers, without their places.
abbrev pub other_shapes : ℕ → List ScreenInfo → List (ℕ × Text × ℕ × ℕ)
other_shapes id [] = []
other_shapes id (s ∷ ss) =
    let rest = other_shapes id ss in if eqb s.id id then rest else shape s ∷ rest

reoffset-shape : (offset : ℕ) (ss : List ScreenInfo) → map shape (reoffset offset ss) ≡ map shape ss
unfolding reoffset
reoffset-shape offset [] = refl
reoffset-shape offset (s ∷ ss) =
    ap (λ shapes. shape s ∷ shapes) (reoffset-shape (add_u32 offset s.width) ss)

retain-shape :
    (id : ℕ) (ss : List ScreenInfo)
    → map shape (retain (λ s. not (eqb s.id id)) ss) ≡ other_shapes id ss
retain-shape id [] = refl
retain-shape id (s ∷ ss) = ground (arith, retain-shape id ss)

-- Of screens that tile the line, `remove_screen` leaves exactly those with other identifiers, in
-- their order and with their names and sizes; and each begins where the one before it ends, the first
-- at 0: the screens left of a removed one stay, and those right of it move up.
pub remove_screen-IsTiled :
    (c : CoordinateSystem) (id : ℕ)
    → IsTiled c
    → IsTiled (remove_screen c id)
      × (map shape (remove_screen c id).screens ≡ other_shapes id c.screens)
unfolding remove_screen
remove_screen-IsTiled c id t =
    let left = retain (λ s. not (eqb s.id id)) c.screens in
    let narrower = sum_widths-retain (λ s. not (eqb s.id id)) c.screens in
    let moved = reoffset-Tiles 0 left (omega (arith, t.fits, narrower)) in
    (
      record { tiles = moved.0; fits = omega (arith, moved.1, t.fits, narrower) },
      reoffset-shape 0 left ∙ retain-shape id c.screens,
    )
