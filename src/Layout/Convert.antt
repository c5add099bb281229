-- ===== src/Layout/Convert.antt =====
-- crates/ss-input/src/boundary.rs: from global coordinates to those of a screen, and back.
use supershare.Base.{
  ℕ, ◌+◌, ◌-◌, ◌^◌, ◌≤◌, ◌<◌, ◌≡◌, ◌≢◌, ◌∙◌, sym, none, some, List, [], ◌∷◌, eqb, find, arith, inl,
  inr, Option-cases,
}
use supershare.Base.Int.{ℤ, pos, negsuc, ◌+ℤ◌, ◌-ℤ◌, ◌≤ℤ◌, ◌<ℤ◌, int_laws}
use supershare.Base.Coord.{of_px, to_u32}
use supershare.Layout.{
  ScreenInfo, CoordinateSystem, screen_at_x, screen_by_id, local_to_global, global_to_local,
}
use supershare.Layout.Tiling.{sum_widths, Tiles, IsTiled, walk}
use supershare.Layout.Lookup.{screen_at_x-walk}

sub-add : (a x : ℤ) → a +ℤ (x -ℤ a) ≡ x
sub-add a x = omega int_laws

add-sub : (a x : ℤ) → a +ℤ x -ℤ a ≡ x
add-sub a x = omega int_laws

-- No two screens have one identifier.
abbrev pub DistinctIds : List ScreenInfo → Type 0
DistinctIds [] = Unit {0}
DistinctIds (s ∷ ss) = (find (λ r. eqb r.id s.id) ss ≡ none) × DistinctIds ss

find-absent :
    (x : ℕ) (ss : List ScreenInfo) (s : ScreenInfo) (id : ℕ)
    → walk x ss ≡ some s
    → find (λ r. eqb r.id id) ss ≡ none
    → s.id ≢ id
find-absent x [] s id h f e = cc
find-absent x (y ∷ ys) s id h f e = ground (arith, find-absent (x - y.width) ys s id)

walk-find :
    (x : ℕ) (ss : List ScreenInfo) (s : ScreenInfo)
    → DistinctIds ss
    → walk x ss ≡ some s
    → find (λ r. eqb r.id s.id) ss ≡ some s
walk-find x [] s d h = cc
walk-find x (y ∷ ys) s d h =
    ground (arith, walk-find (x - y.width) ys s d.1, find-absent (x - y.width) ys s y.id)

-- On tiled screens with distinct identifiers, global coordinates on a screen, taken to that screen's
-- own and back, are what they were.
pub local_to_global-global_to_local :
    (c : CoordinateSystem) (x y : ℤ) (id : ℕ) (lx ly : ℤ)
    → IsTiled c
    → DistinctIds c.screens
    → global_to_local c x y ≡ some (id, lx, ly)
    → local_to_global c id lx ly ≡ (x, y)
unfolding global_to_local local_to_global
local_to_global-global_to_local c x y id lx ly t d h = elim (Option-cases (screen_at_x c x)) [
  | inl e ↦ cc (e, h)
  | inr (s, e) ↦
      let found : screen_by_id c s.id ≡ some s =
        walk-find (to_u32 x) c.screens s d (sym (screen_at_x-walk c x t) ∙ e) in
      ground (arith, found, e, h, sub-add (of_px s.offset_x) x)
]

find-offset :
    (offset : ℕ) (ss : List ScreenInfo) (s : ScreenInfo) (id : ℕ)
    → Tiles offset ss
    → find (λ r. eqb r.id id) ss ≡ some s
    → offset ≤ s.offset_x
find-offset offset [] s id t h = cc
find-offset offset (y ∷ ys) s id t h = ground (arith, find-offset (offset + y.width) ys s id t.1)

find-walk :
    (offset x : ℕ) (ss : List ScreenInfo) (s : ScreenInfo) (id : ℕ)
    → Tiles offset ss
    → find (λ r. eqb r.id id) ss ≡ some s
    → s.offset_x ≤ offset + x
    → offset + x < s.offset_x + s.width
    → walk x ss ≡ some s
find-walk offset x [] s id t h lo hi = cc
find-walk offset x (y ∷ ys) s id t h lo hi = ground (
  arith,
  find-offset (offset + y.width) ys s id t.1,
  find-walk (offset + y.width) (x - y.width) ys s id t.1,
)

find-id :
    (ss : List ScreenInfo) (s : ScreenInfo) (id : ℕ)
    → find (λ r. eqb r.id id) ss ≡ some s
    → s.id ≡ id
find-id [] s id h = cc
find-id (y ∷ ys) s id h = ground (arith, find-id ys s id)

find-edge :
    (offset : ℕ) (ss : List ScreenInfo) (s : ScreenInfo) (id : ℕ)
    → Tiles offset ss
    → find (λ r. eqb r.id id) ss ≡ some s
    → s.offset_x + s.width ≤ offset + sum_widths ss
find-edge offset [] s id t h = cc
find-edge offset (y ∷ ys) s id t h = ground (arith, find-edge (offset + y.width) ys s id t.1)

to_u32-offset :
    (lx : ℤ) (a b : ℕ)
    → a + b < 2 ^ 32
    → pos 0 ≤ℤ lx
    → lx <ℤ of_px b
    → (a ≤ to_u32 (of_px a +ℤ lx)) × (to_u32 (of_px a +ℤ lx) < a + b)
unfolding ◌+ℤ◌
to_u32-offset (pos k) a b small lo hi = ground arith
to_u32-offset (negsuc k) a b small lo hi = absurd (omega arith)

-- On tiled screens, coordinates within the width of a screen, taken to global ones and back, name
-- that screen and are what they were.
pub global_to_local-local_to_global :
    (c : CoordinateSystem) (id : ℕ) (lx ly : ℤ) (s : ScreenInfo)
    → IsTiled c
    → screen_by_id c id ≡ some s
    → pos 0 ≤ℤ lx
    → lx <ℤ of_px s.width
    → let (x, y) = local_to_global c id lx ly in global_to_local c x y ≡ some (id, lx, ly)
unfolding local_to_global global_to_local
global_to_local-local_to_global c id lx ly s t e lo hi =
    let (a, b) =
      to_u32-offset lx s.offset_x s.width
        (omega (arith, t.fits, find-edge 0 c.screens s id t.tiles e)) lo hi in
    let at : screen_at_x c (of_px s.offset_x +ℤ lx) ≡ some s =
      screen_at_x-walk c (of_px s.offset_x +ℤ lx) t
      ∙ find-walk 0 (to_u32 (of_px s.offset_x +ℤ lx)) c.screens s id t.tiles e (omega arith)
          (omega arith) in
    ground (arith, e, at, find-id c.screens s id e, add-sub (of_px s.offset_x) lx)

-- The screen found at a coordinate is the one that its identifier names.
pub screen_by_id_of_at :
    (c : CoordinateSystem) (x : ℤ) (s : ScreenInfo)
    → IsTiled c
    → DistinctIds c.screens
    → screen_at_x c x ≡ some s
    → screen_by_id c s.id ≡ some s
screen_by_id_of_at c x s t d e =
    walk-find (to_u32 x) c.screens s d (sym (screen_at_x-walk c x t) ∙ e)
