-- ===== src/Layout/Lookup.antt =====
-- crates/ss-input/src/boundary.rs: which screen a global coordinate is on.
use supershare.Base.{
  ℕ, ◌+◌, ◌-◌, ◌^◌, ◌≤◌, ◌<◌, ◌≡◌, refl, ◌∙◌, ap, none, some, List, [], ◌∷◌, ltb, find, arith,
  Bool-cases, inl, inr,
}
use supershare.Base.Int.{ℤ, pos, negsuc, ◌≤ℤ◌, ◌<ℤ◌}
use supershare.Base.Coord.{of_px, to_u32}
use supershare.Layout.{
  ScreenInfo, CoordinateSystem, covers, right_edge, add_u32, screen_at_x, total_width,
}
use supershare.Layout.Tiling.{sum_widths, Tiles, IsTiled, walk, total_width-sum_widths}

find-covers :
    (offset x : ℕ) (ss : List ScreenInfo)
    → Tiles offset ss
    → offset + sum_widths ss < 2 ^ 32
    → offset ≤ x
    → find (covers x) ss ≡ walk (x - offset) ss
unfolding covers right_edge add_u32
find-covers offset x [] t f h = refl
find-covers offset x (s ∷ ss) t f h = elim (Bool-cases (ltb (x - offset) s.width)) [
  | inl here ↦ ground arith
  | inr past ↦
      let ih : find (covers x) ss ≡ walk (x - offset - s.width) ss =
        find-covers (offset + s.width) x ss t.1 (omega arith) (ground arith)
        ∙ ap (λ k. walk k ss) (omega arith) in
      ground (arith, ih)
]

-- On tiled screens the search by the stored offsets is the walk along the widths.
pub screen_at_x-walk :
    (c : CoordinateSystem) (x : ℤ) → IsTiled c → screen_at_x c x ≡ walk (to_u32 x) c.screens
unfolding screen_at_x
screen_at_x-walk c x t =
    find-covers 0 (to_u32 x) c.screens t.tiles (omega (arith, t.fits)) (omega arith)
    ∙ ap (λ k. walk k c.screens) (omega arith)

walk-some :
    (x : ℕ) (ss : List ScreenInfo) → x < sum_widths ss → (s : ScreenInfo) × (walk x ss ≡ some s)
walk-some x [] h = absurd (omega arith)
walk-some x (s ∷ ss) h = elim (Bool-cases (ltb x s.width)) [
  | inl e ↦ (s, rw e)
  | inr e ↦ rw e (walk-some (x - s.width) ss (ground arith))
]

walk-none : (x : ℕ) (ss : List ScreenInfo) → sum_widths ss ≤ x → walk x ss ≡ none
walk-none x [] h = refl
walk-none x (s ∷ ss) h = ground (arith, walk-none (x - s.width) ss)

walk-covers :
    (offset x : ℕ) (ss : List ScreenInfo) (s : ScreenInfo)
    → Tiles offset ss
    → walk x ss ≡ some s
    → (s.offset_x ≤ offset + x)
      × (offset + x < s.offset_x + s.width)
      × (s.offset_x + s.width ≤ offset + sum_widths ss)
walk-covers offset x [] s t h = cc
walk-covers offset x (y ∷ ys) s t h =
    ground (arith, walk-covers (offset + y.width) (x - y.width) ys s t.1)

to_u32-lt : (x : ℤ) (n : ℕ) → n < 2 ^ 32 → pos 0 ≤ℤ x → x <ℤ of_px n → to_u32 x < n
to_u32-lt (pos k) n small lo hi = omega arith
to_u32-lt (negsuc k) n small lo hi = absurd (omega arith)

to_u32-ge : (x : ℤ) (n : ℕ) → n < 2 ^ 32 → of_px n ≤ℤ x → n ≤ to_u32 x
to_u32-ge (pos k) n small lo = omega arith
to_u32-ge (negsuc k) n small lo = omega arith

-- A whole pixel's column, by its coordinates and by its number.
to_u32-column :
    (x : ℤ) (a b : ℕ)
    → b < 2 ^ 32
    → pos 0 ≤ℤ x
    → a ≤ to_u32 x
    → to_u32 x < b
    → (of_px a ≤ℤ x) × (x <ℤ of_px b)
to_u32-column (pos k) a b small nn lo hi = omega arith
to_u32-column (negsuc k) a b small nn lo hi = absurd (omega arith)

-- On tiled screens every coordinate from 0 up to the total width lies on a screen, and on none from
-- there on; the screen found is the one whose columns hold the coordinate.
pub screen_at_x_iff :
    (c : CoordinateSystem) (x : ℤ)
    → IsTiled c
    → pos 0 ≤ℤ x
    → (x <ℤ of_px (total_width c)
        → (s : ScreenInfo) × (screen_at_x c x ≡ some s)
          × (of_px s.offset_x ≤ℤ x)
          × (x <ℤ of_px (s.offset_x + s.width)))
      × (of_px (total_width c) ≤ℤ x → screen_at_x c x ≡ none)
screen_at_x_iff c x t nn = (inside, outside)
  where
    inside :
        x <ℤ of_px (total_width c)
        → (s : ScreenInfo) × (screen_at_x c x ≡ some s)
          × (of_px s.offset_x ≤ℤ x)
          × (x <ℤ of_px (s.offset_x + s.width))
    inside lt =
        let small =
          to_u32-lt x (sum_widths c.screens) t.fits nn (rw (total_width-sum_widths c t) at lt) in
        let (s, e) = walk-some (to_u32 x) c.screens small in
        let (lo, hi, end) = walk-covers 0 (to_u32 x) c.screens s t.tiles e in
        let (a, b) =
          to_u32-column x s.offset_x (s.offset_x + s.width) (omega (arith, t.fits)) nn (omega arith)
            (omega arith) in
        (s, screen_at_x-walk c x t ∙ e, a, b)

    outside : of_px (total_width c) ≤ℤ x → screen_at_x c x ≡ none
    outside ge =
        screen_at_x-walk c x t
        ∙ walk-none (to_u32 x) c.screens
            (to_u32-ge x (sum_widths c.screens) t.fits (rw (total_width-sum_widths c t) at ge))
