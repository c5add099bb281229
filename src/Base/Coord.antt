-- ===== src/Base/Coord.antt =====
-- Screen coordinates: the program's `f32` and `f64` values, as multiples of 1/256 pixel.
-- Such values below 2 ^ 16 pixels fit the 24 bits of an `f32`, so its sums and casts are exact there.
-- NaN and the infinities are no coordinates.
use supershare.Base.{ℕ, ◌*◌, ◌/◌, min, arith, if◌then◌else◌}
use supershare.Base.Int.{ℤ, pos, negsuc, ltb_ℤ, ◌≤ℤ◌}

abbrev pub u32_max : ℕ
u32_max = 0xffff_ffff

-- `w as f32`, `w as f64`.
abbrev pub of_px : ℕ → ℤ
of_px w = pos (w * 256)

-- `x as u32`: towards zero, and saturating at both ends.
abbrev pub to_u32 : ℤ → ℕ
to_u32 (pos n) = min (n / 256) u32_max
to_u32 (negsuc n) = 0

-- `x.clamp(lo, hi)`, which panics if `hi < lo`.
abbrev pub clamp : ℤ → ℤ → ℤ → ℤ
clamp lo hi x = if ltb_ℤ x lo then lo else if ltb_ℤ hi x then hi else x

pub clamp_bounds : (lo hi x : ℤ) → lo ≤ℤ hi → (lo ≤ℤ clamp lo hi x) × (clamp lo hi x ≤ℤ hi)
clamp_bounds lo hi x h = ground arith
