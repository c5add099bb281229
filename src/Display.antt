-- ===== src/Display.antt =====
-- src/main.rs: `detect_screen_size` on Linux, from what xrandr prints.
pub mod Primary
use supershare.Base.{
  ℕ, ◌+◌, ◌*◌, ◌-◌, ◌^◌, Bool, true, false, ◌&&◌, ◌||◌, Option, none, some, List, [], ◌∷◌, Text,
  codes, eqb, leb, ltb, any, is_empty, if◌then◌else◌,
}
use supershare.Base.Strings.{split_on, split_whitespace, strip_suffix}
use supershare.Pairing.Client.{contains}

-- `u32::from_str`: digits after an optional `+` (43), within the type.
unfoldable pub parse_digits : ℕ → Text → Option ℕ
parse_digits acc [] = some acc
parse_digits acc (c ∷ cs) =
    let next = acc * 10 + (c - 48) in
    let rest = parse_digits next cs in
    if leb 48 c && leb c 57 && ltb next (2 ^ 32) then rest else none

unfoldable pub parse_u32 : Text → Option ℕ
unfolding parse_digits
parse_u32 [] = none
parse_u32 (c ∷ cs) =
    if eqb c 43 then (if is_empty cs then none else parse_digits 0 cs) else parse_digits 0 (c ∷ cs)

abbrev both : Option ℕ → Option ℕ → Option (ℕ × ℕ)
both none h = none
both (some w) none = none
both (some w) (some h) = some (w, h)

-- `1920x1080`: two parts around an `x` (120).
unfoldable pub dims : Text → Option (ℕ × ℕ)
unfolding split_on parse_u32
dims s =
    let (first, rest) = split_on 120 s in
    elim rest [
      | [] ↦ none
      | second ∷ more ↦ if is_empty more then both (parse_u32 first) (parse_u32 second) else none
    ]

-- The first element that gives something.
unfoldable pub first_some {ℓ κ} : {A : Type ℓ} {B : Type κ} → (A → Option B) → List A → Option B
first_some f [] = none
first_some f (x ∷ xs) = let rest = first_some f xs in elim (f x) [ none ↦ rest | some y ↦ some y ]

-- A word of a line for a connected display: a resolution at the origin.
unfoldable pub at_origin : Text → Option (ℕ × ℕ)
unfolding strip_suffix dims
at_origin word = elim (strip_suffix word (codes "+0+0")) [ none ↦ none | some res ↦ dims res ]

unfoldable pub is_candidate : Text → Bool
unfolding contains
is_candidate line =
    contains (codes "connected primary") line
    || contains (codes "connected") line && contains (codes "+0+0") line

unfoldable pub line_size : Text → Option (ℕ × ℕ)
unfolding is_candidate split_whitespace at_origin first_some
line_size line = if is_candidate line then first_some at_origin (split_whitespace line) else none

-- The fallback: a line of modes, with `*` (42) at the one in use.
unfoldable pub mode_size : Text → Option (ℕ × ℕ)
unfolding split_whitespace dims first_some
mode_size line = if any (λ c. eqb c 42) line then first_some dims (split_whitespace line) else none

-- `str::lines`, in which a `\r` at the end of a line and an empty last line make no difference here.
unfoldable pub lines : Text → List Text
unfolding split_on
lines s = let (line, rest) = split_on 10 s in line ∷ rest

abbrev pub default_size : ℕ × ℕ
default_size = (1920, 1080)

-- What xrandr prints, if it could be run.
unfoldable pub detect_screen_size : Option Text → ℕ × ℕ
unfolding lines first_some line_size mode_size
detect_screen_size none = default_size
detect_screen_size (some stdout) = elim (first_some line_size (lines stdout)) [
  | some size ↦ size
  | none ↦ elim (first_some mode_size (lines stdout)) [ some size ↦ size | none ↦ default_size ]
]
