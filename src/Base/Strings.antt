-- ===== src/Base/Strings.antt =====
-- What the code uses of Rust's `str`: blanks, lines, words and suffixes.
use Prim.Native.Nat.{ℕ}
use mathlib.Core.Logic.{◌≢◌}
use mathlib.Core.Path.{◌≡◌, refl}
use mathlib.Core.Logic.{inl, inr}
use mathlib.Core.Bool.{Bool, false, ◌&&◌, ◌||◌}
use mathlib.Core.List.{List, [], ◌∷◌, ◌++◌}
use mathlib.Core.Option.{Option, none, some}
use native.Mathlib.Omega.{arith}
use supershare.Base.Tests.{eqb, leb, if◌then◌else◌, Bool-cases}
use supershare.Base.Lists.{is_empty, All}
use supershare.Base.Class.{Text, ◌==◌, ==_iff, ==_refl, list_eq, nat_eq}

-- `char::is_whitespace`.
unfoldable pub is_whitespace : ℕ → Bool
is_whitespace c =
    leb 9 c && leb c 13
    || eqb c 32
    || eqb c 133
    || eqb c 160
    || eqb c 5760
    || leb 8192 c && leb c 8202
    || eqb c 8232
    || eqb c 8233
    || eqb c 8239
    || eqb c 8287
    || eqb c 12288

unfoldable pub trim_start : Text → Text
trim_start [] = []
trim_start (c ∷ cs) = let rest = trim_start cs in if is_whitespace c then rest else c ∷ cs

unfoldable pub trim_end : Text → Text
trim_end [] = []
trim_end (c ∷ cs) =
    let rest = trim_end cs in if is_empty rest && is_whitespace c then [] else c ∷ rest

unfoldable pub trim : Text → Text
unfolding trim_start trim_end
trim s = trim_end (trim_start s)

trim_end-trim_end : (s : Text) → trim_end (trim_end s) ≡ trim_end s
unfolding trim_end
trim_end-trim_end [] = refl
trim_end-trim_end (c ∷ cs) = ground (arith, trim_end-trim_end cs)

-- Nothing blank in front.
abbrev IsFlush : Text → Type 0
IsFlush [] = Unit {0}
IsFlush (c ∷ cs) = is_whitespace c ≡ false

trim_start-IsFlush : (s : Text) → IsFlush (trim_start s)
unfolding trim_start
trim_start-IsFlush [] = tt
trim_start-IsFlush (c ∷ cs) = elim (Bool-cases (is_whitespace c)) [
  | inl e ↦ rw (e, trim_start) (trim_start-IsFlush cs)
  | inr e ↦ rw (e, trim_start) e
]

trim_end-IsFlush : (s : Text) → IsFlush s → IsFlush (trim_end s)
unfolding trim_end
trim_end-IsFlush [] h = tt
trim_end-IsFlush (c ∷ cs) h = rw (h, trim_end) (ground (arith, h))

-- Text that is flush is not changed by taking blanks off its front.
trim_start_flush : (s : Text) → IsFlush s → trim_start s ≡ s
unfolding trim_start
trim_start_flush [] h = refl
trim_start_flush (c ∷ cs) h = rw (h, trim_start) refl

pub trim-trim : (s : Text) → trim (trim s) ≡ trim s
unfolding trim
trim-trim s =
    let flush = trim_end-IsFlush (trim_start s) (trim_start-IsFlush s) in
    ground
      (arith, trim_start_flush (trim_end (trim_start s)) flush, trim_end-trim_end (trim_start s))

-- `str::split` at a character: the parts between its occurrences.
unfoldable pub split_on : ℕ → Text → Text × List Text
split_on at [] = ([], [])
split_on at (c ∷ cs) =
    let (part, parts) = split_on at cs in if eqb c at then ([], part ∷ parts) else (c ∷ part, parts)

-- `str::split_whitespace`: the word that the text begins in, and the words after it.
unfoldable pub words_from : Text → Text × List Text
words_from [] = ([], [])
words_from (c ∷ cs) =
    let (word, words) = words_from cs in
    if is_whitespace c
    then ([], (if is_empty word then words else word ∷ words))
    else (c ∷ word, words)

unfoldable pub split_whitespace : Text → List Text
unfolding words_from
split_whitespace s =
    let (word, words) = words_from s in if is_empty word then words else word ∷ words

-- `str::strip_suffix`.
unfoldable pub strip_suffix : Text → Text → Option Text
strip_suffix [] suffix = if [] == suffix then some [] else none
strip_suffix (c ∷ cs) suffix =
    let rest = strip_suffix cs suffix in
    if c ∷ cs == suffix then some [] else (elim rest [ none ↦ none | some t ↦ some (c ∷ t) ])

-- Nothing blank.
abbrev pub NoBlank : Text → Type 0
NoBlank s = All (λ c. is_whitespace c ≡ false) s

words_from-append :
    (w rest : Text) → NoBlank w → words_from (w ++ 32 ∷ rest) ≡ (w, split_whitespace rest)
unfolding words_from split_whitespace is_whitespace
words_from-append [] rest h = refl
words_from-append (c ∷ cs) rest h = ground (arith, words_from-append cs rest h.1)

-- A word and a space before more text.
pub split_whitespace-append :
    (w rest : Text)
    → NoBlank w
    → is_empty w ≡ false
    → split_whitespace (w ++ 32 ∷ rest) ≡ w ∷ split_whitespace rest
unfolding split_whitespace
split_whitespace-append w rest h e =
    rw (words_from-append w rest h, split_whitespace) (ground (arith, e))

-- A suffix that is not empty, behind a text.
pub strip_suffix-append :
    (s : Text) (c : ℕ) (cs : Text)
    → ((t : Text) → t ≢ [] → t ++ c ∷ cs ≢ c ∷ cs)
    → strip_suffix (s ++ c ∷ cs) (c ∷ cs) ≡ some s
unfolding strip_suffix
strip_suffix-append [] c cs longer = ground (arith, ==_refl (c ∷ cs))
strip_suffix-append (d ∷ ds) c cs longer = ground (
  arith,
  strip_suffix-append ds c cs longer,
  ==_iff (d ∷ (ds ++ c ∷ cs)) (c ∷ cs),
  longer (d ∷ ds) (λ e. absurd (ground arith)),
)
