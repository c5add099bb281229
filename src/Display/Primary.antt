-- ===== src/Display/Primary.antt =====
-- src/main.rs: the size that is found for the usual line of a primary display.
use supershare.Base.{
  ℕ, ◌+◌, ◌*◌, ◌-◌, ◌^◌, ◌<◌, ◌≡◌, ◌≢◌, refl, ap, ◌∙◌, Bool, true, false, ◌&&◌, not, none, some,
  List, [], ◌∷◌, ◌++◌, append_assoc, Text, codes, leb, ltb, is_empty, length, length-append,
  ==_refl, nat_eq, arith, All,
}
use supershare.Base.Strings.{
  split_on, split_whitespace, strip_suffix, is_whitespace, NoBlank, split_whitespace-append,
  strip_suffix-append,
}
use supershare.Connect
use supershare.Connect.{decimal, parse_u16}
use supershare.Connect.Addresses.{parse_u16-decimal}
use supershare.Pairing.Client.{contains, starts_with}
use supershare.Display.{
  parse_digits, parse_u32, dims, first_some, at_origin, is_candidate, line_size, lines,
  detect_screen_size,
}

-- What fits in 16 bits is read as the same number into 32.
parse_digits-wider :
    (acc n : ℕ) (s : Text) → Connect.parse_digits acc s ≡ some n → parse_digits acc s ≡ some n
unfolding Connect.parse_digits parse_digits
parse_digits-wider acc n [] h = h
parse_digits-wider acc n (c ∷ cs) h = ground (arith, parse_digits-wider (acc * 10 + (c - 48)) n cs)

parse_u32-wider : (n : ℕ) (s : Text) → parse_u16 s ≡ some n → parse_u32 s ≡ some n
unfolding parse_u16 parse_u32
parse_u32-wider n [] h = h
parse_u32-wider n (c ∷ cs) h =
    ground (arith, parse_digits-wider 0 n cs, parse_digits-wider 0 n (c ∷ cs))

-- Digits: no blank, no `x`, no end of line.
abbrev AreDigits : Text → Type 0
AreDigits s = All (λ c. (leb 48 c ≡ true) × (leb c 57 ≡ true)) s

decimal-AreDigits : (n : ℕ) → AreDigits (decimal n)
unfolding decimal
decimal-AreDigits n = ground arith

split_on-digits :
    (at : ℕ) (a b : Text)
    → AreDigits a
    → ltb 57 at ≡ true
    → split_on at (a ++ at ∷ b) ≡ (a, let (part, parts) = split_on at b in part ∷ parts)
unfolding split_on
split_on-digits at [] b h l = ground arith
split_on-digits at (c ∷ cs) b h l = ground (arith, split_on-digits at cs b h.1 l)

split_on-end : (at : ℕ) (a : Text) → AreDigits a → ltb 57 at ≡ true → split_on at a ≡ (a, [])
unfolding split_on
split_on-end at [] h l = refl
split_on-end at (c ∷ cs) h l = ground (arith, split_on-end at cs h.1 l)

abbrev pub size_text : ℕ → ℕ → Text
size_text w h = decimal w ++ 120 ∷ decimal h

dims-size_text : (w h : ℕ) → w < 2 ^ 16 → h < 2 ^ 16 → dims (size_text w h) ≡ some (w, h)
unfolding dims
dims-size_text w h sw sh =
    let pw = parse_u32-wider w (decimal w) (parse_u16-decimal w sw) in
    let ph = parse_u32-wider h (decimal h) (parse_u16-decimal h sh) in
    ground (
      arith,
      pw,
      ph,
      split_on-digits 120 (decimal w) (decimal h) (decimal-AreDigits w) refl,
      split_on-end 120 (decimal h) (decimal-AreDigits h) refl,
    )

not_longer : (t : Text) → t ≢ [] → t ++ codes "+0+0" ≢ codes "+0+0"
not_longer t ne e =
    let same : length (t ++ codes "+0+0") ≡ 4 = rw e refl in
    ground (arith, length-append t (codes "+0+0"), same)

abbrev pub resolution : ℕ → ℕ → Text
resolution w h = size_text w h ++ codes "+0+0"

at_origin-resolution :
    (w h : ℕ) → w < 2 ^ 16 → h < 2 ^ 16 → at_origin (resolution w h) ≡ some (w, h)
unfolding at_origin
at_origin-resolution w h sw sh = ground (
  arith,
  strip_suffix-append (size_text w h) 43 (48 ∷ 43 ∷ 48 ∷ []) not_longer,
  dims-size_text w h sw sh,
)

NoBlank-append : (a b : Text) → NoBlank a → NoBlank b → NoBlank (a ++ b)
NoBlank-append [] b ha hb = hb
NoBlank-append (c ∷ cs) b ha hb = (ha.0, NoBlank-append cs b ha.1 hb)

AreDigits-NoBlank : (s : Text) → AreDigits s → NoBlank s
unfolding is_whitespace
AreDigits-NoBlank [] h = tt
AreDigits-NoBlank (c ∷ cs) h = (ground arith, AreDigits-NoBlank cs h.1)

resolution-NoBlank : (w h : ℕ) → NoBlank (resolution w h)
unfolding is_whitespace
resolution-NoBlank w h =
    NoBlank-append (size_text w h) (codes "+0+0")
      (NoBlank-append (decimal w) (120 ∷ decimal h)
        (AreDigits-NoBlank (decimal w) (decimal-AreDigits w))
        (refl, AreDigits-NoBlank (decimal h) (decimal-AreDigits h)))
      (refl, (refl, (refl, (refl, tt))))

starts_with-append : (p s : Text) → starts_with p (p ++ s) ≡ true
starts_with-append [] s = refl
starts_with-append (c ∷ cs) s = ground (arith, starts_with-append cs s, ==_refl c)

contains-append : (a p s : Text) → contains p (a ++ (p ++ s)) ≡ true
unfolding contains
contains-append [] [] [] = refl
contains-append [] [] (c ∷ cs) = refl
contains-append [] (d ∷ ds) s = ground (arith, starts_with-append (d ∷ ds) s)
contains-append (c ∷ cs) p s = ground (arith, contains-append cs p s)

-- `NoBlank`, tested.
no_blank : Text → Bool
no_blank [] = true
no_blank (c ∷ cs) = not (is_whitespace c) && no_blank cs

no_blank-NoBlank : (s : Text) → no_blank s ≡ true → NoBlank s
unfolding no_blank
no_blank-NoBlank [] h = tt
no_blank-NoBlank (c ∷ cs) h = (ground arith, no_blank-NoBlank cs (ground arith))

word :
    (w rest : Text)
    → no_blank w ≡ true
    → is_empty w ≡ false
    → split_whitespace (w ++ 32 ∷ rest) ≡ w ∷ split_whitespace rest
word w rest h e = split_whitespace-append w rest (no_blank-NoBlank w h) e

-- As xrandr prints it: the output's name, the size with its offset, and more.
abbrev pub primary_line : Text → ℕ → ℕ → Text → Text
primary_line name w h more =
    name ++ 32 ∷ (codes "connected" ++ 32 ∷ (codes "primary" ++ 32 ∷ (resolution w h ++ 32 ∷ more)))

resolution_some : (w h : ℕ) → is_empty (resolution w h) ≡ false
unfolding decimal
resolution_some w h = ground arith

line_size-primary_line :
    (name : Text) (w h : ℕ) (more : Text)
    → NoBlank name
    → is_empty name ≡ false
    → at_origin name ≡ none
    → w < 2 ^ 16
    → h < 2 ^ 16
    → line_size (primary_line name w h more) ≡ some (w, h)
unfolding line_size first_some
line_size-primary_line name w h more blank there other sw sh =
    let rest = resolution w h ++ 32 ∷ more in
    let connected = contains-append (name ++ 32 ∷ []) (codes "connected primary") (32 ∷ rest) in
    let lead = append_assoc name (32 ∷ []) (codes "connected primary" ++ 32 ∷ rest) in
    let one = split_whitespace-append name (codes "connected primary " ++ rest) blank there in
    let two =
      word (codes "connected") (codes "primary " ++ rest) (unfold no_blank is_whitespace in refl)
        refl in
    let three = word (codes "primary") rest (unfold no_blank is_whitespace in refl) refl in
    let four =
      split_whitespace-append (resolution w h) more (resolution-NoBlank w h)
        (resolution_some w h) in
    let skip1 : at_origin (codes "connected") ≡ none = unfold at_origin strip_suffix in refl in
    let skip2 : at_origin (codes "primary") ≡ none = unfold at_origin strip_suffix in refl in
    let found = at_origin-resolution w h sw sh in
    let candidate : is_candidate (primary_line name w h more) ≡ true =
      unfold is_candidate in ground (arith, lead, connected) in
    let words : split_whitespace (primary_line name w h more)
        ≡ name ∷ codes "connected" ∷ codes "primary" ∷ resolution w h ∷ split_whitespace more =
      one
      ∙ ap (◌∷◌ name)
          (two ∙ ap (◌∷◌ (codes "connected")) (three ∙ ap (◌∷◌ (codes "primary")) four)) in
    rw (candidate, words, line_size) (ground (arith, other, skip1, skip2, found))

first_some-append :
    (before : List Text) (line : Text) (after : List Text) (size : ℕ × ℕ)
    → All (λ l. line_size l ≡ none) before
    → line_size line ≡ some size
    → first_some line_size (before ++ line ∷ after) ≡ some size
unfolding first_some
first_some-append [] line after size h e = ground arith
first_some-append (l ∷ ls) line after size h e =
    ground (arith, first_some-append ls line after size h.1 e)

-- Where the first line that tells a size is that of a primary display at the origin, as xrandr prints it
-- (a name without blanks that does not look like a size itself, then the size, both of whose numbers
-- fit in 16 bits), that is the size of the screen, whatever comes after it.
pub detect_screen_size-primary_line :
    (stdout name more : Text) (w h : ℕ) (before after : List Text)
    → NoBlank name
    → is_empty name ≡ false
    → at_origin name ≡ none
    → w < 2 ^ 16
    → h < 2 ^ 16
    → lines stdout ≡ before ++ primary_line name w h more ∷ after
    → All (λ l. line_size l ≡ none) before
    → detect_screen_size (some stdout) ≡ (w, h)
unfolding detect_screen_size
detect_screen_size-primary_line stdout name more w h before after blank there other sw sh e
      none_before =
    let line = primary_line name w h more in
    let here = line_size-primary_line name w h more blank there other sw sh in
    ground (arith, e, first_some-append before line after (w, h) none_before here)
