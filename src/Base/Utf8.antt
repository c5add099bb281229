-- ===== src/Base/Utf8.antt =====
-- The UTF-8 of a text: `str::as_bytes` and `String::from_utf8_lossy` of the standard library.
use supershare.Base.{
  ℕ, suc, ◌+◌, ◌-◌, ◌*◌, ◌/◌, ◌%◌, ◌≤◌, ◌<◌, ◌≡◌, ◌⊎◌, ◌∙◌, ap, refl, ◌&&◌, List, [], ◌∷◌, ◌++◌,
  ltb, leb, if◌then◌else◌, Text, All, arith,
}

-- `char::encode_utf8`.
unfoldable pub encode_char : ℕ → List ℕ
encode_char c =
    if ltb c 0x80
    then c ∷ []
    else if ltb c 0x800
    then (0xc0 + c / 64) ∷ (0x80 + c % 64) ∷ []
    else if ltb c 0x1_0000
    then (0xe0 + c / 4096) ∷ (0x80 + c / 64 % 64) ∷ (0x80 + c % 64) ∷ []
    else (0xf0 + c / 262144) ∷ (0x80 + c / 4096 % 64) ∷ (0x80 + c / 64 % 64) ∷ (0x80 + c % 64) ∷ []

-- `str::as_bytes`.
unfoldable pub as_bytes : Text → List ℕ
as_bytes [] = []
as_bytes (c ∷ s) = encode_char c ++ as_bytes s

-- The decoder between two bytes: the character so far, how many bytes it still lacks, and the range of
-- the next one.
pub record Pending : Type 0 where
  pub need : ℕ
  pub acc : ℕ
  pub lo : ℕ
  pub hi : ℕ

abbrev pub idle : Pending
idle = record { need = 0; acc = 0; lo = 0x80; hi = 0xbf }

abbrev pub pending : ℕ → ℕ → ℕ → ℕ → Pending
pending need acc lo hi = record { need = need; acc = acc; lo = lo; hi = hi }

abbrev pub replacement : ℕ
replacement = 0xfffd

-- A byte where a character begins: the characters that it completes, and the decoder after it.
unfoldable pub first_byte : ℕ → Text × Pending
first_byte b =
    if ltb b 0x80
    then (b ∷ [], idle)
    else if leb 0xc2 b && leb b 0xdf
    then ([], pending 1 (b - 0xc0) 0x80 0xbf)
    else if leb 0xe0 b && leb b 0xef
    then (
      [],
      pending 2 (b - 0xe0) (if leb b 0xe0 then 0xa0 else 0x80)
          (if leb 0xed b && leb b 0xed then 0x9f else 0xbf),
    )
    else if leb 0xf0 b && leb b 0xf4
    then (
      [],
      pending 3 (b - 0xf0) (if leb b 0xf0 then 0x90 else 0x80) (if leb 0xf4 b then 0x8f else 0xbf),
    )
    else (replacement ∷ [], idle)

-- A byte within a character. One that does not continue it ends it with U+FFFD, and begins another.
unfoldable pub next_byte : Pending → ℕ → Text × Pending
unfolding first_byte
next_byte p b =
    if ltb 0 p.need
    then (if leb p.lo b && leb b p.hi
        then (if ltb 1 p.need
            then ([], pending (p.need - 1) (p.acc * 64 + (b - 0x80)) 0x80 0xbf)
            else ((p.acc * 64 + (b - 0x80)) ∷ [], idle))
        else (let (out, q) = first_byte b in (replacement ∷ out, q)))
    else first_byte b

unfoldable pub decode : Pending → List ℕ → Text
decode p [] = if ltb 0 p.need then replacement ∷ [] else []
decode p (b ∷ bs) = let (out, q) = next_byte p b in out ++ decode q bs

-- `String::from_utf8_lossy`.
unfoldable pub from_utf8_lossy : List ℕ → Text
from_utf8_lossy bs = decode idle bs

-- A Unicode scalar value.
abbrev pub IsChar : ℕ → Type 0
IsChar c = (c < 0xd800) ⊎ ((0xe000 ≤ c) × (c < 0x11_0000))

decode_last :
    (acc lo hi b : ℕ) (rest : List ℕ)
    → lo ≤ b
    → b ≤ hi
    → decode (pending 1 acc lo hi) (b ∷ rest) ≡ (acc * 64 + (b - 0x80)) ∷ decode idle rest
unfolding decode next_byte
decode_last acc lo hi b rest h k = ground arith

decode_more :
    (n acc lo hi b : ℕ) (rest : List ℕ)
    → lo ≤ b
    → b ≤ hi
    → decode (pending (suc (suc n)) acc lo hi) (b ∷ rest)
      ≡ decode (pending (suc n) (acc * 64 + (b - 0x80)) 0x80 0xbf) rest
unfolding decode next_byte
decode_more n acc lo hi b rest h k = ground arith

decode_first :
    (b : ℕ) (rest : List ℕ)
    → decode idle (b ∷ rest) ≡ (let (out, q) = first_byte b in out ++ decode q rest)
unfolding decode next_byte
decode_first b rest = refl

first_two : (b : ℕ) → 0xc2 ≤ b → b ≤ 0xdf → first_byte b ≡ ([], pending 1 (b - 0xc0) 0x80 0xbf)
unfolding first_byte
first_two b lo hi = ground arith

abbrev low_three : ℕ → ℕ
low_three b = if leb b 0xe0 then 0xa0 else 0x80

abbrev high_three : ℕ → ℕ
high_three b = if leb 0xed b && leb b 0xed then 0x9f else 0xbf

first_three :
    (b : ℕ)
    → 0xe0 ≤ b
    → b ≤ 0xef
    → first_byte b ≡ ([], pending 2 (b - 0xe0) (low_three b) (high_three b))
unfolding first_byte
first_three b lo hi = ground arith

abbrev low_four : ℕ → ℕ
low_four b = if leb b 0xf0 then 0x90 else 0x80

abbrev high_four : ℕ → ℕ
high_four b = if leb 0xf4 b then 0x8f else 0xbf

first_four :
    (b : ℕ)
    → 0xf0 ≤ b
    → b ≤ 0xf4
    → first_byte b ≡ ([], pending 3 (b - 0xf0) (low_four b) (high_four b))
unfolding first_byte
first_four b lo hi = ground arith

decode_two :
    (c : ℕ) (rest : List ℕ)
    → 0x80 ≤ c
    → c < 0x800
    → decode idle ((0xc0 + c / 64) ∷ (0x80 + c % 64) ∷ rest) ≡ c ∷ decode idle rest
decode_two c rest lo hi =
    decode_first (0xc0 + c / 64) _
    ∙ rw (first_two (0xc0 + c / 64) (omega arith) (omega arith)) (
        decode_last _ _ _ (0x80 + c % 64) rest (omega arith) (omega arith)
        ∙ ap (λ k. k ∷ decode idle rest) (omega arith))

decode_three :
    (c : ℕ) (rest : List ℕ)
    → 0x800 ≤ c
    → c < 0x1_0000
    → IsChar c
    → decode idle ((0xe0 + c / 4096) ∷ (0x80 + c / 64 % 64) ∷ (0x80 + c % 64) ∷ rest)
      ≡ c ∷ decode idle rest
decode_three c rest lo hi valid =
    decode_first (0xe0 + c / 4096) _
    ∙ rw (first_three (0xe0 + c / 4096) (omega arith) (omega arith)) (
        decode_more 0 _ _ _ (0x80 + c / 64 % 64) _ (ground arith) (ground arith)
        ∙ decode_last _ _ _ (0x80 + c % 64) rest (omega arith) (omega arith)
        ∙ ap (λ k. k ∷ decode idle rest) (omega arith))

decode_four :
    (c : ℕ) (rest : List ℕ)
    → 0x1_0000 ≤ c
    → c < 0x11_0000
    → decode idle (
        (0xf0 + c / 262144)
        ∷ (0x80 + c / 4096 % 64)
        ∷ (0x80 + c / 64 % 64)
        ∷ (0x80 + c % 64)
        ∷ rest)
      ≡ c ∷ decode idle rest
decode_four c rest lo hi =
    decode_first (0xf0 + c / 262144) _
    ∙ rw (first_four (0xf0 + c / 262144) (omega arith) (omega arith)) (
        decode_more 1 _ _ _ (0x80 + c / 4096 % 64) _ (ground arith) (ground arith)
        ∙ decode_more 0 _ _ _ (0x80 + c / 64 % 64) _ (omega arith) (omega arith)
        ∙ decode_last _ _ _ (0x80 + c % 64) rest (omega arith) (omega arith)
        ∙ ap (λ k. k ∷ decode idle rest) (omega arith))

decode_one : (c : ℕ) (rest : List ℕ) → c < 0x80 → decode idle (c ∷ rest) ≡ c ∷ decode idle rest
unfolding first_byte
decode_one c rest h = decode_first c rest ∙ ground arith

decode_char :
    (c : ℕ) (rest : List ℕ) → IsChar c → decode idle (encode_char c ++ rest) ≡ c ∷ decode idle rest
unfolding encode_char
decode_char c rest h =
    ground (arith, decode_one c rest, decode_two c rest, decode_three c rest, decode_four c rest)

-- Every text is read back from its UTF-8.
pub from_utf8_lossy-as_bytes : (s : Text) → All IsChar s → from_utf8_lossy (as_bytes s) ≡ s
unfolding from_utf8_lossy as_bytes
from_utf8_lossy-as_bytes s h = go s h
  where
    go : (s : Text) → All IsChar s → decode idle (as_bytes s) ≡ s
    go [] h = unfold decode in refl
    go (c ∷ s) h = decode_char c (as_bytes s) h.0 ∙ ap (◌∷◌ c) (go s h.1)
