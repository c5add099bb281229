-- ===== src/Keys.antt =====
-- Keys as `u32` codes: `key_to_u32` of crates/ss-input/src/warp_capture.rs and capture.rs, and
-- `u32_to_key` of crates/ss-input/src/inject.rs. A `rdev::Key` is its `Debug` name, which is all that
-- the code uses of it.
pub mod Laws
use supershare.Base.{ℕ, Option, List, [], ◌∷◌, Text, codes, eqb, find, map}
use supershare.Base.Utf8.{as_bytes}
use supershare.Protocol.Kind.{Bytes}
use supershare.Protocol.Codec.{from_le_bytes}
use supershare.Protocol.Content.{Hash}

abbrev pub Key : Type 0
Key = Text

-- `u32::from_le_bytes` of the first four bytes, and 0 if there are fewer.
abbrev pub first_u32 : Bytes → ℕ
first_u32 (a ∷ b ∷ c ∷ d ∷ rest) = from_le_bytes a b c d
first_u32 _ = 0

unfoldable pub key_to_u32 : Hash → Key → ℕ
key_to_u32 h key = first_u32 (h.blake3 (as_bytes key))

abbrev pub common_keys : List Key
common_keys =
    codes "Alt"
    ∷ codes "AltGr"
    ∷ codes "Backspace"
    ∷ codes "CapsLock"
    ∷ codes "ControlLeft"
    ∷ codes "ControlRight"
    ∷ codes "Delete"
    ∷ codes "DownArrow"
    ∷ codes "End"
    ∷ codes "Escape"
    ∷ codes "F1"
    ∷ codes "F2"
    ∷ codes "F3"
    ∷ codes "F4"
    ∷ codes "F5"
    ∷ codes "F6"
    ∷ codes "F7"
    ∷ codes "F8"
    ∷ codes "F9"
    ∷ codes "F10"
    ∷ codes "F11"
    ∷ codes "F12"
    ∷ codes "Home"
    ∷ codes "LeftArrow"
    ∷ codes "MetaLeft"
    ∷ codes "MetaRight"
    ∷ codes "PageDown"
    ∷ codes "PageUp"
    ∷ codes "Return"
    ∷ codes "RightArrow"
    ∷ codes "ShiftLeft"
    ∷ codes "ShiftRight"
    ∷ codes "Space"
    ∷ codes "Tab"
    ∷ codes "UpArrow"
    ∷ []

-- The search of `u32_to_key` through a table of keys.
unfoldable pub key_in : Hash → List Key → ℕ → Option Key
key_in h keys code = find (λ key. eqb (key_to_u32 h key) code) keys

unfoldable pub u32_to_key : Hash → ℕ → Option Key
unfolding key_in
u32_to_key h code = key_in h common_keys code
