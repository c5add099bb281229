-- ===== src/Keys/Laws.antt =====
-- crates/ss-input/src/inject.rs: which keys survive the way to a code and back.
use supershare.Base.{
  ℕ, ◌≡◌, refl, none, some, List, [], ◌∷◌, ◌++◌, if◌then◌else◌, codes, ==_iff, ◌==◌, list_eq,
  nat_eq, any, arith, Bool,
}
use supershare.Protocol.Content.{Hash}
use supershare.Keys.{Key, key_to_u32, common_keys, key_in, u32_to_key}

-- The hash tells `key` from every other key of the table.
abbrev pub Separates : Hash → Key → List Key → Type 0
Separates h key [] = Unit {0}
Separates h key (k ∷ ks) = (key_to_u32 h k ≡ key_to_u32 h key → k ≡ key) × Separates h key ks

abbrev pub is_common : Key → List Key → Bool
is_common key keys = any (λ k. k == key) keys

key_in-key_to_u32 :
    (h : Hash) (key : Key) (keys : List Key)
    → Separates h key keys
    → key_in h keys (key_to_u32 h key) ≡ (if is_common key keys then some key else none)
unfolding key_in
key_in-key_to_u32 h key [] c = refl
key_in-key_to_u32 h key (k ∷ ks) c =
    ground (arith, ==_iff k key, c.0, key_in-key_to_u32 h key ks c.1)

-- A key's code is read back as that key if the key is one of the 35 of the table, and not at all
-- otherwise, where the hash tells the key from the others of the table.
pub u32_to_key-key_to_u32 :
    (h : Hash) (key : Key)
    → Separates h key common_keys
    → u32_to_key h (key_to_u32 h key) ≡ (if is_common key common_keys then some key else none)
unfolding u32_to_key
u32_to_key-key_to_u32 h key c = key_in-key_to_u32 h key common_keys c

-- No letter or digit key is read back: the table has none.
pub letters_not_injected :
    (h : Hash) (c : ℕ)
    → Separates h (codes "Key" ++ c ∷ []) common_keys
    → u32_to_key h (key_to_u32 h (codes "Key" ++ c ∷ [])) ≡ none
letters_not_injected h c s = u32_to_key-key_to_u32 h (codes "Key" ++ c ∷ []) s
