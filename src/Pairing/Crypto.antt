-- ===== src/Pairing/Crypto.antt =====
-- crates/ss-network/src/pairing/crypto.rs and mod.rs. SPAKE2, HKDF and ChaCha20-Poly1305 are parameters;
-- what they draw at random is the seed given to a call.
use supershare.Base.{ℕ, ◌≡◌, Option, some, Text, codes, length, eqb, arith}
use supershare.Base.Utf8.{as_bytes}
use supershare.Base.Outcome.{Outcome, ok, ◌>>=◌, ◌>>◌, ensure, ok_or}
use supershare.Protocol.Kind.{Bytes}

-- `Spake2::start_symmetric` and its `finish`, `Hkdf::expand` to 32 bytes, and the AEAD. What is relied
-- on: two exchanges on one password and identity agree on a secret; HKDF gives 32 bytes of any secret;
-- what was encrypted under a key and a nonce of 12 bytes is decrypted again.
pub record Primitives : Type 0 where
  pub start_symmetric : (password identity : Bytes) (seed : ℕ) → Bytes
  pub spake_finish : (password identity : Bytes) (seed : ℕ) (peer : Bytes) → Option Bytes
  pub expand : (shared info : Bytes) → Option Bytes
  pub random_nonce : ℕ → Bytes
  pub encrypt : (key nonce plaintext : Bytes) → Option Bytes
  pub decrypt : (key nonce ciphertext : Bytes) → Option Bytes
  pub nonce_law : (seed : ℕ) → length (random_nonce seed) ≡ 12
  pub agree :
      (password identity : Bytes) (s t : ℕ)
      → (shared : Bytes) × (spake_finish password identity s (start_symmetric password identity t)
          ≡ some shared)
        × (spake_finish password identity t (start_symmetric password identity s) ≡ some shared)
  pub expands : (shared info : Bytes) → (key : Bytes) × (expand shared info ≡ some key)
  pub decrypts :
      (key nonce plaintext ciphertext : Bytes)
      → encrypt key nonce plaintext ≡ some ciphertext
      → decrypt key nonce ciphertext ≡ some plaintext

abbrev pub pairing_identity : Bytes
pairing_identity = as_bytes (codes "supershare-pairing-v1")

abbrev pub hkdf_info : Bytes
hkdf_info = as_bytes (codes "supershare-pairing-aead-key")

abbrev pub nonce_len : ℕ
nonce_len = 12

-- An exchange under way is the password and what was drawn.
pub record PairingExchange : Type 0 where
  pub password : Bytes
  pub seed : ℕ

unfoldable pub start : Primitives → Text → ℕ → PairingExchange × Bytes
start p pin seed =
    let password = as_bytes pin in
    (record { password = password; seed = seed }, p.start_symmetric password pairing_identity seed)

pub data CryptoError : Type 0 where
  spake_failed expand_failed encrypt_failed decrypt_failed : CryptoError
  invalid_nonce_length : ℕ → CryptoError

-- `SessionKey::open` is `open_payload`.
-- `finish`: the session key.
unfoldable pub finish : Primitives → PairingExchange → Bytes → Outcome CryptoError Bytes
finish p e peer = do
  shared ← ok_or (p.spake_finish e.password pairing_identity e.seed peer) spake_failed
  ok_or (p.expand shared hkdf_info) expand_failed

unfoldable pub seal : Primitives → Bytes → Bytes → ℕ → Outcome CryptoError (Bytes × Bytes)
seal p key plaintext seed = do
  ciphertext ← ok_or (p.encrypt key (p.random_nonce seed) plaintext) encrypt_failed
  ok (p.random_nonce seed, ciphertext)

unfoldable pub open_payload : Primitives → Bytes → Bytes → Bytes → Outcome CryptoError Bytes
open_payload p key nonce ciphertext = do
  ensure (eqb (length nonce) nonce_len) (invalid_nonce_length (length nonce))
  ok_or (p.decrypt key nonce ciphertext) decrypt_failed

-- Both sides of an exchange on one PIN have the same session key.
pub finish-start :
    (p : Primitives) (pin : Text) (s t : ℕ)
    → let (mine, my_msg) = start p pin s in
      let (theirs, their_msg) = start p pin t in
      (key : Bytes) × (finish p mine their_msg ≡ ok key) × (finish p theirs my_msg ≡ ok key)
unfolding start finish
finish-start p pin s t =
    let (shared, a, b) = p.agree (as_bytes pin) pairing_identity s t in
    let (key, e) = p.expands shared hkdf_info in (key, rw (a, e), rw (b, e))

-- What is sealed under a key is opened under it.
pub open_payload-seal :
    (p : Primitives) (key plaintext nonce ciphertext : Bytes) (seed : ℕ)
    → seal p key plaintext seed ≡ ok (nonce, ciphertext)
    → open_payload p key nonce ciphertext ≡ ok plaintext
unfolding seal open_payload
open_payload-seal p key plaintext nonce ciphertext seed e =
    ground (arith, p.nonce_law seed, p.decrypts key nonce plaintext ciphertext)
