-- ===== src/Examples/PairParams.antt =====
-- Stand-ins for the cryptography, rcgen and bincode of pairing, that satisfy what is relied on.
use supershare.Base.{
  ℕ, ◌≡◌, refl, Option, none, some, [], ◌∷◌, ◌++◌, Text, codes, length, take, drop, take_append,
  drop_append, ◌==◌, ==_refl, list_eq, nat_eq, if◌then◌else◌, arith, Option-cases, inl, inr,
}
use supershare.Base.Outcome.{ok}
use supershare.Protocol.Kind.{Bytes}
use supershare.Cert.{Rcgen}
use supershare.Pairing.Crypto.{Primitives, seal}
use supershare.Pairing.Server.{ProvisionWire, ProvisionRequest, ProvisionResponse, Outside}

-- A key in front of what it seals.
unfoldable pub unlock : Bytes → Bytes → Bytes → Option Bytes
unlock key nonce sealed =
    if take (length key) sealed == key then some (drop (length key) sealed) else none

pub unlocked :
    (key nonce plaintext sealed : Bytes)
    → some (key ++ plaintext) ≡ some sealed
    → unlock key nonce sealed ≡ some plaintext
unfolding unlock
unlocked key nonce plaintext sealed e =
    ground (arith, take_append key plaintext, drop_append key plaintext, ==_refl key)

abbrev pub twelve : Bytes
twelve = 0 ∷ 0 ∷ 0 ∷ 0 ∷ 0 ∷ 0 ∷ 0 ∷ 0 ∷ 0 ∷ 0 ∷ 0 ∷ 0 ∷ []

-- The password is the secret.
abbrev pub toy : Primitives
toy = record {
  start_symmetric = λ password identity seed. seed ∷ [];
  spake_finish = λ password identity seed peer. some password;
  expand = λ shared info. some shared;
  random_nonce = λ seed. twelve;
  encrypt = λ key nonce plaintext. some (key ++ plaintext);
  decrypt = unlock;
  nonce_law = λ seed. refl;
  agree = λ password identity s t. (password, refl, refl);
  expands = λ shared info. (shared, refl);
  decrypts = unlocked;
}

pub toy-seals :
    (key plaintext : Bytes) (seed : ℕ)
    → (nonce : Bytes) × (ciphertext : Bytes) × (seal toy key plaintext seed
        ≡ ok (nonce, ciphertext))
unfolding seal
toy-seals key plaintext seed = (twelve, key ++ plaintext, refl)

abbrev pub plain_certs : Rcgen
plain_certs = record {
  key_from_pem = λ pem. some pem;
  ca_params_from_pem = λ pem. some pem;
  self_signed = λ params key. some params;
  csr_from_pem = λ pem. some pem;
  signed_by = λ csr cert key. some (csr ++ key);
  generate_key = λ seed. some (seed ∷ []);
  params_new = λ name. some name;
  serialize_request = λ params common_name dns key. some (common_name ++ key);
  first_der = λ pem. some pem;
  sha256 = λ bs. bs;
}

-- Two texts, the length of the first in front.
unfoldable pub two_texts : Text → Text → Bytes
two_texts a b = length a ∷ (a ++ b)

unfoldable pub write_request : ProvisionRequest → Option Bytes
unfolding two_texts
write_request q = elim q.name [ none ↦ none | some name ↦ some (two_texts q.csr_pem name) ]

unfoldable pub read_request : Bytes → Option ProvisionRequest
read_request [] = none
read_request (n ∷ rest) = some (record { csr_pem = take n rest; name = some (drop n rest) })

pub request_read :
    (q : ProvisionRequest) (bs : Bytes) → write_request q ≡ some bs → read_request bs ≡ some q
unfolding write_request read_request two_texts
request_read q bs e = elim (Option-cases q.name) [
  | inl n ↦ absurd (ground (arith, n, e))
  | inr (name, n) ↦ ground (arith, n, e, take_append q.csr_pem name, drop_append q.csr_pem name)
]

unfoldable pub read_response : Bytes → Option ProvisionResponse
read_response [] = none
read_response (n ∷ rest) =
    some (record { client_cert_pem = take n rest; ca_cert_pem = drop n rest })

pub response_read :
    (q : ProvisionResponse) (bs : Bytes)
    → some (two_texts q.client_cert_pem q.ca_cert_pem) ≡ some bs
    → read_response bs ≡ some q
unfolding read_response two_texts
response_read q bs e = ground (
  arith,
  take_append q.client_cert_pem q.ca_cert_pem,
  drop_append q.client_cert_pem q.ca_cert_pem,
)

abbrev pub lengths : ProvisionWire
lengths = record {
  write_request = write_request;
  read_request = read_request;
  write_response = λ q. some (two_texts q.client_cert_pem q.ca_cert_pem);
  read_response = read_response;
  request_law = request_read;
  response_law = response_read;
}

abbrev pub toy_outside : Outside
toy_outside = record {
  primitives = toy;
  rcgen = plain_certs;
  wire = lengths;
  texts = record { crypto = λ e. codes "wrong key"; other = λ f. codes "failed" };
}
