-- ===== src/Cert.antt =====
-- crates/ss-network/src/cert.rs: the certificates that pairing hands out. rcgen, the PEM reader and
-- SHA-256 are parameters.
pub mod Authority
use supershare.Base.{
  ℕ, ◌+◌, ◌/◌, ◌%◌, Bool, true, false, ◌&&◌, ◌||◌, Option, none, some, List, [], ◌∷◌, map, Text,
  codes, leb, ltb, eqb, is_empty, if◌then◌else◌,
}
use supershare.Base.Outcome.{Outcome, ok, ◌>>=◌, ok_or}
use supershare.Protocol.Kind.{Bytes}

-- Keys and parsed certificates are what they are written as.
pub record Rcgen : Type 0 where
  pub key_from_pem : Text → Option Text
  pub ca_params_from_pem : Text → Option Text
  pub self_signed : (params key : Text) → Option Text
  pub csr_from_pem : Text → Option Text
  pub signed_by : (csr ca_cert ca_key : Text) → Option Text
  pub generate_key : ℕ → Option Text
  pub params_new : (name : Text) → Option Text
  pub serialize_request : (params common_name dns key : Text) → Option Text
  pub first_der : Text → Option Bytes
  pub sha256 : Bytes → Bytes

pub data CertError : Type 0 where
  bad_ca_key bad_ca_cert bad_csr sign_failed key_failed request_failed no_certificate : CertError

unfoldable pub load_ca : Rcgen → Text → Text → Outcome CertError (Text × Text)
load_ca r ca_cert_pem ca_key_pem = do
  ca_key ← ok_or (r.key_from_pem ca_key_pem) bad_ca_key
  ca_params ← ok_or (r.ca_params_from_pem ca_cert_pem) bad_ca_cert
  ca_cert ← ok_or (r.self_signed ca_params ca_key) sign_failed
  ok (ca_cert, ca_key)

unfoldable pub sign_client_cert : Rcgen → Text → Text → Text → Outcome CertError Text
unfolding load_ca
sign_client_cert r ca_cert_pem ca_key_pem csr_pem = do
  (ca_cert, ca_key) ← load_ca r ca_cert_pem ca_key_pem
  csr ← ok_or (r.csr_from_pem csr_pem) bad_csr
  ok_or (r.signed_by csr ca_cert ca_key) sign_failed

abbrev pub is_ascii_alphanumeric : ℕ → Bool
is_ascii_alphanumeric c = leb 48 c && leb c 57 || leb 65 c && leb c 90 || leb 97 c && leb c 122

-- `-` is 45 and `.` is 46.
abbrev pub dns_char : ℕ → ℕ
dns_char c = if is_ascii_alphanumeric c || eqb c 45 || eqb c 46 then c else 45

unfoldable pub sanitize_dns : Text → Text
sanitize_dns name = let s = map dns_char name in if is_empty s then codes "device" else s

-- `Ia5String::try_from`: ASCII only.
abbrev pub to_ia5 : Text → Option Text
to_ia5 [] = some []
to_ia5 (c ∷ cs) =
    if ltb c 128 then (elim (to_ia5 cs) [ none ↦ none | some t ↦ some (c ∷ t) ]) else none

unfoldable pub generate_client_csr : Rcgen → Text → ℕ → Outcome CertError (Text × Text)
unfolding sanitize_dns
generate_client_csr r device_name seed = do
  key ← ok_or (r.generate_key seed) key_failed
  params ← ok_or (r.params_new device_name) request_failed
  dns ← ok_or (to_ia5 (sanitize_dns device_name)) request_failed
  csr ← ok_or (r.serialize_request params device_name dns key) request_failed
  ok (csr, key)

abbrev pub hex_digit : ℕ → ℕ
hex_digit n = if ltb n 10 then 48 + n else 87 + n

-- `{b:02x}` of every byte.
unfoldable pub hex_encode : Bytes → Text
hex_encode [] = []
hex_encode (b ∷ bs) = hex_digit (b / 16) ∷ hex_digit (b % 16) ∷ hex_encode bs

unfoldable pub cert_fingerprint : Rcgen → Text → Outcome CertError Text
unfolding hex_encode
cert_fingerprint r cert_pem = do
  der ← ok_or (r.first_der cert_pem) no_certificate
  ok (hex_encode (r.sha256 der))

-- `rcgen::CertificateParams`: what a certificate says. An address is the text that it is written as.
pub record CertificateParams : Type 0 where
  pub base : Text
  pub common_name : Text
  pub organization : Option Text
  pub is_ca : Bool
  pub dns_names : List Text
  pub ip_addresses : List Text

-- The rest of rcgen: certificates of a key that signs itself, and of a key that another signs.
pub record Issuer : Type 0 where
  pub rcgen : Rcgen
  pub self_sign : CertificateParams → (key : Text) → Option Text
  pub issue : CertificateParams → (key ca_cert ca_key : Text) → Option Text

-- A fresh CA: its certificate and its key.
unfoldable pub generate_ca_cert : Issuer → (is_ca : Bool) → ℕ → Outcome CertError (Text × Text)
generate_ca_cert i is_ca seed = do
  ca_key ← ok_or (i.rcgen.generate_key seed) key_failed
  base ← ok_or (i.rcgen.params_new (codes "SuperShare CA")) request_failed
  let params : CertificateParams = record {
    base = base;
    common_name = codes "SuperShare Root CA";
    organization = some (codes "SuperShare");
    is_ca = is_ca;
    dns_names = [];
    ip_addresses = [];
  }
  ca_cert ← ok_or (i.self_sign params ca_key) sign_failed
  ok (ca_cert, ca_key)

-- The loopback address comes before those of the machine.
unfoldable pub generate_server_cert :
    Issuer → (ca_cert_pem ca_key_pem : Text) → List Text → ℕ → Outcome CertError (Text × Text)
unfolding load_ca
generate_server_cert i ca_cert_pem ca_key_pem server_ips seed = do
  (ca_cert, ca_key) ← load_ca i.rcgen ca_cert_pem ca_key_pem
  base ← ok_or (i.rcgen.params_new (codes "SuperShare Server")) request_failed
  localhost ← ok_or (to_ia5 (codes "localhost")) request_failed
  let params : CertificateParams = record {
    base = base;
    common_name = codes "SuperShare Server";
    organization = none;
    is_ca = false;
    dns_names = localhost ∷ [];
    ip_addresses = codes "127.0.0.1" ∷ server_ips;
  }
  key ← ok_or (i.rcgen.generate_key seed) key_failed
  cert ← ok_or (i.issue params key ca_cert ca_key) sign_failed
  ok (cert, key)
