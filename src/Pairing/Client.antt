-- ===== src/Pairing/Client.antt =====
-- crates/ss-network/src/pairing/client.rs: pair_with_server, cut where it waits for a frame.
use supershare.Base.{
  ℕ, ◌-◌, Bool, true, false, ◌||◌, Option, some, [], ◌∷◌, Text, codes, if◌then◌else◌, ◌==◌, ◌&&◌,
  nat_eq,
}
use supershare.Base.Outcome.{Outcome, ok, err, ◌>>=◌, ok_or, map_err}
use supershare.Protocol.Kind.{Bytes, Message}
use supershare.Cert.{CertError, generate_client_csr}
use supershare.Pairing.Crypto.{CryptoError, PairingExchange, start, finish, seal, open_payload}
use supershare.Pairing.Server.{Outside, Input, PairFailure, ProvisionRequest, pair_protocol_version}

pub record PairedMaterial : Type 0 where
  pub client_cert_pem : Text
  pub client_key_pem : Text
  pub ca_cert_pem : Text

-- What a `PairError::Protocol` tells of.
pub data Fault : Type 0 where
  write_failed serialize_failed deserialize_failed : Fault
  read_failed : PairFailure → Fault
  unexpected : Option Message → Fault
  crypto_failed : CryptoError → Fault
  cert_failed : CertError → Fault

pub data PairError : Type 0 where
  connect bad_pin : PairError
  rejected : (reason : Text) → PairError
  protocol : Fault → PairError

unfoldable pub default_pairing_port : ℕ → ℕ
default_pairing_port control_port = control_port - 1

abbrev pub starts_with : Text → Text → Bool
starts_with [] s = true
starts_with (p ∷ ps) [] = false
starts_with (p ∷ ps) (c ∷ cs) = p == c && starts_with ps cs

-- `str::contains`.
unfoldable pub contains : Text → Text → Bool
contains s [] = starts_with s []
contains s (c ∷ cs) = starts_with s (c ∷ cs) || contains s cs

-- Steps 1 and 2: the messages, and the exchange that waits for the server's.
unfoldable pub begin_pairing : Outside → Text → Text → ℕ → PairingExchange × Message × Message
begin_pairing o pin device_name seed =
    let (exchange, our_spake) = start o.primitives pin seed in
    (exchange, Message.pair_request pair_protocol_version device_name, Message.pair_spake our_spake)

unfoldable pub server_spake_of : Input → Outcome PairError Bytes
server_spake_of (ok (some (Message.pair_spake msg))) = ok msg
server_spake_of (ok (some (Message.pair_error reason))) = err (rejected reason)
server_spake_of (ok other) = err (protocol (unexpected other))
server_spake_of (err e) = err (protocol (read_failed e))

-- Steps 4 and 5: the session key, the client's own key, and the request.
unfoldable pub on_server_spake :
    Outside
    → Text
    → PairingExchange
    → (key_seed nonce_seed : ℕ) → Input
    → Outcome PairError (Bytes × Text × Message)
unfolding server_spake_of
on_server_spake o device_name exchange key_seed nonce_seed input = do
  server_spake ← server_spake_of input
  key ← map_err (finish o.primitives exchange server_spake) (λ e. protocol (crypto_failed e))
  (csr_pem, key_pem) ←
      map_err (generate_client_csr o.rcgen device_name key_seed) (λ e. protocol (cert_failed e))
  let request : ProvisionRequest = record { csr_pem = csr_pem; name = some device_name }
  bytes ← ok_or (o.wire.write_request request) (protocol serialize_failed)
  (nonce, ciphertext) ←
      map_err (seal o.primitives key bytes nonce_seed) (λ e. protocol (crypto_failed e))
  ok (key, key_pem, Message.pair_confirm nonce ciphertext)

unfoldable pub result_of : Input → Outcome PairError (Bytes × Bytes)
unfolding contains
result_of (ok (some (Message.pair_result nonce ciphertext))) = ok (nonce, ciphertext)
result_of (ok (some (Message.pair_error reason))) =
    err (if contains (codes "PIN") reason then bad_pin else rejected reason)
result_of (ok other) = err (protocol (unexpected other))
result_of (err e) = err (protocol (read_failed e))

-- Steps 6 and 7: the material that the caller stores.
unfoldable pub on_result :
    Outside → (key : Bytes) (key_pem : Text) → Input → Outcome PairError PairedMaterial
unfolding result_of
on_result o key key_pem input = do
  (nonce, ciphertext) ← result_of input
  plaintext ← map_err (open_payload o.primitives key nonce ciphertext) (λ e. bad_pin)
  response ← ok_or (o.wire.read_response plaintext) (protocol deserialize_failed)
  ok (record {
    client_cert_pem = response.client_cert_pem;
    client_key_pem = key_pem;
    ca_cert_pem = response.ca_cert_pem;
  })
