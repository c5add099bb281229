-- ===== src/Pairing/Run/Stages.antt =====
-- The stages of a run between an honest client and an honest server.
use supershare.Base.{ℕ, ◌≡◌, true, some, none, [], ◌∷◌, Text, arith}
use supershare.Base.Outcome.{ok, err}
use supershare.Protocol.Kind.{Bytes, Message}
use supershare.Cert.{sign_client_cert, cert_fingerprint, generate_client_csr}
use supershare.Pairing.Pin.{PinManager, current_pin, is_locked, record_success, record_failure}
use supershare.Pairing.Crypto.{
  PairingExchange, CryptoError, start, finish, seal, open_payload, open_payload-seal,
}
use supershare.Pairing.Server.{
  PairFailure, Outside, PairingServerConfig, next, failed, paired, accept, handle_pairing, notify,
  on_request, on_spake, on_confirm, request_of, spake_of, confirm_of, exchange_keys, complete,
  provision, read_confirm,
}
use supershare.Pairing.Client.{
  bad_pin, begin_pairing, on_server_spake, on_result, server_spake_of, result_of, contains,
}
use supershare.Pairing.Run.{Draws, deliver, greet, confirm, converse}

-- The run meets no obstacle but a wrong PIN: no lockout, every write succeeds, and the client's request
-- and key can be made and sent.
pub record IsSmooth (o : Outside) (config : PairingServerConfig) (d : Draws) (m : PinManager)
    (device_name csr key_pem : Text) (request : Bytes) : Type 0 where
  pub unlocked : m.locked_until ≡ none
  pub writes_1 : d.requesting.written ≡ true
  pub writes_2 : d.exchanging.written ≡ true
  pub writes_3 : d.confirming.written ≡ true
  pub csr_made : generate_client_csr o.rcgen device_name d.key_seed ≡ ok (csr, key_pem)
  pub request_made :
      o.wire.write_request (record { csr_pem = csr; name = some device_name }) ≡ some request

-- Up to the client's confirmation, whatever the PINs are: the server has the key of its exchange and
-- waits for the confirmation, and its message is the only thing written.
greeted :
    (o : Outside) (config : PairingServerConfig) (d : Draws) (m : PinManager) (device_name : Text)
    (spake ks : Bytes)
    → m.locked_until ≡ none
    → d.exchanging.written ≡ true
    → let (m', pin) = current_pin m d.exchanging.now d.exchanging.pin_seed in
      let (exchange, ours) = start o.primitives pin d.exchanging.seed in
      finish o.primitives exchange spake ≡ ok ks
      → greet o config d m (Message.pair_request 1 device_name) (Message.pair_spake spake)
        ≡ (m', Message.pair_spake ours ∷ [], next (read_confirm device_name ks))
unfolding greet accept deliver is_locked handle_pairing on_request request_of on_spake spake_of
    exchange_keys notify
greeted o config d m device_name spake ks u w f = ground (arith, u, w, f)

answered :
    (o : Outside) (device_name csr key_pem : Text) (request spake kc nonce ciphertext : Bytes)
    (exchange : PairingExchange) (key_seed nonce_seed : ℕ)
    → generate_client_csr o.rcgen device_name key_seed ≡ ok (csr, key_pem)
    → o.wire.write_request (record { csr_pem = csr; name = some device_name }) ≡ some request
    → finish o.primitives exchange spake ≡ ok kc
    → seal o.primitives kc request nonce_seed ≡ ok (nonce, ciphertext)
    → on_server_spake o device_name exchange key_seed nonce_seed
        (ok (some (Message.pair_spake spake)))
      ≡ ok (kc, key_pem, Message.pair_confirm nonce ciphertext)
unfolding on_server_spake server_spake_of
answered o device_name csr key_pem request spake kc nonce ciphertext exchange key_seed nonce_seed g
      w f s =
    rw (f, g, w, s)

-- What the server makes of a request: a certificate that the CA has signed, with its fingerprint, and
-- the response with it.
pub record IsSigned (o : Outside) (config : PairingServerConfig) (csr cert fingerprint : Text)
    (response : Bytes) : Type 0 where
  pub signed : sign_client_cert o.rcgen config.ca_cert_pem config.ca_key_pem csr ≡ ok cert
  pub printed : cert_fingerprint o.rcgen cert ≡ ok fingerprint
  pub response_made :
      o.wire.write_response (record { client_cert_pem = cert; ca_cert_pem = config.ca_cert_pem })
      ≡ some response

provided :
    (o : Outside) (config : PairingServerConfig) (device_name csr cert fingerprint : Text)
    (request response key nonce ciphertext : Bytes) (seed : ℕ)
    → o.wire.write_request (record { csr_pem = csr; name = some device_name }) ≡ some request
    → IsSigned o config csr cert fingerprint response
    → seal o.primitives key response seed ≡ ok (nonce, ciphertext)
    → provision o config seed key request ≡ ok (some device_name, fingerprint, nonce, ciphertext)
unfolding provision
provided o config device_name csr cert fingerprint request response key nonce ciphertext seed w s
      e =
    rw (o.wire.request_law _ request w, s.signed, s.printed, s.response_made, e)

accepted :
    (o : Outside) (cert ca key_pem : Text) (response key nonce ciphertext : Bytes)
    → o.wire.write_response (record { client_cert_pem = cert; ca_cert_pem = ca }) ≡ some response
    → open_payload o.primitives key nonce ciphertext ≡ ok response
    → on_result o key key_pem (ok (some (Message.pair_result nonce ciphertext)))
      ≡ ok (record { client_cert_pem = cert; client_key_pem = key_pem; ca_cert_pem = ca })
unfolding on_result result_of
accepted o cert ca key_pem response key nonce ciphertext w e =
    rw (e, o.wire.response_law _ response w)

-- The confirmation, when both sides have the same key.
pub confirmed :
    (o : Outside) (config : PairingServerConfig) (d : Draws) (m : PinManager)
    (device_name csr key_pem cert fingerprint : Text)
    (request response key nonce ciphertext nonce' ciphertext' : Bytes)
    → d.confirming.written ≡ true
    → o.wire.write_request (record { csr_pem = csr; name = some device_name }) ≡ some request
    → IsSigned o config csr cert fingerprint response
    → seal o.primitives key request d.nonce_seed ≡ ok (nonce, ciphertext)
    → seal o.primitives key response d.confirming.seed ≡ ok (nonce', ciphertext')
    → confirm o config d m
        (next (read_confirm device_name key))
        (ok (key, key_pem, Message.pair_confirm nonce ciphertext))
      ≡ (
        record_success m d.confirming.now d.confirming.pin_seed,
        paired (record {
          name = device_name;
          cert_fingerprint = fingerprint;
          paired_at = d.confirming.now_unix;
        }),
        ok (record {
          client_cert_pem = cert;
          client_key_pem = key_pem;
          ca_cert_pem = config.ca_cert_pem;
        }),
      )
unfolding confirm deliver handle_pairing on_confirm confirm_of complete notify
confirmed o config d m device_name csr key_pem cert fingerprint request response key nonce
      ciphertext nonce' ciphertext' written w s e e' =
    ground (
      arith,
      open_payload-seal o.primitives key request nonce ciphertext d.nonce_seed e,
      provided o config device_name csr cert fingerprint request response key nonce' ciphertext'
          d.confirming.seed w s e',
      written,
      accepted o cert config.ca_cert_pem key_pem response key nonce' ciphertext' s.response_made
          (open_payload-seal o.primitives key response nonce' ciphertext' d.confirming.seed e'),
    )

-- The confirmation, when the server cannot open what the client sealed.
pub mismatched :
    (o : Outside) (config : PairingServerConfig) (d : Draws) (m : PinManager)
    (device_name key_pem : Text) (kc ks nonce ciphertext : Bytes) (e : CryptoError)
    → d.confirming.written ≡ true
    → open_payload o.primitives ks nonce ciphertext ≡ err e
    → confirm o config d m
        (next (read_confirm device_name ks))
        (ok (kc, key_pem, Message.pair_confirm nonce ciphertext))
      ≡ (record_failure m d.confirming.now, failed (PairFailure.pin_failed e), err bad_pin)
unfolding confirm deliver handle_pairing on_confirm confirm_of notify on_result result_of contains
mismatched o config d m device_name key_pem kc ks nonce ciphertext e written f =
    ground (arith, f, written)

-- The run up to the confirmation, with the keys that the two sides derive.
pub converse_keys :
    (o : Outside) (config : PairingServerConfig) (d : Draws) (m : PinManager)
    (pin device_name csr key_pem : Text) (request kc ks nonce ciphertext : Bytes)
    → IsSmooth o config d m device_name csr key_pem request
    → let (m', current) = current_pin m d.exchanging.now d.exchanging.pin_seed in
      let (mine, my_msg) = start o.primitives pin d.spake_seed in
      let (theirs, their_msg) = start o.primitives current d.exchanging.seed in
      finish o.primitives mine their_msg ≡ ok kc
      → finish o.primitives theirs my_msg ≡ ok ks
      → seal o.primitives kc request d.nonce_seed ≡ ok (nonce, ciphertext)
      → converse o config d m pin device_name
        ≡ confirm o config d m'
            (next (read_confirm device_name ks))
            (ok (kc, key_pem, Message.pair_confirm nonce ciphertext))
unfolding converse begin_pairing
converse_keys o config d m pin device_name csr key_pem request kc ks nonce ciphertext smooth fc fs
      e =
    let (m', current) = current_pin m d.exchanging.now d.exchanging.pin_seed in
    let (mine, my_msg) = start o.primitives pin d.spake_seed in
    let (theirs, their_msg) = start o.primitives current d.exchanging.seed in
    ground (
      arith,
      greeted o config d m device_name my_msg ks smooth.unlocked smooth.writes_2 fs,
      answered o device_name csr key_pem request their_msg kc nonce ciphertext mine d.key_seed
          d.nonce_seed smooth.csr_made smooth.request_made fc e,
    )
