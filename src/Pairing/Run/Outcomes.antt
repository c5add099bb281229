-- ===== src/Pairing/Run/Outcomes.antt =====
-- How a run between an honest client and an honest server ends.
use supershare.Base.{ℕ, ◌<◌, ◌≡◌, ◌∙◌, true, some, Text, codes, arith}
use supershare.Base.Outcome.{ok, err}
use supershare.Protocol.Kind.{Bytes}
use supershare.Pairing.Pin.{PinManager, current_pin, is_locked, record_success, record_failure}
use supershare.Pairing.Crypto.{
  Primitives, CryptoError, start, finish, seal, open_payload, finish-start,
}
use supershare.Pairing.Server.{
  PairFailure, Outside, PairingServerConfig, failed, paired, accept, notify,
}
use supershare.Pairing.Client.{bad_pin, rejected, begin_pairing, on_server_spake, server_spake_of}
use supershare.Pairing.Run.{Draws, deliver, greet, confirm, converse}
use supershare.Pairing.Run.Stages.{IsSmooth, IsSigned, confirmed, mismatched, converse_keys}

-- Sealing does not fail.
abbrev pub Seals : Primitives → Type 0
Seals p =
    (key plaintext : Bytes) (seed : ℕ)
    → (nonce : Bytes) × (ciphertext : Bytes) × (seal p key plaintext seed ≡ ok (nonce, ciphertext))

-- A client that is given the PIN of the moment pairs, if nothing else is in the way: it gets the
-- certificate that the CA signed for its request, with the CA's certificate and its own key; the server
-- records it under its name with the fingerprint of that certificate; and the PIN is replaced and the
-- failures are forgotten.
pub converse_same_pin :
    (o : Outside) (config : PairingServerConfig) (d : Draws) (m : PinManager)
    (pin device_name csr key_pem cert fingerprint : Text) (request response : Bytes)
    → IsSmooth o config d m device_name csr key_pem request
    → IsSigned o config csr cert fingerprint response
    → Seals o.primitives
    → let (m', current) = current_pin m d.exchanging.now d.exchanging.pin_seed in
      current ≡ pin
      → converse o config d m pin device_name ≡ (
        record_success m' d.confirming.now d.confirming.pin_seed,
        paired (record {
          name = device_name;
          cert_fingerprint = fingerprint;
          paired_at = d.confirming.now_unix;
        }),
        ok (record {
          client_cert_pem = cert;
          client_key_pem = key_pem;
          ca_cert_pem = config.ca_cert_pem;
        }),
      )
converse_same_pin o config d m pin device_name csr key_pem cert fingerprint request response smooth
      s seals same =
    let (m', current) = current_pin m d.exchanging.now d.exchanging.pin_seed in
    let (key, fc, fs) = finish-start o.primitives pin d.spake_seed d.exchanging.seed in
    let (nonce, ciphertext, e) = seals key request d.nonce_seed in
    let (nonce', ciphertext', e') = seals key response d.confirming.seed in
    converse_keys o config d m pin device_name csr key_pem request key key nonce ciphertext smooth
      (rw same fc) (rw same fs) e
    ∙ confirmed o config d m' device_name csr key_pem cert fingerprint request response key nonce
        ciphertext nonce' ciphertext' smooth.writes_3 smooth.request_made s e e'

-- A client whose key does not open under the server's, as with another PIN, is told that its PIN is
-- wrong; the server ends with that failure, counts it, and records no client.
pub converse_other_pin :
    (o : Outside) (config : PairingServerConfig) (d : Draws) (m : PinManager)
    (pin device_name csr key_pem : Text) (request kc ks nonce ciphertext : Bytes) (e : CryptoError)
    → IsSmooth o config d m device_name csr key_pem request
    → let (m', current) = current_pin m d.exchanging.now d.exchanging.pin_seed in
      let (mine, my_msg) = start o.primitives pin d.spake_seed in
      let (theirs, their_msg) = start o.primitives current d.exchanging.seed in
      finish o.primitives mine their_msg ≡ ok kc
      → finish o.primitives theirs my_msg ≡ ok ks
      → seal o.primitives kc request d.nonce_seed ≡ ok (nonce, ciphertext)
      → open_payload o.primitives ks nonce ciphertext ≡ err e
      → converse o config d m pin device_name
        ≡ (record_failure m' d.confirming.now, failed (PairFailure.pin_failed e), err bad_pin)
converse_other_pin o config d m pin device_name csr key_pem request kc ks nonce ciphertext e smooth
      fc fs sealed closed =
    let (m', current) = current_pin m d.exchanging.now d.exchanging.pin_seed in
    converse_keys o config d m pin device_name csr key_pem request kc ks nonce ciphertext smooth fc
      fs sealed
    ∙ mismatched o config d m' device_name key_pem kc ks nonce ciphertext e smooth.writes_3 closed

-- While the manager is locked, a run changes nothing and ends for the client with the server's refusal.
pub converse_in_lockout :
    (o : Outside) (config : PairingServerConfig) (d : Draws) (m : PinManager)
    (pin device_name : Text) (until : ℕ)
    → m.locked_until ≡ some until
    → d.accepting.now < until
    → d.accepting.written ≡ true
    → converse o config d m pin device_name ≡ (
      m,
      failed PairFailure.locked,
      err (rejected (codes "pairing temporarily locked due to repeated failures")),
    )
unfolding converse begin_pairing greet accept is_locked deliver notify on_server_spake
    server_spake_of confirm
converse_in_lockout o config d m pin device_name until l before w = ground (arith, l, before, w)
