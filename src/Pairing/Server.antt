-- ===== src/Pairing/Server.antt =====
-- crates/ss-network/src/pairing/server.rs and mod.rs: handle_pairing, cut where it waits for a frame.
-- The manager of PINs is shared between connections, so a step takes it as it is then and returns it.
use supershare.Base.{
  ℕ, ◌≡◌, Bool, Option, some, List, [], ◌∷◌, ◌++◌, Text, codes, eqb, unwrap_or, if◌then◌else◌,
}
use supershare.Base.Outcome.{Outcome, ok, err, ◌>>=◌, ◌>>◌, ensure, ok_or, map_err}
use supershare.Protocol.Kind.{Bytes, Message}
use supershare.Cert.{Rcgen, CertError, sign_client_cert, cert_fingerprint}
use supershare.Pairing.Pin.{PinManager, current_pin, is_locked, record_success, record_failure}
use supershare.Pairing.Crypto.{Primitives, CryptoError, start, finish, seal, open_payload}

abbrev pub pair_protocol_version : ℕ
pair_protocol_version = 1

pub record ProvisionRequest : Type 0 where
  pub csr_pem : Text
  pub name : Option Text

pub record ProvisionResponse : Type 0 where
  pub client_cert_pem : Text
  pub ca_cert_pem : Text

-- bincode at the two provisioning payloads: what was written is read back.
pub record ProvisionWire : Type 0 where
  pub write_request : ProvisionRequest → Option Bytes
  pub read_request : Bytes → Option ProvisionRequest
  pub write_response : ProvisionResponse → Option Bytes
  pub read_response : Bytes → Option ProvisionResponse
  pub request_law :
      (q : ProvisionRequest) (bs : Bytes) → write_request q ≡ some bs → read_request bs ≡ some q
  pub response_law :
      (q : ProvisionResponse) (bs : Bytes) → write_response q ≡ some bs → read_response bs ≡ some q

-- A `PairedClient` of crates/ss-core/src/config.rs.
pub record PairedClient : Type 0 where
  pub name : Text
  pub cert_fingerprint : Text
  pub paired_at : ℕ

pub record PairingServerConfig : Type 0 where
  pub ca_cert_pem : Text
  pub ca_key_pem : Text

-- Why a pairing fails. `transport` is a read that fails or takes too long, or a write that fails.
pub data PairFailure : Type 0 where
  locked transport bad_provision serialize_failed : PairFailure
  unsupported_version : ℕ → PairFailure
  unexpected : Option Message → PairFailure
  exchange_failed pin_failed : CryptoError → PairFailure
  cert_failed : CertError → PairFailure

-- The text of a failure; `texts` renders those of other crates' errors and of `Debug` values.
pub record Texts : Type 0 where
  pub crypto : CryptoError → Text
  pub other : PairFailure → Text

abbrev pub reason : Texts → PairFailure → Text
reason texts locked = codes "pairing temporarily locked due to repeated failures"
reason texts (pin_failed e) = codes "PIN verification failed: " ++ texts.crypto e
reason texts f = texts.other f

-- What the code takes from outside.
pub record Outside : Type 0 where
  pub primitives : Primitives
  pub rcgen : Rcgen
  pub wire : ProvisionWire
  pub texts : Texts

-- One step's time, random numbers and Unix time, and whether what it writes is written.
pub record Env : Type 0 where
  pub now : ℕ
  pub pin_seed : ℕ
  pub seed : ℕ
  pub now_unix : ℕ
  pub written : Bool

-- Where `handle_pairing` waits, and with what in its variables.
pub data Phase : Type 0 where
  read_request : Phase
  read_spake : (client_name : Text) → Phase
  read_confirm : (client_name : Text) (session_key : Bytes) → Phase

pub data Turn : Type 0 where
  next : Phase → Turn
  failed : PairFailure → Turn
  paired : PairedClient → Turn

-- `timeout(io_timeout, read_frame(stream)).await??`.
abbrev pub Input : Type 0
Input = Outcome PairFailure (Option Message)

-- The first test of a connection.
unfoldable pub accept : PinManager → ℕ → PinManager × Turn
accept m now =
    let (m', is) = is_locked m now in (m', if is then failed locked else next read_request)

unfoldable pub request_of : Option Message → Outcome PairFailure Text
request_of (some (Message.pair_request version name)) = do
  ensure (eqb version pair_protocol_version) (unsupported_version version)
  ok name
request_of other = err (unexpected other)

unfoldable pub spake_of : Option Message → Outcome PairFailure Bytes
spake_of (some (Message.pair_spake msg)) = ok msg
spake_of other = err (unexpected other)

unfoldable pub confirm_of : Option Message → Outcome PairFailure (Bytes × Bytes)
confirm_of (some (Message.pair_confirm nonce ciphertext)) = ok (nonce, ciphertext)
confirm_of other = err (unexpected other)

unfoldable pub on_request : PinManager → Input → PinManager × List Message × Turn
unfolding request_of
on_request m input = elim (input >>= request_of) [
  | err e ↦ (m, [], failed e)
  | ok name ↦ (m, [], next (read_spake name))
]

-- Steps 3 and 4, with the client's message read.
unfoldable pub exchange_keys :
    Outside → PinManager → Env → Text → Bytes → PinManager × List Message × Turn
exchange_keys o m env name client_spake =
    let (m', pin) = current_pin m env.now env.pin_seed in
    let (exchange, our_spake) = start o.primitives pin env.seed in
    if env.written
    then (
      m',
      Message.pair_spake our_spake ∷ [],
      elim (finish o.primitives exchange client_spake) [
        | err e ↦ failed (exchange_failed e)
        | ok key ↦ next (read_confirm name key)
      ],
    )
    else (m', [], failed transport)

unfoldable pub on_spake :
    Outside → PinManager → Env → Text → Input → PinManager × List Message × Turn
unfolding spake_of exchange_keys
on_spake o m env name input = elim (input >>= spake_of) [
  | err e ↦ (m, [], failed e)
  | ok client_spake ↦ exchange_keys o m env name client_spake
]

-- Steps 6 and 7 up to the write: the name in the request, the fingerprint, and the sealed response.
unfoldable pub provision :
    Outside
    → PairingServerConfig
    → ℕ
    → Bytes
    → Bytes
    → Outcome PairFailure (Option Text × Text × Bytes × Bytes)
provision o config seed key plaintext = do
  request ← ok_or (o.wire.read_request plaintext) bad_provision
  cert ←
      map_err (sign_client_cert o.rcgen config.ca_cert_pem config.ca_key_pem request.csr_pem)
        cert_failed
  fingerprint ← map_err (cert_fingerprint o.rcgen cert) cert_failed
  let response : ProvisionResponse = record {
    client_cert_pem = cert;
    ca_cert_pem = config.ca_cert_pem;
  }
  bytes ← ok_or (o.wire.write_response response) serialize_failed
  (nonce, ciphertext) ← map_err (seal o.primitives key bytes seed) exchange_failed
  ok (request.name, fingerprint, nonce, ciphertext)

-- From the decrypted request to the end.
unfoldable pub complete :
    Outside
    → PairingServerConfig
    → PinManager
    → Env
    → Text
    → Bytes
    → Bytes
    → PinManager × List Message × Turn
unfolding provision
complete o config m env client_name key plaintext =
    elim (provision o config env.seed key plaintext) [
      | err e ↦ (m, [], failed e)
      | ok (name, fingerprint, nonce, ciphertext) ↦
          if env.written
          then (
            record_success m env.now env.pin_seed,
            Message.pair_result nonce ciphertext ∷ [],
            paired (record {
              name = unwrap_or name client_name;
              cert_fingerprint = fingerprint;
              paired_at = env.now_unix;
            }),
          )
          else (m, [], failed transport)
    ]

unfoldable pub on_confirm :
    Outside
    → PairingServerConfig
    → PinManager
    → Env
    → Text
    → Bytes
    → Input
    → PinManager × List Message × Turn
unfolding confirm_of complete
on_confirm o config m env client_name key input = elim (input >>= confirm_of) [
  | err e ↦ (m, [], failed e)
  | ok (nonce, ciphertext) ↦ elim (open_payload o.primitives key nonce ciphertext) [
    | err e ↦ (record_failure m env.now, [], failed (pin_failed e))
    | ok plaintext ↦ complete o config m env client_name key plaintext
  ]
]

-- One step of `handle_pairing`, from a frame that was awaited to the next wait.
unfoldable pub handle_pairing :
    Outside
    → PairingServerConfig
    → PinManager
    → Env
    → Phase
    → Input
    → PinManager × List Message × Turn
unfolding on_request on_spake on_confirm
handle_pairing o config m env read_request input = on_request m input
handle_pairing o config m env (read_spake name) input = on_spake o m env name input
handle_pairing o config m env (read_confirm name key) input =
    on_confirm o config m env name key input

-- What the listener adds: a failure is told to the client.
unfoldable pub notify : Outside → Env → List Message → Turn → List Message
notify o env out (failed e) =
    out ++ (if env.written then Message.pair_error (reason o.texts e) ∷ [] else [])
notify o env out t = out
