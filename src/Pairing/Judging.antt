-- ===== src/Pairing/Judging.antt =====
-- crates/ss-network/src/pairing/server.rs: whom a step of handle_pairing pairs, and what it judges.
use supershare.Base.{
  ℕ, ◌+◌, ◌^◌, ◌<◌, ◌≡◌, refl, Option, none, some, List, [], ◌∷◌, Text, unwrap_or, All, length,
  arith, ◌∙◌, ap, ◌⊎◌, inl, inr,
}
use supershare.Base.Outcome.{Outcome, ok, err}
use supershare.Protocol.Kind.{Bytes, Message}
use supershare.Cert.{sign_client_cert, cert_fingerprint}
use supershare.Pairing.Pin.{PinManager, record_success, record_failure}
use supershare.Pairing.Crypto.{open_payload, CryptoError}
use supershare.Pairing.Server.{
  Outside, PairingServerConfig, Env, Phase, read_request, read_spake, read_confirm, Turn, paired,
  PairedClient, PairFailure, Input, ProvisionRequest, handle_pairing, on_request, on_spake,
  on_confirm, confirm_of, exchange_keys, complete, provision,
}

-- How a step comes to pair a client: the connection waited for a confirmation, one came that opens
-- under its session key, the request in it was signed, and the client is recorded with the fingerprint
-- of what was signed.
pub record Confirmed (o : Outside) (config : PairingServerConfig) (m m' : PinManager) (env : Env)
    (phase : Phase) (input : Input) (c : PairedClient) : Type 0 where
  pub client_name : Text
  pub key : Bytes
  pub nonce : Bytes
  pub ciphertext : Bytes
  pub plaintext : Bytes
  pub request : ProvisionRequest
  pub cert : Text
  pub waited : phase ≡ read_confirm client_name key
  pub came : input ≡ ok (some (Message.pair_confirm nonce ciphertext))
  pub opened : open_payload o.primitives key nonce ciphertext ≡ ok plaintext
  pub read : o.wire.read_request plaintext ≡ some request
  pub signed :
      sign_client_cert o.rcgen config.ca_cert_pem config.ca_key_pem request.csr_pem ≡ ok cert
  pub printed : cert_fingerprint o.rcgen cert ≡ ok c.cert_fingerprint
  pub named : c.name ≡ unwrap_or request.name client_name
  pub rotated : m' ≡ record_success m env.now env.pin_seed

provision-ok :
    (o : Outside) (config : PairingServerConfig) (seed : ℕ) (key plaintext : Bytes)
    (name : Option Text) (fingerprint : Text) (nonce ciphertext : Bytes)
    → provision o config seed key plaintext ≡ ok (name, fingerprint, nonce, ciphertext)
    → (request : ProvisionRequest) × (cert : Text) × (o.wire.read_request plaintext ≡ some request)
      × (sign_client_cert o.rcgen config.ca_cert_pem config.ca_key_pem request.csr_pem ≡ ok cert)
      × (cert_fingerprint o.rcgen cert ≡ ok fingerprint)
      × (name ≡ request.name)
unfolding provision
provision-ok o config seed key plaintext name fingerprint nonce ciphertext e = ground arith

Provided-cases :
    (x : Outcome PairFailure (Option Text × Text × Bytes × Bytes))
    → ((name : Option Text) × (fingerprint : Text) × (nonce : Bytes) × (ciphertext : Bytes) × (x
          ≡ ok (name, fingerprint, nonce, ciphertext)))
      ⊎ ((e : PairFailure) × (x ≡ err e))
Provided-cases (ok (name, fingerprint, nonce, ciphertext)) =
    inl (name, fingerprint, nonce, ciphertext, refl)
Provided-cases (err e) = inr (e, refl)

complete-paired :
    (o : Outside) (config : PairingServerConfig) (m : PinManager) (env : Env) (client_name : Text)
    (key plaintext : Bytes) (c : PairedClient)
    → (complete o config m env client_name key plaintext).2 ≡ paired c
    → (name : Option Text) × (nonce : Bytes) × (ciphertext : Bytes) × (provision o config env.seed
          key plaintext
        ≡ ok (name, c.cert_fingerprint, nonce, ciphertext))
      × (c.name ≡ unwrap_or name client_name)
      × ((complete o config m env client_name key plaintext).0
          ≡ record_success m env.now env.pin_seed)
unfolding complete
complete-paired o config m env client_name key plaintext c e =
    elim (Provided-cases (provision o config env.seed key plaintext)) [
      | inl (name, fingerprint, nonce, ciphertext, p) ↦ (
        name,
        nonce,
        ciphertext,
        ground (arith, p, e),
        ground (arith, p, e),
        ground (arith, p, e),
      )
      | inr (f, p) ↦ absurd (ground (arith, p, e))
    ]

Opened-cases :
    (x : Outcome CryptoError Bytes)
    → ((plaintext : Bytes) × (x ≡ ok plaintext)) ⊎ ((e : CryptoError) × (x ≡ err e))
Opened-cases (ok plaintext) = inl (plaintext, refl)
Opened-cases (err e) = inr (e, refl)

-- Only a confirmation that opens under a connection's session key, with a request that the CA signs,
-- pairs a client; the client is recorded with the fingerprint of its certificate, and the PIN replaced.
pub handle_pairing-Confirmed :
    (o : Outside) (config : PairingServerConfig) (m : PinManager) (env : Env) (phase : Phase)
    (input : Input) (c : PairedClient)
    → let (m', out, t) = handle_pairing o config m env phase input in
      t ≡ paired c → Confirmed o config m m' env phase input c
unfolding handle_pairing on_request on_spake exchange_keys
handle_pairing-Confirmed o config m env read_request input c e = absurd (ground arith)
handle_pairing-Confirmed o config m env (read_spake name) input c e = absurd (ground arith)
handle_pairing-Confirmed o config m env (read_confirm name key) (err f) c e =
    unfold on_confirm in absurd (ground arith)
handle_pairing-Confirmed o config m env (read_confirm name key) (ok none) c e =
    unfold on_confirm confirm_of in absurd (ground arith)
handle_pairing-Confirmed o config m env (read_confirm name key)
      (ok (some (Message.pair_confirm nonce ciphertext))) c e =
    unfold on_confirm confirm_of in
    elim (Opened-cases (open_payload o.primitives key nonce ciphertext)) [
      | inl (plaintext, p) ↦
          let done = complete o config m env name key plaintext in
          let judged : handle_pairing o config m env (read_confirm name key)
                (ok (some (Message.pair_confirm nonce ciphertext)))
              ≡ done =
            ground (arith, p) in
          let (given, n, ct, q, called, moved) =
            complete-paired o config m env name key plaintext c (rw judged at e) in
          let (request, cert, r, signed, printed, same) =
            provision-ok o config env.seed key plaintext given c.cert_fingerprint n ct q in
          record {
            client_name = name;
            key = key;
            nonce = nonce;
            ciphertext = ciphertext;
            plaintext = plaintext;
            request = request;
            cert = cert;
            waited = refl;
            came = refl;
            opened = p;
            read = r;
            signed = signed;
            printed = printed;
            named = called ∙ ap (λ x. unwrap_or x name) same;
            rotated = ap (λ (x : PinManager × List Message × Turn). x.0) judged ∙ moved;
          }
      | inr (f, p) ↦ absurd (ground (arith, p, e))
    ]
handle_pairing-Confirmed o config m env (read_confirm name key) (ok (some other)) c e =
    unfold on_confirm confirm_of in absurd (ground arith)

-- A connection that waits for its confirmation, and the confirmation that comes.
pub record Guess : Type 0 where
  pub client_name : Text
  pub key : Bytes
  pub nonce : Bytes
  pub ciphertext : Bytes

-- The confirmations of several connections, one after the other: the manager after them.
unfoldable pub judge_all :
    Outside → PairingServerConfig → Env → PinManager → List Guess → PinManager
unfolding handle_pairing
judge_all o config env m [] = m
judge_all o config env m (g ∷ gs) =
    judge_all o config env
      (handle_pairing o config m env (read_confirm g.client_name g.key)
        (ok (some (Message.pair_confirm g.nonce g.ciphertext)))).0
      gs

-- The key of the connection does not open what the guess sealed.
abbrev pub IsWrong : Outside → Guess → Type 0
IsWrong o g = (e : CryptoError) × (open_payload o.primitives g.key g.nonce g.ciphertext ≡ err e)

-- The lockout is tested only when a connection comes in: however many connections wait for their
-- confirmation, and whether or not the manager is locked by now, every wrong guess that comes is
-- judged and counted as one more failure, as long as the count fits a `u32`.
pub judge_all-counts :
    (o : Outside) (config : PairingServerConfig) (env : Env) (gs : List Guess) (m : PinManager)
    → All (IsWrong o) gs
    → m.failures + length gs < 2 ^ 32
    → (judge_all o config env m gs).failures ≡ m.failures + length gs
unfolding judge_all
judge_all-counts o config env [] m wrong small = omega arith
judge_all-counts o config env (g ∷ gs) m ((e, closed), wrong) small =
    let m' =
      (handle_pairing o config m env (read_confirm g.client_name g.key)
        (ok (some (Message.pair_confirm g.nonce g.ciphertext)))).0 in
    let counted : m'.failures ≡ m.failures + 1 =
      unfold handle_pairing on_confirm confirm_of record_failure in ground (arith, closed) in
    judge_all-counts o config env gs m' wrong (omega (arith, counted)) ∙ omega (arith, counted)
