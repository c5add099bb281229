-- ===== src/Examples/Pair.antt =====
-- Pairings: with the PIN of the moment, with another one, and during a lockout.
use supershare.Base.{
  ℕ, ◌++◌, ◌+◌, ◌-◌, ◌*◌, ◌≤◌, ◌≡◌, refl, true, some, none, [], ◌∷◌, Text, codes, arith,
}
use supershare.Base.Utf8.{as_bytes, encode_char}
use supershare.Base.Outcome.{ok, err}
use supershare.Protocol.Kind.{Bytes, Message}
use supershare.Cert.{
  generate_client_csr, sanitize_dns, sign_client_cert, load_ca, cert_fingerprint, hex_encode,
}
use supershare.Pairing.Pin.{PinManager, current_pin, record_success, record_failure}
use supershare.Pairing.Pin.Lockout.{judged, judged-bounded, IsSound}
use supershare.Pairing.Crypto.{start, finish, seal, open_payload, CryptoError}
use supershare.Pairing.Server.{
  PairingServerConfig, Env, read_confirm, failed, paired, PairFailure, handle_pairing, on_confirm,
  confirm_of, complete, provision,
}
use supershare.Pairing.Client.{bad_pin}
use supershare.Pairing.Run.{Draws, converse}
use supershare.Pairing.Run.Stages.{IsSmooth, IsSigned}
use supershare.Pairing.Run.Outcomes.{converse_same_pin, converse_other_pin}
use supershare.Pairing.Judging.{
  Confirmed, handle_pairing-Confirmed, Guess, judge_all, judge_all-counts,
}
use supershare.Examples.PairParams.{
  toy_outside, toy-seals, twelve, unlock, write_request, read_request, two_texts,
}

abbrev config : PairingServerConfig
config = record { ca_cert_pem = codes "ca"; ca_key_pem = codes "key" }

abbrev manager : PinManager
manager = record {
  pin = codes "123456";
  generated_at = 0;
  failures = 0;
  locked_until = none;
  ttl = 180000;
  max_failures = 5;
  lockout = 60000;
}

manager-IsSound : IsSound manager
manager-IsSound = record {
  some_allowed = omega arith;
  small = omega arith;
  below = λ e. omega arith;
}

judged-bounded_example : judged manager (0 ∷ 1 ∷ 2 ∷ []) * 60000 ≤ 5 * (2 - 0 + 60000)
judged-bounded_example =
    judged-bounded manager 0 2 (0 ∷ 1 ∷ 2 ∷ []) manager-IsSound refl (omega arith)

abbrev at : ℕ → Env
at now = record { now = now; pin_seed = 654321; seed = 7; now_unix = 1700000000; written = true }

abbrev draws : Draws
draws = record {
  accepting = at 10;
  requesting = at 20;
  exchanging = at 30;
  confirming = at 40;
  spake_seed = 1;
  key_seed = 2;
  nonce_seed = 3;
}

abbrev csr : Text
csr = codes "tv" ++ 2 ∷ []

abbrev request : Bytes
request = two_texts csr (codes "tv")

abbrev cert : Text
cert = csr ++ codes "key"

abbrev response : Bytes
response = two_texts cert (codes "ca")

smooth : IsSmooth toy_outside config draws manager (codes "tv") csr (2 ∷ []) request
unfolding generate_client_csr sanitize_dns write_request
smooth = record {
  unlocked = refl;
  writes_1 = refl;
  writes_2 = refl;
  writes_3 = refl;
  csr_made = refl;
  request_made = refl;
}

signed : IsSigned toy_outside config csr cert (hex_encode cert) response
unfolding sign_client_cert load_ca cert_fingerprint
signed = record { signed = refl; printed = refl; response_made = refl }

converse_same_pin_example :
    converse toy_outside config draws manager (codes "123456") (codes "tv") ≡ (
      record_success (current_pin manager 30 654321).0 40 654321,
      paired (record {
        name = codes "tv";
        cert_fingerprint = hex_encode cert;
        paired_at = 1700000000;
      }),
      ok (record { client_cert_pem = cert; client_key_pem = 2 ∷ []; ca_cert_pem = codes "ca" }),
    )
converse_same_pin_example =
    converse_same_pin toy_outside config draws manager (codes "123456") (codes "tv") csr (2 ∷ [])
      cert (hex_encode cert) request response smooth signed toy-seals (unfold current_pin in refl)

converse_other_pin_example :
    converse toy_outside config draws manager (codes "123457") (codes "tv") ≡ (
      record_failure (current_pin manager 30 654321).0 40,
      failed (PairFailure.pin_failed CryptoError.decrypt_failed),
      err bad_pin,
    )
converse_other_pin_example =
    converse_other_pin toy_outside config draws manager (codes "123457") (codes "tv") csr (2 ∷ [])
      request (codes "123457") (codes "123456") twelve (codes "123457" ++ request)
      CryptoError.decrypt_failed smooth (unfold finish start as_bytes encode_char in refl)
      (unfold finish start current_pin as_bytes encode_char in refl) (unfold seal in refl)
      (unfold open_payload unlock in refl)

abbrev locked : PinManager
locked = record manager { failures = 5; locked_until = some 60000 }

abbrev right_guess : Message
right_guess = Message.pair_confirm twelve (codes "123456" ++ request)

handle_pairing-Confirmed_example :
    Confirmed toy_outside config manager
      (handle_pairing toy_outside config manager
        (at 40)
        (read_confirm (codes "tv") (codes "123456"))
        (ok (some right_guess))).0
      (at 40)
      (read_confirm (codes "tv") (codes "123456"))
      (ok (some right_guess))
      (record { name = codes "tv"; cert_fingerprint = hex_encode cert; paired_at = 1700000000 })
handle_pairing-Confirmed_example =
    handle_pairing-Confirmed toy_outside config manager (at 40)
      (read_confirm (codes "tv") (codes "123456")) (ok (some right_guess))
      (record { name = codes "tv"; cert_fingerprint = hex_encode cert; paired_at = 1700000000 })
      pairs
  where
    pairs :
        (handle_pairing toy_outside config manager
          (at 40)
          (read_confirm (codes "tv") (codes "123456"))
          (ok (some right_guess))).2
        ≡ paired (record {
          name = codes "tv";
          cert_fingerprint = hex_encode cert;
          paired_at = 1700000000;
        })
    pairs =
        unfold handle_pairing on_confirm confirm_of open_payload unlock complete provision
          read_request two_texts sign_client_cert load_ca cert_fingerprint seal in
        refl

abbrev wrong : Guess
wrong = record {
  client_name = codes "tv";
  key = codes "123456";
  nonce = twelve;
  ciphertext = codes "123457";
}

judge_all-counts_example :
    (judge_all toy_outside config (at 40) locked (wrong ∷ wrong ∷ [])).failures ≡ 7
judge_all-counts_example =
    judge_all-counts toy_outside config (at 40) (wrong ∷ wrong ∷ []) locked
      ((CryptoError.decrypt_failed, closed), ((CryptoError.decrypt_failed, closed), tt))
      (omega arith)
  where
    closed :
        open_payload toy_outside.primitives (codes "123456") twelve (codes "123457")
        ≡ err CryptoError.decrypt_failed
    closed = unfold open_payload unlock in refl
