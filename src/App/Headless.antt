-- ===== src/App/Headless.antt =====
-- src/main.rs: the program without a window: `run_headless_server`, `run_headless_client`, and `main`, which
-- chooses between these, the window and the making of certificates.
pub mod Again
use supershare.Base.{
  ℕ, ◌+◌, ◌%◌, ◌^◌, Bool, true, false, not, Option, none, some, List, [], ◌∷◌, ◌++◌, Text, codes,
  is_empty, if◌then◌else◌,
}
use supershare.Base.Outcome.{Outcome, ok, err, ok_or, map_err}
use supershare.Base.Strings.{trim}
use supershare.Config.{FilePath, AppConfig, upsert_known_server, default_device_name}
use supershare.Config.Trust.{Disk, TrustPaths}
use supershare.Config.Store.{StoreError, load, save}
use supershare.FileIo.{FileIo, lift, ◌>>=◌, ◌>>◌, map_error}
use supershare.Pairing.Client.{PairedMaterial, PairError}
use supershare.App.{AppError, Effect, store, Around}
use supershare.App.Resolve.{
  resolve_client_certs, persist_client_trust, ResolvedServerCerts, resolve_server_certs,
}
use supershare.App.Handler.{serve_with, link_with, pairing_target, known_server}

-- The data port is a `u16`, one above the control port, which is left to wrap.
unfoldable pub run_headless_server :
    Around
    → (port : ℕ) → (cert key ca : Option FilePath) → (pairing_enabled : Bool)
    → FileIo AppError (List Effect)
unfolding resolve_server_certs serve_with
run_headless_server a port cert key ca pairing_enabled = do
  resolved ← resolve_server_certs a cert key ca
  lift (ok (serve_with a port ((port + 1) % 2 ^ 16) pairing_enabled resolved))

pub data HeadlessError : Type 0 where
  no_trust connect_required : HeadlessError
  no_pairing : PairError → HeadlessError
  not_stored : StoreError → HeadlessError

-- The material is stored, and the server in the configuration; an error of that is passed over.
unfoldable pub remember :
    Around → AppConfig → Text → PairedMaterial → FileIo HeadlessError TrustPaths
unfolding persist_client_trust known_server save
remember a config server m = do
  p ← map_error (persist_client_trust a server m) not_stored
  λ d. (
    (save a.platform d (record config {
      client = upsert_known_server config.client (known_server a server m p);
    })).0,
    ok p,
  )

-- Pairing, with what was typed as the PIN.
unfoldable pub pair_first :
    Around → AppConfig → (server name typed : Text) → FileIo HeadlessError TrustPaths
unfolding pairing_target remember trim
pair_first a config server name typed = do
  let target = pairing_target server
  m ← lift (map_err (a.pair target.0 target.1 (trim typed) name) no_pairing)
  remember a config server m

unfoldable pub run_headless_client :
    Around
    → (server : Text) → (cert key ca : Option FilePath) → (name : Text) → (pair : Bool)
    → (typed : Text) → FileIo HeadlessError Effect
unfolding resolve_client_certs link_with pair_first
run_headless_client a server cert key ca name pair typed d =
    let config = load a.platform d in
    let trusted : FileIo HeadlessError TrustPaths =
      elim (resolve_client_certs config server cert key ca) [
        | some p ↦ lift (ok p)
        | none ↦ if pair then pair_first a config server name typed else lift (err no_trust)
      ] in
    (trusted >>= (λ p. lift (ok (link_with a server name p)))) d

-- The command line, without what the four modes are given.
pub record Cli : Type 0 where
  pub gen_cert : Bool
  pub server : Bool
  pub client : Bool
  pub connect : Option Text
  pub name : Text

pub data Mode : Type 0 where
  make_certificates serve_headless window : Mode
  connect_headless : (server name : Text) → Mode

unfoldable pub main : (hostname : Option Text) → Cli → Outcome HeadlessError Mode
unfolding default_device_name
main hostname cli =
    if cli.gen_cert
    then ok make_certificates
    else if cli.server
    then ok serve_headless
    else if cli.client
    then (elim cli.connect [
      | none ↦ err connect_required
      | some server ↦ ok (
          connect_headless server
            (if is_empty cli.name then default_device_name hostname else cli.name))
    ])
    else ok window
