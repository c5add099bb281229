-- ===== src/Tls.antt =====
-- crates/ss-network/src/tls.rs: the files that TLS is set up with. rustls and its reader of PEM files are
-- parameters; certificates and keys are their bytes.
use supershare.Base.{
  ◌≡◌, true, false, Option, none, some, List, ◌∷◌, Text, is_empty, if◌then◌else◌, arith,
}
use supershare.Base.Assoc.{lookup}
use supershare.Base.Outcome.{Outcome, ok, err, ◌>>=◌, ◌>>◌, ok_or, ensure}
use supershare.Protocol.Kind.{Bytes}
use supershare.Config.{FilePath}
use supershare.Config.Trust.{Disk}
use supershare.Connect.{split_first}
use supershare.FileIo.{exists}

-- Every certificate of a file; the first key of each kind, where there is one, if it can be read; a store of
-- roots; and the two kinds of configuration.
pub record Rustls : Type 0 where
  pub certs : Text → Option (List Bytes)
  pub pkcs8_key : Text → Option (Option Bytes)
  pub rsa_key : Text → Option (Option Bytes)
  pub roots : List Bytes → Option Bytes
  pub server_config : (roots : Bytes) (certs : List Bytes) (key : Bytes) → Option Bytes
  pub client_config : (roots : Bytes) (certs : List Bytes) (key : Bytes) → Option Bytes
  pub server_name : Text → Option Text

pub data TlsError : Type 0 where
  open_failed bad_certs no_certs bad_pkcs8_key bad_rsa_key no_key : TlsError
  bad_root bad_config bad_server_name : TlsError

unfoldable pub load_certs : Rustls → Disk → FilePath → Outcome TlsError (List Bytes)
load_certs r d path = do
  file ← ok_or (lookup path d.files) open_failed
  certs ← ok_or (r.certs file) bad_certs
  ensure (if is_empty certs then false else true) no_certs
  ok certs

-- PKCS#8 first, then RSA.
unfoldable pub load_key : Rustls → Disk → FilePath → Outcome TlsError Bytes
load_key r d path = do
  file ← ok_or (lookup path d.files) open_failed
  elim (r.pkcs8_key file) [
    | some key ↦ ok_or key bad_pkcs8_key
    | none ↦ elim (r.rsa_key file) [ some key ↦ ok_or key bad_rsa_key | none ↦ err no_key ]
  ]

unfoldable pub build_server_config :
    Rustls → Disk → (cert_path key_path ca_path : FilePath) → Outcome TlsError Bytes
unfolding load_certs load_key
build_server_config r d cert_path key_path ca_path = do
  certs ← load_certs r d cert_path
  key ← load_key r d key_path
  ca_certs ← load_certs r d ca_path
  root_store ← ok_or (r.roots ca_certs) bad_root
  ok_or (r.server_config root_store certs key) bad_config

unfoldable pub build_client_config :
    Rustls → Disk → (cert_path key_path ca_path : FilePath) → Outcome TlsError Bytes
unfolding load_certs load_key
build_client_config r d cert_path key_path ca_path = do
  certs ← load_certs r d cert_path
  key ← load_key r d key_path
  ca_certs ← load_certs r d ca_path
  root_store ← ok_or (r.roots ca_certs) bad_root
  ok_or (r.client_config root_store certs key) bad_config

-- The port is left out.
unfoldable pub parse_server_name : Rustls → Text → Outcome TlsError Text
unfolding split_first
parse_server_name r host =
    let (hostname, rest) = split_first host in ok_or (r.server_name hostname) bad_server_name

-- A configuration is made only of files that are there.
pub build_server_config-exists :
    (r : Rustls) (d : Disk) (cert_path key_path ca_path : FilePath) (config : Bytes)
    → build_server_config r d cert_path key_path ca_path ≡ ok config
    → (exists d cert_path ≡ true) × (exists d key_path ≡ true) × (exists d ca_path ≡ true)
unfolding build_server_config load_certs load_key
build_server_config-exists r d cert_path key_path ca_path config h = ground arith

-- Where the three files are there and hold what rustls reads, a server and a client can be set up, the server
-- exactly if rustls takes the roots, the certificates and the key.
pub build_server_config_read :
    (r : Rustls) (d : Disk) (cert_path key_path ca_path : FilePath) (cert_pem key_pem ca_pem : Text)
    → (c : Bytes) (cs : List Bytes) (key : Bytes) (root : Bytes) (roots : List Bytes)
    → lookup cert_path d.files ≡ some cert_pem
    → lookup key_path d.files ≡ some key_pem
    → lookup ca_path d.files ≡ some ca_pem
    → r.certs cert_pem ≡ some (c ∷ cs)
    → r.pkcs8_key key_pem ≡ some (some key)
    → r.certs ca_pem ≡ some (root ∷ roots)
    → build_server_config r d cert_path key_path ca_path ≡ (
        ok_or (r.roots (root ∷ roots)) bad_root >>= λ root_store.
        ok_or (r.server_config root_store (c ∷ cs) key) bad_config)
unfolding build_server_config load_certs load_key
build_server_config_read r d cert_path key_path ca_path cert_pem key_pem ca_pem c cs key root roots
      f1 f2 f3 p1 p2 p3 =
    ground (arith, f1, f2, f3, p1, p2, p3)
