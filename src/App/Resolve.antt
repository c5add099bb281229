-- ===== src/App/Resolve.antt =====
-- src/main.rs: the files that a server and a client use for TLS: those that are given, or those that were
-- made or paired for.
use supershare.Base.{
  ℕ, Option, none, some, [], ◌∷◌, ◌++◌, Text, codes, eqb, any, is_empty, if◌then◌else◌,
}
use supershare.Base.Outcome.{ok, err, ok_or}
use supershare.Config.{FilePath, AppConfig, KnownServer, find_known_server}
use supershare.Config.Trust.{TrustPaths, write_trust_material}
use supershare.Config.Store.{StoreError, write_failed, ensure_trust_dir}
use supershare.Cert.Authority.{IoError, read_failed, ensure_server_ca}
use supershare.FileIo.{FileIo, lift, ◌>>=◌, map_error, read_to_string}
use supershare.Pairing.Pin
use supershare.Pairing.Client.{PairedMaterial, default_pairing_port}
use supershare.App.{AppError, store, files, Around, PairingSupport}

-- All three paths, if all three are given.
abbrev pub all_three : Option FilePath → Option FilePath → Option FilePath → Option TrustPaths
all_three (some cert) (some key) (some ca) =
    some (record { cert_path = cert; key_path = key; ca_path = ca })
all_three cert key ca = none

abbrev paths_of : KnownServer → TrustPaths
paths_of s = record { cert_path = s.cert_path; key_path = s.key_path; ca_path = s.ca_path }

unfoldable pub resolve_client_certs :
    AppConfig → Text → (cert_path key_path ca_path : Option FilePath) → Option TrustPaths
resolve_client_certs config server_address cert_path key_path ca_path =
    elim (all_three cert_path key_path ca_path) [
      | some paths ↦ some paths
      | none ↦ elim (find_known_server config.client server_address) [
        | none ↦ none
        | some s ↦ some (paths_of s)
      ]
    ]

unfoldable pub persist_client_trust : Around → Text → PairedMaterial → FileIo StoreError TrustPaths
persist_client_trust a server_address m d = elim (ensure_trust_dir a.platform d) [
  | err e ↦ (d, err e)
  | ok dir ↦
      let (d', paths) =
        write_trust_material d dir server_address m.client_cert_pem m.client_key_pem
          m.ca_cert_pem in
      (d', ok_or paths write_failed)
]

pub record ResolvedServerCerts : Type 0 where
  pub cert_path : FilePath
  pub key_path : FilePath
  pub ca_path : FilePath
  pub ca_cert_pem : Text
  pub ca_key_pem : Text

-- A path in two: up to the last `/` (47), and the name behind it.
unfoldable pub split_name : FilePath → Text × Text
split_name [] = ([], [])
split_name (c ∷ cs) =
    let (dir, name) = split_name cs in
    if eqb c 47 then (c ∷ dir, name) else if is_empty dir then ([], c ∷ name) else (c ∷ dir, name)

-- Up to the last `.` (46).
unfoldable pub before_dot : Text → Text
before_dot [] = []
before_dot (c ∷ cs) =
    let rest = before_dot cs in
    if any (λ x. eqb x 46) cs then c ∷ rest else if eqb c 46 then [] else c ∷ cs

-- `Path::file_stem` of a name: a dot in front does not count.
unfoldable pub stem : Text → Text
unfolding before_dot
stem [] = []
stem (c ∷ cs) = if any (λ x. eqb x 46) cs then c ∷ before_dot cs else c ∷ cs

-- The CA's key is next to its certificate. The path is that of a file, so it ends in a name.
unfoldable pub key_beside : FilePath → FilePath
unfolding split_name stem
key_beside ca = let (dir, name) = split_name ca in dir ++ (stem name ++ codes "-key.pem")

-- `unwrap_or_default`.
abbrev or_default : FileIo IoError Text → FileIo IoError Text
or_default m d = let (d', o) = m d in (d', ok (elim o [ ok t ↦ t | err e ↦ [] ]))

unfoldable pub explicit_certs : TrustPaths → FileIo IoError ResolvedServerCerts
unfolding key_beside
explicit_certs p = do
  ca_cert_pem ← read_to_string read_failed p.ca_path
  ca_key_pem ← or_default (read_to_string read_failed (key_beside p.ca_path))
  lift (
      ok (record {
        cert_path = p.cert_path;
        key_path = p.key_path;
        ca_path = p.ca_path;
        ca_cert_pem = ca_cert_pem;
        ca_key_pem = ca_key_pem;
      }))

unfoldable pub generated_certs : Around → FilePath → FileIo IoError ResolvedServerCerts
generated_certs a dir = do
  ca ← ensure_server_ca a.issuer dir a.local_ips a.ca_seed a.seed
  ca_cert_pem ← read_to_string read_failed ca.ca_cert_path
  ca_key_pem ← read_to_string read_failed ca.ca_key_path
  lift (
      ok (record {
        cert_path = ca.server_cert_path;
        key_path = ca.server_key_path;
        ca_path = ca.ca_cert_path;
        ca_cert_pem = ca_cert_pem;
        ca_key_pem = ca_key_pem;
      }))

unfoldable pub resolve_server_certs :
    Around → (cert_path key_path ca_path : Option FilePath) → FileIo AppError ResolvedServerCerts
unfolding explicit_certs generated_certs
resolve_server_certs a cert_path key_path ca_path = elim (all_three cert_path key_path ca_path) [
  | some p ↦ map_error (explicit_certs p) files
  | none ↦ λ d. elim (ensure_trust_dir a.platform d) [
    | err e ↦ (d, err (store e))
    | ok dir ↦ map_error (generated_certs a dir) files d
  ]
]

unfoldable pub build_pairing_support : Around → ResolvedServerCerts → ℕ → PairingSupport
unfolding default_pairing_port
build_pairing_support a resolved control_port = record {
  pairing_port = default_pairing_port control_port;
  ca_cert_pem = resolved.ca_cert_pem;
  ca_key_pem = resolved.ca_key_pem;
  pin_manager = Pin.new a.now a.pin_seed;
}
