-- ===== src/Cert/Authority.antt =====
-- crates/ss-network/src/cert.rs: `ensure_server_ca`, which makes the server its own CA, over the files of
-- the trust directory.
pub mod Reuse
pub mod Kept
use supershare.Base.{ℕ, Bool, true, false, not, ◌&&◌, ◌||◌, List, Text, codes, if◌then◌else◌}
use supershare.Base.Outcome.{Outcome, ok, err, map_err}
use supershare.Cert.{Issuer, CertError, generate_ca_cert, generate_server_cert}
use supershare.Config.{FilePath}
use supershare.Config.Trust.{Disk, join}
use supershare.FileIo.{
  FileIo, lift, ◌>>=◌, ◌>>◌, exists, create_dir_all, read_to_string, write_file, set_mode,
}

pub data IoError : Type 0 where
  create_failed read_failed write_failed permissions_failed : IoError
  certificate : CertError → IoError

pub record ServerCa : Type 0 where
  pub ca_cert_path : FilePath
  pub ca_key_path : FilePath
  pub server_cert_path : FilePath
  pub server_key_path : FilePath

unfoldable pub ca_paths : FilePath → ServerCa
ca_paths dir = record {
  ca_cert_path = join dir (codes "ca.pem");
  ca_key_path = join dir (codes "ca-key.pem");
  server_cert_path = join dir (codes "server.pem");
  server_key_path = join dir (codes "server-key.pem");
}

-- 0o600.
abbrev pub owner_only : ℕ
owner_only = 384

-- On Unix.
unfoldable pub write_private : FilePath → Text → FileIo IoError (Unit {0})
unfolding write_file set_mode
write_private path contents = do
  write_file write_failed path contents
  set_mode permissions_failed path owner_only

-- The server's own certificate, signed by the CA and written with its key.
unfoldable pub write_server_cert :
    Issuer → ServerCa → (ca_cert_pem ca_key_pem : Text) → List Text → ℕ → FileIo IoError (Unit {0})
unfolding write_file write_private
write_server_cert i p ca_cert_pem ca_key_pem server_ips seed = do
  (cert, key) ←
      lift (map_err (generate_server_cert i ca_cert_pem ca_key_pem server_ips seed) certificate)
  write_file write_failed p.server_cert_path cert
  write_private p.server_key_path key

-- The CA is there; the server's certificate is made again only where it is missing.
unfoldable pub reuse : Issuer → ServerCa → List Text → ℕ → FileIo IoError ServerCa
unfolding write_server_cert read_to_string
reuse i p server_ips seed d =
    if not (exists d p.server_cert_path) || not (exists d p.server_key_path)
    then ((do
      ca_cert_pem ← read_to_string read_failed p.ca_cert_path
      ca_key_pem ← read_to_string read_failed p.ca_key_path
      write_server_cert i p ca_cert_pem ca_key_pem server_ips seed
      lift (ok p))
        d)
    else (d, ok p)

unfoldable pub fresh : Issuer → ServerCa → List Text → (ca_seed seed : ℕ) → FileIo IoError ServerCa
unfolding write_server_cert write_private write_file
fresh i p server_ips ca_seed seed = do
  (ca_cert_pem, ca_key_pem) ← lift (map_err (generate_ca_cert i true ca_seed) certificate)
  write_file write_failed p.ca_cert_path ca_cert_pem
  write_private p.ca_key_path ca_key_pem
  write_server_cert i p ca_cert_pem ca_key_pem server_ips seed
  lift (ok p)

-- The files of the directory decide.
unfoldable pub with_files :
    Issuer → ServerCa → List Text → (ca_seed seed : ℕ) → FileIo IoError ServerCa
unfolding reuse fresh
with_files i p server_ips ca_seed seed d =
    if exists d p.ca_cert_path && exists d p.ca_key_path
    then reuse i p server_ips seed d
    else fresh i p server_ips ca_seed seed d

unfoldable pub ensure_server_ca :
    Issuer → FilePath → List Text → (ca_seed seed : ℕ) → FileIo IoError ServerCa
unfolding create_dir_all with_files ca_paths
ensure_server_ca i dir server_ips ca_seed seed = do
  create_dir_all create_failed dir
  with_files i (ca_paths dir) server_ips ca_seed seed
