-- ===== src/Cert/Authority/Kept.antt =====
-- crates/ss-network/src/cert.rs: what no call of `ensure_server_ca` changes.
use supershare.Base.{
  ℕ, ◌≡◌, ◌≢◌, refl, ◌==◌, true, false, ◌||◌, not, inl, inr, List, Text, codes, list_eq, nat_eq,
  ==_iff, arith, Bool-cases,
}
use supershare.Base.Assoc.{lookup}
use supershare.Base.Outcome.{map_err}
use supershare.Cert.{Issuer, generate_server_cert}
use supershare.Config.{FilePath}
use supershare.Config.Trust.{Disk, join}
use supershare.Config.Trust.Files.{join-cancel}
use supershare.FileIo.{lift, exists, create_dir_all, read_to_string, write_file, set_mode}
use supershare.FileIo.Keeps.{
  Keeps, Keeps-bind, Keeps-write_file, Keeps-set_mode, Keeps-read_to_string,
}
use supershare.Cert.Authority.{
  read_failed, write_failed, permissions_failed, certificate, ServerCa, ca_paths, owner_only,
  write_private, write_server_cert, reuse, with_files, ensure_server_ca,
}

Keeps-write_private :
    (path other : FilePath) (content : Text)
    → other ≢ path
    → Keeps path (write_private other content)
unfolding write_private
Keeps-write_private path other content ne =
    Keeps-bind path (write_file write_failed other content)
      (λ _. set_mode permissions_failed other owner_only)
      (Keeps-write_file path write_failed other content ne)
      (λ _. Keeps-set_mode path permissions_failed other owner_only)

module _ (i : Issuer) (p : ServerCa) (server_ips : List Text) where
  Keeps-write_server_cert :
      (path : FilePath) (ca_cert ca_key : Text) (seed : ℕ)
      → p.server_cert_path ≢ path
      → p.server_key_path ≢ path
      → Keeps path (write_server_cert i p ca_cert ca_key server_ips seed)
  unfolding write_server_cert
  Keeps-write_server_cert path ca_cert ca_key seed ncert nkey =
      Keeps-bind path
        (lift (map_err (generate_server_cert i ca_cert ca_key server_ips seed) certificate)) _
        (λ d. refl)
        λ pair.
          Keeps-bind path (write_file write_failed p.server_cert_path pair.0) _
            (Keeps-write_file path write_failed p.server_cert_path pair.0 ncert)
            (λ _. Keeps-write_private path p.server_key_path pair.1 nkey)

  Keeps-reuse :
      (path : FilePath) (seed : ℕ)
      → p.server_cert_path ≢ path
      → p.server_key_path ≢ path
      → Keeps path (reuse i p server_ips seed)
  unfolding reuse
  Keeps-reuse path seed ncert nkey d =
      elim (Bool-cases (not (exists d p.server_cert_path) || not (exists d p.server_key_path))) [
        | inr whole ↦ rw (whole, reuse) refl
        | inl missing ↦
            rw (missing, reuse)
              (Keeps-bind path (read_to_string read_failed p.ca_cert_path) _
                (Keeps-read_to_string path read_failed p.ca_cert_path)
                (λ cert.
                  Keeps-bind path (read_to_string read_failed p.ca_key_path) _
                    (Keeps-read_to_string path read_failed p.ca_key_path)
                    (λ key.
                      Keeps-bind path (write_server_cert i p cert key server_ips seed) _
                        (Keeps-write_server_cert path cert key seed ncert nkey) (λ _ d. refl)))
                d)
      ]

-- The names of the four files differ.
join_ne : (dir a b : Text) → (a == b) ≡ false → join dir a ≢ join dir b
join_ne dir a b h e = ground (arith, h, ==_iff a b, join-cancel dir a b e)

-- Where the two files of the CA are there, no call changes them, whether it succeeds or not.
pub ensure_server_ca-kept :
    (i : Issuer) (dir : FilePath) (ips : List Text) (ca_seed seed : ℕ) (d : Disk)
    → let p = ca_paths dir in
      let d' = (ensure_server_ca i dir ips ca_seed seed d).0 in
      exists d p.ca_cert_path ≡ true
      → exists d p.ca_key_path ≡ true
      → (lookup p.ca_cert_path d'.files ≡ lookup p.ca_cert_path d.files)
        × (lookup p.ca_key_path d'.files ≡ lookup p.ca_key_path d.files)
unfolding ensure_server_ca create_dir_all with_files ca_paths
ensure_server_ca-kept i dir ips ca_seed seed d cert key =
    let p = ca_paths dir in
    let one =
      Keeps-reuse i p ips p.ca_cert_path seed
        (join_ne dir (codes "server.pem") (codes "ca.pem") refl)
        (join_ne dir (codes "server-key.pem") (codes "ca.pem") refl) d in
    let two =
      Keeps-reuse i p ips p.ca_key_path seed
        (join_ne dir (codes "server.pem") (codes "ca-key.pem") refl)
        (join_ne dir (codes "server-key.pem") (codes "ca-key.pem") refl) d in
    ground (arith, one, two)
