-- ===== src/Config/Trust.antt =====
-- crates/ss-core/src/config.rs: write_trust_material, over the files of the disk.
pub mod Files
use supershare.Base.{
  ℕ, ◌≡◌, ◌≢◌, refl, ◌∙◌, Bool, true, false, Option, none, some, List, [], ◌∷◌, ◌++◌, Text, codes,
  map, if◌then◌else◌, arith,
}
use supershare.Base.Assoc.{lookup, insert, lookup-insert, lookup-insert_other}
use supershare.Cert.{is_ascii_alphanumeric}
use supershare.Config.{FilePath}

-- The files, the permissions that were set, and what can be written, have its permissions set and be
-- created as a directory.
pub record Disk : Type 0 where
  pub files : List (FilePath × Text)
  pub modes : List (FilePath × ℕ)
  pub writable : FilePath → Bool
  pub owned : FilePath → Bool
  pub creatable : FilePath → Bool

-- `std::fs::write`.
unfoldable pub write : Disk → FilePath → Text → Disk × Bool
write d path content =
    if d.writable path then (record d { files = insert path content d.files }, true) else (d, false)

-- `_` is 95.
abbrev pub safe_char : ℕ → ℕ
safe_char c = if is_ascii_alphanumeric c then c else 95

unfoldable pub safe_name : Text → Text
safe_name key = map safe_char key

abbrev pub join : FilePath → Text → FilePath
join dir name = dir ++ (codes "/" ++ name)

pub record TrustPaths : Type 0 where
  pub cert_path : FilePath
  pub key_path : FilePath
  pub ca_path : FilePath

unfoldable pub trust_paths : FilePath → Text → TrustPaths
unfolding safe_name
trust_paths dir key = record {
  cert_path = join dir (safe_name key ++ codes ".pem");
  key_path = join dir (safe_name key ++ codes "-key.pem");
  ca_path = join dir (safe_name key ++ codes "-ca.pem");
}

-- With the trust directory there. A write that fails leaves what was written before it.
unfoldable pub write_trust_material :
    Disk
    → FilePath
    → (key client_cert_pem client_key_pem ca_cert_pem : Text) → Disk × Option TrustPaths
unfolding write trust_paths
write_trust_material d dir key cert key_pem ca =
    let p = trust_paths dir key in
    let (d1, one) = write d p.cert_path cert in
    let (d2, two) = write d1 p.key_path key_pem in
    let (d3, three) = write d2 p.ca_path ca in
    if one
    then (if two then (if three then (d3, some p) else (d3, none)) else (d2, none))
    else (d1, none)
