-- ===== src/Config/Store.antt =====
-- crates/ss-core/src/config.rs: where the configuration is kept, `AppConfig::load` and `AppConfig::save`.
use supershare.Base.{
  ◌≡◌, Option, none, some, Text, codes, inl, inr, if◌then◌else◌, arith, unwrap_or,
}
use supershare.Base.Assoc.{lookup, lookup-insert}
use supershare.Base.Outcome.{Outcome, ok, err, ◌>>=◌, ◌>>◌, ok_or, ensure, Outcome-cases}
use supershare.Config.{AppConfig, FilePath, default_config}
use supershare.Config.Trust.{Disk, write, join}

-- The platform: its directory for configurations and its name, where it tells them, and toml.
pub record Platform : Type 0 where
  pub base_dir : Option FilePath
  pub hostname : Option Text
  pub to_toml : AppConfig → Option Text
  pub from_toml : Text → Option AppConfig

pub data StoreError : Type 0 where
  no_config_dir create_failed serialize_failed write_failed : StoreError

unfoldable pub config_dir : Platform → Outcome StoreError FilePath
config_dir p = do d ← ok_or p.base_dir no_config_dir; ok (join d (codes "supershare"))

unfoldable pub config_file_path : Platform → Outcome StoreError FilePath
unfolding config_dir
config_file_path p = do d ← config_dir p; ok (join d (codes "config.toml"))

unfoldable pub trust_dir : Platform → Outcome StoreError FilePath
unfolding config_dir
trust_dir p = do d ← config_dir p; ok (join d (codes "trust"))

unfoldable pub ensure_trust_dir : Platform → Disk → Outcome StoreError FilePath
unfolding trust_dir
ensure_trust_dir p d = do dir ← trust_dir p; ensure (d.creatable dir) create_failed; ok dir

-- The content of a file, if it is there, as a configuration.
unfoldable pub parsed : Platform → Option Text → AppConfig
parsed p none = default_config p.hostname
parsed p (some content) = unwrap_or (p.from_toml content) (default_config p.hostname)

unfoldable pub load : Platform → Disk → AppConfig
unfolding config_file_path parsed
load p d = elim (config_file_path p) [
  | ok path ↦ parsed p (lookup path d.files)
  | err e ↦ default_config p.hostname
]

-- What `save` writes, and where; the directory is the parent of the file.
unfoldable pub prepared : Platform → Disk → AppConfig → Outcome StoreError (FilePath × Text)
unfolding config_file_path config_dir
prepared p d c = do
  dir ← config_dir p
  path ← config_file_path p
  ensure (d.creatable dir) create_failed
  content ← ok_or (p.to_toml c) serialize_failed
  ok (path, content)

unfoldable pub save : Platform → Disk → AppConfig → Disk × Outcome StoreError (Unit {0})
unfolding prepared write
save p d c = elim (prepared p d c) [
  | err e ↦ (d, err e)
  | ok file ↦
      let (d', written) = write d file.0 file.1 in (d', if written then ok tt else err write_failed)
]

-- What `save` prepares goes to the file that `load` reads, as toml wrote it.
prepared_sound :
    (p : Platform) (d : Disk) (c : AppConfig) (path : FilePath) (content : Text)
    → prepared p d c ≡ ok (path, content)
    → (config_file_path p ≡ ok path) × (p.to_toml c ≡ some content)
unfolding prepared config_file_path config_dir
prepared_sound p d c path content h = ground arith

-- A configuration that toml reads back as it wrote it, saved without an error, is the one that is
-- loaded next.
pub load-save :
    (p : Platform) (d d' : Disk) (c : AppConfig)
    → ((t : Text) → p.to_toml c ≡ some t → p.from_toml t ≡ some c)
    → save p d c ≡ (d', ok tt)
    → load p d' ≡ c
unfolding save load parsed write
load-save p d d' c law h = elim (Outcome-cases (prepared p d c)) [
  | inl (e, he) ↦ absurd (ground (arith, he))
  | inr ((path, content), hp) ↦
      let (one, two) = prepared_sound p d c path content hp in
      let read = law content two in
      ground (arith, hp, one, read, lookup-insert path content d.files)
]
