-- ===== src/Config.antt =====
-- crates/ss-core/src/config.rs: the configuration, its defaults, the lists of paired devices, and the
-- files of trust material. Paths are texts; toml and the directories of the platform are parameters.
pub mod Trust
pub mod Paired
pub mod Store
pub mod Refines
use supershare.Base.{
  ℕ, ◌+◌, ◌*◌, ◌≡◌, Bool, true, false, not, Option, none, some, List, [], ◌∷◌, ◌++◌, Text, codes,
  map, find, any, retain, length, eqb, ◌==◌, list_eq, nat_eq, if◌then◌else◌, unwrap_or,
}
use supershare.Cert.{is_ascii_alphanumeric}
use supershare.Pairing.Server.{PairedClient}

abbrev pub FilePath : Type 0
FilePath = Text

pub record ClientEntry : Type 0 where
  pub name : Text
  pub ip : Text
  pub screen_width : ℕ
  pub screen_height : ℕ
  pub position : Text

pub record ServerConfig : Type 0 where
  pub control_port : ℕ
  pub data_port : ℕ
  pub cert_path : Option FilePath
  pub key_path : Option FilePath
  pub ca_path : Option FilePath
  pub clients : List ClientEntry
  pub pairing_enabled : Bool
  pub paired_clients : List PairedClient

pub record KnownServer : Type 0 where
  pub address : Text
  pub cert_path : FilePath
  pub key_path : FilePath
  pub ca_path : FilePath
  pub server_fingerprint : Text

pub record ClientConfig : Type 0 where
  pub server_address : Option Text
  pub cert_path : Option FilePath
  pub key_path : Option FilePath
  pub ca_path : Option FilePath
  pub device_name : Text
  pub known_servers : List KnownServer

pub record ClipboardConfig : Type 0 where
  pub text_enabled : Bool
  pub image_enabled : Bool
  pub max_image_size : ℕ

pub record AppConfig : Type 0 where
  pub server : ServerConfig
  pub client : ClientConfig
  pub clipboard : ClipboardConfig

-- `hostname::get`, where it succeeds.
unfoldable pub default_device_name : Option Text → Text
default_device_name hostname = unwrap_or hostname (codes "unknown")

abbrev pub default_server : ServerConfig
default_server = record {
  control_port = 9876;
  data_port = 9877;
  cert_path = none;
  key_path = none;
  ca_path = none;
  clients = [];
  pairing_enabled = true;
  paired_clients = [];
}

unfoldable pub default_client : Option Text → ClientConfig
unfolding default_device_name
default_client hostname = record {
  server_address = none;
  cert_path = none;
  key_path = none;
  ca_path = none;
  device_name = default_device_name hostname;
  known_servers = [];
}

abbrev pub default_clipboard : ClipboardConfig
default_clipboard = record {
  text_enabled = true;
  image_enabled = true;
  max_image_size = 10 * 1024 * 1024;
}

unfoldable pub default_config : Option Text → AppConfig
unfolding default_client
default_config hostname = record {
  server = default_server;
  client = default_client hostname;
  clipboard = default_clipboard;
}

-- The first entry that passes the test is replaced; without one, the new entry is pushed.
unfoldable pub upsert {ℓ} : {A : Type ℓ} → (A → Bool) → A → List A → List A
upsert test a [] = a ∷ []
upsert test a (x ∷ xs) = if test x then a ∷ xs else x ∷ upsert test a xs

unfoldable pub find_known_server : ClientConfig → Text → Option KnownServer
find_known_server c address = find (λ s. s.address == address) c.known_servers

unfoldable pub upsert_known_server : ClientConfig → KnownServer → ClientConfig
unfolding upsert
upsert_known_server c server = record c {
  known_servers = upsert (λ s. s.address == server.address) server c.known_servers;
}

unfoldable pub forget_server : ClientConfig → Text → ClientConfig × Bool
forget_server c address =
    let left = retain (λ s. not (s.address == address)) c.known_servers in
    (record c { known_servers = left }, not (eqb (length left) (length c.known_servers)))

unfoldable pub is_client_paired : ServerConfig → Text → Bool
is_client_paired c fingerprint = any (λ p. p.cert_fingerprint == fingerprint) c.paired_clients

unfoldable pub upsert_paired_client : ServerConfig → PairedClient → ServerConfig
unfolding upsert
upsert_paired_client c client = record c {
  paired_clients =
      upsert (λ p. p.cert_fingerprint == client.cert_fingerprint) client c.paired_clients;
}

unfoldable pub revoke_client : ServerConfig → Text → ServerConfig × Bool
revoke_client c fingerprint =
    let left = retain (λ p. not (p.cert_fingerprint == fingerprint)) c.paired_clients in
    (record c { paired_clients = left }, not (eqb (length left) (length c.paired_clients)))
