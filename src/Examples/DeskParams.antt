-- ===== src/Examples/DeskParams.antt =====
-- A machine whose files can all be written, and what stands in for toml, rcgen and the pairing.
use supershare.Base.{true, some, none, [], ◌++◌, Text, codes, if◌then◌else◌, ◌==◌, list_eq, nat_eq}
use supershare.Base.Outcome.{Outcome, ok, err}
use supershare.Cert.{Issuer}
use supershare.Config.{AppConfig, default_config}
use supershare.Config.Trust.{Disk}
use supershare.Config.Store.{Platform}
use supershare.Pairing.Client.{PairedMaterial, PairError, bad_pin}
use supershare.App.{Backend, Around}
use supershare.App.Tasks.{opened}
use supershare.Examples.PairParams.{plain_certs}

abbrev pub desk_disk : Disk
desk_disk = record {
  files = [];
  modes = [];
  writable = λ path. true;
  owned = λ path. true;
  creatable = λ path. true;
}

abbrev pub plain_issuer : Issuer
plain_issuer = record {
  rcgen = plain_certs;
  self_sign = λ params key. some params.common_name;
  issue = λ params key ca_cert ca_key. some (params.common_name ++ ca_cert);
}

abbrev pub config : AppConfig
config = default_config none

abbrev pub platform : Platform
platform = record {
  base_dir = some (codes "home");
  hostname = none;
  to_toml = λ c. some (codes "toml");
  from_toml = λ t. some config;
}

abbrev pub material : PairedMaterial
material = record {
  client_cert_pem = codes "cert";
  client_key_pem = codes "key";
  ca_cert_pem = codes "ca";
}

-- The PIN is 123456.
abbrev pub try_pin : Text → Outcome PairError PairedMaterial
try_pin pin = if pin == codes "123456" then ok material else err bad_pin

abbrev pub around : (Text → Outcome PairError PairedMaterial) → Around
around answer = record {
  platform = platform;
  screen = (1280, 720);
  issuer = plain_issuer;
  local_ips = [];
  now = 0;
  ca_seed = 1;
  seed = 2;
  pin_seed = 3;
  pair = λ host port pin device_name. answer pin;
  pair_text = λ e. codes "no";
  error_text = λ e. codes "no";
}

abbrev pub server_address : Text
server_address = codes "studio:9876"

abbrev pub start : Backend
start = opened config desk_disk

abbrev pub never : Text → Outcome PairError PairedMaterial
never pin = err bad_pin
