-- ===== src/App.antt =====
-- src/main.rs and crates/ss-ui/src/state.rs: the state that the window and the tasks share, the commands
-- of the window, and what the command handler keeps.
pub mod Resolve
pub mod Handler
pub mod Link
pub mod Tasks
pub mod Consistent
pub mod Trusted
pub mod Headless
pub mod Serve
use supershare.Base.{ℕ, Bool, true, false, Option, none, some, List, [], Text}
use supershare.Base.Outcome.{Outcome}
use supershare.Config.{FilePath, AppConfig}
use supershare.Config.Trust.{Disk}
use supershare.Config.Store.{Platform, StoreError}
use supershare.Cert.{Issuer}
use supershare.Cert.Authority.{IoError}
use supershare.Pairing.Pin.{PinManager}
use supershare.Pairing.Client.{PairedMaterial, PairError}

-- Of a connected client, the name; nothing reads the time at which it connected.
pub record SharedAppState : Type 0 where
  pub server_running : Bool
  pub server_port : Option ℕ
  pub connected_clients : List Text
  pub client_connected : Bool
  pub client_server_addr : Option Text
  pub server_screen_size : Option (ℕ × ℕ)
  pub last_error : Option Text
  pub pairing_pin : Option Text
  pub pairing_required : Bool
  pub pairing_status : Option Text

abbrev pub default_state : SharedAppState
default_state = record {
  server_running = false;
  server_port = none;
  connected_clients = [];
  client_connected = false;
  client_server_addr = none;
  server_screen_size = none;
  last_error = none;
  pairing_pin = none;
  pairing_required = false;
  pairing_status = none;
}

pub data AppCommand : Type 0 where
  start_server :
      (control_port data_port : ℕ)
      → (cert_path key_path ca_path : Option FilePath) → (pairing_enabled : Bool) → AppCommand
  stop_server disconnect_client : AppCommand
  connect_client :
      (server_address : Text)
      → (cert_path key_path ca_path : Option FilePath) → (device_name : Text) → AppCommand
  pair_and_connect : (server_address pin device_name : Text) → AppCommand

-- `ss_network::server::PairingSupport` and `ServerConfig`.
pub record PairingSupport : Type 0 where
  pub pairing_port : ℕ
  pub ca_cert_pem : Text
  pub ca_key_pem : Text
  pub pin_manager : PinManager

pub record ServeConfig : Type 0 where
  pub control_port : ℕ
  pub data_port : ℕ
  pub cert_path : FilePath
  pub key_path : FilePath
  pub ca_path : FilePath
  pub pairing : Option PairingSupport

-- `ss_network::client::ClientConfig`.
pub record LinkConfig : Type 0 where
  pub server_address : Text
  pub cert_path : FilePath
  pub key_path : FilePath
  pub ca_path : FilePath
  pub device_name : Text
  pub screen_width : ℕ
  pub screen_height : ℕ

-- What the handler sets going: the capture of the input with what forwards it, the display of the PIN, the
-- storing of paired clients, the server, a client's connection; and the two signals to stop.
pub data Effect : Type 0 where
  capture : (screen_w screen_h : ℕ) → Effect
  show_pin : PinManager → Effect
  store_paired : Effect
  serve : ServeConfig → Effect
  link : LinkConfig → Effect
  signal_server signal_client : Effect

pub record Backend : Type 0 where
  pub state : SharedAppState
  pub config : AppConfig
  pub disk : Disk
  pub server_shutdown : Bool
  pub client_shutdown : Bool
  pub effects : List Effect

pub data AppError : Type 0 where
  store : StoreError → AppError
  files : IoError → AppError

-- What a command finds around it: the platform, the screen, rcgen, the machine's addresses, the time and
-- random numbers, how a pairing ends, and how errors are written.
pub record Around : Type 0 where
  pub platform : Platform
  pub screen : ℕ × ℕ
  pub issuer : Issuer
  pub local_ips : List Text
  pub now : ℕ
  pub ca_seed : ℕ
  pub seed : ℕ
  pub pin_seed : ℕ
  pub pair : (host : Text) (port : ℕ) (pin device_name : Text) → Outcome PairError PairedMaterial
  pub pair_text : PairError → Text
  pub error_text : AppError → Text
