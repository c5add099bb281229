-- ===== src/App/Handler.antt =====
-- src/main.rs: `command_handler`, one command at a time.
use supershare.Base.{
  ℕ, Bool, true, false, Option, none, some, List, [], ◌∷◌, ◌++◌, Text, codes, is_empty,
  if◌then◌else◌, unwrap_or,
}
use supershare.Base.Outcome.{ok, err}
use supershare.Config.{FilePath, KnownServer, upsert_known_server, default_device_name}
use supershare.Config.Trust.{TrustPaths}
use supershare.Config.Store.{save}
use supershare.Cert.{cert_fingerprint}
use supershare.Connect.{split_first, parse_u16}
use supershare.Pairing.Client.{PairedMaterial, default_pairing_port}
use supershare.App.{
  SharedAppState, AppCommand, start_server, stop_server, disconnect_client, connect_client,
  pair_and_connect, ServeConfig, Effect, capture, show_pin, store_paired, serve, link,
  signal_server, signal_client, Backend, store, Around,
}
use supershare.App.Resolve.{
  resolve_client_certs, persist_client_trust, ResolvedServerCerts, resolve_server_certs,
  build_pairing_support,
}

-- With a server's certificates: pairing, if it is enabled, then the server.
unfoldable pub serve_with :
    Around
    → (control_port data_port : ℕ) → (pairing_enabled : Bool) → ResolvedServerCerts
    → List Effect
unfolding build_pairing_support
serve_with a control_port data_port pairing_enabled resolved =
    let support = build_pairing_support a resolved control_port in
    let config : Option _ → ServeConfig = λ pairing. record {
      control_port = control_port;
      data_port = data_port;
      cert_path = resolved.cert_path;
      key_path = resolved.key_path;
      ca_path = resolved.ca_path;
      pairing = pairing;
    } in
    if pairing_enabled
    then show_pin support.pin_manager ∷ store_paired ∷ serve (config (some support)) ∷ []
    else serve (config none) ∷ []

unfoldable pub on_start_server :
    Around
    → Backend
    → (control_port data_port : ℕ) → (cert_path key_path ca_path : Option FilePath)
    → (pairing_enabled : Bool) → Backend
unfolding resolve_server_certs serve_with
on_start_server a b control_port data_port cert_path key_path ca_path pairing_enabled =
    let (disk, resolved) = resolve_server_certs a cert_path key_path ca_path b.disk in
    let begun = b.effects ++ capture a.screen.0 a.screen.1 ∷ [] in
    elim resolved [
      | err e ↦ record b {
        disk = disk;
        effects = begun;
        server_shutdown = true;
        state = record b.state {
          last_error = some (codes "Certificate error: " ++ a.error_text e);
        };
      }
      | ok r ↦ record b {
        disk = disk;
        effects = begun ++ serve_with a control_port data_port pairing_enabled r;
        server_shutdown = true;
        state = record b.state {
          server_running = true;
          server_port = some control_port;
          last_error = none;
        };
      }
    ]

unfoldable pub on_stop_server : Backend → Backend
on_stop_server b = record b {
  effects = if b.server_shutdown then b.effects ++ signal_server ∷ [] else b.effects;
  server_shutdown = false;
  state = record b.state { server_running = false; server_port = none; connected_clients = [] };
}

-- A connection that starts with the files of `p`.
unfoldable pub link_with : Around → Text → Text → TrustPaths → Effect
link_with a server_address device_name p = link (record {
  server_address = server_address;
  cert_path = p.cert_path;
  key_path = p.key_path;
  ca_path = p.ca_path;
  device_name = device_name;
  screen_width = a.screen.0;
  screen_height = a.screen.1;
})

unfoldable pub on_connect_client :
    Around
    → Backend
    → (server_address : Text) → (cert_path key_path ca_path : Option FilePath)
    → (device_name : Text) → Backend
unfolding resolve_client_certs link_with
on_connect_client a b server_address cert_path key_path ca_path device_name =
    elim (resolve_client_certs b.config server_address cert_path key_path ca_path) [
      | none ↦ record b {
        state = record b.state {
          pairing_required = true;
          pairing_status = none;
          last_error = some (codes "This server is not paired. Enter the PIN to pair.");
        };
      }
      | some p ↦ record b {
        state = record b.state { pairing_required = false };
        client_shutdown = true;
        effects = b.effects ++ link_with a server_address device_name p ∷ [];
      }
    ]

abbrev pairing_failed : Text → SharedAppState → SharedAppState
pairing_failed e s =
    let text = some (codes "Pairing failed: " ++ e) in
    record s { pairing_status = text; last_error = text }

-- The host, and the port of the pairing listener.
unfoldable pub pairing_target : Text → Text × ℕ
unfolding split_first parse_u16 default_pairing_port
pairing_target server_address =
    let (host, rest) = split_first server_address in
    let port : Option ℕ = elim rest [ [] ↦ none | p ∷ more ↦ parse_u16 p ] in
    (host, default_pairing_port (unwrap_or port 9876))

unfoldable pub known_server : Around → Text → PairedMaterial → TrustPaths → KnownServer
unfolding cert_fingerprint
known_server a server_address m p = record {
  address = server_address;
  cert_path = p.cert_path;
  key_path = p.key_path;
  ca_path = p.ca_path;
  server_fingerprint = elim (cert_fingerprint a.issuer.rcgen m.ca_cert_pem) [
    | ok f ↦ f
    | err e ↦ []
  ];
}

-- With the material of a pairing: it is stored, with the server in the configuration, then used.
unfoldable pub on_material :
    Around → Backend → (server_address device_name : Text) → PairedMaterial → Backend
unfolding persist_client_trust save known_server link_with
on_material a b server_address device_name m =
    let (disk, stored) = persist_client_trust a server_address m b.disk in
    elim stored [
      | err e ↦ record b { disk = disk; state = pairing_failed (a.error_text (store e)) b.state }
      | ok p ↦
          let config = record b.config {
            client = upsert_known_server b.config.client (known_server a server_address m p);
          } in
          record b {
            disk = (save a.platform disk config).0;
            config = config;
            state = record b.state {
              pairing_required = false;
              pairing_status = some (codes "Paired! Connecting…");
            };
            client_shutdown = true;
            effects = b.effects ++ link_with a server_address device_name p ∷ [];
          }
    ]

-- What the window shows while the pairing runs.
unfoldable pub pairing_begun : Backend → Backend
pairing_begun b = record b {
  state = record b.state { pairing_status = some (codes "Pairing…"); last_error = none };
}

unfoldable pub device_of : Around → Text → Text
device_of a device_name =
    if is_empty device_name then default_device_name a.platform.hostname else device_name

unfoldable pub on_pair_and_connect :
    Around → Backend → (server_address pin device_name : Text) → Backend
unfolding pairing_begun pairing_target device_of on_material
on_pair_and_connect a b server_address pin device_name =
    let begun = pairing_begun b in
    let (host, port) = pairing_target server_address in
    let dev = device_of a device_name in
    elim (a.pair host port pin dev) [
      | err e ↦ record begun { state = pairing_failed (a.pair_text e) begun.state }
      | ok m ↦ on_material a begun server_address dev m
    ]

unfoldable pub on_disconnect_client : Backend → Backend
on_disconnect_client b = record b {
  effects = if b.client_shutdown then b.effects ++ signal_client ∷ [] else b.effects;
  client_shutdown = false;
  state = record b.state {
    client_connected = false;
    client_server_addr = none;
    server_screen_size = none;
  };
}

unfoldable pub handle : Around → Backend → AppCommand → Backend
unfolding on_start_server on_stop_server on_connect_client on_pair_and_connect on_disconnect_client
handle a b (start_server control_port data_port cert_path key_path ca_path pairing_enabled) =
    on_start_server a b control_port data_port cert_path key_path ca_path pairing_enabled
handle a b stop_server = on_stop_server b
handle a b (connect_client server_address cert_path key_path ca_path device_name) =
    on_connect_client a b server_address cert_path key_path ca_path device_name
handle a b (pair_and_connect server_address pin device_name) =
    on_pair_and_connect a b server_address pin device_name
handle a b disconnect_client = on_disconnect_client b

-- The commands in the order in which they come.
unfoldable pub command_handler : Backend → List (Around × AppCommand) → Backend
unfolding handle
command_handler b [] = b
command_handler b ((a, command) ∷ rest) = command_handler (handle a b command) rest
