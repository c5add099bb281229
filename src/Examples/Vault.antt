-- ===== src/Examples/Vault.antt =====
-- The configuration, the CA of the server, and the server's ports.
use supershare.Base.{
  ◌++◌, ==_iff, true, ◌⊎◌, ◌+◌, if◌then◌else◌, ◌==◌, ◌≡◌, refl, some, none, List, [], ◌∷◌, Text,
  codes, arith, list_eq, nat_eq,
}
use supershare.Base.Outcome.{Outcome, ok}
use supershare.Cert.{generate_ca_cert, generate_server_cert}
use supershare.Cert.Authority.{IoError, ServerCa, ca_paths, ensure_server_ca}
use supershare.Cert.Authority.Reuse.{IsComplete, ensure_server_ca_twice}
use supershare.Config.{KnownServer, default_client, find_known_server}
use supershare.Config.Paired.{Keyed}
use supershare.Config.Refines.{KnownOp, upsert, forget, run_known, replay_known, run_known_refines}
use supershare.Config.Trust.{Disk}
use supershare.Connect.Session.{Network, ClientConnection, connect}
use supershare.Connect.Ports.{at_port, connect-next_port}
use supershare.Protocol.Kind.{Message}
use supershare.Examples.DeskParams.{around, never, start}
use supershare.App.Resolve.{
  ResolvedServerCerts, resolve_server_certs, build_pairing_support, explicit_certs, key_beside,
  split_name, stem, before_dot,
}
use supershare.FileIo.{read_to_string}
use supershare.App.Handler.{handle}
use supershare.App.{
  Backend, start_server, capture, show_pin, store_paired, serve, ServeConfig, LinkConfig,
}
use supershare.App.Serve.{Listening, start-no_pairing}
use supershare.App.Serve
use supershare.Tls.{Rustls, build_server_config}
use supershare.Pairing.Client.{default_pairing_port}
use supershare.Examples.DeskParams.{desk_disk, plain_issuer}

abbrev dir : Text
dir = codes "trust"

abbrev first_run : Disk × Outcome IoError ServerCa
first_run = ensure_server_ca plain_issuer dir (codes "10.0.0.1" ∷ []) 1 2 desk_disk

ensure_server_ca_twice_example :
    (ca_paths dir ≡ ca_paths dir)
    × IsComplete (ca_paths dir) first_run.0
    × (ensure_server_ca plain_issuer dir [] 3 4 first_run.0 ≡ (first_run.0, ok (ca_paths dir)))
ensure_server_ca_twice_example =
    ensure_server_ca_twice plain_issuer dir (codes "10.0.0.1" ∷ []) [] 1 2 3 4 desk_disk first_run.0
      (ca_paths dir) (unfold ensure_server_ca generate_ca_cert generate_server_cert in refl)

abbrev studio : KnownServer
studio = record {
  address = codes "studio:9876";
  cert_path = codes "a.pem";
  key_path = codes "a-key.pem";
  ca_path = codes "a-ca.pem";
  server_fingerprint = codes "00";
}

abbrev known_ops : List KnownOp
known_ops = upsert studio ∷ forget (codes "attic") ∷ upsert studio ∷ []

run_known_refines_example :
    (find_known_server (run_known known_ops (default_client none))
      ≡ replay_known known_ops (find_known_server (default_client none)))
    × Keyed (λ k. k.address) (run_known known_ops (default_client none)).known_servers
run_known_refines_example =
    run_known_refines known_ops (default_client none) (unfold default_client in tt)

-- A stand-in for rustls that takes any text.
abbrev plain_tls : Rustls
plain_tls = record {
  certs = λ pem. some (pem ∷ []);
  pkcs8_key = λ pem. some (some pem);
  rsa_key = λ pem. none;
  roots = λ certs. some [];
  server_config = λ roots certs key. some key;
  client_config = λ roots certs key. some key;
  server_name = λ name. some name;
}

abbrev serve_disk : Disk
serve_disk = record desk_disk { files = (codes "a", codes "pem") ∷ [] }

abbrev serving : Backend
serving = record start { disk = serve_disk }

-- The same file is the certificate, the key and the CA.
abbrev one_file : ResolvedServerCerts
one_file = record {
  cert_path = codes "a";
  key_path = codes "a";
  ca_path = codes "a";
  ca_cert_pem = codes "pem";
  ca_key_pem = [];
}

one_file_resolved :
    resolve_server_certs
      (around never)
      (some (codes "a"))
      (some (codes "a"))
      (some (codes "a"))
      serving.disk
    ≡ (serve_disk, ok one_file)
unfolding resolve_server_certs explicit_certs key_beside split_name stem before_dot read_to_string
one_file_resolved = refl

start-no_pairing_example :
    let b' =
      handle
        (around never)
        serving
        (start_server 9876 9875 (some (codes "a")) (some (codes "a")) (some (codes "a")) true) in
    let support = build_pairing_support (around never) one_file 9876 in
    (c : ServeConfig) × (b'.effects
      ≡ serving.effects
        ++ capture 1280 720 ∷ show_pin support.pin_manager ∷ store_paired ∷ serve c ∷ [])
    × (b'.state.server_running ≡ true)
    × (Serve.start plain_tls serve_disk [] c
        ≡ ok (record { acceptor = codes "pem"; ports = 9875 ∷ 9876 ∷ []; pairing = none }))
start-no_pairing_example =
    unfold default_pairing_port in
    start-no_pairing (around never) serving plain_tls serve_disk serve_disk [] (codes "pem") 9876
      (some (codes "a")) (some (codes "a")) (some (codes "a")) one_file (omega arith)
      one_file_resolved (unfold build_server_config in refl) refl refl

-- A server on its two default ports, and nothing else.
abbrev studio_ports : Network
studio_ports = record {
  listening = λ address.
      if address == at_port (codes "studio") 9876
      then true
      else address == at_port (codes "studio") 9877;
  secured = λ address name tls_config. true;
  writes = λ address m. true;
  answer = λ address m. some (some (Message.screen_config 1920 1080));
}

abbrev studio_link : LinkConfig
studio_link = record {
  server_address = at_port (codes "studio") 9876;
  cert_path = codes "a";
  key_path = codes "a";
  ca_path = codes "a";
  device_name = codes "tv";
  screen_width = 1280;
  screen_height = 720;
}

abbrev connection : ClientConnection
connection = record {
  control = at_port (codes "studio") 9876;
  data_channel = at_port (codes "studio") 9877;
  server_screen = (1920, 1080);
}

studio_ports-only :
    (address : Text)
    → studio_ports.listening address ≡ true
    → (address ≡ at_port (codes "studio") 9876) ⊎ (address ≡ at_port (codes "studio") 9877)
studio_ports-only address h =
    let one = ==_iff address (at_port (codes "studio") 9876) in
    let two = ==_iff address (at_port (codes "studio") 9877) in ground (arith, h, one, two)

connect-next_port_example : 9877 ≡ 9876 + 1
connect-next_port_example =
    connect-next_port plain_tls serve_disk studio_ports studio_link connection (codes "studio") 9876
      9877 refl (omega arith) (omega arith) studio_ports-only refl (unfold connect in refl)
