-- ===== src/Connect/Session.antt =====
-- crates/ss-network/src/client.rs: what `connect` says and hears on the two channels, and how the server
-- of crates/ss-network/src/server.rs takes it.
use supershare.Base.{
  ℕ, ◌≡◌, ◌≢◌, refl, Option, none, some, List, [], ◌∷◌, ◌++◌, Text, arith, inr, Bool,
}
use supershare.Base.Assoc.{lookup}
use supershare.Base.Outcome.{Outcome, ok, err, ◌>>=◌, ◌>>◌, ensure, ok_or, map_err}
use supershare.Config.Trust.{Disk}
use supershare.Tls.{Rustls, TlsError, build_client_config, parse_server_name}
use supershare.Connect.{control_address, data_address}
use supershare.Protocol.Kind.{Bytes, Message}
use supershare.Server.{
  ServerState, Handshake, connected, on_handshake, on_data_handshake, poll_pending,
}
use supershare.Server.Registry.{client_of, poll_pending-on_data_handshake}
use supershare.App.{LinkConfig}

-- The first frame on either channel.
unfoldable pub hello : LinkConfig → Message
hello c = Message.handshake 1 c.device_name c.screen_width c.screen_height

-- The frame that answers it on the control channel, if one comes in ten seconds.
unfoldable pub screen_of : Option Message → Outcome (Option Message) (ℕ × ℕ)
screen_of (some (Message.screen_config width height)) = ok (width, height)
screen_of other = err other

-- The reader task of the control channel: what it passes on.
unfoldable pub on_control_frame : List Message → Message → List Message
on_control_frame passed Message.heartbeat = passed
on_control_frame passed m = passed ++ m ∷ []

-- What is on the other end: which addresses take a TCP connection, and a TLS session on it under a name;
-- whether a frame can be written there; what is read in time, `none` for a failure or no frame in ten
-- seconds.
pub record Network : Type 0 where
  pub listening : (address : Text) → Bool
  pub secured : (address server_name : Text) → (tls_config : Bytes) → Bool
  pub writes : (address : Text) → Message → Bool
  pub answer : (address : Text) → Message → Option (Option Message)

pub data ConnectError : Type 0 where
  tls : TlsError → ConnectError
  unreachable : (address : Text) → ConnectError
  untrusted : (address : Text) → ConnectError
  broken : (address : Text) → ConnectError
  expected_screen_config : Option Message → ConnectError

-- A connection: where its two channels go, and the server's screen.
pub record ClientConnection : Type 0 where
  pub control : Text
  pub data_channel : Text
  pub server_screen : ℕ × ℕ

-- The control channel up to the server's screen.
unfoldable pub connect_control :
    Network
    → (server_address server_name : Text) → (tls_config : Bytes) → LinkConfig
    → Outcome ConnectError (ℕ × ℕ)
unfolding hello screen_of
connect_control net server_address server_name tls_config c = do
  ensure (net.listening server_address) (unreachable server_address)
  ensure (net.secured server_address server_name tls_config) (untrusted server_address)
  ensure (net.writes server_address (hello c)) (broken server_address)
  answer ← ok_or (net.answer server_address (hello c)) (broken server_address)
  map_err (screen_of answer) expected_screen_config

-- The data channel, on the next port.
unfoldable pub connect_data :
    Rustls
    → Network
    → (data_address : Text) → (tls_config : Bytes) → LinkConfig
    → Outcome ConnectError (Unit {0})
unfolding parse_server_name hello
connect_data r net data_address tls_config c = do
  ensure (net.listening data_address) (unreachable data_address)
  data_name ← map_err (parse_server_name r data_address) tls
  ensure (net.secured data_address data_name tls_config) (untrusted data_address)
  ensure (net.writes data_address (hello c)) (broken data_address)

unfoldable pub connect :
    Rustls → Disk → Network → LinkConfig → Outcome ConnectError ClientConnection
unfolding build_client_config control_address data_address parse_server_name connect_control
    connect_data
connect r d net c = do
  tls_config ← map_err (build_client_config r d c.cert_path c.key_path c.ca_path) tls
  server_name ← map_err (parse_server_name r (control_address c.server_address)) tls
  screen ← connect_control net (control_address c.server_address) server_name tls_config c
  connect_data r net (data_address c.server_address) tls_config c
  ok (record {
    control = control_address c.server_address;
    data_channel = data_address c.server_address;
    server_screen = screen;
  })

abbrev pub first : List Message → Option Message
first [] = none
first (m ∷ ms) = some m

-- A client's two connections at a server whose screen is `width` by `height`: the server takes the control
-- handshake, the client takes the answer and knows the server's screen; and once the data handshake has
-- come too, the control connection finds it at once, and the client is listed under its name with
-- its two channels and its own screen.
pub hello-registered :
    (s : ServerState) (c : LinkConfig) (control_conn data_conn width height attempts : ℕ)
    → let (answers, taken) = on_handshake control_conn width height (some (hello c)) in
      let k : Handshake = record {
        connection = control_conn;
        name = c.device_name;
        screen_width = c.screen_width;
        screen_height = c.screen_height;
      } in
      let (s', wait) = poll_pending (on_data_handshake s data_conn (some (hello c))).0 k attempts in
      (taken ≡ inr k)
      × (screen_of (first answers) ≡ ok (width, height))
      × (wait ≡ connected)
      × (lookup c.device_name s'.clients ≡ some (client_of k data_conn))
unfolding hello screen_of on_handshake
hello-registered s c control_conn data_conn width height attempts =
    let k : Handshake = record {
      connection = control_conn;
      name = c.device_name;
      screen_width = c.screen_width;
      screen_height = c.screen_height;
    } in
    let all =
      poll_pending-on_data_handshake s k attempts data_conn 1 c.screen_width c.screen_height in
    (refl, refl, all.0, all.1)

-- A server that refuses the version answers with a message that the client does not take either.
pub hello_refused :
    (control_conn width height version : ℕ) (name : Text) (w h : ℕ)
    → version ≢ 1
    → let (answers, taken) =
        on_handshake control_conn width height (some (Message.handshake version name w h)) in
      screen_of (first answers) ≡ err (some Message.heartbeat)
unfolding screen_of on_handshake
hello_refused control_conn width height version name w h ne = ground arith
