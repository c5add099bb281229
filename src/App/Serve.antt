-- ===== src/App/Serve.antt =====
-- crates/ss-network/src/server.rs: `start`, which opens the server's ports, and the loops that take
-- connections on them until the signal to stop.
use supershare.Base.{
  ℕ, ◌≡◌, ◌≢◌, refl, ◌-◌, Bool, true, false, append_assoc, Option, none, some, List, [], ◌∷◌, ◌++◌,
  any, eqb, eqb_iff, sym, ◌∙◌, arith, if◌then◌else◌,
}
use supershare.Base.Outcome.{Outcome, ok, err, ◌>>=◌, map_err}
use supershare.Protocol.Kind.{Bytes}
use supershare.Config.Trust.{Disk}
use supershare.Config.{FilePath}
use supershare.Pairing.Client.{default_pairing_port}
use supershare.Tls.{Rustls, TlsError, build_server_config}
use supershare.App.{
  ServeConfig, PairingSupport, Around, Backend, capture, show_pin, store_paired, serve,
  start_server,
}
use supershare.App.Resolve.{ResolvedServerCerts, resolve_server_certs, build_pairing_support}
use supershare.App.Handler.{handle, on_start_server, serve_with}

-- The ports that others have, and those that the server has bound.
abbrev pub taken : List ℕ → ℕ → Bool
taken ports port = any (λ p. eqb p port) ports

pub data StartError : Type 0 where
  tls : TlsError → StartError
  port_taken : ℕ → StartError

-- Port 0 is any free port.
unfoldable pub bind : List ℕ → ℕ → Outcome StartError (List ℕ)
bind ports port =
    if eqb port 0
    then ok ports
    else if taken ports port
    then err (port_taken port)
    else ok (port ∷ ports)

pub record Listening : Type 0 where
  pub acceptor : Bytes
  pub ports : List ℕ
  pub pairing : Option PairingSupport

-- The pairing listener binds its port in a task of its own; if it cannot, that is only logged.
unfoldable pub pairing_listener : List ℕ → Option PairingSupport → List ℕ × Option PairingSupport
unfolding bind
pairing_listener ports none = (ports, none)
pairing_listener ports (some support) = elim (bind ports support.pairing_port) [
  | ok ports' ↦ (ports', some support)
  | err e ↦ (ports, none)
]

unfoldable pub start : Rustls → Disk → List ℕ → ServeConfig → Outcome StartError Listening
unfolding build_server_config bind pairing_listener
start r d ports c = do
  acceptor ← map_err (build_server_config r d c.cert_path c.key_path c.ca_path) tls
  control ← bind ports c.control_port
  data_ports ← bind control c.data_port
  let listening : List ℕ × Option PairingSupport = pairing_listener data_ports c.pairing
  ok (record { acceptor = acceptor; ports = listening.0; pairing = listening.1 })

-- What a loop that takes connections waits for.
pub data Arrival : Type 0 where
  connection : ℕ → Arrival
  accept_error shutdown : Arrival

-- The connections that are handed to a handler.
unfoldable pub accept_loop : List Arrival → List ℕ
accept_loop [] = []
accept_loop (connection c ∷ rest) = c ∷ accept_loop rest
accept_loop (accept_error ∷ rest) = accept_loop rest
accept_loop (shutdown ∷ rest) = []

-- No connection is taken after the signal.
pub accept_loop-shutdown :
    (before after : List Arrival)
    → accept_loop (before ++ shutdown ∷ after) ≡ accept_loop (before ++ shutdown ∷ [])
unfolding accept_loop
accept_loop-shutdown [] after = refl
accept_loop-shutdown (connection c ∷ rest) after = ground (arith, accept_loop-shutdown rest after)
accept_loop-shutdown (accept_error ∷ rest) after = accept_loop-shutdown rest after
accept_loop-shutdown (shutdown ∷ rest) after = refl

pairing_taken :
    (ports : List ℕ) (s : PairingSupport)
    → s.pairing_port ≢ 0
    → pairing_listener (s.pairing_port ∷ ports) (some s) ≡ (s.pairing_port ∷ ports, none)
unfolding pairing_listener bind
pairing_taken ports s some_port =
    ground (arith, eqb_iff s.pairing_port 0, eqb_iff s.pairing_port s.pairing_port)

start_crossed :
    (r : Rustls) (d : Disk) (ports : List ℕ) (c : ServeConfig) (s : PairingSupport)
    (acceptor : Bytes)
    → build_server_config r d c.cert_path c.key_path c.ca_path ≡ ok acceptor
    → c.pairing ≡ some s
    → c.data_port ≡ s.pairing_port
    → c.control_port ≢ 0
    → c.control_port ≢ s.pairing_port
    → s.pairing_port ≢ 0
    → taken ports c.control_port ≡ false
    → taken ports s.pairing_port ≡ false
    → start r d ports c
      ≡ ok (record {
        acceptor = acceptor;
        ports = s.pairing_port ∷ c.control_port ∷ ports;
        pairing = none;
      })
unfolding start
start_crossed r d ports c s acceptor loads with_pairing same some_control apart some_port free
      free' =
    let closed = pairing_taken (c.control_port ∷ ports) s some_port in
    let some_data : c.data_port ≢ 0 = λ e. some_port (sym same ∙ e) in
    ground (
      arith,
      loads,
      same,
      with_pairing,
      free,
      free',
      closed,
      eqb_iff c.control_port 0,
      eqb_iff c.data_port 0,
      eqb_iff c.control_port c.data_port,
    )

-- Pairing is enabled, and the data port is the pairing port, the one below the control port, and not 0. Where
-- the certificates load and both ports are free, the command to start the server has a PIN shown and a
-- server set going, and this server starts: it has its control and data ports, and nobody listens for
-- pairings.
pub start-no_pairing :
    (a : Around) (b : Backend) (r : Rustls) (d disk : Disk) (ports : List ℕ) (acceptor : Bytes)
    (control_port : ℕ) (cert_path key_path ca_path : Option FilePath) (certs : ResolvedServerCerts)
    → let data_port = default_pairing_port control_port in
      data_port ≢ 0
      → resolve_server_certs a cert_path key_path ca_path b.disk ≡ (disk, ok certs)
      → build_server_config r d certs.cert_path certs.key_path certs.ca_path ≡ ok acceptor
      → taken ports control_port ≡ false
      → taken ports data_port ≡ false
      → let b' = handle a b (start_server control_port data_port cert_path key_path ca_path true) in
        let support = build_pairing_support a certs control_port in
        (c : ServeConfig) × (b'.effects
          ≡ b.effects
            ++ capture a.screen.0 a.screen.1
              ∷ show_pin support.pin_manager
              ∷ store_paired
              ∷ serve c
              ∷ [])
        × (b'.state.server_running ≡ true)
        × (start r d ports c
            ≡ ok (record {
              acceptor = acceptor;
              ports = data_port ∷ control_port ∷ ports;
              pairing = none;
            }))
unfolding handle on_start_server serve_with
start-no_pairing a b r d disk ports acceptor control_port cert_path key_path ca_path certs some_port
      resolved loads control_free data_free =
    let support = build_pairing_support a certs control_port in
    let port : support.pairing_port ≡ default_pairing_port control_port =
      unfold build_pairing_support in refl in
    let c : ServeConfig = record {
      control_port = control_port;
      data_port = default_pairing_port control_port;
      cert_path = certs.cert_path;
      key_path = certs.key_path;
      ca_path = certs.ca_path;
      pairing = some support;
    } in
    let below : default_pairing_port control_port ≡ control_port - 1 =
      unfold default_pairing_port in refl in
    let some_control : control_port ≢ 0 = λ e. some_port (omega (arith, below, e)) in
    let apart : control_port ≢ support.pairing_port =
      λ e. some_port (omega (arith, below, e, port)) in
    let started =
      start_crossed r d ports c support acceptor loads refl (sym port) some_control apart
        (rw port some_port) control_free (rw port data_free) in
    rw (resolved, handle, on_start_server)
      (c, append_assoc b.effects (capture a.screen.0 a.screen.1 ∷ []) _, refl, rw port at started)
