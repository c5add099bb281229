-- ===== src/Connect/Ports.antt =====
-- crates/ss-network/src/client.rs: which ports a client reaches.
use supershare.Base.{
  ℕ, ◌+◌, ◌^◌, ◌<◌, ◌≡◌, refl, sym, ap, ◌∙◌, Bool, true, false, some, ◌++◌, Text, codes, arith, inl,
  inr, ◌⊎◌,
}
use supershare.Base.Outcome.{Outcome, ok, map_err, ensure, bind-ok}
use supershare.Config.Trust.{Disk}
use supershare.Config.Trust.Files.{append-cancel}
use supershare.Connect.{has_colon, decimal, parse_u16, control_address, data_address}
use supershare.Connect.Addresses.{parse_u16-decimal, data_address-port}
use supershare.Connect.Session.{
  Network, ClientConnection, connect_control, connect_data, connect, tls, unreachable,
}
use supershare.Tls.{Rustls, build_client_config, parse_server_name}
use supershare.App.{LinkConfig}

-- Where the port is written out.
abbrev pub at_port : Text → ℕ → Text
at_port host port = host ++ (codes ":" ++ decimal port)

decimal-cancel : (p q : ℕ) → p < 2 ^ 16 → q < 2 ^ 16 → decimal p ≡ decimal q → p ≡ q
decimal-cancel p q hp hq e =
    let one = parse_u16-decimal p hp in
    let two = parse_u16-decimal q hq in
    let same : some p ≡ some q = sym one ∙ (ap parse_u16 e ∙ two) in ground (arith, same)

at_port-cancel :
    (host : Text) (p q : ℕ) → p < 2 ^ 16 → q < 2 ^ 16 → at_port host p ≡ at_port host q → p ≡ q
at_port-cancel host p q hp hq e =
    let rest : codes ":" ++ decimal p ≡ codes ":" ++ decimal q =
      append-cancel host (codes ":" ++ decimal p) (codes ":" ++ decimal q) e in
    decimal-cancel p q hp hq (append-cancel (codes ":") (decimal p) (decimal q) rest)

ok-cancel : {E : Type 0} {A : Type 0} {a : A} {b : A} → ◌≡◌ {A = Outcome E A} (ok a) (ok b) → a ≡ b
ok-cancel e = cc

ensure_inv : {E : Type 0} (b : Bool) (e : E) {u : Unit {0}} → ensure b e ≡ ok u → b ≡ true
ensure_inv true e h = refl
ensure_inv false e h = cc

-- What a connection was made of.
connect_fields :
    (r : Rustls) (d : Disk) (net : Network) (c : LinkConfig) (conn : ClientConnection)
    → connect r d net c ≡ ok conn
    → (conn.control ≡ control_address c.server_address)
      × (conn.data_channel ≡ data_address c.server_address)
      × (net.listening (data_address c.server_address) ≡ true)
unfolding connect connect_data
connect_fields r d net c conn h =
    let control = control_address c.server_address in
    let (tls_config, _, h₁) =
      bind-ok (map_err (build_client_config r d c.cert_path c.key_path c.ca_path) tls) _ conn h in
    let (server_name, _, h₂) = bind-ok (map_err (parse_server_name r control) tls) _ conn h₁ in
    let (screen, _, h₃) =
      bind-ok (connect_control net control server_name tls_config c) _ conn h₂ in
    let dial = connect_data r net (data_address c.server_address) tls_config c in
    let (_, dialled, h₄) = bind-ok dial _ conn h₃ in
    let (_, reached, _) =
      bind-ok (ensure (net.listening (data_address c.server_address)) (unreachable _)) _ tt
        dialled in
    let made : record {
      control = control;
      data_channel = data_address c.server_address;
      server_screen = screen;
    }
        ≡ conn =
      ok-cancel h₄ in
    (sym (ap (λ x. x.control) made), sym (ap (λ x. x.data_channel) made), ensure_inv _ _ reached)

-- What a client that connects says of the server's ports. On a host whose name has no colon, with a
-- data port and a port after the control port that fit 16 bits: a server that takes connections on its
-- control port and its data port, and at no other address, is connected to at its control port only if
-- its data port is the next one.
pub connect-next_port :
    (r : Rustls) (d : Disk) (net : Network) (c : LinkConfig) (conn : ClientConnection)
    → (host : Text) (control_port data_port : ℕ) → has_colon host ≡ false
    → control_port + 1 < 2 ^ 16
    → data_port < 2 ^ 16
    → ((address : Text)
        → net.listening address ≡ true
        → (address ≡ at_port host control_port) ⊎ (address ≡ at_port host data_port))
    → c.server_address ≡ at_port host control_port
    → connect r d net c ≡ ok conn
    → data_port ≡ control_port + 1
connect-next_port r d net c conn host control_port data_port h small hd only there e =
    let (_, _, up) = connect_fields r d net c conn e in
    let next : data_address c.server_address ≡ at_port host (control_port + 1) =
      ap data_address there ∙ (data_address-port host control_port h small).1 in
    elim (only (data_address c.server_address) up) [
      | inl same ↦
          let eq : control_port + 1 ≡ control_port =
            at_port-cancel host _ control_port small (omega arith) (sym next ∙ same) in
          absurd (omega (arith, eq))
      | inr same ↦ at_port-cancel host data_port _ hd small (sym same ∙ next)
    ]
