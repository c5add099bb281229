-- ===== src/Server/Registry.antt =====
-- crates/ss-network/src/server.rs: a client's two connections come together, and come apart.
use supershare.Base.{
  append_assoc, ℕ, ◌≡◌, ◌≢◌, refl, none, some, [], ◌∷◌, ◌++◌, Text, list_eq, nat_eq,
}
use supershare.Base.Assoc.{lookup, insert, lookup-remove, lookup-insert, lookup-insert_other}
use supershare.Protocol.Kind.{Message}
use supershare.Server.{
  ServerState, Handshake, client_connected, client_disconnected, ConnectedClient, connected,
  poll_pending, cleanup, on_data_handshake, send_to_client, send_data_to_client,
}

-- The client of a control connection's handshake and a data connection.
abbrev pub client_of : Handshake → ℕ → ConnectedClient
client_of k data_tx = record {
  name = k.name;
  control_tx = k.connection;
  data_tx = data_tx;
  screen_width = k.screen_width;
  screen_height = k.screen_height;
}

-- A control connection that looks after a data connection of its name has come is connected at once,
-- with the two connections as its channels and the screen of its handshake; every other client stays
-- as it was; and the data connection is not pending any more.
pub poll_pending-on_data_handshake :
    (s : ServerState) (k : Handshake) (attempts data_tx version w h : ℕ)
    → let (s', w') =
        poll_pending
          (on_data_handshake s data_tx (some (Message.handshake version k.name w h))).0
          k
          attempts in
      (w' ≡ connected)
      × (lookup k.name s'.clients ≡ some (client_of k data_tx))
      × ((n : Text) → k.name ≢ n → lookup n s'.clients ≡ lookup n s.clients)
      × (lookup k.name s'.pending_data ≡ none)
      × (s'.notified ≡ s.notified ++ client_connected k.name ∷ [])
unfolding poll_pending on_data_handshake
poll_pending-on_data_handshake s k attempts data_tx version w h =
    let found = lookup-insert k.name data_tx s.pending_data in
    rw (found, poll_pending)
      (
        refl,
        lookup-insert k.name (client_of k data_tx) s.clients,
        λ n ne. lookup-insert_other k.name n (client_of k data_tx) s.clients ne,
        lookup-remove k.name (insert k.name data_tx s.pending_data),
        refl,
      )

-- Two connections of one name. The data connection of the second comes, its control connection finds it and
-- counts as connected, and messages to the name go to the second one's channels. Then the first control
-- connection ends, and nothing of the second does: but the name is listed no more and is told as
-- disconnected, so that no message to it goes to any channel.
pub cleanup_newer :
    (s : ServerState) (first second : Handshake) (attempts data_tx version w h : ℕ) (m : Message)
    → first.name ≡ second.name
    → let hello = Message.handshake version second.name w h in
      let (joined, wait) =
        poll_pending (on_data_handshake s data_tx (some hello)).0 second attempts in
      let after = cleanup joined first.name in
      (wait ≡ connected)
      × (send_to_client joined second.name m ≡ (second.connection, m) ∷ [])
      × (send_data_to_client joined second.name m ≡ (data_tx, m) ∷ [])
      × (lookup second.name after.clients ≡ none)
      × (send_to_client after second.name m ≡ [])
      × (send_data_to_client after second.name m ≡ [])
      × (after.notified
          ≡ s.notified ++ client_connected second.name ∷ client_disconnected second.name ∷ [])
unfolding cleanup send_to_client send_data_to_client
cleanup_newer s first second attempts data_tx version w h m same =
    let (wait, listed, _, _, told) =
      poll_pending-on_data_handshake s second attempts data_tx version w h in
    let joined =
      (poll_pending
        (on_data_handshake s data_tx (some (Message.handshake version second.name w h))).0 second
        attempts).0 in
    let gone = lookup-remove second.name joined.clients in
    rw same (
      wait,
      rw (listed, send_to_client) refl,
      rw (listed, send_data_to_client) refl,
      gone,
      rw (gone, send_to_client) refl,
      rw (gone, send_data_to_client) refl,
      rw told (append_assoc s.notified (client_connected second.name ∷ []) _),
    )
