-- ===== src/Server.antt =====
-- crates/ss-network/src/server.rs: the clients that are connected, and the handlers of their two
-- connections, cut where they wait. A channel is the number of the connection that drains it. And
-- src/main.rs: the listener of the server's events, and what forwards the captured input.
pub mod Registry
pub mod Steps
pub mod Refines
use supershare.Base.{
  ℕ, ◌+◌, Bool, true, false, not, Option, none, some, List, [], ◌∷◌, ◌++◌, Text, ltb, eqb,
  if◌then◌else◌, map, is_empty, retain, ◌==◌, list_eq, nat_eq, ◌⊎◌, inl, inr,
}
use supershare.Base.Assoc.{lookup, remove, insert}
use supershare.Protocol.Kind.{Message}
use supershare.Capture.{WarpInputEvent, to_message}

pub data ServerEvent : Type 0 where
  client_connected client_disconnected client_paired : (name : Text) → ServerEvent

pub record ConnectedClient : Type 0 where
  pub name : Text
  pub control_tx : ℕ
  pub data_tx : ℕ
  pub screen_width : ℕ
  pub screen_height : ℕ

-- `ServerState` and the pending data channels; the two broadcast channels are what was sent to them.
pub record ServerState : Type 0 where
  pub clients : List (Text × ConnectedClient)
  pub pending_data : List (Text × ℕ)
  pub notified : List ServerEvent
  pub broadcast : List (Text × Message)

unfoldable pub new : ServerState
new = record { clients = []; pending_data = []; notified = []; broadcast = [] }

-- What a control connection says of itself: its number, and the handshake.
pub record Handshake : Type 0 where
  pub connection : ℕ
  pub name : Text
  pub screen_width : ℕ
  pub screen_height : ℕ

pub data HandshakeError : Type 0 where
  unsupported_version : ℕ → HandshakeError
  unexpected : HandshakeError

-- The first frame of a control connection: what is written back, and the handshake.
unfoldable pub on_handshake :
    (connection screen_width screen_height : ℕ)
    → Option Message
    → List Message × (HandshakeError ⊎ Handshake)
on_handshake connection width height (some (Message.handshake version name w h)) =
    if not (eqb version 1) then (Message.heartbeat ∷ [], inl (unsupported_version version)) else (
      Message.screen_config width height ∷ [],
      inr (record { connection = connection; name = name; screen_width = w; screen_height = h }),
    )
on_handshake connection width height other = ([], inl unexpected)

-- The control connection's wait for the data channel.
pub data Wait : Type 0 where
  connected : Wait
  again : (attempts : ℕ) → Wait
  timed_out : Wait

unfoldable pub poll_pending : ServerState → Handshake → (attempts : ℕ) → ServerState × Wait
poll_pending s k attempts = elim (lookup k.name s.pending_data) [
  | some data_tx ↦
      let client : ConnectedClient = record {
        name = k.name;
        control_tx = k.connection;
        data_tx = data_tx;
        screen_width = k.screen_width;
        screen_height = k.screen_height;
      } in
      (
        record s {
          pending_data = remove k.name s.pending_data;
          clients = insert k.name client s.clients;
          notified = s.notified ++ client_connected k.name ∷ [];
        },
        connected,
      )
  | none ↦ (s, if ltb 50 (attempts + 1) then timed_out else again (attempts + 1))
]

-- A frame on the control connection of a connected client.
unfoldable pub on_control : ServerState → Text → Message → ServerState
on_control s name Message.heartbeat = s
on_control s name m = record s { broadcast = s.broadcast ++ (name, m) ∷ [] }

-- The end of that connection: its end of stream, an error, or no heartbeat in time.
unfoldable pub cleanup : ServerState → Text → ServerState
cleanup s name = record s {
  clients = remove name s.clients;
  notified = s.notified ++ client_disconnected name ∷ [];
}

-- The first frame of a data connection.
unfoldable pub on_data_handshake :
    ServerState → (connection : ℕ) → Option Message → ServerState × Bool
on_data_handshake s connection (some (Message.handshake version name w h)) =
    (record s { pending_data = insert name connection s.pending_data }, true)
on_data_handshake s connection other = (s, false)

unfoldable pub on_data : ServerState → Text → Message → ServerState
on_data s name m = record s { broadcast = s.broadcast ++ (name, m) ∷ [] }

-- What is sent: on which channel, and the message.
unfoldable pub send_to_client : ServerState → Text → Message → List (ℕ × Message)
send_to_client s name m = elim (lookup name s.clients) [
  | none ↦ []
  | some c ↦ (c.control_tx, m) ∷ []
]

unfoldable pub send_data_to_client : ServerState → Text → Message → List (ℕ × Message)
send_data_to_client s name m = elim (lookup name s.clients) [
  | none ↦ []
  | some c ↦ (c.data_tx, m) ∷ []
]

unfoldable pub broadcast_control : ServerState → Message → List (ℕ × Message)
broadcast_control s m = map (λ p. (p.1.control_tx, m)) s.clients

unfoldable pub broadcast_data : ServerState → Message → List (ℕ × Message)
broadcast_data s m = map (λ p. (p.1.data_tx, m)) s.clients

-- main.rs: a captured event, forwarded to every client; deltas always, buttons and keys in remote mode.
unfoldable pub forward_input :
    ServerState → (is_remote : Bool) → WarpInputEvent → List (ℕ × Message)
unfolding broadcast_control broadcast_data
forward_input s is_remote (WarpInputEvent.boundary_enter x y) =
    broadcast_control s (Message.boundary_enter 1 x y)
forward_input s is_remote (WarpInputEvent.mouse_delta dx dy) =
    broadcast_data s (to_message (WarpInputEvent.mouse_delta dx dy))
forward_input s is_remote e = if is_remote then broadcast_data s (to_message e) else []

-- main.rs: what the listener of the events keeps.
pub record Presence : Type 0 where
  pub connected_clients : List Text
  pub has_client : Bool

unfoldable pub on_event : Presence → ServerEvent → Presence
on_event p (client_connected name) = record {
  connected_clients = p.connected_clients ++ name ∷ [];
  has_client = true;
}
on_event p (client_disconnected name) =
    let left = retain (λ c. not (c == name)) p.connected_clients in
    record { connected_clients = left; has_client = if is_empty left then false else p.has_client }
on_event p (client_paired name) = p
