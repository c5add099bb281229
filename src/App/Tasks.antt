-- ===== src/App/Tasks.antt =====
-- src/main.rs: what the tasks that a command sets going do to the shared state and the files; and the order
-- in which all of them change it, which is any.
use supershare.Base.{ℕ, Bool, false, none, some, [], ◌++◌, Text, codes}
use supershare.Config.{AppConfig, upsert_paired_client}
use supershare.Config.Trust.{Disk}
use supershare.Config.Store.{Platform, load, save}
use supershare.Pairing.Pin.{PinManager, current_pin}
use supershare.Pairing.Server.{PairedClient}
use supershare.Server.{ServerEvent, on_event}
use supershare.App.{SharedAppState, AppCommand, Backend, Around, default_state}
use supershare.App.Handler.{handle}
use supershare.App.Link.{Link, LinkEvent, step}

-- The server's task ends with an error.
unfoldable pub serve_failed : SharedAppState → Text → SharedAppState
serve_failed s e = record s {
  last_error = some (codes "Server error: " ++ e);
  server_running = false;
  server_port = none;
}

-- Once a second.
unfoldable pub tick : PinManager → (now seed : ℕ) → SharedAppState → PinManager × SharedAppState
unfolding current_pin
tick m now seed s =
    let (m', pin) = current_pin m now seed in (m', record s { pairing_pin = some pin })

-- A client that has paired goes into the configuration as the file has it.
unfoldable pub persist_paired : Platform → Disk → PairedClient → Disk
unfolding load save upsert_paired_client
persist_paired p d paired =
    let config = load p d in
    (save p d (record config { server = upsert_paired_client config.server paired })).0

-- The listener of the server's events, which also sets the flag of the capture.
unfoldable pub on_server_event :
    SharedAppState → (has_client : Bool) → ServerEvent → SharedAppState × Bool
unfolding on_event
on_server_event s has_client event =
    let p =
      on_event (record { connected_clients = s.connected_clients; has_client = has_client })
        event in
    (record s { connected_clients = p.connected_clients }, p.has_client)

-- One change, by the handler or by a task; each holds the lock of the state for as long as it takes.
pub data Change (b : Backend) : Backend → Type 0 where
  command : (a : Around) (c : AppCommand) → Change b (handle a b c)
  server_ends : (e : Text) → Change b (record b { state = serve_failed b.state e })
  pin_shown :
      (m : PinManager) (now seed : ℕ) → Change b (record b { state = (tick m now seed b.state).1 })
  client_paired :
      (p : Platform) (paired : PairedClient)
      → Change b (record b { disk = persist_paired p b.disk paired })
  server_event :
      (has_client : Bool) (event : ServerEvent)
      → Change b (record b { state = (on_server_event b.state has_client event).0 })
  link_step :
      (l : Link) (event : LinkEvent) → Change b (record b { state = (step l b.state event).1 })

-- Any number of changes.
pub data Reach (b : Backend) : Backend → Type 0 where
  here : Reach b b
  next : {b' b'' : Backend} → Reach b b' → Change b' b'' → Reach b b''

-- As the window opens.
abbrev pub opened : AppConfig → Disk → Backend
opened config disk = record {
  state = default_state;
  config = config;
  disk = disk;
  server_shutdown = false;
  client_shutdown = false;
  effects = [];
}
