-- ===== src/Examples/Net.antt =====
-- Connections, the files of trust, addresses and retries.
use supershare.Base.{
  false, not, is_empty, ◌↔◌, ◌++◌, ◌≡◌, ◌≢◌, refl, true, some, none, List, [], ◌∷◌, codes, arith,
  list_eq, nat_eq,
}
use supershare.Base.Assoc.{lookup}
use supershare.Protocol.Kind.{Message}
use supershare.Base.{inr}
use supershare.Base.Outcome.{ok}
use supershare.App.{LinkConfig}
use supershare.Connect.Session.{hello, screen_of, first, hello-registered}
use supershare.Server.{
  client_connected, client_disconnected, on_event, on_handshake, ServerState, new, Handshake,
  connected, poll_pending, cleanup, on_data_handshake, send_to_client, send_data_to_client,
}
use supershare.Server.Registry.{client_of, cleanup_newer}
use supershare.Server.Refines.{view, run_view, sent_by, run-send_refines}
use supershare.Server.Steps.{
  Step, data_begins, poll, ended, tells, step, run, changes, listen, nobody, says, lists, has,
  run-Agrees,
}
use supershare.Config.{ServerConfig, ClientConfig, KnownServer, default_server}
use supershare.Config.Trust.{Disk, safe_name}

abbrev tv : Handshake
tv = record { connection = 7; name = codes "tv"; screen_width = 1280; screen_height = 720 }

abbrev steps : List Step
steps =
    data_begins 8 (some (Message.handshake 1 (codes "tv") 1280 720))
    ∷ poll tv 0
    ∷ ended (codes "tv")
    ∷ []

-- The same device connects again, while its old connection ends: the old one has changed the map, but tells
-- of it last.
abbrev race : List Step
race =
    data_begins 8 (some (Message.handshake 1 (codes "tv") 1280 720))
    ∷ ended (codes "tv")
    ∷ poll tv 0
    ∷ tells (client_connected (codes "tv"))
    ∷ tells (client_disconnected (codes "tv"))
    ∷ []

race_missed :
    (has (run new race) (codes "tv") ≡ true)
    × (lists (listen nobody (run new race).notified) (codes "tv") ≡ false)
unfolding new run step poll_pending cleanup on_data_handshake listen on_event
race_missed = (refl, refl)

run-Agrees_example :
    let t = run new race in
    let p = listen nobody t.notified in
    ((lists p (codes "tv") ≡ has t (codes "tv"))
      ↔ (says (codes "tv") false t.notified ≡ says (codes "tv") false (changes new race)))
    × (p.has_client ≡ not (is_empty p.connected_clients))
run-Agrees_example = run-Agrees race (codes "tv")

-- The same device, connected again.
abbrev tv_again : Handshake
tv_again = record { connection = 9; name = codes "tv"; screen_width = 1280; screen_height = 720 }

abbrev waiting : ServerState
waiting = record {
  clients = [];
  pending_data = (codes "tv", 10) ∷ [];
  notified = [];
  broadcast = [];
}

cleanup_newer_example :
    let hello = Message.handshake 1 (codes "tv") 1280 720 in
    let (joined, wait) = poll_pending (on_data_handshake waiting 10 (some hello)).0 tv_again 0 in
    let after = cleanup joined (codes "tv") in
    (wait ≡ connected)
    × (send_to_client joined (codes "tv") Message.heartbeat ≡ (9, Message.heartbeat) ∷ [])
    × (send_data_to_client joined (codes "tv") Message.heartbeat ≡ (10, Message.heartbeat) ∷ [])
    × (lookup (codes "tv") after.clients ≡ none)
    × (send_to_client after (codes "tv") Message.heartbeat ≡ [])
    × (send_data_to_client after (codes "tv") Message.heartbeat ≡ [])
    × (after.notified
        ≡ waiting.notified ++ client_connected (codes "tv") ∷ client_disconnected (codes "tv") ∷ [])
cleanup_newer_example = cleanup_newer waiting tv tv_again 0 10 1 1280 720 Message.heartbeat refl

abbrev disk : Disk
disk = record {
  files = [];
  modes = [];
  writable = λ path. true;
  owned = λ path. true;
  creatable = λ path. true;
}

dash_dot-same : safe_name (codes "my-pc.lan") ≡ safe_name (codes "my.pc.lan")
unfolding safe_name
dash_dot-same = refl

hosts-differ : safe_name (codes "a") ≢ safe_name (codes "b")
unfolding safe_name
hosts-differ = λ e. ground arith

abbrev office : KnownServer
office = record {
  address = codes "office";
  cert_path = codes "c";
  key_path = codes "k";
  ca_path = codes "a";
  server_fingerprint = [];
}

abbrev client_config : ClientConfig
client_config = record {
  server_address = none;
  cert_path = none;
  key_path = none;
  ca_path = none;
  device_name = codes "tv";
  known_servers = office ∷ [];
}

abbrev server_config : ServerConfig
server_config = record default_server {
  paired_clients = record { name = codes "tv"; cert_fingerprint = codes "f1"; paired_at = 0 } ∷ [];
}

abbrev tv_link : LinkConfig
tv_link = record {
  server_address = codes "studio";
  cert_path = codes "a.pem";
  key_path = codes "a-key.pem";
  ca_path = codes "a-ca.pem";
  device_name = codes "tv";
  screen_width = 1280;
  screen_height = 720;
}

hello-registered_example :
    let (answers, taken) = on_handshake 7 1920 1080 (some (hello tv_link)) in
    let (s', wait) = poll_pending (on_data_handshake new 8 (some (hello tv_link))).0 tv 0 in
    (taken ≡ inr tv)
    × (screen_of (first answers) ≡ ok (1920, 1080))
    × (wait ≡ connected)
    × (lookup (codes "tv") s'.clients ≡ some (client_of tv 8))
hello-registered_example = hello-registered new tv_link 7 8 1920 1080 0

run-send_refines_example :
    let t = run new steps in
    let v = run_view (view new) steps in
    (view t ≡ v)
    × (send_to_client t (codes "tv") Message.heartbeat
        ≡ sent_by (λ c. c.control_tx) v (codes "tv") Message.heartbeat)
    × (send_data_to_client t (codes "tv") Message.heartbeat
        ≡ sent_by (λ c. c.data_tx) v (codes "tv") Message.heartbeat)
run-send_refines_example = run-send_refines steps new (codes "tv") Message.heartbeat
