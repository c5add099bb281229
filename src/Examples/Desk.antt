-- ===== src/Examples/Desk.antt =====
-- The window, the command handler and the client's connection.
use supershare.Base.{
  ◌≡◌, ◌≢◌, ◌≤◌, refl, true, false, some, none, [], ◌∷◌, ◌++◌, Text, codes, arith, list_eq, nat_eq,
}
use supershare.Base.Assoc.{lookup}
use supershare.Base.Outcome.{ok}
use supershare.Base.Strings.{is_whitespace, trim}
use supershare.Config.{AppConfig, default_config, default_client, find_known_server}
use supershare.Config.Trust.{trust_paths}
use supershare.Config.Store.{load}
use supershare.Connect.{max_backoff}
use supershare.Pairing.Client.{bad_pin}
use supershare.App.{
  Backend, Around, default_state, disconnect_client, pair_and_connect, connect_client,
}
use supershare.Config.{upsert_known_server}
use supershare.App.Handler.{known_server, handle, link_with, device_of}
use supershare.App.Link.{
  Link, over, connected, established, closed, woke, timed_out, spawn_client_connection, run,
}
use supershare.App.Link.Waits.{run-established_lasts, handle-disconnect_undone}
use supershare.App.Trusted.{trust_home, handle-pair_Trusted}
use supershare.App.Headless.{run_headless_client}
use supershare.App.Headless.Again.{remembered, run_headless_client_again}
use supershare.Gui.{Window, client_button, edit_address}
use supershare.Gui
use supershare.Gui.Buttons.{IsSound, client_button-IsSound, client_button_stuck}
use supershare.Examples.DeskParams.{
  desk_disk, config, platform, material, try_pin, around, server_address, start, never,
}

abbrev paired : Backend
paired =
    handle (around try_pin) start
      (pair_and_connect server_address (codes "123456") (codes "laptop"))

-- Later, with a failure shown.
abbrev again : Backend
again = record paired { state = record paired.state { pairing_required = true } }

handle-pair_Trusted_example :
    let p = trust_paths (trust_home (codes "home")) server_address in
    let dev = device_of (around try_pin) (codes "laptop") in
    let b' =
      handle
        (around try_pin)
        start
        (pair_and_connect server_address (codes "123456") (codes "laptop")) in
    let b'' =
      handle
        (around try_pin)
        again
        (connect_client server_address none none none (codes "laptop")) in
    (b'.effects ≡ start.effects ++ link_with (around try_pin) server_address dev p ∷ [])
    × (lookup p.cert_path b'.disk.files ≡ some material.client_cert_pem)
    × (lookup p.key_path b'.disk.files ≡ some material.client_key_pem)
    × (lookup p.ca_path b'.disk.files ≡ some material.ca_cert_pem)
    × (b''.effects
        ≡ again.effects ++ link_with (around try_pin) server_address (codes "laptop") p ∷ [])
    × (b''.state.pairing_required ≡ false)
handle-pair_Trusted_example =
    handle-pair_Trusted (around try_pin) (around try_pin) start again server_address
      (codes "123456") (codes "laptop") (codes "laptop") (codes "home") material refl refl
      (refl, refl, refl) refl refl

abbrev asking : Backend
asking = record start { state = record default_state { pairing_required = true } }

abbrev window : Window
window = record (edit_address (Gui.new config) server_address) { pin_input = codes " 1 " }

client_button_stuck_example :
    let b' =
      handle
        (around never)
        asking
        (pair_and_connect server_address (codes "1") (codes "unknown")) in
    (b'.state.pairing_required ≡ true)
    × (b'.state.client_connected ≡ false)
    × (b'.effects ≡ asking.effects)
    × (b'.disk ≡ asking.disk)
client_button_stuck_example =
    client_button_stuck window window (around never) asking
      (pair_and_connect server_address (codes "1") (codes "unknown")) refl refl
      (λ host port pin name. (bad_pin, refl))
      (unfold client_button is_whitespace edit_address Gui.new default_config default_client in
        refl)

client_button-IsSound_example :
    IsSound asking.state (pair_and_connect server_address (codes "1") (codes "unknown"))
client_button-IsSound_example =
    client_button-IsSound window window asking.state
      (pair_and_connect server_address (codes "1") (codes "unknown"))
      (unfold edit_address in λ e. absurd (ground arith))
      (unfold client_button is_whitespace edit_address Gui.new default_config default_client in
        refl)

abbrev attempt : Link
attempt = spawn_client_connection server_address

run-established_lasts_example :
    let (l', s') = run attempt default_state (established none ∷ closed ∷ woke ∷ timed_out ∷ []) in
    (l'.phase ≢ over) × (1 ≤ l'.backoff) × (l'.backoff ≤ max_backoff)
run-established_lasts_example =
    run-established_lasts attempt default_state none (closed ∷ woke ∷ timed_out ∷ [])
      (unfold spawn_client_connection in refl)

abbrev attached : Link
attached = record {
  server_address = server_address;
  backoff = 1;
  first_attempt = false;
  phase = connected;
}

handle-disconnect_undone_example :
    let quiet = (handle (around never) start disconnect_client).state in
    let (l', s') = run attached quiet (closed ∷ woke ∷ established none ∷ []) in
    (quiet.client_connected ≡ false)
    × (l'.phase ≡ connected)
    × (s'.client_connected ≡ true)
    × (s'.client_server_addr ≡ some server_address)
handle-disconnect_undone_example = handle-disconnect_undone (around never) start attached none refl

abbrev moved : Backend
moved =
    handle (around try_pin) start
      (pair_and_connect server_address (codes "123456") (codes "laptop"))

abbrev paired_config : AppConfig
paired_config =
    remembered (around try_pin) config server_address material
      (trust_paths (trust_home (codes "home")) server_address)

-- The platform whose toml has read that configuration.
abbrev laptop : Around
laptop = record (around try_pin) {
  platform = record platform { from_toml = λ t. some paired_config };
}

run_headless_client_again_example :
    let p = trust_paths (trust_home (codes "home")) server_address in
    let (d', started) =
      run_headless_client laptop server_address none none none
        (codes "laptop")
        true
        (codes "123456\n")
        desk_disk in
    (started ≡ ok (link_with laptop server_address (codes "laptop") p))
    × ((later typed' : Text)
        → run_headless_client laptop server_address none none none later false typed' d'
          ≡ (d', ok (link_with laptop server_address later p)))
run_headless_client_again_example =
    run_headless_client_again laptop desk_disk server_address (codes "laptop") (codes "123456\n")
      (codes "home") (codes "toml") material refl refl refl refl (refl, refl, refl)
      (unfold load default_config default_client find_known_server in refl)
      (unfold trim is_whitespace in refl) refl
      (unfold load default_config default_client upsert_known_server known_server in refl)
