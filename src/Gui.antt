-- ===== src/Gui.antt =====
-- crates/ss-ui/src/app.rs: the window, what it shows of the shared state, and what its buttons ask for.
-- egui draws the widgets and tells which of them was used.
pub mod Buttons
use supershare.Base.{
  ℕ, ◌+◌, ◌*◌, ◌/◌, ◌%◌, ◌^◌, Bool, true, false, ◌&&◌, ◌||◌, not, Option, none, some, List, [], ◌∷◌,
  ◌++◌, Text, codes, eqb, leb, ltb, is_some, is_empty, length, if◌then◌else◌, unwrap_or,
}
use supershare.Base.Strings.{trim}
use supershare.Config.{FilePath, AppConfig}
use supershare.Connect.{decimal}
use supershare.App.{
  SharedAppState, AppCommand, start_server, stop_server, disconnect_client, connect_client,
  pair_and_connect,
}

pub data Tab : Type 0 where
  server client clipboard : Tab

-- `SuperShareApp`, without the two ends that it shares with the command handler.
pub record Window : Type 0 where
  pub config : AppConfig
  pub selected_tab : Tab
  pub validation_error : Option Text
  pub pin_input : Text

unfoldable pub new : AppConfig → Window
new config = record {
  config = config;
  selected_tab = server;
  validation_error = none;
  pin_input = [];
}

-- The PIN on the server tab.
unfoldable pub shown_pin : Window → SharedAppState → Option Text
shown_pin w s = if s.server_running && w.config.server.pairing_enabled then s.pairing_pin else none

-- The button of the server tab, and its command.
unfoldable pub server_button : Window → SharedAppState → Window × Option AppCommand
server_button w s =
    let c = w.config.server in
    let any = is_some c.cert_path || is_some c.key_path || is_some c.ca_path in
    let all = is_some c.cert_path && is_some c.key_path && is_some c.ca_path in
    if s.server_running
    then (w, some stop_server)
    else if any && not all
    then (
      record w {
        validation_error =
            some (codes "Provide all three (cert, key, CA) or leave all blank to auto-generate.");
      },
      none,
    )
    else (
      record w { validation_error = none },
      some (
          start_server c.control_port c.data_port c.cert_path c.key_path c.ca_path
            c.pairing_enabled),
    )

unfoldable pub server_status : SharedAppState → Text
unfolding decimal
server_status s =
    if s.server_running
    then codes "Running (port " ++ (decimal (unwrap_or s.server_port 0) ++ codes ")")
    else codes "Stopped"

-- The field of the address, with the text that it has after a frame.
unfoldable pub edit_address : Window → Text → Window
edit_address w address = record w {
  config = record w.config {
    client = record w.config.client {
      server_address = if is_empty address then none else some address;
    };
  };
}

abbrev invalid : Window → Text → Window × Option AppCommand
invalid w e = (record w { validation_error = some e }, none)

-- The button of the client tab: Disconnect, Pair & Connect or Connect.
unfoldable pub client_button : Window → SharedAppState → Window × Option AppCommand
unfolding trim
client_button w s =
    let c = w.config.client in
    let valid = record w { validation_error = none } in
    if s.client_connected then (w, some disconnect_client) else elim c.server_address [
      | none ↦ invalid w (codes "Please enter the server address.")
      | some address ↦
          if s.pairing_required
          then (if is_empty (trim w.pin_input)
              then invalid w (codes "Please enter the pairing PIN.")
              else (valid, some (pair_and_connect address (trim w.pin_input) c.device_name)))
          else (valid, some (connect_client address c.cert_path c.key_path c.ca_path c.device_name))
    ]

-- Whether the client tab asks for a PIN.
unfoldable pub asks_pin : SharedAppState → Bool
asks_pin s = s.pairing_required && not s.client_connected

unfoldable pub client_status : SharedAppState → Text
client_status s =
    if s.client_connected
    then codes "Connected to " ++ unwrap_or s.client_server_addr (codes "unknown")
    else codes "Disconnected"

-- The clipboard tab, whenever it is shown: `drag` is what the field makes of the number of megabytes.
unfoldable pub show_clipboard_tab : (drag : ℕ → ℕ) → (text image : Bool) → Window → Window
show_clipboard_tab drag text image w =
    let max_mb = drag (w.config.clipboard.max_image_size / (1024 * 1024) % 2 ^ 32) in
    record w {
      config = record w.config {
        clipboard = record {
          text_enabled = text;
          image_enabled = image;
          max_image_size = max_mb * 1024 * 1024;
        };
      };
    }

-- A row for a path: Browse, with the file that was picked, and the button that clears it.
unfoldable pub cert_path_row :
    (enabled : Bool)
    → (browse : Option (Option FilePath)) → (clear : Bool) → Option FilePath
    → Option FilePath
cert_path_row enabled browse clear path =
    let picked : Option FilePath = elim browse [
      | none ↦ path
      | some none ↦ path
      | some (some file) ↦ if enabled then some file else path
    ] in
    if is_some picked && enabled && clear then none else picked

-- `mpsc::channel(16)` and `try_send`: a command that finds no room is dropped.
unfoldable pub send_command : List AppCommand → Option AppCommand → List AppCommand
send_command queue none = queue
send_command queue (some c) = if ltb (length queue) 16 then queue ++ c ∷ [] else queue
