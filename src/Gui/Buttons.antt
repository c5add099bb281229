-- ===== src/Gui/Buttons.antt =====
-- crates/ss-ui/src/app.rs: what the commands of the buttons can be.
use supershare.Base.{
  ℕ, ◌≡◌, ◌≢◌, ap, ◌∙◌, Bool, true, false, Option, none, some, [], ◌∷◌, ◌++◌, Text, codes, is_some,
  arith, ◌⊎◌,
}
use supershare.Base.Outcome.{err}
use supershare.Pairing.Client.{PairError}
use supershare.Base.Strings.{trim, trim-trim}
use supershare.Connect.{decimal}
use supershare.App.{
  SharedAppState, AppCommand, start_server, stop_server, disconnect_client, connect_client,
  pair_and_connect, Backend, Around,
}
use supershare.App.Resolve.{all_three, resolve_client_certs}
use supershare.App.Handler.{handle, on_connect_client, pairing_target, device_of}
use supershare.App.Trusted.{handle-pair_failed}
use supershare.App.Consistent.{IsConsistent}
use supershare.Gui.{
  Window, server_button, client_button, edit_address, server_status, client_status,
}

-- The server tab starts a server only if none is shown as running, with the settings of the window, and
-- with certificates that are all given or all left out; so that what it gives is never passed over.
pub server_button-start :
    (w w' : Window) (s : SharedAppState) (cp dp : ℕ) (cert key ca : Option Text) (pairing : Bool)
    → server_button w s ≡ (w', some (start_server cp dp cert key ca pairing))
    → (s.server_running ≡ false)
      × (w'.validation_error ≡ none)
      × (cp ≡ w.config.server.control_port)
      × ((is_some (all_three cert key ca) ≡ true) ⊎ ((cert ≡ none) × (key ≡ none) × (ca ≡ none)))
unfolding server_button
server_button-start w w' s cp dp cert key ca pairing h = ground arith

-- A window whose address, where there is one, is not empty; editing the address keeps it so.
abbrev pub IsAddressed : Window → Type 0
IsAddressed w = w.config.client.server_address ≢ some []

pub edit_address-IsAddressed : (w : Window) (address : Text) → IsAddressed (edit_address w address)
unfolding edit_address
edit_address-IsAddressed w [] e = absurd (ground arith)
edit_address-IsAddressed w (c ∷ cs) e = absurd (ground arith)

-- What the client tab may ask for.
abbrev pub IsSound : SharedAppState → AppCommand → Type 0
IsSound s disconnect_client = s.client_connected ≡ true
IsSound s (connect_client address cert key ca name) =
    (s.client_connected ≡ false) × (s.pairing_required ≡ false) × (address ≢ [])
IsSound s (pair_and_connect address pin name) =
    (s.client_connected ≡ false)
    × (s.pairing_required ≡ true)
    × (address ≢ [])
    × (pin ≢ [])
    × (trim pin ≡ pin)
IsSound s c = ⊥

-- In a window whose address is not an empty text, the client tab disconnects only a client that is
-- connected, connects only one that is not and of which no PIN is asked, and pairs only where a PIN is
-- asked for; it does so with an address that is not empty, and a PIN without blanks around it that is
-- not empty.
pub client_button-IsSound :
    (w w' : Window) (s : SharedAppState) (c : AppCommand)
    → IsAddressed w
    → client_button w s ≡ (w', some c)
    → IsSound s c
unfolding client_button
client_button-IsSound w w' s (start_server cp dp cert key ca pairing) h e = absurd (ground arith)
client_button-IsSound w w' s stop_server h e = absurd (ground arith)
client_button-IsSound w w' s disconnect_client h e = ground arith
client_button-IsSound w w' s (connect_client address cert key ca name) h e = ground arith
client_button-IsSound w w' s (pair_and_connect address pin name) h e =
    ground (arith, trim-trim w.pin_input)

-- While a PIN is asked for and no client is connected, the client tab can do nothing but pair; and as
-- long as the pairing fails, a PIN is asked for, nothing is started and no file is changed, also where
-- the address is that of a server that is known.
pub client_button_stuck :
    (w w' : Window) (a : Around) (b : Backend) (c : AppCommand)
    → b.state.client_connected ≡ false
    → b.state.pairing_required ≡ true
    → ((host : Text) (port : ℕ) (pin name : Text)
        → (e : PairError) × (a.pair host port pin name ≡ err e))
    → client_button w b.state ≡ (w', some c)
    → let b' = handle a b c in
      (b'.state.pairing_required ≡ true)
      × (b'.state.client_connected ≡ false)
      × (b'.effects ≡ b.effects)
      × (b'.disk ≡ b.disk)
client_button_stuck w w' a b (start_server cp dp cert key ca pairing) off asked fails e =
    absurd (unfold client_button in ground arith)
client_button_stuck w w' a b stop_server off asked fails e =
    absurd (unfold client_button in ground arith)
client_button_stuck w w' a b disconnect_client off asked fails e =
    absurd (unfold client_button in ground arith)
client_button_stuck w w' a b (connect_client address cert key ca name) off asked fails e =
    absurd (unfold client_button in ground arith)
client_button_stuck w w' a b (pair_and_connect address pin name) off asked fails e =
    let (host, port) = pairing_target address in
    let (why, failed) = fails host port pin (device_of a name) in
    let (disk, config, effects, state) = handle-pair_failed a b address pin name why failed in
    (
      ap (λ x. x.pairing_required) state ∙ asked,
      ap (λ x. x.client_connected) state ∙ off,
      effects,
      disk,
    )

-- The client tab does not ask for all three paths or none: where one or two are given, the command does
-- the same as without them.
pub handle-connect_partial :
    (a : Around) (b : Backend) (address name : Text) (cert key ca : Option Text)
    → all_three cert key ca ≡ none
    → handle a b (connect_client address cert key ca name)
      ≡ handle a b (connect_client address none none none name)
unfolding handle on_connect_client resolve_client_certs
handle-connect_partial a b address name cert key ca h = ground (arith, h)

-- In a state that the handler and the tasks can reach, the two tabs show the port and the address that
-- the state has, never what stands for one that is missing.
pub statuses_shown :
    (s : SharedAppState)
    → IsConsistent s
    → (s.server_running ≡ true
        → (port : ℕ) × (s.server_port ≡ some port)
          × (server_status s ≡ codes "Running (port " ++ (decimal port ++ codes ")")))
      × (s.client_connected ≡ true
          → (address : Text) × (s.client_server_addr ≡ some address)
            × (client_status s ≡ codes "Connected to " ++ address))
unfolding server_status client_status
statuses_shown s h = ground arith
