-- ===== src/App/Link.antt =====
-- src/main.rs: `spawn_client_connection`, the task that keeps a client connected, cut where it waits.
pub mod Waits
use supershare.Base.{
  ℕ, Bool, true, false, Option, none, some, List, [], ◌∷◌, ◌++◌, Text, codes, if◌then◌else◌,
}
use supershare.Connect.{next_backoff, decimal}
use supershare.App.{SharedAppState}

-- What the task waits for: a connection, its end, or the end of a pause. Or it is over.
pub data Phase : Type 0 where
  connecting connected over : Phase
  paused : (seconds : ℕ) → Phase

pub record Link : Type 0 where
  pub server_address : Text
  pub backoff : ℕ
  pub first_attempt : Bool
  pub phase : Phase

unfoldable pub spawn_client_connection : Text → Link
spawn_client_connection server_address = record {
  server_address = server_address;
  backoff = 1;
  first_attempt = true;
  phase = connecting;
}

pub data LinkEvent : Type 0 where
  established : (server_screen : Option (ℕ × ℕ)) → LinkEvent
  failed : (error : Text) → LinkEvent
  timed_out closed woke : LinkEvent

abbrev with_error : Text → SharedAppState → SharedAppState
with_error e s = record s { last_error = some e }

-- The pause, and the longer one that would follow it.
unfoldable pub pause : Link → Link
unfolding next_backoff
pause l = record l { phase = paused l.backoff; backoff = next_backoff l.backoff }

abbrev seconds_text : Link → Text
seconds_text l = decimal l.backoff ++ codes "s..."

-- An attempt that came to nothing: the first is the last, a later one is made again.
unfoldable pub not_connected : Link → SharedAppState → Text → Link × SharedAppState
unfolding pause decimal
not_connected l s error =
    if l.first_attempt
    then (record l { phase = over }, with_error error (record s { client_connected = false }))
    else (pause l, with_error (codes "Reconnecting in " ++ seconds_text l) s)

-- An event that comes when the task does not wait for it is not seen.
unfoldable pub step : Link → SharedAppState → LinkEvent → Link × SharedAppState
unfolding not_connected pause decimal
step l s event = elim l.phase [
  | over ↦ (l, s)
  | connecting ↦ elim event [
    | established screen ↦ (
      record l { backoff = 1; first_attempt = false; phase = connected },
      record s {
        client_connected = true;
        client_server_addr = some l.server_address;
        server_screen_size = screen;
        last_error = none;
      },
    )
    | failed error ↦ not_connected l s (codes "Connection failed: " ++ error)
    | timed_out ↦ not_connected l s (codes "Connection timed out (10s)")
    | closed ↦ (l, s)
    | woke ↦ (l, s)
  ]
  | connected ↦ elim event [
    | closed ↦ (
      pause l,
      with_error (codes "Connection lost, reconnecting in " ++ seconds_text l)
          (record s { client_connected = false }),
    )
    | _ ↦ (l, s)
  ]
  | paused seconds ↦ elim event [ woke ↦ (record l { phase = connecting }, s) | _ ↦ (l, s) ]
]

unfoldable pub run : Link → SharedAppState → List LinkEvent → Link × SharedAppState
unfolding step
run l s [] = (l, s)
run l s (event ∷ events) = let (l', s') = step l s event in run l' s' events
