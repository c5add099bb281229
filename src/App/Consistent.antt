-- ===== src/App/Consistent.antt =====
-- src/main.rs: what holds of the shared state in any order of the handler's and the tasks' changes.
use supershare.Base.{◌≡◌, true, is_some}
use supershare.App.{SharedAppState}
use supershare.App.Link.{Link}

-- A server that runs has a port, and only then; a client that is connected has an address.
abbrev pub IsConsistent : SharedAppState → Type 0
IsConsistent s =
    (s.server_running ≡ is_some s.server_port)
    × ((s.client_connected ≡ true) → is_some s.client_server_addr ≡ true)
