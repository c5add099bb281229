-- ===== src/Server/Refines.antt =====
-- crates/ss-network/src/server.rs: the registry seen as two maps from names, over the steps of all
-- connections in any order, and what is sent to a name.
use mathlib.Core.Path.{fun_ext}
use supershare.Base.{
  ℕ, ◌≡◌, refl, ◌∙◌, ap, ap₂, Option, none, some, List, [], ◌∷◌, Text, if◌then◌else◌, ◌==◌, list_eq,
  nat_eq, Option-cases, inl, inr,
}
use supershare.Base.Assoc.{lookup, remove, insert, lookup-insert_if, lookup-remove_if}
use supershare.Protocol.Kind.{Message}
use supershare.Server.{
  ServerState, Handshake, ConnectedClient, poll_pending, on_control, cleanup, on_data_handshake,
  on_data, send_to_client, send_data_to_client,
}
use supershare.Server.Registry.{client_of}
use supershare.Server.Steps.{Step, poll, control, ended, data_begins, data_frame, tells, step, run}

-- Who is connected, and whose data channel waits.
pub record View : Type 0 where
  pub clients : Text → Option ConnectedClient
  pub pending : Text → Option ℕ

abbrev pub view : ServerState → View
view s = record { clients = λ n. lookup n s.clients; pending = λ n. lookup n s.pending_data }

-- A map, changed at one name.
abbrev pub set {ℓ} : {A : Type ℓ} → Text → Option A → (Text → Option A) → Text → Option A
set k o f n = if k == n then o else f n

-- The same steps, on the maps: a data channel waits under its name; a control connection that finds it
-- takes it and is listed; a connection that ends is listed no more.
unfoldable pub step_view : View → Step → View
step_view v (poll k attempts) = elim (v.pending k.name) [
  | none ↦ v
  | some data_tx ↦ record {
    clients = set k.name (some (client_of k data_tx)) v.clients;
    pending = set k.name none v.pending;
  }
]
step_view v (data_begins connection (some (Message.handshake version name w h))) = record v {
  pending = set name (some connection) v.pending;
}
step_view v (ended name) = record v { clients = set name none v.clients }
step_view v other = v

unfoldable pub run_view : View → List Step → View
unfolding step_view
run_view v [] = v
run_view v (e ∷ es) = run_view (step_view v e) es

view-ext : (v w : View) → v.clients ≡ w.clients → v.pending ≡ w.pending → v ≡ w
view-ext v w a b = ap₂ (λ c p. record { clients = c; pending = p }) a b

poll-step_view :
    (s : ServerState) (k : Handshake) (attempts : ℕ)
    → view (poll_pending s k attempts).0 ≡ step_view (view s) (poll k attempts)
unfolding poll_pending step_view
poll-step_view s k attempts = elim (Option-cases (lookup k.name s.pending_data)) [
  | inl nothing ↦ rw (nothing, poll_pending, step_view) refl
  | inr (data_tx, found) ↦
      rw (found, poll_pending, step_view)
        (view-ext
          (view (record s {
            clients = insert k.name (client_of k data_tx) s.clients;
            pending_data = remove k.name s.pending_data;
          }))
          (record {
            clients = set k.name (some (client_of k data_tx)) (view s).clients;
            pending = set k.name none (view s).pending;
          })
          (fun_ext λ n. lookup-insert_if k.name n (client_of k data_tx) s.clients)
          (fun_ext λ n. lookup-remove_if k.name n s.pending_data))
]

data_begins-step_view :
    (s : ServerState) (connection : ℕ) (first : Option Message)
    → view (on_data_handshake s connection first).0
      ≡ step_view (view s) (data_begins connection first)
unfolding on_data_handshake step_view
data_begins-step_view s connection none = refl
data_begins-step_view s connection (some (Message.handshake version name w h)) =
    view-ext (view (record s { pending_data = insert name connection s.pending_data }))
      (record (view s) { pending = set name (some connection) (view s).pending }) refl
      (fun_ext λ n. lookup-insert_if name n connection s.pending_data)
data_begins-step_view s connection (some _) = refl

control-step_view :
    (s : ServerState) (name : Text) (m : Message) → view (on_control s name m) ≡ view s
unfolding on_control
control-step_view s name Message.heartbeat = refl
control-step_view s name _ = refl

step-step_view : (s : ServerState) (e : Step) → view (step s e) ≡ step_view (view s) e
unfolding step step_view cleanup on_data
step-step_view s (poll k attempts) = poll-step_view s k attempts
step-step_view s (control name m) = control-step_view s name m
step-step_view s (ended name) =
    view-ext (view (record s { clients = remove name s.clients }))
      (record (view s) { clients = set name none (view s).clients })
      (fun_ext λ n. lookup-remove_if name n s.clients) refl
step-step_view s (data_begins connection first) = data_begins-step_view s connection first
step-step_view s (data_frame name m) = refl
step-step_view s (tells event) = refl

-- The steps of any connections, in any order: the registry looks up what the two maps have that make the
-- same steps.
pub run_refines :
    (steps : List Step) (s : ServerState) → view (run s steps) ≡ run_view (view s) steps
unfolding run run_view
run_refines [] s = refl
run_refines (e ∷ es) s = run_refines es (step s e) ∙ ap (λ v. run_view v es) (step-step_view s e)

-- What a message to a name is sent on, by the map of clients.
abbrev pub sent_by : (ConnectedClient → ℕ) → View → Text → Message → List (ℕ × Message)
sent_by channel v name m = elim (v.clients name) [ none ↦ [] | some c ↦ (channel c, m) ∷ [] ]

-- From any registry, after the steps of any connections in any order, the names have the clients and the
-- waiting data channels that the two maps give them which make the same steps; and a message to a
-- name goes to the control or data channel of the client that the map of clients has, or nowhere.
pub run-send_refines :
    (steps : List Step) (s : ServerState) (name : Text) (m : Message)
    → let t = run s steps in
      let v = run_view (view s) steps in
      (view t ≡ v)
      × (send_to_client t name m ≡ sent_by (λ c. c.control_tx) v name m)
      × (send_data_to_client t name m ≡ sent_by (λ c. c.data_tx) v name m)
unfolding send_to_client send_data_to_client
run-send_refines steps s name m =
    let same = run_refines steps s in
    (
      same,
      ap (λ v. sent_by (λ c. c.control_tx) v name m) same,
      ap (λ v. sent_by (λ c. c.data_tx) v name m) same,
    )
