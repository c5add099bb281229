-- ===== src/Server/Steps.antt =====
-- crates/ss-network/src/server.rs and src/main.rs: the steps of all connections in any order.
use supershare.Base.{
  none, sym, ◌∙◌, ap, Bool, append-nil, ◌↔◌, ℕ, ◌≡◌, refl, true, false, not, ◌||◌, Option, some,
  List, [], ◌∷◌, ◌++◌, Text, if◌then◌else◌, is_empty, retain, any, is_some, ◌==◌, ==_iff, list_eq,
  nat_eq, arith, Option-cases, inl, inr,
}
use supershare.Base.Assoc.{lookup, lookup-insert_if, lookup-remove_if}
use supershare.Protocol.Kind.{Message}
use supershare.Server.{
  ServerState, Handshake, ServerEvent, client_paired, client_connected, client_disconnected,
  poll_pending, on_control, cleanup, on_data_handshake, on_data, Presence, on_event, new,
}

-- A connection changes the map under its lock, and tells of it afterwards: two steps, between which other
-- connections may make theirs. `tells` is any event that is on its way.
pub data Step : Type 0 where
  poll : (handshake : Handshake) (attempts : ℕ) → Step
  control : (name : Text) (m : Message) → Step
  ended : (name : Text) → Step
  data_begins : (connection : ℕ) (first : Option Message) → Step
  data_frame : (name : Text) (m : Message) → Step
  tells : (event : ServerEvent) → Step

unfoldable pub step : ServerState → Step → ServerState
unfolding poll_pending on_control cleanup on_data_handshake on_data
step s (poll k attempts) = record (poll_pending s k attempts).0 { notified = s.notified }
step s (control name m) = on_control s name m
step s (ended name) = record (cleanup s name) { notified = s.notified }
step s (data_begins connection first) = (on_data_handshake s connection first).0
step s (data_frame name m) = on_data s name m
step s (tells event) = record s { notified = s.notified ++ event ∷ [] }

unfoldable pub run : ServerState → List Step → ServerState
unfolding step
run s [] = s
run s (e ∷ es) = run (step s e) es

-- The event that the connection of a step tells of afterwards, if the step changes the map of clients.
unfoldable pub owes : ServerState → Step → List ServerEvent
owes s (poll k attempts) = elim (lookup k.name s.pending_data) [
  | none ↦ []
  | some data_tx ↦ client_connected k.name ∷ []
]
owes s (ended name) = client_disconnected name ∷ []
owes s other = []

-- `poll_pending` and `cleanup`, when nothing comes between their two steps.
pub owes-notified :
    (s : ServerState) (k : Handshake) (attempts : ℕ) (name : Text)
    → ((poll_pending s k attempts).0.notified ≡ s.notified ++ owes s (poll k attempts))
      × ((cleanup s name).notified ≡ s.notified ++ owes s (ended name))
unfolding cleanup poll_pending owes
owes-notified s k attempts name = (
  elim (Option-cases (lookup k.name s.pending_data)) [
    | inl e ↦ rw (e, poll_pending, owes) (sym (append-nil s.notified))
    | inr (d, e) ↦ rw (e, poll_pending, owes) refl
  ],
  unfold owes in refl,
)

-- The events in the order in which the map was changed.
unfoldable pub changes : ServerState → List Step → List ServerEvent
unfolding step owes
changes s [] = []
changes s (e ∷ es) = owes s e ++ changes (step s e) es

-- The listener, after all events that were sent.
unfoldable pub listen : Presence → List ServerEvent → Presence
unfolding on_event
listen p [] = p
listen p (e ∷ es) = listen (on_event p e) es

abbrev pub nobody : Presence
nobody = record { connected_clients = []; has_client = false }

pub listen-append :
    (p : Presence) (es : List ServerEvent) (e : ServerEvent)
    → listen p (es ++ e ∷ []) ≡ on_event (listen p es) e
unfolding listen
listen-append p [] e = refl
listen-append p (d ∷ es) e = listen-append (on_event p d) es e

-- Whether the events say that a client is connected: the last that names it, or what was known before.
abbrev pub says : Text → Bool → List ServerEvent → Bool
says n known [] = known
says n known (client_connected name ∷ es) = says n (if name == n then true else known) es
says n known (client_paired name ∷ es) = says n known es
says n known (client_disconnected name ∷ es) = says n (if name == n then false else known) es

-- Whether the listener lists a client.
abbrev pub lists : Presence → Text → Bool
lists p n = any (λ c. c == n) p.connected_clients

any-append :
    (n m : Text) (xs : List Text)
    → any (λ c. c == n) (xs ++ m ∷ []) ≡ any (λ c. c == n) xs || (m == n)
any-append n m [] = ground arith
any-append n m (x ∷ xs) = ground (arith, any-append n m xs)

any-retain :
    (n m : Text) (xs : List Text)
    → any (λ c. c == n) (retain (λ c. not (c == m)) xs)
      ≡ (if m == n then false else any (λ c. c == n) xs)
any-retain n m [] = ground arith
any-retain n m (x ∷ xs) = ground (arith, any-retain n m xs, ==_iff x m, ==_iff x n, ==_iff m n)

is_empty-append : (xs : List Text) (x : Text) → is_empty (xs ++ x ∷ []) ≡ false
is_empty-append [] x = refl
is_empty-append (y ∷ ys) x = refl

is_empty-retain :
    (m : Text) (xs : List Text)
    → is_empty xs ≡ true
    → is_empty (retain (λ c. not (c == m)) xs) ≡ true
is_empty-retain m [] h = refl
is_empty-retain m (x ∷ xs) h = absurd (ground arith)

listen-lists :
    (n : Text) (p : Presence) (es : List ServerEvent)
    → lists (listen p es) n ≡ says n (lists p n) es
unfolding listen on_event
listen-lists n p [] = refl
listen-lists n p (client_connected name ∷ es) =
    listen-lists n (on_event p (client_connected name)) es
    ∙ ap (λ known. says n known es) (any-append n name p.connected_clients ∙ ground arith)
listen-lists n p (client_paired name ∷ es) = listen-lists n (on_event p (client_paired name)) es
listen-lists n p (client_disconnected name ∷ es) =
    listen-lists n (on_event p (client_disconnected name)) es
    ∙ ap (λ known. says n known es) (any-retain n name p.connected_clients)

-- The capture may enter remote mode exactly if a client is listed.
listen-has_client :
    (p : Presence) (es : List ServerEvent)
    → p.has_client ≡ not (is_empty p.connected_clients)
    → (listen p es).has_client ≡ not (is_empty (listen p es).connected_clients)
unfolding listen on_event
listen-has_client p [] h = h
listen-has_client p (client_connected name ∷ es) h =
    listen-has_client (on_event p (client_connected name)) es
      (ground (arith, is_empty-append p.connected_clients name))
listen-has_client p (client_paired name ∷ es) h =
    listen-has_client (on_event p (client_paired name)) es h
listen-has_client p (client_disconnected name ∷ es) h =
    listen-has_client (on_event p (client_disconnected name)) es
      (ground (arith, h, is_empty-retain name p.connected_clients))

says-append :
    (n : Text) (known : Bool) (es fs : List ServerEvent)
    → says n known (es ++ fs) ≡ says n (says n known es) fs
says-append n known [] fs = refl
says-append n known (client_connected name ∷ es) fs =
    says-append n (if name == n then true else known) es fs
says-append n known (client_paired name ∷ es) fs = says-append n known es fs
says-append n known (client_disconnected name ∷ es) fs =
    says-append n (if name == n then false else known) es fs

-- Whether the map of clients has a name.
abbrev pub has : ServerState → Text → Bool
has s n = is_some (lookup n s.clients)

step-has : (n : Text) (s : ServerState) (e : Step) → has (step s e) n ≡ says n (has s n) (owes s e)
unfolding step on_control cleanup on_data_handshake on_data owes
step-has n s (poll k attempts) = elim (Option-cases (lookup k.name s.pending_data)) [
  | inl e ↦ rw (e, step, poll_pending, owes) refl
  | inr (d, e) ↦
      rw (e, step, poll_pending, owes, lookup-insert_if k.name n _ s.clients) (ground arith)
]
step-has n s (control name m) = ground arith
step-has n s (ended name) = rw (lookup-remove_if name n s.clients) (ground arith)
step-has n s (data_begins connection first) = ground arith
step-has n s (data_frame name m) = refl
step-has n s (tells event) = refl

run-has :
    (n : Text) (s : ServerState) (es : List Step)
    → has (run s es) n ≡ says n (has s n) (changes s es)
unfolding run changes
run-has n s [] = refl
run-has n s (e ∷ es) =
    run-has n (step s e) es
    ∙ (ap (λ known. says n known (changes (step s e) es)) (step-has n s e)
        ∙ sym (says-append n (has s n) (owes s e) (changes (step s e) es)))

-- From a new server, after any steps of the connections in any order, with the changes of the map and the
-- events that tell of them apart: the listener is right about a name, that it lists it exactly if the map
-- has it, if and only if the last event that it heard of the name is of the same kind, connected or
-- disconnected, as the last change of the map at it (a name without either is disconnected). And the
-- listener lets the capture into remote mode exactly if it lists a client.
pub run-Agrees :
    (es : List Step) (n : Text)
    → let t = run new es in
      let p = listen nobody t.notified in
      ((lists p n ≡ has t n) ↔ (says n false t.notified ≡ says n false (changes new es)))
      × (p.has_client ≡ not (is_empty p.connected_clients))
run-Agrees es n =
    let t = run new es in
    let heard = listen-lists n nobody t.notified in
    let made : has t n ≡ says n false (changes new es) = run-has n new es ∙ (unfold new in refl) in
    (
      (λ same. sym heard ∙ (same ∙ made), λ same. heard ∙ (same ∙ sym made)),
      listen-has_client nobody t.notified refl,
    )
