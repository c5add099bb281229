-- ===== src/App/Link/Waits.antt =====
-- src/main.rs: a client that was connected once is connected again, whatever happens.
use supershare.Base.{
  ℕ, suc, ◌+◌, ◌^◌, ◌≡◌, ◌≢◌, ◌≤◌, ◌∙◌, ap, min, true, false, Option, none, some, List, [], ◌∷◌,
  Text, length, arith,
}
use supershare.Connect.{next_backoff, max_backoff}
use supershare.Connect.Backoff.{next_backoff-min}
use supershare.App.{SharedAppState, Backend, Around, disconnect_client}
use supershare.App.Handler.{handle, on_disconnect_client}
use supershare.App.Link.{
  Link, connecting, connected, paused, over, LinkEvent, established, failed, timed_out, closed,
  woke, not_connected, pause, step, run,
}

-- Connected once, and still at it, with a pause in bounds.
IsLasting : Link → Type 0
IsLasting l =
    (l.first_attempt ≡ false) × (l.phase ≢ over) × (1 ≤ l.backoff) × (l.backoff ≤ max_backoff)

step-IsLasting :
    (l : Link) (s : SharedAppState) (event : LinkEvent) → IsLasting l → IsLasting (step l s event).0
unfolding IsLasting step not_connected pause next_backoff
step-IsLasting l s event h = ground arith

run-IsLasting :
    (l : Link) (s : SharedAppState) (events : List LinkEvent)
    → IsLasting l
    → IsLasting (run l s events).0
unfolding run
run-IsLasting l s [] h = h
run-IsLasting l s (event ∷ events) h =
    let (l', s') = step l s event in run-IsLasting l' s' events (step-IsLasting l s event h)

-- A connection that was established once is never given up: whatever happens from then on, the task is
-- not over, and the pause that it would make next is between a second and half a minute.
pub run-established_lasts :
    (l : Link) (s : SharedAppState) (screen : Option (ℕ × ℕ)) (events : List LinkEvent)
    → l.phase ≡ connecting
    → let (l', s') = run l s (established screen ∷ events) in
      (l'.phase ≢ over) × (1 ≤ l'.backoff) × (l'.backoff ≤ max_backoff)
unfolding run IsLasting step
run-established_lasts l s screen events h =
    let (l1, s1) = step l s (established screen) in
    let start : IsLasting l1 = ground arith in
    let kept = run-IsLasting l1 s1 events start in (kept.1, kept.2, kept.3)

-- How an attempt comes to nothing: an error, or none in time.
abbrev pub no_luck : Option Text → LinkEvent
no_luck none = timed_out
no_luck (some error) = failed error

abbrev pub attempts : List (Option Text) → List LinkEvent
attempts [] = []
attempts (o ∷ os) = woke ∷ no_luck o ∷ attempts os

step_again :
    (l : Link) (s : SharedAppState) (i : ℕ) (o : Option Text)
    → l.first_attempt ≡ false
    → l.phase ≡ paused (min (2 ^ i) max_backoff)
    → l.backoff ≡ min (2 ^ suc i) max_backoff
    → let (l1, s1) = step l s woke in
      let (l2, s2) = step l1 s1 (no_luck o) in
      (l2.first_attempt ≡ false)
      × (l2.phase ≡ paused (min (2 ^ suc i) max_backoff))
      × (l2.backoff ≡ min (2 ^ suc (suc i)) max_backoff)
unfolding step not_connected pause
step_again l s i none f p b = ground (arith, next_backoff-min (suc i))
step_again l s i (some e) f p b = ground (arith, next_backoff-min (suc i))

run-attempts :
    (l : Link) (s : SharedAppState) (i : ℕ) (os : List (Option Text))
    → l.first_attempt ≡ false
    → l.phase ≡ paused (min (2 ^ i) max_backoff)
    → l.backoff ≡ min (2 ^ suc i) max_backoff
    → (run l s (attempts os)).0.phase ≡ paused (min (2 ^ (i + length os)) max_backoff)
unfolding run
run-attempts l s i [] f p b = p ∙ ap (λ n. paused (min (2 ^ n) max_backoff)) (omega arith)
run-attempts l s i (o ∷ os) f p b =
    let (l1, s1) = step l s woke in
    let (l2, s2) = step l1 s1 (no_luck o) in
    let (f2, p2, b2) = step_again l s i o f p b in
    run-attempts l2 s2 (suc i) os f2 p2 b2
    ∙ ap (λ n. paused (min (2 ^ n) max_backoff)) (omega arith)

-- A connection that is lost, and then fails to come back any number of times, is followed by pauses
-- of a second, two, four and so on up to half a minute, whatever pauses there were before it was made.
pub run-closed_waits :
    (l : Link) (s : SharedAppState) (screen : Option (ℕ × ℕ)) (os : List (Option Text))
    → l.phase ≡ connecting
    → (run l s (established screen ∷ closed ∷ attempts os)).0.phase
      ≡ paused (min (2 ^ length os) max_backoff)
unfolding run step pause next_backoff
run-closed_waits l s screen os h =
    let (l1, s1) = step l s (established screen) in
    let (l2, s2) = step l1 s1 closed in
    let f : l2.first_attempt ≡ false = ground arith in
    let p : l2.phase ≡ paused (min (2 ^ 0) max_backoff) = ground arith in
    let b : l2.backoff ≡ min (2 ^ 1) max_backoff = ground arith in
    ground (arith, h, run-attempts l2 s2 0 os f p b)

-- Disconnecting is for the display only: the connection does not hear of it. When it is lost after that,
-- it is made again, and the window shows the client as connected to the same server.
pub handle-disconnect_undone :
    (a : Around) (b : Backend) (l : Link) (screen : Option (ℕ × ℕ))
    → l.phase ≡ connected
    → let quiet = (handle a b disconnect_client).state in
      let (l', s') = run l quiet (closed ∷ woke ∷ established screen ∷ []) in
      (quiet.client_connected ≡ false)
      × (l'.phase ≡ connected)
      × (s'.client_connected ≡ true)
      × (s'.client_server_addr ≡ some l.server_address)
unfolding handle on_disconnect_client run step pause
handle-disconnect_undone a b l screen h = ground arith
