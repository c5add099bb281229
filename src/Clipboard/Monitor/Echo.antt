-- ===== src/Clipboard/Monitor/Echo.antt =====
-- crates/ss-clipboard/src/monitor.rs: what is sent on, and what is not.
use supershare.Base.{
  ℕ, ◌+◌, ◌<◌, ◌≡◌, ◌≢◌, refl, ◌∙◌, ap, false, ◌||◌, Option, none, some, List, [], ◌∷◌, ==_iff,
  list_eq, nat_eq, arith, All, Option-cases, Bool-cases, subst, inl, inr,
}
use supershare.Protocol.Kind.{Bytes}
use supershare.Protocol.Content.{Hash, ClipboardContent, hash}
use supershare.Clipboard.Monitor.{
  ClipboardChange, ClipboardMonitor, Board, read_clipboard, suppress, same_hash, recent,
  is_suppressed, detect, poll, Event, suppressed, elapsed, round, run, clipboard_suppression_ms,
}

-- The copy that a poll works on ends as the monitor does: nothing of its state is lost.
pub round-poll :
    (b : Hash) (m : ClipboardMonitor) (board : Option Board) (now : ℕ)
    → round b m (elapsed board now) ≡ poll b m board now
unfolding round
round-poll b m board now = ground arith

-- Changes that each differ from the one before, the first from `last`.
abbrev pub Fresh : Option Bytes → List ClipboardChange → Type 0
Fresh last [] = Unit {0}
Fresh last (c ∷ cs) = (same_hash c.hash last ≡ false) × Fresh (some c.hash) cs

-- A poll before the time `t`.
abbrev pub PollsBefore : ℕ → Event → Type 0
PollsBefore t (suppressed h now) = ⊥
PollsBefore t (elapsed board now) = now < t

-- Only polls: no suppression signal comes in.
abbrev pub IsPoll : Event → Type 0
IsPoll (suppressed h now) = ⊥
IsPoll (elapsed board now) = Unit {0}

detect-remote :
    (b : Hash) (m : ClipboardMonitor) (content : ClipboardContent) (now : ℕ) (h : Bytes)
    → m.remote_hash ≡ some h
    → ((detect b m content now).0.remote_hash ≡ some h)
      × ((c : ClipboardChange) → (detect b m content now).1 ≡ some c → c.hash ≢ h)
unfolding detect is_suppressed
detect-remote b m content now h r = (ground arith, λ c e. ground (arith, ==_iff (hash b content) h))

-- A round that polls either finds nothing, or judges what it finds.
poll_round {ℓ} :
    (P : ClipboardMonitor × Option ClipboardChange → Type ℓ) (b : Hash) (m : ClipboardMonitor)
    (board : Option Board) (now : ℕ)
    → P (m, none)
    → ((content : ClipboardContent) → P (detect b m content now))
    → P (round b m (elapsed board now))
unfolding poll
poll_round P b m board now nothing found =
    rw (round-poll b m board now) (elim (Option-cases (read_clipboard board)) [
      | inl e ↦ rw (e, poll) nothing
      | inr (content, e) ↦ rw (e, poll) (found content)
    ])

round-remote :
    (b : Hash) (m : ClipboardMonitor) (e : Event) (h : Bytes)
    → IsPoll e
    → m.remote_hash ≡ some h
    → ((round b m e).0.remote_hash ≡ some h)
      × ((c : ClipboardChange) → (round b m e).1 ≡ some c → c.hash ≢ h)
round-remote b m (suppressed g now) h p r = elim p [ ]
round-remote b m (elapsed board now) h p r =
    poll_round
      (λ s. (s.0.remote_hash ≡ some h) × ((c : ClipboardChange) → s.1 ≡ some c → c.hash ≢ h)) b m
      board now (r, λ c e. cc) (λ content. detect-remote b m content now h r)

run-cons :
    (b : Hash) (m : ClipboardMonitor) (e : Event) (es : List Event)
    → run b m (e ∷ es) ≡ elim (round b m e).1 [
      | none ↦ run b (round b m e).0 es
      | some c ↦ c ∷ run b (round b m e).0 es
    ]
unfolding run
run-cons b m e es = refl

run-remote :
    (b : Hash) (m : ClipboardMonitor) (h : Bytes) (es : List Event)
    → All IsPoll es
    → m.remote_hash ≡ some h
    → All (λ c. c.hash ≢ h) (run b m es)
run-remote b m h [] polls r = unfold run in tt
run-remote b m h (e ∷ es) (p, polls) r =
    let (r', ne) = round-remote b m e h p r in
    let rest = run-remote b (round b m e).0 h es polls r' in
    elim (Option-cases (round b m e).1) [
      | inl quiet ↦ rw (run-cons b m e es, quiet) rest
      | inr (c, sends) ↦ rw (run-cons b m e es, sends) (ne c sends, rest)
    ]

-- After content with the hash `h` was written for another machine and the monitor was told, no change
-- with that hash is sent, however long it polls, until it is told of other content.
pub no_echo :
    (b : Hash) (m : ClipboardMonitor) (h : Bytes) (now : ℕ) (es : List Event)
    → All IsPoll es
    → All (λ c. c.hash ≢ h) (run b m (suppressed h now ∷ es))
no_echo b m h now es polls =
    unfold run round suppress in
    run-remote b (record m { last_remote_write = some now; remote_hash = some h }) h es polls refl

round-quiet :
    (b : Hash) (m : ClipboardMonitor) (e : Event) (t : ℕ)
    → PollsBefore (t + clipboard_suppression_ms) e
    → m.last_remote_write ≡ some t
    → round b m e ≡ (m, none)
round-quiet b m (suppressed g now) t p r = elim p [ ]
round-quiet b m (elapsed board now) t p r =
    poll_round (λ s. s ≡ (m, none)) b m board now refl
      (λ content. unfold detect is_suppressed in ground arith)

run-quiet :
    (b : Hash) (m : ClipboardMonitor) (t : ℕ) (es : List Event)
    → All (PollsBefore (t + clipboard_suppression_ms)) es
    → m.last_remote_write ≡ some t
    → run b m es ≡ []
run-quiet b m t [] polls r = unfold run in refl
run-quiet b m t (e ∷ es) (p, polls) r =
    run-cons b m e es
    ∙ ap
        (λ (s : ClipboardMonitor × Option ClipboardChange). elim s.1 [
          | none ↦ run b s.0 es
          | some c ↦ c ∷ run b s.0 es
        ])
        (round-quiet b m e t p r)
    ∙ run-quiet b m t es polls r

-- No change at all is sent within a second of such a write.
pub quiet :
    (b : Hash) (m : ClipboardMonitor) (h : Bytes) (now : ℕ) (es : List Event)
    → All (PollsBefore (now + clipboard_suppression_ms)) es
    → run b m (suppressed h now ∷ es) ≡ []
quiet b m h now es polls =
    unfold run round suppress in
    run-quiet b (record m { last_remote_write = some now; remote_hash = some h }) now es polls refl

-- What a round does to the last hash: a change is a new one and becomes the last.
abbrev Renews : ClipboardMonitor → ClipboardMonitor → Option ClipboardChange → Type 0
Renews m m' none = m'.last_hash ≡ m.last_hash
Renews m m' (some c) = (m'.last_hash ≡ some c.hash) × (same_hash c.hash m.last_hash ≡ false)

detect-Renews :
    (b : Hash) (m : ClipboardMonitor) (content : ClipboardContent) (now : ℕ)
    → let (m', o) = detect b m content now in Renews m m' o
unfolding detect is_suppressed
detect-Renews b m content now =
    let h = hash b content in
    elim (Bool-cases (same_hash h m.remote_hash || recent now m.last_remote_write)) [
      | inl held ↦ rw held refl
      | inr free ↦ elim (Bool-cases (same_hash h m.last_hash)) [
        | inl old ↦ rw (free, old) refl
        | inr new ↦ rw (free, new) (refl, new)
      ]
    ]

round-Renews :
    (b : Hash) (m : ClipboardMonitor) (e : Event) → Renews m (round b m e).0 (round b m e).1
round-Renews b m (suppressed h now) = unfold round suppress in refl
round-Renews b m (elapsed board now) =
    poll_round (λ s. Renews m s.0 s.1) b m board now refl (λ content. detect-Renews b m content now)

-- Each change that is sent differs from the one sent before it.
pub run-Fresh : (b : Hash) (m : ClipboardMonitor) (es : List Event) → Fresh m.last_hash (run b m es)
run-Fresh b m [] = unfold run in tt
run-Fresh b m (e ∷ es) =
    let next = (round b m e).0 in
    let rest = run-Fresh b next es in
    elim (Option-cases (round b m e).1) [
      | inl nothing ↦
          rw (run-cons b m e es, nothing)
            (subst (λ l. Fresh l (run b next es))
              (subst (Renews m next) nothing (round-Renews b m e)) rest)
      | inr (c, sends) ↦
          let renews = subst (Renews m next) sends (round-Renews b m e) in
          rw (run-cons b m e es, sends)
            (renews.1, subst (λ l. Fresh l (run b next es)) renews.0 rest)
    ]
