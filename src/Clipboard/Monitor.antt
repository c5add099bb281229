-- ===== src/Clipboard/Monitor.antt =====
-- crates/ss-clipboard/src/monitor.rs: the poll of the local clipboard. Time is in milliseconds; the
-- clipboard of the system (arboard) is what each poll finds in it.
pub mod Echo
use supershare.Base.{
  ℕ, ◌+◌, ◌-◌, ◌%◌, ◌^◌, ◌≤◌, ◌<◌, ◌≡◌, Bool, true, false, ◌||◌, Option, none, some, List, [], ◌∷◌,
  ltb, Text, if◌then◌else◌, ◌==◌, list_eq, nat_eq, is_empty,
}
use supershare.Protocol.Kind.{Bytes}
use supershare.Protocol.Content.{Hash, ClipboardContent, hash}

abbrev pub clipboard_suppression_ms : ℕ
clipboard_suppression_ms = 1000

pub record ClipboardChange : Type 0 where
  pub content : ClipboardContent
  pub hash : Bytes

pub record ClipboardMonitor : Type 0 where
  pub last_hash : Option Bytes
  pub last_remote_write : Option ℕ
  pub remote_hash : Option Bytes

unfoldable pub new : ClipboardMonitor
new = record { last_hash = none; last_remote_write = none; remote_hash = none }

-- What a poll finds: the text and the image of the clipboard, where it can be opened at all.
pub record Board : Type 0 where
  pub get_text : Option Text
  pub get_image : Option (ℕ × ℕ × Bytes)

unfoldable pub read_image : Board → Option ClipboardContent
read_image b = elim b.get_image [
  | none ↦ none
  | some (w, ht, bytes) ↦ some (ClipboardContent.image (w % 2 ^ 32) (ht % 2 ^ 32) bytes)
]

-- `read_clipboard`: a text that is not empty, else an image.
unfoldable pub read_clipboard : Option Board → Option ClipboardContent
unfolding read_image
read_clipboard none = none
read_clipboard (some b) = elim b.get_text [
  | none ↦ read_image b
  | some t ↦ if is_empty t then read_image b else some (ClipboardContent.text t)
]

unfoldable pub suppress : ClipboardMonitor → Bytes → ℕ → ClipboardMonitor
suppress m h now = record m { last_remote_write = some now; remote_hash = some h }

abbrev pub same_hash : Bytes → Option Bytes → Bool
same_hash h none = false
same_hash h (some g) = h == g

-- `last_write.elapsed() < SUPPRESSION`.
abbrev pub recent : ℕ → Option ℕ → Bool
recent now none = false
recent now (some t) = ltb (now - t) clipboard_suppression_ms

unfoldable pub is_suppressed : ClipboardMonitor → Bytes → ℕ → Bool
is_suppressed m h now = same_hash h m.remote_hash || recent now m.last_remote_write

-- What a poll makes of some content.
unfoldable pub detect :
    Hash → ClipboardMonitor → ClipboardContent → ℕ → ClipboardMonitor × Option ClipboardChange
unfolding is_suppressed
detect b m content now =
    let h = hash b content in
    if is_suppressed m h now
    then (m, none)
    else if same_hash h m.last_hash
    then (m, none)
    else (record m { last_hash = some h }, some (record { content = content; hash = h }))

unfoldable pub poll :
    Hash → ClipboardMonitor → Option Board → ℕ → ClipboardMonitor × Option ClipboardChange
unfolding read_clipboard detect
poll b m board now = elim (read_clipboard board) [
  | none ↦ (m, none)
  | some content ↦ detect b m content now
]

-- What the loop of `start_monitor` waits for.
pub data Event : Type 0 where
  suppressed : (hash : Bytes) (now : ℕ) → Event
  elapsed : (board : Option Board) (now : ℕ) → Event

-- One round of the loop. The poll runs on a copy of the monitor, of which only the hash of a change
-- comes back.
unfoldable pub round : Hash → ClipboardMonitor → Event → ClipboardMonitor × Option ClipboardChange
unfolding poll suppress
round b m (suppressed h now) = (suppress m h now, none)
round b m (elapsed board now) = elim (poll b m board now).1 [
  | none ↦ (m, none)
  | some change ↦ (record m { last_hash = some change.hash }, some change)
]

-- The changes that a run of the loop sends.
unfoldable pub run : Hash → ClipboardMonitor → List Event → List ClipboardChange
run b m [] = []
run b m (e ∷ es) =
    let (m', change) = round b m e in
    let rest = run b m' es in elim change [ none ↦ rest | some c ↦ c ∷ rest ]
