-- ===== src/Listen/Agrees.antt =====
-- The two captures, of crates/ss-input/src/capture.rs and crates/ss-input/src/warp_capture.rs.
use supershare.Base.{
  ◌≡◌, ◌≤◌, ◌<◌, refl, true, false, none, some, List, [], ◌∷◌, ◌++◌, length, map, append-nil,
  length-append, ap, arith, Bool-cases, Option-cases, inl, inr,
}
use supershare.Protocol.Kind.{Message, left, right, middle}
use supershare.Protocol.Content.{Hash}
use supershare.Keys.{key_to_u32}
use supershare.Capture.{
  CallbackState, EventType, move_to, button_press, button_release, wheel, press, release,
  left_button, right_button, middle_button, unknown_button, map_button, queue_capacity, check_exit,
  dispatch, forward, WarpInputEvent, of_i64,
}
use supershare.Capture
use supershare.Listen.{
  InputEvent, mouse_scroll, CaptureState, event_of, callback, to_message, listen, try_send,
}

-- Events that both captures report in the same way: all but movements.
abbrev pub IsPlain : EventType → Type 0
IsPlain (move_to x y) = ⊥
IsPlain e = Unit {0}

-- What an event is reported as.
unfoldable pub news : Hash → EventType → List Message
unfolding event_of to_message
news h e = elim (event_of h e) [ none ↦ [] | some i ↦ to_message i ∷ [] ]

map-end {ℓ κ} :
    {A : Type ℓ} {B : Type κ} (f : A → B) (xs : List A) (x : A)
    → map f (xs ++ x ∷ []) ≡ map f xs ++ f x ∷ []
map-end f [] x = refl
map-end f (y ∷ ys) x = ap (◌∷◌ (f y)) (map-end f ys x)

-- With room in both queues, a button, wheel or key event is queued by the capture that only listens, if
-- it is not suppressed, and by the other one in remote mode, if that is not left, as the same message;
-- or, for a button that has no name, by neither.
pub callback_agrees :
    (h : Hash) (s : CaptureState) (t : CallbackState) (e : EventType)
    → IsPlain e
    → s.suppressed ≡ false
    → t.is_remote ≡ true
    → t.exit_remote ≡ false
    → t.has_client ≡ true
    → length s.tx < queue_capacity
    → length t.tx < queue_capacity
    → let told = λ (q : List InputEvent). map to_message q in
      let told' = λ (q : List WarpInputEvent). map Capture.to_message q in
      (told (callback h s e).tx ≡ told s.tx ++ news h e)
      × (told' (Capture.callback h t e).0.tx ≡ told' t.tx ++ news h e)
unfolding callback event_of try_send to_message Capture.callback dispatch forward check_exit
    map_button Capture.try_send Capture.to_message news
callback_agrees h s t (move_to x y) p a b c d q r = absurd p
callback_agrees h s t (button_press left_button) p a b c d q r = ground (
  arith,
  map-end to_message s.tx (InputEvent.mouse_button left true),
  map-end Capture.to_message t.tx (WarpInputEvent.mouse_button left true),
)
callback_agrees h s t (button_press right_button) p a b c d q r = ground (
  arith,
  map-end to_message s.tx (InputEvent.mouse_button right true),
  map-end Capture.to_message t.tx (WarpInputEvent.mouse_button right true),
)
callback_agrees h s t (button_press middle_button) p a b c d q r = ground (
  arith,
  map-end to_message s.tx (InputEvent.mouse_button middle true),
  map-end Capture.to_message t.tx (WarpInputEvent.mouse_button middle true),
)
callback_agrees h s t (button_press (unknown_button n)) p a b c d q r =
    ground (arith, append-nil (map to_message s.tx), append-nil (map Capture.to_message t.tx))
callback_agrees h s t (button_release left_button) p a b c d q r = ground (
  arith,
  map-end to_message s.tx (InputEvent.mouse_button left false),
  map-end Capture.to_message t.tx (WarpInputEvent.mouse_button left false),
)
callback_agrees h s t (button_release right_button) p a b c d q r = ground (
  arith,
  map-end to_message s.tx (InputEvent.mouse_button right false),
  map-end Capture.to_message t.tx (WarpInputEvent.mouse_button right false),
)
callback_agrees h s t (button_release middle_button) p a b c d q r = ground (
  arith,
  map-end to_message s.tx (InputEvent.mouse_button middle false),
  map-end Capture.to_message t.tx (WarpInputEvent.mouse_button middle false),
)
callback_agrees h s t (button_release (unknown_button n)) p a b c d q r =
    ground (arith, append-nil (map to_message s.tx), append-nil (map Capture.to_message t.tx))
callback_agrees h s t (wheel dx dy) p a b c d q r = ground (
  arith,
  map-end to_message s.tx (mouse_scroll (of_i64 dx) (of_i64 dy)),
  map-end Capture.to_message t.tx (WarpInputEvent.scroll (of_i64 dx) (of_i64 dy)),
)
callback_agrees h s t (press k) p a b c d q r = ground (
  arith,
  map-end to_message s.tx (InputEvent.key_press (key_to_u32 h k) true),
  map-end Capture.to_message t.tx (WarpInputEvent.key_press (key_to_u32 h k) true),
)
callback_agrees h s t (release k) p a b c d q r = ground (
  arith,
  map-end to_message s.tx (InputEvent.key_press (key_to_u32 h k) false),
  map-end Capture.to_message t.tx (WarpInputEvent.key_press (key_to_u32 h k) false),
)

try_send_bounded :
    (q : List InputEvent) (i : InputEvent)
    → length q ≤ queue_capacity
    → length (try_send q i) ≤ queue_capacity
unfolding try_send
try_send_bounded q i b = ground (arith, length-append q (i ∷ []))

callback_bounded :
    (h : Hash) (s : CaptureState) (e : EventType)
    → length s.tx ≤ queue_capacity
    → length (callback h s e).tx ≤ queue_capacity
unfolding callback
callback_bounded h s e b = elim (Option-cases (event_of h e)) [
  | inl nothing ↦ ground (arith, nothing)
  | inr (i, hi) ↦ ground (arith, hi, try_send_bounded s.tx i b)
]

-- Whatever comes: while it is suppressed nothing is queued, and the queue never holds more than it can.
pub listen_bounded :
    (h : Hash) (s : CaptureState) (es : List EventType)
    → length s.tx ≤ queue_capacity
    → (length (listen h s es).tx ≤ queue_capacity)
      × ((s.suppressed ≡ true) → (listen h s es).tx ≡ s.tx)
unfolding listen callback
listen_bounded h s [] b = (b, λ off. refl)
listen_bounded h s (e ∷ es) b = elim (Bool-cases s.suppressed) [
  | inl off ↦
      let rest = listen_bounded h s es b in
      let same : callback h s e ≡ s = ground arith in rw (listen, same) rest
  | inr on ↦
      let s' = callback h s e in
      let small = callback_bounded h s e b in
      ((listen_bounded h s' es small).0, λ off. absurd (ground (arith, off, on)))
]
