-- ===== src/Inject/Forwarded.antt =====
-- From the server's callback to the client's injection.
use supershare.Base.{
  suc, ◌*◌, ◌-◌, ◌/◌, ◌%◌, ℕ, ◌+◌, ◌^◌, ◌≡◌, ◌<◌, refl, true, false, some, [], ◌∷◌, ◌++◌, arith,
  length,
}
use supershare.Base.Int.{ℤ, pos, negsuc}
use supershare.Protocol.Kind.{Button}
use supershare.Protocol.Content.{Hash}
use supershare.Capture.{
  CallbackState, EventType, move_to, button_press, button_release, wheel, press, release,
  left_button, right_button, middle_button, unknown_button, callback, dispatch, check_exit, forward,
  try_send, queue_capacity, to_message, WarpInputEvent, round_to, of_i64, map_button,
}
use supershare.Keys.{key_to_u32, common_keys}
use supershare.Keys.Laws.{Separates, is_common, u32_to_key-key_to_u32}
use supershare.Inject.{inject_event, to_i64, to_rdev_button}

round_to_small : (fuel n : ℕ) → n < 2 ^ 24 → round_to (suc fuel) 1 n ≡ n
unfolding round_to
round_to_small fuel n h =
    let whole : n / 1 ≡ n = omega arith in
    let exact : n % 1 ≡ 0 = omega arith in ground (arith, whole, exact)

-- Below 2 ^ 24 a wheel delta is an `f32`.
abbrev pub IsF32 : ℤ → Type 0
IsF32 (pos n) = n < 2 ^ 24
IsF32 (negsuc n) = n + 1 < 2 ^ 24

to_i64-of_i64 : (n : ℤ) → IsF32 n → to_i64 (of_i64 n) ≡ n
unfolding of_i64
to_i64-of_i64 (pos n) h = rw (round_to_small 63 n h) (ground arith)
to_i64-of_i64 (negsuc n) h =
    let same : ((n + 1) * 256 - 1 + 1) / 256 ≡ n + 1 = omega arith in
    rw (round_to_small 63 (n + 1) h) (ground (arith, same))

-- What the client can inject: every event but movements, the buttons that have no counterpart, the keys that
-- are not in its table, and wheel deltas that are rounded.
abbrev pub Injectable : Hash → EventType → Type 0
Injectable h (button_press (unknown_button n)) = ⊥
Injectable h (button_release (unknown_button n)) = ⊥
Injectable h (press k) = (is_common k common_keys ≡ true) × Separates h k common_keys
Injectable h (release k) = (is_common k common_keys ≡ true) × Separates h k common_keys
Injectable h (move_to x y) = ⊥
Injectable h (wheel dx dy) = IsF32 dx × IsF32 dy
Injectable h _ = Unit {0}

-- A forwarded event is queued, and kept from the X server.
forward-check_exit :
    (s : CallbackState) (w : WarpInputEvent)
    → s.is_remote ≡ true
    → s.exit_remote ≡ false
    → s.has_client ≡ true
    → length s.tx < queue_capacity
    → let (t, passes) = forward (check_exit s) (some w) in
      (t.tx ≡ s.tx ++ w ∷ []) × (passes ≡ false)
unfolding forward check_exit try_send
forward-check_exit s w r ex c q = ground arith

-- In remote mode that is not left, with a client and room in the queue, a button, wheel or key event
-- that the client can inject (a known button; a key of its table, told from the others by the hash;
-- wheel deltas below 2 ^ 24, which an `f32` has exactly)
-- is queued as a message that the client injects as the very same event, and it is kept from the
-- server's own X server.
pub inject_event-callback :
    (h : Hash) (s : CallbackState) (e : EventType)
    → s.is_remote ≡ true
    → s.exit_remote ≡ false
    → s.has_client ≡ true
    → length s.tx < queue_capacity
    → Injectable h e
    → let (t, passes) = callback h s e in
      (w : WarpInputEvent) × (t.tx ≡ s.tx ++ w ∷ [])
      × (inject_event h (to_message w) ≡ some e)
      × (passes ≡ false)
unfolding callback dispatch map_button
inject_event-callback h s (move_to x y) r ex c q i = elim i [ ]
inject_event-callback h s (button_press left_button) r ex c q i =
    let w = WarpInputEvent.mouse_button Button.left true in
    let (sends, kept) = forward-check_exit s w r ex c q in
    (w, sends, unfold inject_event to_message to_rdev_button in refl, kept)
inject_event-callback h s (button_press right_button) r ex c q i =
    let w = WarpInputEvent.mouse_button Button.right true in
    let (sends, kept) = forward-check_exit s w r ex c q in
    (w, sends, unfold inject_event to_message to_rdev_button in refl, kept)
inject_event-callback h s (button_press middle_button) r ex c q i =
    let w = WarpInputEvent.mouse_button Button.middle true in
    let (sends, kept) = forward-check_exit s w r ex c q in
    (w, sends, unfold inject_event to_message to_rdev_button in refl, kept)
inject_event-callback h s (button_press (unknown_button n)) r ex c q i = elim i [ ]
inject_event-callback h s (button_release left_button) r ex c q i =
    let w = WarpInputEvent.mouse_button Button.left false in
    let (sends, kept) = forward-check_exit s w r ex c q in
    (w, sends, unfold inject_event to_message to_rdev_button in refl, kept)
inject_event-callback h s (button_release right_button) r ex c q i =
    let w = WarpInputEvent.mouse_button Button.right false in
    let (sends, kept) = forward-check_exit s w r ex c q in
    (w, sends, unfold inject_event to_message to_rdev_button in refl, kept)
inject_event-callback h s (button_release middle_button) r ex c q i =
    let w = WarpInputEvent.mouse_button Button.middle false in
    let (sends, kept) = forward-check_exit s w r ex c q in
    (w, sends, unfold inject_event to_message to_rdev_button in refl, kept)
inject_event-callback h s (button_release (unknown_button n)) r ex c q i = elim i [ ]
inject_event-callback h s (wheel dx dy) r ex c q (fx, fy) =
    let w = WarpInputEvent.scroll (of_i64 dx) (of_i64 dy) in
    let (sends, kept) = forward-check_exit s w r ex c q in
    (
      w,
      sends,
      unfold inject_event to_message to_rdev_button in
          rw (to_i64-of_i64 dx fx, to_i64-of_i64 dy fy) refl,
      kept,
    )
inject_event-callback h s (press k) r ex c q (common, apart) =
    let w = WarpInputEvent.key_press (key_to_u32 h k) true in
    let (sends, kept) = forward-check_exit s w r ex c q in
    (
      w,
      sends,
      unfold inject_event to_message to_rdev_button in
          ground (arith, u32_to_key-key_to_u32 h k apart, common),
      kept,
    )
inject_event-callback h s (release k) r ex c q (common, apart) =
    let w = WarpInputEvent.key_press (key_to_u32 h k) false in
    let (sends, kept) = forward-check_exit s w r ex c q in
    (
      w,
      sends,
      unfold inject_event to_message to_rdev_button in
          ground (arith, u32_to_key-key_to_u32 h k apart, common),
      kept,
    )
