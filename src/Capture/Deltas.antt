-- ===== src/Capture/Deltas.antt =====
-- crates/ss-input/src/warp_capture.rs: what the client is told of the movement.
use supershare.Base.{
  ◌+◌, ◌≤◌, ◌<◌, ◌≡◌, refl, ◌∙◌, ap, Bool-cases, inl, inr, true, false, List, [], ◌∷◌, ◌++◌, length,
  arith, length-append, if◌then◌else◌,
}
use supershare.Base.Int.{ℤ, pos, pos_part, neg_part, ◌+ℤ◌, ◌-ℤ◌, int_laws}
use supershare.Protocol.Content.{Hash}
use supershare.Capture.{
  WarpInputEvent, CallbackState, move_to, queue_capacity, try_send, check_exit, track, advance,
  after_move, on_move, dispatch, callback, is_zero,
}

-- The movement along x that the queue tells of.
abbrev pub delta_x : WarpInputEvent → ℤ
delta_x (WarpInputEvent.mouse_delta dx dy) = dx
delta_x _ = pos 0

abbrev pub sum_dx : List WarpInputEvent → ℤ
sum_dx [] = pos 0
sum_dx (e ∷ q) = delta_x e +ℤ sum_dx q

abbrev pub delta_y : WarpInputEvent → ℤ
delta_y (WarpInputEvent.mouse_delta dx dy) = dy
delta_y _ = pos 0

abbrev pub sum_dy : List WarpInputEvent → ℤ
sum_dy [] = pos 0
sum_dy (e ∷ q) = delta_y e +ℤ sum_dy q

sum_dx-append :
    (q : List WarpInputEvent) (e : WarpInputEvent) → sum_dx (q ++ e ∷ []) ≡ sum_dx q +ℤ delta_x e
sum_dx-append [] e = omega int_laws
sum_dx-append (d ∷ q) e = rw (sum_dx-append q e) (omega int_laws)

sum_dy-append :
    (q : List WarpInputEvent) (e : WarpInputEvent) → sum_dy (q ++ e ∷ []) ≡ sum_dy q +ℤ delta_y e
sum_dy-append [] e = omega int_laws
sum_dy-append (d ∷ q) e = rw (sum_dy-append q e) (omega int_laws)

-- In remote mode, with a position known and nothing that ends the mode.
pub record IsDriving (s : CallbackState) : Type 0 where
  pub remote : s.is_remote ≡ true
  pub stays : s.exit_remote ≡ false
  pub client : s.has_client ≡ true
  pub known : s.prev_initialized ≡ true

-- A run of movements, each given by the position that rdev reports.
unfoldable pub drive : Hash → CallbackState → List (ℤ × ℤ) → CallbackState
drive h s [] = s
drive h s ((x, y) ∷ moves) = drive h (callback h s (move_to x y)).0 moves

callback-IsDriving :
    (h : Hash) (s : CallbackState) (x y : ℤ)
    → IsDriving s
    → let t = (callback h s (move_to x y)).0 in IsDriving t × (t.prev_x ≡ x) × (t.prev_y ≡ y)
unfolding callback dispatch on_move track advance after_move check_exit
callback-IsDriving h s x y d = ground arith

abbrev sent : CallbackState → ℤ → ℤ → List WarpInputEvent
sent s x y =
    if is_zero (x -ℤ s.prev_x)
    then (if is_zero (y -ℤ s.prev_y)
        then s.tx
        else s.tx ++ WarpInputEvent.mouse_delta (x -ℤ s.prev_x) (y -ℤ s.prev_y) ∷ [])
    else s.tx ++ WarpInputEvent.mouse_delta (x -ℤ s.prev_x) (y -ℤ s.prev_y) ∷ []

pub callback_sends :
    (h : Hash) (s : CallbackState) (x y : ℤ)
    → IsDriving s
    → length s.tx < queue_capacity
    → (callback h s (move_to x y)).0.tx ≡ sent s x y
unfolding callback dispatch on_move track advance after_move check_exit try_send
callback_sends h s x y d room = ground arith

zero_of_is_zero : (a : ℤ) → is_zero a ≡ true → a ≡ pos 0
zero_of_is_zero a h = ground arith

-- Sending a movement adds it to the sum, and a movement that is not sent is nothing to add.
sent-sum :
    (s : CallbackState) (x y : ℤ)
    → (sum_dx (sent s x y) ≡ sum_dx s.tx +ℤ (x -ℤ s.prev_x))
      × (sum_dy (sent s x y) ≡ sum_dy s.tx +ℤ (y -ℤ s.prev_y))
      × (length (sent s x y) ≤ length s.tx + 1)
sent-sum s x y =
    let e = WarpInputEvent.mouse_delta (x -ℤ s.prev_x) (y -ℤ s.prev_y) in
    let ex = sum_dx-append s.tx e in
    let ey = sum_dy-append s.tx e in
    let el = length-append s.tx (e ∷ []) in
    elim (Bool-cases (is_zero (x -ℤ s.prev_x))) [
      | inr moved ↦ rw moved (ex, ey, omega (arith, el))
      | inl same_x ↦ elim (Bool-cases (is_zero (y -ℤ s.prev_y))) [
        | inr moved ↦ rw (same_x, moved) (ex, ey, omega (arith, el))
        | inl same_y ↦
            rw (same_x, same_y)
              (
                rw (zero_of_is_zero (x -ℤ s.prev_x) same_x) (omega int_laws),
                rw (zero_of_is_zero (y -ℤ s.prev_y) same_y) (omega int_laws),
                omega arith,
              )
      ]
    ]

regroup : (a b c d x p : ℤ) → c ≡ b +ℤ (x -ℤ p) → a +ℤ x ≡ c +ℤ d → a +ℤ p ≡ b +ℤ d
regroup a b c d x p e f =
    omega (int_laws, ap pos_part e, ap neg_part e, ap pos_part f, ap neg_part f)

-- The last of the positions, the first argument if there are none.
abbrev pub last_position : ℤ × ℤ → List (ℤ × ℤ) → ℤ × ℤ
last_position p [] = p
last_position p (move ∷ moves) = last_position move moves

-- Over a run of movements in remote mode, with a position known before it and as long as the queue
-- has room for them, the deltas that the client is sent add up to the way from the position before the
-- run to the last position that rdev reports in it: none is lost, and none is made up.
pub drive-sum :
    (h : Hash) (moves : List (ℤ × ℤ)) (s : CallbackState)
    → IsDriving s
    → length s.tx + length moves ≤ queue_capacity
    → let t = drive h s moves in
      let (last_x, last_y) = last_position (s.prev_x, s.prev_y) moves in
      (sum_dx t.tx +ℤ s.prev_x ≡ sum_dx s.tx +ℤ last_x)
      × (sum_dy t.tx +ℤ s.prev_y ≡ sum_dy s.tx +ℤ last_y)
      × IsDriving t
unfolding drive
drive-sum h [] s d room = (refl, refl, d)
drive-sum h ((x, y) ∷ moves) s d room =
    let u = (callback h s (move_to x y)).0 in
    let t = drive h u moves in
    let (last_x, last_y) = last_position (x, y) moves in
    let (du, px, py) = callback-IsDriving h s x y d in
    let sends : u.tx ≡ sent s x y = callback_sends h s x y d (omega arith) in
    let (gx, gy, gl) = sent-sum s x y in
    let (ix, iy, dt) = drive-sum h moves u du (rw sends (omega (arith, gl, room))) in
    (
      regroup (sum_dx t.tx) (sum_dx s.tx) (sum_dx u.tx) last_x x s.prev_x (ap sum_dx sends ∙ gx)
          (rw (px, py) at ix),
      regroup (sum_dy t.tx) (sum_dy s.tx) (sum_dy u.tx) last_y y s.prev_y (ap sum_dy sends ∙ gy)
          (rw (px, py) at iy),
      dt,
    )
