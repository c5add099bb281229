-- ===== src/Passive/Return.antt =====
-- src/main.rs: when the client gives the cursor back.
use supershare.Base.{ℕ, ◌-◌, ◌<◌, ◌≡◌, [], ◌∷◌, if◌then◌else◌, arith}
use supershare.Base.Int.{ℤ, pos, leb_ℤ, ◌+ℤ◌, ◌≤ℤ◌, +ℤ_parts}
use supershare.Base.Coord.{of_px, clamp_bounds}
use supershare.Protocol.Kind.{Message}
use supershare.Passive.{PassiveClient, apply, on_data, on_control}

-- The cursor is on the screen.
pub record OnScreen (c : PassiveClient) : Type 0 where
  pub wide : 0 < c.screen_w
  pub tall : 0 < c.screen_h
  pub in_x : (pos 0 ≤ℤ c.x) × (c.x ≤ℤ of_px (c.screen_w - 1))
  pub in_y : (pos 0 ≤ℤ c.y) × (c.y ≤ℤ of_px (c.screen_h - 1))

-- After a delta a cursor that was on the screen is on it again, the position that is injected is its
-- position, and the server is asked to take it back exactly if the delta took it to the left edge or
-- beyond.
pub on_data-OnScreen :
    (c : PassiveClient) (dx dy : ℤ)
    → OnScreen c
    → let (d, e) = on_data c (Message.mouse_delta dx dy) in
      OnScreen d
      × (e.injected ≡ Message.mouse_move d.x d.y ∷ [])
      × (e.sent ≡ (if leb_ℤ (c.x +ℤ dx) (pos 0) then Message.boundary_leave 1 ∷ [] else []))
unfolding on_data apply
on_data-OnScreen c dx dy s = ground (
  arith,
  clamp_bounds (pos 0) (of_px (c.screen_w - 1)) (c.x +ℤ dx),
  clamp_bounds (pos 0) (of_px (c.screen_h - 1)) (c.y +ℤ dy),
)

-- The cursor was given back, so it rests at the left edge, and the server has entered remote mode again.
-- If a delta that does not go right comes on the data channel before the `BoundaryEnter` on the control
-- channel, the client gives the cursor back at once.
pub late_enter :
    (c : PassiveClient) (dx dy : ℤ) (target : ℕ) (enter_x enter_y : ℤ)
    → c.x ≡ pos 0
    → dx ≤ℤ pos 0
    → let (d, e) = on_data c (Message.mouse_delta dx dy) in
      let (f, g) = on_control d (Message.boundary_enter target enter_x enter_y) in
      (e.sent ≡ Message.boundary_leave 1 ∷ []) × (g.sent ≡ []) × (f.x ≡ enter_x)
unfolding on_data apply on_control
late_enter c dx dy target enter_x enter_y at left = ground (arith, +ℤ_parts c.x dx)
