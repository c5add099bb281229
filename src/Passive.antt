-- ===== src/Passive.antt =====
-- src/main.rs: the client that is driven by the server. It keeps a cursor of its own, injects what it is
-- told, and asks the server to take the cursor back at its left edge.
pub mod Return
use supershare.Base.{ℕ, ◌/◌, ◌-◌, Bool, true, false, List, [], ◌∷◌, ◌++◌, if◌then◌else◌}
use supershare.Base.Int.{ℤ, pos, leb_ℤ, ◌+ℤ◌}
use supershare.Base.Coord.{of_px, clamp}
use supershare.Protocol.Kind.{Message}

-- The cursor, on a screen of a fixed size.
pub record PassiveClient : Type 0 where
  pub x : ℤ
  pub y : ℤ
  pub screen_w : ℕ
  pub screen_h : ℕ

unfoldable pub new : ℕ → ℕ → PassiveClient
new screen_w screen_h = record {
  x = of_px (screen_w / 2);
  y = of_px (screen_h / 2);
  screen_w = screen_w;
  screen_h = screen_h;
}

-- What a message makes the client do: the messages it injects, and those it sends to the server.
pub record Effects : Type 0 where
  pub injected : List Message
  pub sent : List Message

abbrev pub nothing : Effects
nothing = record { injected = []; sent = [] }

-- A delta: the cursor after it, and whether it hit the left edge. The screen is not empty.
unfoldable pub apply : PassiveClient → ℤ → ℤ → PassiveClient × Bool
apply c dx dy =
    let x = c.x +ℤ dx in
    let hit_left = leb_ℤ x (pos 0) in
    (
      record c {
        x = if hit_left then pos 0 else clamp (pos 0) (of_px (c.screen_w - 1)) x;
        y = clamp (pos 0) (of_px (c.screen_h - 1)) (c.y +ℤ dy);
      },
      hit_left,
    )

-- A message on the data channel.
unfoldable pub on_data : PassiveClient → Message → PassiveClient × Effects
unfolding apply
on_data c (Message.mouse_delta dx dy) =
    let (d, hit_left) = apply c dx dy in
    (
      d,
      record {
        injected = Message.mouse_move d.x d.y ∷ [];
        sent = if hit_left then Message.boundary_leave 1 ∷ [] else [];
      },
    )
on_data c (Message.mouse_move x y) =
    (record c { x = x; y = y }, record { injected = Message.mouse_move x y ∷ []; sent = [] })
on_data c (Message.mouse_button button pressed) =
    (c, record { injected = Message.mouse_button button pressed ∷ []; sent = [] })
on_data c (Message.mouse_scroll dx dy) =
    (c, record { injected = Message.mouse_scroll dx dy ∷ []; sent = [] })
on_data c (Message.key_press keycode pressed) =
    (c, record { injected = Message.key_press keycode pressed ∷ []; sent = [] })
on_data c m = (c, nothing)

-- A message on the control channel.
unfoldable pub on_control : PassiveClient → Message → PassiveClient × Effects
on_control c (Message.boundary_enter target enter_x enter_y) =
    let center_y = of_px (c.screen_h / 2) in
    (
      record c { x = enter_x; y = center_y },
      record { injected = Message.mouse_move enter_x center_y ∷ []; sent = [] },
    )
on_control c m = (c, nothing)

-- Deltas one after the other: the cursor, and what is sent.
unfoldable pub run : PassiveClient → List (ℤ × ℤ) → PassiveClient × List Message
unfolding on_data
run c [] = (c, [])
run c ((dx, dy) ∷ ds) =
    let (d, e) = on_data c (Message.mouse_delta dx dy) in
    let (last, more) = run d ds in (last, e.sent ++ more)
