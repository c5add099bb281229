-- ===== src/Examples/Crossing.antt =====
-- A cursor that goes to the client and comes back.
use supershare.Base.{List, ◌/◌, ◌≡◌, refl, true, false, none, [], ◌∷◌, ◌++◌, codes, arith}
use supershare.Base.Int.{◌-ℤ◌, ◌+ℤ◌, pos}
use supershare.Base.Coord.{of_px}
use supershare.Protocol.Kind.{Message}
use supershare.Capture.{
  CallbackState, move_to, press, release, EventType, callback, enter_event, to_message,
  WarpInputEvent, track, advance, check_exit,
}
use supershare.Capture.Modes.{moved}
use supershare.Server.{forward_input}
use supershare.Passive
use supershare.Clipboard.Tasks.{exit_remote, server_receive}
use supershare.Handover.{Sides, IsReady, captured, handover}
use supershare.Examples.Params.{checksums, plain}

-- A server of 1920 by 1080 with its cursor in the middle, and a client of 1280 by 720.
abbrev sides : Sides
sides = record {
  hash = checksums;
  zstd = plain;
  can_write = λ content. true;
  capture = record {
    tx = [];
    screen_width = of_px 1920;
    screen_height = of_px 1080;
    prev_x = of_px 960;
    prev_y = of_px 540;
    prev_initialized = true;
    pos_x = of_px 960;
    pos_y = of_px 540;
    frozen_x = pos 0;
    frozen_y = pos 0;
    is_remote = false;
    exit_remote = false;
    has_client = true;
  };
  server = record {
    clients =
        (
          codes "desk",
          record {
            name = codes "desk";
            control_tx = 1;
            data_tx = 2;
            screen_width = 1280;
            screen_height = 720;
          },
        )
        ∷ [];
    pending_data = [];
    notified = [];
    broadcast = [];
  };
  name = codes "desk";
  client = record {
    name = codes "desk";
    control_tx = 1;
    data_tx = 2;
    screen_width = 1280;
    screen_height = 720;
  };
  passive = record { x = of_px 640; y = of_px 360; screen_w = 1280; screen_h = 720 };
  slot = none;
}

sides-IsReady : IsReady sides
sides-IsReady = record { local_mode = refl; has_client = refl; room = omega arith; only = refl }

abbrev crossing : CallbackState
crossing = (callback checksums sides.capture (move_to (of_px 1919) (of_px 540))).0

abbrev event : WarpInputEvent
event = enter_event (moved sides.capture (of_px 1919) (of_px 540))

-- Ten pixels to the left.
abbrev driven : CallbackState
driven = (callback checksums crossing (move_to (of_px 1909) (of_px 541))).0

abbrev delta : WarpInputEvent
delta = WarpInputEvent.mouse_delta (of_px 1909 -ℤ of_px 1919) (of_px 541 -ℤ of_px 540)

abbrev between : List EventType
between = press (codes "A") ∷ release (codes "A") ∷ []

handover_example :
    let (c, told) = Passive.on_control sides.passive (to_message event) in
    let (c', back) = Passive.on_data c (to_message delta) in
    (crossing.is_remote ≡ true)
    × (crossing.tx ≡ [] ++ event ∷ [])
    × (forward_input sides.server true event ≡ (1, to_message event) ∷ [])
    × (told.injected ≡ Message.mouse_move (of_px 6) (of_px (720 / 2)) ∷ [])
    × (driven.tx ≡ crossing.tx ++ delta ∷ [])
    × (forward_input sides.server true delta ≡ (2, to_message delta) ∷ [])
    × (back.sent ≡ Message.boundary_leave 1 ∷ [])
    × (server_receive checksums plain (λ content. true) none (Message.boundary_leave 1)
        ≡ (none, exit_remote ∷ []))
    × ((callback checksums
          (record (captured checksums driven between) { exit_remote = true })
          (press (codes "Tab"))).0.is_remote
        ≡ false)
handover_example =
    handover sides (of_px 1919) (of_px 540) (of_px 1909) (of_px 541) between (press (codes "Tab"))
      sides-IsReady (unfold track advance check_exit ◌-ℤ◌ ◌+ℤ◌ in refl)
      (unfold ◌-ℤ◌ ◌+ℤ◌ in omega arith) refl
