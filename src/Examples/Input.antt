-- ===== src/Examples/Input.antt =====
-- The capture callback at the right edge of a screen, and the codes of keys.
use supershare.Base.{
  ◌≡◌, refl, true, false, ◌&&◌, ◌||◌, not, some, none, List, [], ◌∷◌, ◌++◌, codes, if◌then◌else◌,
  arith, Bool, eqb, ◌==◌, ==_iff, list_eq, nat_eq,
}
use supershare.Base.Utf8.{as_bytes, encode_char}
use supershare.Protocol.Codec.{to_le_bytes, from_le_bytes}
use supershare.Protocol.Kind.{Message}
use supershare.Inject.{inject_event}
use supershare.Inject.Forwarded.{inject_event-callback}
use supershare.Passive.{PassiveClient, on_data}
use supershare.Passive.Return.{OnScreen, on_data-OnScreen}
use supershare.Base.Int.{negsuc, ℤ, pos, ◌+ℤ◌, leb_ℤ}
use supershare.Base.Coord.{of_px}
use supershare.Capture.{
  WarpInputEvent, to_message, CallbackState, start_capture, callback, move_to, press,
}
use supershare.Capture.Bounds.{IsValid, start_capture-IsValid, callback-IsValid}
use supershare.Capture.Modes.{callback_mode, leaves, crosses}
use supershare.Capture.Deltas.{IsDriving, drive, drive-sum, sum_dx, sum_dy}
use supershare.Keys.{Key, common_keys, key_to_u32, u32_to_key}
use supershare.Keys.Laws.{Separates, is_common, u32_to_key-key_to_u32}
use supershare.Examples.Params.{checksums, checksum, sum_hash}

-- A server of 1920 by 1080 with a client, its cursor in the middle.
abbrev local : CallbackState
local = record {
  tx = [];
  screen_width = of_px 1920;
  screen_height = of_px 1080;
  prev_x = of_px 960;
  prev_y = of_px 540;
  prev_initialized = true;
  pos_x = of_px 960;
  pos_y = of_px 540;
  frozen_x = pos 0;
  frozen_y = pos 0;
  is_remote = false;
  exit_remote = false;
  has_client = true;
}

-- The same after it went to the client and was asked to come back.
abbrev returning : CallbackState
returning = record local {
  is_remote = true;
  exit_remote = true;
  frozen_x = of_px 1920;
  frozen_y = of_px 540;
}

abbrev remote : CallbackState
remote = record returning { exit_remote = false }

callback-IsValid_example :
    IsValid (callback checksums (start_capture 1920 1080) (move_to (of_px 3) (of_px 4))).0
callback-IsValid_example =
    callback-IsValid checksums (start_capture 1920 1080) (move_to (of_px 3) (of_px 4))
      (start_capture-IsValid 1920 1080)

callback_mode_example :
    (callback checksums local (move_to (of_px 1920) (of_px 540))).0.is_remote
    ≡ local.is_remote && not (leaves local) || crosses local (move_to (of_px 1920) (of_px 540))
callback_mode_example = callback_mode checksums local (move_to (of_px 1920) (of_px 540))

remote-IsDriving : IsDriving remote
remote-IsDriving = record { remote = refl; stays = refl; client = refl; known = refl }

abbrev moves : List (ℤ × ℤ)
moves = (of_px 970, of_px 540) ∷ (of_px 950, of_px 530) ∷ []

drive-sum_example :
    let t = drive checksums remote moves in
    (sum_dx t.tx +ℤ of_px 960 ≡ sum_dx [] +ℤ of_px 950)
    × (sum_dy t.tx +ℤ of_px 540 ≡ sum_dy [] +ℤ of_px 530)
    × IsDriving t
drive-sum_example = drive-sum checksums moves remote remote-IsDriving (omega arith)

-- A test that decides `Separates`.
unfoldable separates : Key → List Key → Bool
separates key [] = true
separates key (k ∷ ks) =
    (k == key || not (eqb (key_to_u32 checksums k) (key_to_u32 checksums key))) && separates key ks

separates-Separates :
    (key : Key) (ks : List Key) → separates key ks ≡ true → Separates checksums key ks
unfolding separates
separates-Separates key [] h = tt
separates-Separates key (k ∷ ks) h = ground (arith, ==_iff k key, separates-Separates key ks)

tab-Separates : Separates checksums (codes "Tab") common_keys
tab-Separates = separates-Separates (codes "Tab") common_keys (
    unfold separates key_to_u32 sum_hash checksum to_le_bytes from_le_bytes as_bytes encode_char in
    refl)

u32_to_key-key_to_u32_example :
    u32_to_key checksums (key_to_u32 checksums (codes "Tab"))
    ≡ (if is_common (codes "Tab") common_keys then some (codes "Tab") else none)
u32_to_key-key_to_u32_example = u32_to_key-key_to_u32 checksums (codes "Tab") tab-Separates

inject_event-callback_example :
    let (t, passes) = callback checksums remote (press (codes "Tab")) in
    (w : WarpInputEvent) × (t.tx ≡ [] ++ w ∷ [])
    × (inject_event checksums (to_message w) ≡ some (press (codes "Tab")))
    × (passes ≡ false)
inject_event-callback_example =
    inject_event-callback checksums remote (press (codes "Tab")) refl refl refl (omega arith)
      (refl, tab-Separates)

-- A client with its cursor near the left edge.
abbrev client : PassiveClient
client = record { x = of_px 6; y = of_px 400; screen_w = 1280; screen_h = 800 }

client-OnScreen : OnScreen client
client-OnScreen = record {
  wide = omega arith;
  tall = omega arith;
  in_x = omega arith;
  in_y = omega arith;
}

on_data-OnScreen_example :
    let (d, e) = on_data client (Message.mouse_delta (negsuc 2047) (of_px 1)) in
    OnScreen d
    × (e.injected ≡ Message.mouse_move d.x d.y ∷ [])
    × (e.sent
        ≡ (if leb_ℤ (client.x +ℤ negsuc 2047) (pos 0) then Message.boundary_leave 1 ∷ [] else []))
on_data-OnScreen_example = on_data-OnScreen client (negsuc 2047) (of_px 1) client-OnScreen
