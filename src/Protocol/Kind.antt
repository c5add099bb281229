-- ===== src/Protocol/Kind.antt =====
-- crates/ss-core/src/protocol.rs: message types and messages.
use supershare.Base.{ℕ, ◌≡◌, refl, Bool, Option, none, some, List, Text, arith, eqb, if◌then◌else◌}
use supershare.Base.Int.{ℤ}

pub data MessageType : Type 0 where
  mouse_move mouse_button mouse_scroll key_press clipboard_data clipboard_begin : MessageType
  clipboard_chunk clipboard_end handshake heartbeat screen_config boundary_enter : MessageType
  boundary_leave mouse_delta pair_request pair_spake pair_confirm pair_result : MessageType
  pair_error : MessageType

-- `msg_type as u8`.
unfoldable pub to_u8 : MessageType → ℕ
to_u8 MessageType.mouse_move = 0x01
to_u8 MessageType.mouse_button = 0x02
to_u8 MessageType.mouse_scroll = 0x03
to_u8 MessageType.key_press = 0x04
to_u8 MessageType.clipboard_data = 0x05
to_u8 MessageType.clipboard_begin = 0x06
to_u8 MessageType.clipboard_chunk = 0x07
to_u8 MessageType.clipboard_end = 0x08
to_u8 MessageType.handshake = 0x09
to_u8 MessageType.heartbeat = 0x0a
to_u8 MessageType.screen_config = 0x0b
to_u8 MessageType.boundary_enter = 0x0c
to_u8 MessageType.boundary_leave = 0x0d
to_u8 MessageType.mouse_delta = 0x0e
to_u8 MessageType.pair_request = 0x0f
to_u8 MessageType.pair_spake = 0x10
to_u8 MessageType.pair_confirm = 0x11
to_u8 MessageType.pair_result = 0x12
to_u8 MessageType.pair_error = 0x13

-- `MessageType::try_from`; `none` is the error "Unknown message type".
unfoldable pub try_from : ℕ → Option MessageType
try_from v =
    if eqb v 0x01
    then some MessageType.mouse_move
    else if eqb v 0x02
    then some MessageType.mouse_button
    else if eqb v 0x03
    then some MessageType.mouse_scroll
    else if eqb v 0x04
    then some MessageType.key_press
    else if eqb v 0x05
    then some MessageType.clipboard_data
    else if eqb v 0x06
    then some MessageType.clipboard_begin
    else if eqb v 0x07
    then some MessageType.clipboard_chunk
    else if eqb v 0x08
    then some MessageType.clipboard_end
    else if eqb v 0x09
    then some MessageType.handshake
    else if eqb v 0x0a
    then some MessageType.heartbeat
    else if eqb v 0x0b
    then some MessageType.screen_config
    else if eqb v 0x0c
    then some MessageType.boundary_enter
    else if eqb v 0x0d
    then some MessageType.boundary_leave
    else if eqb v 0x0e
    then some MessageType.mouse_delta
    else if eqb v 0x0f
    then some MessageType.pair_request
    else if eqb v 0x10
    then some MessageType.pair_spake
    else if eqb v 0x11
    then some MessageType.pair_confirm
    else if eqb v 0x12
    then some MessageType.pair_result
    else if eqb v 0x13
    then some MessageType.pair_error
    else none

pub data Button : Type 0 where
  left right middle : Button

pub data ClipboardFormat : Type 0 where
  text image : ClipboardFormat

abbrev pub Bytes : Type 0
Bytes = List ℕ

-- The `f32` fields are coordinates.
pub data Message : Type 0 where
  mouse_move : (x y : ℤ) → Message
  mouse_delta : (dx dy : ℤ) → Message
  mouse_button : (button : Button) (pressed : Bool) → Message
  mouse_scroll : (dx dy : ℤ) → Message
  key_press : (keycode : ℕ) (pressed : Bool) → Message
  clipboard_data : (format : ClipboardFormat) (content : Bytes) → Message
  clipboard_begin : (format : ClipboardFormat) (total_size width height : ℕ) → Message
  clipboard_chunk : (seq : ℕ) (content : Bytes) → Message
  clipboard_end : (hash : Bytes) → Message
  handshake : (version : ℕ) (name : Text) (screen_width screen_height : ℕ) → Message
  heartbeat : Message
  screen_config : (width height : ℕ) → Message
  boundary_enter : (target_screen : ℕ) (enter_x enter_y : ℤ) → Message
  boundary_leave : (source_screen : ℕ) → Message
  pair_request : (version : ℕ) (name : Text) → Message
  pair_spake : (msg : Bytes) → Message
  pair_confirm : (nonce ciphertext : Bytes) → Message
  pair_result : (nonce ciphertext : Bytes) → Message
  pair_error : (reason : Text) → Message

unfoldable pub msg_type : Message → MessageType
msg_type (Message.mouse_move x y) = MessageType.mouse_move
msg_type (Message.mouse_delta dx dy) = MessageType.mouse_delta
msg_type (Message.mouse_button button pressed) = MessageType.mouse_button
msg_type (Message.mouse_scroll dx dy) = MessageType.mouse_scroll
msg_type (Message.key_press keycode pressed) = MessageType.key_press
msg_type (Message.clipboard_data format content) = MessageType.clipboard_data
msg_type (Message.clipboard_begin format total_size width height) = MessageType.clipboard_begin
msg_type (Message.clipboard_chunk seq content) = MessageType.clipboard_chunk
msg_type (Message.clipboard_end hash) = MessageType.clipboard_end
msg_type (Message.handshake version name w h) = MessageType.handshake
msg_type Message.heartbeat = MessageType.heartbeat
msg_type (Message.screen_config width height) = MessageType.screen_config
msg_type (Message.boundary_enter target x y) = MessageType.boundary_enter
msg_type (Message.boundary_leave source) = MessageType.boundary_leave
msg_type (Message.pair_request version name) = MessageType.pair_request
msg_type (Message.pair_spake msg) = MessageType.pair_spake
msg_type (Message.pair_confirm nonce ciphertext) = MessageType.pair_confirm
msg_type (Message.pair_result nonce ciphertext) = MessageType.pair_result
msg_type (Message.pair_error reason) = MessageType.pair_error

pub try_from-to_u8 : (t : MessageType) → try_from (to_u8 t) ≡ some t
unfolding try_from to_u8
try_from-to_u8 MessageType.mouse_move = refl
try_from-to_u8 _ = refl

-- A byte is read as a message type exactly when it is that type's byte.
pub try_from_iff : (v : ℕ) (t : MessageType) → try_from v ≡ some t → v ≡ to_u8 t
unfolding try_from to_u8
try_from_iff v t h = ground arith
