-- ===== src/Protocol/Codec.antt =====
-- crates/ss-core/src/protocol.rs: sizes, frames, and what the code takes from bincode.
use supershare.Base.{
  ℕ, ◌+◌, ◌*◌, ◌/◌, ◌%◌, ◌^◌, ◌<◌, ◌≡◌, Option, some, [], ◌∷◌, ◌++◌, length, All, arith,
}
use supershare.Protocol.Kind.{MessageType, Message, Bytes, to_u8}

abbrev pub frame_magic : Bytes
frame_magic = 0x53 ∷ 0x53 ∷ []

abbrev pub max_payload_size : ℕ
max_payload_size = 16 * 1024 * 1024

abbrev pub clipboard_chunk_size : ℕ
clipboard_chunk_size = 64 * 1024

abbrev pub max_clipboard_image_size : ℕ
max_clipboard_image_size = 10 * 1024 * 1024

abbrev pub IsByte : ℕ → Type 0
IsByte b = b < 256

-- `bincode::serialize` and `bincode::deserialize` at `Message`; `none` is an error.
-- What is relied on: bytes come out, and they are read back as the message that was written.
pub record Wire : Type 0 where
  pub serialize : Message → Option Bytes
  pub deserialize : Bytes → Option Message
  pub bytes_law : (m : Message) (bs : Bytes) → serialize m ≡ some bs → All IsByte bs
  pub read_back : (m : Message) (bs : Bytes) → serialize m ≡ some bs → deserialize bs ≡ some m

-- `Message::encode` and `Message::decode`; the type is used for the error text only.
abbrev pub encode : Wire → Message → Option Bytes
encode w m = w.serialize m

abbrev pub decode : Wire → MessageType → Bytes → Option Message
decode w t bs = w.deserialize bs

-- `u32::to_le_bytes` and `u32::from_le_bytes`.
unfoldable pub to_le_bytes : ℕ → Bytes
to_le_bytes n = n % 256 ∷ n / 256 % 256 ∷ n / 65536 % 256 ∷ n / 16777216 % 256 ∷ []

unfoldable pub from_le_bytes : ℕ → ℕ → ℕ → ℕ → ℕ
from_le_bytes a b c d = a + b * 256 + c * 65536 + d * 16777216

pub record Frame : Type 0 where
  pub msg_type : MessageType
  pub payload : Bytes

abbrev pub header_size : ℕ
header_size = 7

-- `Frame::to_bytes`; `payload.len() as u32` keeps the low 32 bits.
unfoldable pub to_bytes : Frame → Bytes
unfolding to_u8 to_le_bytes
to_bytes f =
    frame_magic ++ to_u8 f.msg_type ∷ (to_le_bytes (length f.payload % 2 ^ 32) ++ f.payload)

pub from_le_bytes-to_le_bytes :
    (n : ℕ)
    → n < 2 ^ 32
    → from_le_bytes (n % 256) (n / 256 % 256) (n / 65536 % 256) (n / 16777216 % 256) ≡ n
unfolding from_le_bytes
from_le_bytes-to_le_bytes n h = omega arith

pub from_le_bytes-lt :
    (a b c d : ℕ) → IsByte a → IsByte b → IsByte c → IsByte d → from_le_bytes a b c d < 2 ^ 32
unfolding from_le_bytes
from_le_bytes-lt a b c d ha hb hc hd = omega arith

-- The header is seven bytes.
pub length-to_bytes : (f : Frame) → length (to_bytes f) ≡ header_size + length f.payload
unfolding to_bytes
length-to_bytes f = omega arith
