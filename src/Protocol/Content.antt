-- ===== src/Protocol/Content.antt =====
-- crates/ss-core/src/protocol.rs: clipboard content and its hash. `blake3` is a parameter.
use supershare.Base.{ℕ, ◌≡◌, length, All, Text}
use supershare.Base.Utf8.{as_bytes}
use supershare.Protocol.Kind.{Bytes}
use supershare.Protocol.Codec.{IsByte}

-- `blake3::hash`: 32 bytes. No law says that it has no collisions.
pub record Hash : Type 0 where
  pub blake3 : Bytes → Bytes
  pub length_law : (bs : Bytes) → length (blake3 bs) ≡ 32
  pub bytes_law : (bs : Bytes) → All IsByte (blake3 bs)

pub data ClipboardContent : Type 0 where
  text : Text → ClipboardContent
  image : (width height : ℕ) (rgba : Bytes) → ClipboardContent

-- `ClipboardContent::hash`: of the text's bytes, or of the pixels alone.
unfoldable pub hash : Hash → ClipboardContent → Bytes
hash h (ClipboardContent.text s) = h.blake3 (as_bytes s)
hash h (ClipboardContent.image w ht rgba) = h.blake3 rgba
