-- ===== src/Examples/Params.antt =====
-- Concrete stand-ins for the parameters: they satisfy what is relied on of bincode, blake3 and zstd.
use supershare.Base.{
  ℕ, zero, suc, ◌+◌, ◌*◌, ◌%◌, ◌^◌, ◌≡◌, refl, Bool, true, Option, none, some, [], ◌∷◌, ◌++◌,
  length, All, arith, ltb, if◌then◌else◌, ◌&&◌, ap,
}
use supershare.Protocol.Kind.{Bytes, Message, ClipboardFormat}
use supershare.Protocol.Codec.{Wire, IsByte, to_le_bytes}
use supershare.Protocol.Content.{Hash}
use supershare.Clipboard.Sync.{Zstd}

unfoldable pub all_bytes : Bytes → Bool
all_bytes [] = true
all_bytes (b ∷ bs) = ltb b 256 && all_bytes bs

all_bytes-All : (bs : Bytes) → all_bytes bs ≡ true → All IsByte bs
unfolding all_bytes
all_bytes-All [] h = tt
all_bytes-All (b ∷ bs) h = ground (arith, all_bytes-All bs)

-- A wire that carries texts only, as their bytes.
unfoldable pub write_text : Message → Option Bytes
write_text (Message.clipboard_data ClipboardFormat.text bs) = if all_bytes bs then some bs else none
write_text m = none

pub write_text-All : (m : Message) (bs : Bytes) → write_text m ≡ some bs → All IsByte bs
unfolding write_text
write_text-All (Message.clipboard_data ClipboardFormat.text cs) bs h =
    ground (arith, all_bytes-All cs)
write_text-All m bs h = absurd (ground arith)

pub write_text-read :
    (m : Message) (bs : Bytes)
    → write_text m ≡ some bs
    → some (Message.clipboard_data ClipboardFormat.text bs) ≡ some m
unfolding write_text
write_text-read (Message.clipboard_data ClipboardFormat.text cs) bs h = ground arith
write_text-read m bs h = absurd (ground arith)

abbrev pub text_wire : Wire
text_wire = record {
  serialize = write_text;
  deserialize = λ bs. some (Message.clipboard_data ClipboardFormat.text bs);
  bytes_law = write_text-All;
  read_back = write_text-read;
}

abbrev pub text_message : Bytes → Message
text_message bs = Message.clipboard_data ClipboardFormat.text bs

-- A checksum in the first four of 32 bytes.
unfoldable pub checksum : Bytes → ℕ
checksum [] = 7
checksum (b ∷ bs) = (b + 1 + 257 * checksum bs) % 2 ^ 32

abbrev pub zeros : Bytes
zeros =
    0 ∷ 0 ∷ 0 ∷ 0 ∷ 0 ∷ 0 ∷ 0 ∷ 0 ∷ 0 ∷ 0 ∷ 0 ∷ 0 ∷ 0 ∷ 0 ∷ 0 ∷ 0 ∷ 0 ∷ 0 ∷ 0 ∷ 0 ∷ 0 ∷ 0 ∷ 0 ∷ 0
    ∷ 0 ∷ 0 ∷ 0 ∷ 0 ∷ []

unfoldable pub sum_hash : Bytes → Bytes
unfolding checksum to_le_bytes
sum_hash bs = to_le_bytes (checksum bs) ++ zeros

pub sum_hash-length : (bs : Bytes) → length (sum_hash bs) ≡ 32
unfolding sum_hash
sum_hash-length bs = refl

pub sum_hash-bytes : (bs : Bytes) → All IsByte (sum_hash bs)
unfolding sum_hash
sum_hash-bytes bs = omega arith

abbrev pub checksums : Hash
checksums = record { blake3 = sum_hash; length_law = sum_hash-length; bytes_law = sum_hash-bytes }

-- Compression that leaves everything as it is.
pub read_plain : (bs z : Bytes) → some bs ≡ some z → some z ≡ some bs
read_plain bs z h = cc

abbrev pub plain : Zstd
plain = record { encode_all = λ bs. some bs; decode_all = λ bs. some bs; read_back = read_plain }

-- `n` bytes, for sizes that are not to be computed.
pub block : ℕ → Bytes
block zero = []
block (suc n) = 0 ∷ block n

pub length-block : (n : ℕ) → length (block n) ≡ n
unfolding block
length-block zero = refl
length-block (suc n) = ap suc (length-block n)

pub all_bytes-block : (n : ℕ) → all_bytes (block n) ≡ true
unfolding all_bytes block
all_bytes-block zero = refl
all_bytes-block (suc n) = all_bytes-block n
