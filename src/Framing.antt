-- ===== src/Framing.antt =====
-- crates/ss-network/src/framing.rs: frames on a byte stream.
pub mod Laws
pub mod Sound
pub mod Stream
use supershare.Base.{
  ℕ, ◌+◌, ◌-◌, ◌≤◌, ◌<◌, ◌≡◌, refl, Bool, true, false, Option, none, some, List, [], ◌∷◌, ◌++◌,
  length, take, drop, ltb, leb, if◌then◌else◌, ◌==◌, list_eq, nat_eq, arith,
}
use supershare.Base.Outcome.{Outcome, ok, err, ◌>>=◌, ◌>>◌, ensure, ok_or}
use supershare.Protocol.Kind.{MessageType, Message, Bytes, try_from, msg_type}
use supershare.Protocol.Codec.{
  Wire, Frame, encode, decode, from_le_bytes, to_bytes, frame_magic, max_payload_size, header_size,
}

-- What an `AsyncRead` gives when its bytes are used up.
pub data End : Type 0 where
  eof : End
  reset : End

pub record Reader : Type 0 where
  pub bytes : Bytes
  pub ends : End

pub data FrameError : Type 0 where
  unexpected_eof io_error invalid_magic unknown_type payload_too_large bad_payload : FrameError
  serialize_error : FrameError

abbrev pub end_error : End → FrameError
end_error eof = unexpected_eof
end_error reset = io_error

-- `read_exact` into a buffer of `n` bytes.
unfoldable pub read_exact : ℕ → Reader → Outcome FrameError (Bytes × Reader)
read_exact n r =
    if leb n (length r.bytes)
    then ok (take n r.bytes, record r { bytes = drop n r.bytes })
    else err (end_error r.ends)

abbrev pub Read : Type 0
Read = Outcome FrameError (Option (Message × Reader))

-- The header's length field; the header has seven bytes.
abbrev pub header_length : Bytes → ℕ
header_length (m0 ∷ m1 ∷ t ∷ a ∷ b ∷ c ∷ d ∷ rest) = from_le_bytes a b c d
header_length _ = 0

abbrev pub header_type : Bytes → Option MessageType
header_type (m0 ∷ m1 ∷ t ∷ rest) = try_from t
header_type _ = none

-- What follows the read of the header.
unfoldable pub read_body : Wire → Bytes → Reader → Read
unfolding read_exact
read_body w header r = do
  ensure (take 2 header == frame_magic) invalid_magic
  t ← ok_or (header_type header) unknown_type
  ensure (leb (header_length header) max_payload_size) payload_too_large
  (payload, rest) ← read_exact (header_length header) r
  message ← ok_or (decode w t payload) bad_payload
  ok (some (message, rest))

-- `read_frame`: `none` is a clean end, at which no whole header is left.
unfoldable pub read_frame : Wire → Reader → Read
unfolding read_body
read_frame w r = elim (read_exact header_size r) [
  | ok (header, rest) ↦ read_body w header rest
  | err unexpected_eof ↦ ok none
  | err e ↦ err e
]

-- `write_frame`: the bytes that go to the writer.
unfoldable pub write_frame : Wire → Message → Outcome FrameError Bytes
write_frame w m = do
  payload ← ok_or (encode w m) serialize_error
  ok (to_bytes (record { msg_type = msg_type m; payload = payload }))
