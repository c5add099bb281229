-- ===== src/Framing/Laws.antt =====
-- crates/ss-network/src/framing.rs: one frame, written and read.
use supershare.Base.{
  ℕ, ◌+◌, ◌^◌, ◌%◌, ◌≤◌, ◌<◌, ◌≡◌, refl, ◌∙◌, ap, none, some, ◌∷◌, ◌++◌, length, list_eq, nat_eq,
  arith, take_append, drop_append, length-append, le→leb, gt→leb, Option-cases, inl, inr,
}
use supershare.Base.Outcome.{ok, err, ◌>>=◌, ok_or}
use supershare.Protocol.Kind.{MessageType, Message, Bytes, to_u8, msg_type, try_from-to_u8}
use supershare.Protocol.Codec.{
  Wire, decode, to_le_bytes, to_bytes, max_payload_size, header_size, from_le_bytes-to_le_bytes,
  length-to_bytes,
}
use native.Mathlib.Nat.{mod-eq_of_lt}
use supershare.Framing.{
  End, eof, end_error, Reader, FrameError, unexpected_eof, payload_too_large, read_exact,
  header_length, read_body, read_frame, write_frame,
}

read_exact_append :
    (xs ys : Bytes) (e : End)
    → read_exact (length xs) (record { bytes = xs ++ ys; ends = e })
      ≡ ok (xs, record { bytes = ys; ends = e })
unfolding read_exact
read_exact_append xs ys e =
    ground (arith, length-append xs ys, take_append xs ys, drop_append xs ys)

abbrev header_of : MessageType → ℕ → Bytes
header_of t n = 0x53 ∷ 0x53 ∷ to_u8 t ∷ to_le_bytes n

header_of-length : (t : MessageType) (n : ℕ) → n < 2 ^ 32 → header_length (header_of t n) ≡ n
unfolding to_le_bytes
header_of-length t n h = from_le_bytes-to_le_bytes n h

-- A frame of any type and payload: its header, then the payload.
to_bytes-header :
    (t : MessageType) (p more : Bytes)
    → to_bytes (record { msg_type = t; payload = p }) ++ more
      ≡ header_of t (length p % 2 ^ 32) ++ (p ++ more)
unfolding to_bytes
to_bytes-header t p more = refl

read_frame_header :
    (w : Wire) (t : MessageType) (n : ℕ) (rest : Bytes) (e : End)
    → read_frame w (record { bytes = header_of t n ++ rest; ends = e })
      ≡ read_body w (header_of t n) (record { bytes = rest; ends = e })
unfolding read_frame to_le_bytes
read_frame_header w t n rest e = rw (read_exact_append (header_of t n) rest e, read_frame)

read_body_header :
    (w : Wire) (t : MessageType) (p more : Bytes) (e : End)
    → length p ≤ max_payload_size
    → read_body w (header_of t (length p)) (record { bytes = p ++ more; ends = e }) ≡ (
        ok_or (decode w t p) FrameError.bad_payload >>= λ m.
        ok (some (m, record { bytes = more; ends = e })))
unfolding read_body to_le_bytes
read_body_header w t p more e h = rw (
  try_from-to_u8 t,
  header_of-length t (length p) (omega arith),
  le→leb _ _ h,
  read_exact_append p more e,
)

-- The reader is given a whole frame, of any type and with any payload within the limit.
read_frame-to_bytes :
    (w : Wire) (t : MessageType) (p more : Bytes) (e : End)
    → length p ≤ max_payload_size
    → read_frame w
        (record { bytes = to_bytes (record { msg_type = t; payload = p }) ++ more; ends = e })
      ≡ (ok_or (decode w t p) FrameError.bad_payload >>= λ m.
          ok (some (m, record { bytes = more; ends = e })))
read_frame-to_bytes w t p more e h =
    rw (to_bytes-header t p more, mod-eq_of_lt {n = length p} {m = 2 ^ 32} (omega arith))
      (read_frame_header w t (length p) (p ++ more) e ∙ read_body_header w t p more e h)

pub write_frame_inv :
    (w : Wire) (m : Message) (bs : Bytes)
    → write_frame w m ≡ ok bs
    → (p : Bytes) × (w.serialize m ≡ some p)
      × (bs ≡ to_bytes (record { msg_type = msg_type m; payload = p }))
unfolding write_frame
write_frame_inv w m bs h = elim (Option-cases (w.serialize m)) [
  | inl e ↦ cc (h, e)
  | inr (p, e) ↦ (p, e, ground arith)
]

-- `read_frame` gives back the message that `write_frame` wrote, and leaves whatever follows it,
-- if the payload is within `MAX_PAYLOAD_SIZE`.
pub read_frame-write_frame :
    (w : Wire) (m : Message) (bs more : Bytes) (e : End)
    → write_frame w m ≡ ok bs
    → length bs ≤ header_size + max_payload_size
    → read_frame w (record { bytes = bs ++ more; ends = e })
      ≡ ok (some (m, record { bytes = more; ends = e }))
read_frame-write_frame w m bs more e h fits =
    let (p, s, b) = write_frame_inv w m bs h in
    rw b (
      read_frame-to_bytes w (msg_type m) p more e (
        omega (arith, ap length b, length-to_bytes (record { msg_type = msg_type m; payload = p })))
      ∙ rw (w.read_back m p s))

read_body_too_large :
    (w : Wire) (t : MessageType) (n : ℕ) (r : Reader)
    → n < 2 ^ 32
    → max_payload_size < n
    → read_body w (header_of t n) r ≡ err payload_too_large
unfolding read_body to_le_bytes
read_body_too_large w t n r small big =
    rw (try_from-to_u8 t, header_of-length t n small, gt→leb n max_payload_size big)

-- A message whose payload is over `MAX_PAYLOAD_SIZE` (and below 4 GiB) is written without an error,
-- and every reader of that frame then fails with the size error.
pub read_frame-write_frame_too_large :
    (w : Wire) (m : Message) (bs more : Bytes) (e : End)
    → write_frame w m ≡ ok bs
    → header_size + max_payload_size < length bs
    → length bs < header_size + 2 ^ 32
    → read_frame w (record { bytes = bs ++ more; ends = e }) ≡ err payload_too_large
read_frame-write_frame_too_large w m bs more e h big small =
    let (p, s, b) = write_frame_inv w m bs h in
    let size : length bs ≡ header_size + length p =
      ap length b ∙ length-to_bytes (record { msg_type = msg_type m; payload = p }) in
    rw
      (
        b,
        to_bytes-header (msg_type m) p more,
        mod-eq_of_lt {n = length p} {m = 2 ^ 32} (omega arith),
        read_frame_header w (msg_type m) (length p) (p ++ more) e,
      )
      (read_body_too_large w (msg_type m) (length p) _ (omega arith) (omega arith))

read_exact_short :
    (n : ℕ) (r : Reader) → length r.bytes < n → read_exact n r ≡ err (end_error r.ends)
unfolding read_exact
read_exact_short n r h = ground arith

-- Fewer than seven bytes before the end of the stream: a clean end, whatever the bytes are.
pub read_frame_short :
    (w : Wire) (bs : Bytes)
    → length bs < header_size
    → read_frame w (record { bytes = bs; ends = eof }) ≡ ok none
unfolding read_frame
read_frame_short w bs h =
    rw (read_exact_short header_size (record { bytes = bs; ends = eof }) h, read_frame)

read_body_cut :
    (w : Wire) (t : MessageType) (n : ℕ) (bs : Bytes)
    → n ≤ max_payload_size
    → length bs < n
    → read_body w (header_of t n) (record { bytes = bs; ends = eof }) ≡ err unexpected_eof
unfolding read_body to_le_bytes
read_body_cut w t n bs fits h = rw (
  try_from-to_u8 t,
  header_of-length t n (omega arith),
  le→leb _ _ fits,
  read_exact_short n (record { bytes = bs; ends = eof }) h,
)
