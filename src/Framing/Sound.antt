-- ===== src/Framing/Sound.antt =====
-- crates/ss-network/src/framing.rs: what `read_frame` accepts.
use supershare.Base.{
  ℕ, ◌%◌, ◌^◌, ◌≤◌, ◌≡◌, ◌∙◌, sym, ap, some, [], ◌∷◌, ◌++◌, length, take, ==_iff, list_eq, nat_eq,
  arith, All, take-append-drop, append_assoc, subst, length-take,
}
use supershare.Base.Outcome.{ok}
use supershare.Protocol.Kind.{MessageType, Message, Bytes, try_from_iff}
use supershare.Protocol.Codec.{
  Wire, Frame, from_le_bytes, to_le_bytes, to_bytes, frame_magic, max_payload_size, header_size,
  IsByte,
}
use supershare.Framing.{Reader, read_exact, header_length, header_type, read_body, read_frame}

-- `IsHeader t n h`: the seven bytes of a frame header.
from_le_bytes_inv :
    (a b c d : ℕ)
    → IsByte a
    → IsByte b
    → IsByte c
    → IsByte d
    → to_le_bytes (from_le_bytes a b c d % 2 ^ 32) ≡ a ∷ b ∷ c ∷ d ∷ []
unfolding to_le_bytes from_le_bytes
from_le_bytes_inv a b c d ha hb hc hd = ground arith

read_exact_inv :
    (n : ℕ) (r : Reader) (bs : Bytes) (rest : Reader)
    → read_exact n r ≡ ok (bs, rest)
    → (r.bytes ≡ bs ++ rest.bytes) × (length bs ≡ n) × (rest.ends ≡ r.ends)
unfolding read_exact
read_exact_inv n r bs rest h = ground (arith, take-append-drop n r.bytes, length-take n r.bytes)

-- A header and payload that pass the tests of `read_body` make up a frame.
record Accepted (w : Wire) (h : Bytes) (r : Reader) (m : Message) (rest : Reader) : Type 0 where
  t : MessageType
  p : Bytes
  magic : take 2 h ≡ frame_magic
  typed : header_type h ≡ some t
  small : header_length h ≤ max_payload_size
  body : read_exact (header_length h) r ≡ ok (p, rest)
  decoded : w.deserialize p ≡ some m

read_body_inv :
    (w : Wire) (h : Bytes) (r : Reader) (m : Message) (rest : Reader)
    → read_body w h r ≡ ok (some (m, rest))
    → Accepted w h r m rest
unfolding read_body
read_body_inv w h r m rest e = ground (arith, ==_iff (take 2 h) frame_magic)

header_frame :
    (h p : Bytes) (t : MessageType)
    → length h ≡ 7
    → All IsByte h
    → take 2 h ≡ frame_magic
    → header_type h ≡ some t
    → header_length h ≡ length p
    → h ++ p ≡ to_bytes (record { msg_type = t; payload = p })
unfolding to_bytes
header_frame (m0 ∷ m1 ∷ t0 ∷ a ∷ b ∷ c ∷ d ∷ []) p t l (b0, (b1, (bt, (ba, (bb, (bc, (bd, u)))))))
      mg ty ln =
    let le = from_le_bytes_inv a b c d ba bb bc bd in
    ground (arith, mg, try_from_iff t0 t ty, le, ln)
header_frame h p t l bytes mg ty ln = absurd (omega arith)

All-take : (xs ys : Bytes) → All IsByte (xs ++ ys) → All IsByte xs
All-take [] ys h = tt
All-take (x ∷ xs) ys h = (h.0, All-take xs ys h.1)

read_frame_inv :
    (w : Wire) (r : Reader) (m : Message) (rest : Reader)
    → read_frame w r ≡ ok (some (m, rest))
    → (h : Bytes) × (mid : Reader) × (read_exact header_size r ≡ ok (h, mid))
      × (read_body w h mid ≡ ok (some (m, rest)))
unfolding read_frame
read_frame_inv w r m rest e = ground arith

-- Whatever `read_frame` accepts is a frame of the wire format, of a known type, with a payload within
-- the limit that bincode reads as the message; the reader is left right behind that frame.
pub read_frame_sound :
    (w : Wire) (r : Reader) (m : Message) (rest : Reader)
    → All IsByte r.bytes
    → read_frame w r ≡ ok (some (m, rest))
    → (f : Frame) × (r.bytes ≡ to_bytes f ++ rest.bytes)
      × (w.deserialize f.payload ≡ some m)
      × (length f.payload ≤ max_payload_size)
      × (rest.ends ≡ r.ends)
read_frame_sound w r m rest bytes e =
    let (h, mid, eh, eb) = read_frame_inv w r m rest e in
    let (split, l7, ends) = read_exact_inv header_size r h mid eh in
    let acc = read_body_inv w h mid m rest eb in
    let (split', ln, ends') = read_exact_inv (header_length h) mid acc.p rest acc.body in
    let frame =
      header_frame h acc.p acc.t l7 (All-take h mid.bytes (subst (All IsByte) split bytes))
        acc.magic acc.typed (sym ln) in
    (
      record { msg_type = acc.t; payload = acc.p },
      split
          ∙ ap (◌++◌ h) split'
          ∙ sym (append_assoc h acc.p rest.bytes)
          ∙ ap (λ z. z ++ rest.bytes) frame,
      acc.decoded,
      omega (arith, ln, acc.small),
      ends' ∙ ends,
    )
