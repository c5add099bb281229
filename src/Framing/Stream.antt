-- ===== src/Framing/Stream.antt =====
-- crates/ss-network/src/client.rs: the writer and reader tasks of a channel, over whole streams.
use supershare.Base.{
  ℕ, zero, suc, ◌+◌, ◌-◌, ◌≤◌, ◌<◌, ◌≡◌, ◌≢◌, refl, ◌∙◌, ap, none, some, List, [], ◌∷◌, ◌++◌,
  length, arith, append_assoc, All, inl, inr, append-nil, ◌⊎◌, length-drop, length-append, ◌^◌,
}
use supershare.Base.Outcome.{ok, err}
use supershare.Protocol.Kind.{Message, Bytes, msg_type}
use supershare.Protocol.Codec.{Wire, max_payload_size, header_size, length-to_bytes}
use supershare.Framing.{
  End, eof, Reader, FrameError, payload_too_large, read_exact, read_body, read_frame, write_frame,
  Read,
}
use supershare.Framing.Laws.{
  read_frame-write_frame, read_frame-write_frame_too_large, read_frame_short, write_frame_inv,
}

-- How a reader task ended. `stuck` is no outcome of the code: the fuel ran out.
pub data Stop : Type 0 where
  closed : Stop
  broken : FrameError → Stop
  stuck : Stop

-- The reader task: read frames until the end of the stream or an error.
unfoldable pub receive : ℕ → Wire → Reader → List Message × Stop
receive zero w r = ([], stuck)
receive (suc fuel) w r = elim (read_frame w r) [
  | ok none ↦ ([], closed)
  | ok (some (m, rest)) ↦ let (ms, s) = receive fuel w rest in (m ∷ ms, s)
  | err e ↦ ([], broken e)
]

-- The writer task: the bytes of each queued message, until one cannot be written.
unfoldable pub send_all : Wire → List Message → Bytes
send_all w [] = []
send_all w (m ∷ ms) = elim (write_frame w m) [ ok bs ↦ bs ++ send_all w ms | err e ↦ [] ]

Read-cases :
    (o : Read)
    → ((o ≡ ok none) ⊎ ((m : Message) × (rest : Reader) × (o ≡ ok (some (m, rest)))))
      ⊎ ((e : FrameError) × (o ≡ err e))
Read-cases (ok none) = inl (inl refl)
Read-cases (ok (some (m, rest))) = inl (inr (m, rest, refl))
Read-cases (err e) = inr (e, refl)

read_exact_rest :
    (n : ℕ) (r : Reader) (bs : Bytes) (rest : Reader)
    → read_exact n r ≡ ok (bs, rest)
    → length rest.bytes + n ≡ length r.bytes
unfolding read_exact
read_exact_rest n r bs rest h = ground (arith, length-drop n r.bytes)

read_body_rest :
    (w : Wire) (h : Bytes) (r : Reader) (m : Message) (rest : Reader)
    → read_body w h r ≡ ok (some (m, rest))
    → length rest.bytes ≤ length r.bytes
unfolding read_body
read_body_rest w h r m rest e = grind (arith, read_exact_rest)

-- A successful `read_frame` takes at least the header.
pub read_frame_shrinks :
    (w : Wire) (r : Reader) (m : Message) (rest : Reader)
    → read_frame w r ≡ ok (some (m, rest))
    → length rest.bytes + header_size ≤ length r.bytes
unfolding read_frame
read_frame_shrinks w r m rest e = grind (arith, read_exact_rest, read_body_rest)

-- The reader task ends: fuel above the number of bytes is never used up.
pub receive-ne-stuck :
    (w : Wire) (fuel : ℕ) (r : Reader) → length r.bytes < fuel → (receive fuel w r).1 ≢ stuck
unfolding receive
receive-ne-stuck w zero r h = absurd (omega arith)
receive-ne-stuck w (suc fuel) r h = elim (Read-cases (read_frame w r)) [
  | inl (inl e) ↦ rw (e, receive) (λ p. cc)
  | inl (inr (m, rest, e)) ↦
      rw (e, receive)
        (receive-ne-stuck w fuel rest (omega (arith, read_frame_shrinks w r m rest e)))
  | inr (x, e) ↦ rw (e, receive) (λ p. cc)
]

-- What the peer can be sent: bincode writes it, within the payload limit.
abbrev pub Fits : Wire → Message → Type 0
Fits w m = (bs : Bytes) × (write_frame w m ≡ ok bs) × (length bs ≤ header_size + max_payload_size)

-- What no reader takes: bincode writes it, over the payload limit.
abbrev pub TooLarge : Wire → Message → Type 0
TooLarge w m =
    (bs : Bytes) × (write_frame w m ≡ ok bs)
    × (header_size + max_payload_size < length bs)
    × (length bs < header_size + 2 ^ 32)

send_all-cons :
    (w : Wire) (m : Message) (ms : List Message) (bs : Bytes)
    → write_frame w m ≡ ok bs
    → send_all w (m ∷ ms) ≡ bs ++ send_all w ms
unfolding send_all
send_all-cons w m ms bs h = rw (h, send_all)

write_frame-length :
    (w : Wire) (m : Message) (bs : Bytes) → write_frame w m ≡ ok bs → header_size ≤ length bs
write_frame-length w m bs h =
    let (p, s, b) = write_frame_inv w m bs h in
    omega (arith, ap length b, length-to_bytes (record { msg_type = msg_type m; payload = p }))

receive_end :
    (w : Wire) (fuel : ℕ)
    → 0 < fuel
    → receive fuel w (record { bytes = []; ends = eof }) ≡ ([], closed)
receive_end w zero h = absurd (omega arith)
receive_end w (suc fuel) h = unfold receive in rw (read_frame_short w [] (omega arith), receive)

receive_big :
    (w : Wire) (big : Message) (back : List Message) (bs : Bytes)
    → write_frame w big ≡ ok bs
    → header_size + max_payload_size < length bs
    → length bs < header_size + 2 ^ 32
    → (fuel : ℕ) → length (send_all w (big ∷ back)) < fuel
    → receive fuel w (record { bytes = send_all w (big ∷ back); ends = eof })
      ≡ ([], broken payload_too_large)
unfolding receive
receive_big w big back bs wrote gt small zero h = absurd (omega arith)
receive_big w big back bs wrote gt small (suc fuel) h = rw (
  send_all-cons w big back bs wrote,
  read_frame-write_frame_too_large w big bs (send_all w back) eof wrote gt small,
  receive,
)

receive_message :
    (w : Wire) (fuel : ℕ) (m : Message) (bs more : Bytes) (e : End)
    → write_frame w m ≡ ok bs
    → length bs ≤ header_size + max_payload_size
    → let (ms, s) = receive fuel w (record { bytes = more; ends = e }) in
      receive (suc fuel) w (record { bytes = bs ++ more; ends = e }) ≡ (m ∷ ms, s)
unfolding receive
receive_message w fuel m bs more e h fits =
    rw (read_frame-write_frame w m bs more e h fits, receive)

-- Messages in front of a stream that every sufficient fuel reads as `(xs, s)`.
receive_prefix :
    (w : Wire) (more : Bytes) (e : End) (xs : List Message) (s : Stop)
    → ((k : ℕ) → length more < k → receive k w (record { bytes = more; ends = e }) ≡ (xs, s))
    → (ms : List Message) (fuel : ℕ) → All (Fits w) ms
    → length (send_all w ms ++ more) < fuel
    → receive fuel w (record { bytes = send_all w ms ++ more; ends = e }) ≡ (ms ++ xs, s)
receive_prefix w more e xs s tail [] fuel fits h = unfold send_all in tail fuel h
receive_prefix w more e xs s tail (m ∷ ms) zero fits h = absurd (omega arith)
receive_prefix w more e xs s tail (m ∷ ms) (suc fuel) ((bs, wrote, le), fits) h =
    let split : send_all w (m ∷ ms) ++ more ≡ bs ++ (send_all w ms ++ more) =
      ap (λ z. z ++ more) (send_all-cons w m ms bs wrote) ∙ append_assoc bs (send_all w ms) more in
    let size : length bs ≡ header_size + (length bs - header_size) =
      omega (arith, write_frame-length w m bs wrote) in
    let rest : receive fuel w (record { bytes = send_all w ms ++ more; ends = e }) ≡ (ms ++ xs, s) =
      receive_prefix w more e xs s tail ms fuel fits
        (omega (arith, size, ap length split, length-append bs (send_all w ms ++ more))) in
    rw split (
      receive_message w fuel m bs (send_all w ms ++ more) e wrote le
      ∙ ap (λ (p : List Message × Stop). (m ∷ p.0, p.1)) rest)

-- What one side's writer task sends, the other side's reader task delivers in order: every message,
-- up to the end of the stream, if bincode writes each within the payload limit.
pub receive-send_all :
    (w : Wire) (ms : List Message) (fuel : ℕ)
    → All (Fits w) ms
    → length (send_all w ms) < fuel
    → receive fuel w (record { bytes = send_all w ms; ends = eof }) ≡ (ms, closed)
receive-send_all w ms fuel fits h =
    let whole =
      receive_prefix w [] eof [] closed (λ k lt. receive_end w k lt) ms fuel fits
        (rw append-nil h) in
    simp append-nil at whole

-- One message over the payload limit ends the reader task with the size error: the messages before
-- it are delivered, and neither it nor any message behind it, however small.
pub receive-send_all-TooLarge :
    (w : Wire) (front : List Message) (big : Message) (back : List Message) (fuel : ℕ)
    → All (Fits w) front
    → TooLarge w big
    → length (send_all w front ++ send_all w (big ∷ back)) < fuel
    → receive fuel w (record { bytes = send_all w front ++ send_all w (big ∷ back); ends = eof })
      ≡ (front, broken payload_too_large)
receive-send_all-TooLarge w front big back fuel fits (bs, wrote, gt, small) h =
    receive_prefix w (send_all w (big ∷ back)) eof [] (broken payload_too_large)
      (receive_big w big back bs wrote gt small) front fuel fits h
    ∙ ap (λ z. (z, broken payload_too_large)) (append-nil front)
