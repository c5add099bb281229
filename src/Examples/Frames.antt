-- ===== src/Examples/Frames.antt =====
-- Frames and streams.
use supershare.Base.{
  ◌+◌, ◌^◌, ◌<◌, ◌≤◌, ◌≡◌, ◌≢◌, refl, ap, some, [], ◌∷◌, ◌++◌, length, arith, ◌∙◌,
}
use supershare.Base.Outcome.{ok}
use supershare.Protocol.Kind.{MessageType, Message, Bytes, try_from, msg_type}
use supershare.Protocol.Codec.{
  Frame, to_bytes, from_le_bytes, header_size, max_payload_size, length-to_bytes,
}
use supershare.Framing.{eof, read_frame, write_frame, payload_too_large}
use supershare.Framing.Laws.{read_frame-write_frame}
use supershare.Framing.Sound.{read_frame_sound}
use supershare.Framing.Stream.{
  closed, broken, stuck, receive, send_all, Fits, TooLarge, receive-ne-stuck, receive-send_all,
  receive-send_all-TooLarge,
}
use supershare.Examples.Params.{
  text_wire, text_message, all_bytes, write_text, block, length-block, all_bytes-block,
}

abbrev pub hi_frame : Bytes
hi_frame = 0x53 ∷ 0x53 ∷ 5 ∷ 2 ∷ 0 ∷ 0 ∷ 0 ∷ 104 ∷ 105 ∷ []

abbrev pub hi : Message
hi = text_message (104 ∷ 105 ∷ [])

hi_written : write_frame text_wire hi ≡ ok hi_frame
unfolding write_frame write_text all_bytes to_bytes msg_type
hi_written = refl

hi_read :
    read_frame text_wire (record { bytes = hi_frame ++ 1 ∷ []; ends = eof })
    ≡ ok (some (hi, record { bytes = 1 ∷ []; ends = eof }))
unfolding read_frame from_le_bytes try_from
hi_read = refl

read_frame-write_frame_example :
    read_frame text_wire (record { bytes = hi_frame ++ 1 ∷ []; ends = eof })
    ≡ ok (some (hi, record { bytes = 1 ∷ []; ends = eof }))
read_frame-write_frame_example =
    read_frame-write_frame text_wire hi hi_frame (1 ∷ []) eof hi_written (omega arith)

read_frame_sound_example :
    (f : Frame) × (hi_frame ++ 1 ∷ [] ≡ to_bytes f ++ 1 ∷ [])
    × (text_wire.deserialize f.payload ≡ some hi)
    × (length f.payload ≤ max_payload_size)
    × (eof ≡ eof)
read_frame_sound_example =
    read_frame_sound text_wire (record { bytes = hi_frame ++ 1 ∷ []; ends = eof }) hi
      (record { bytes = 1 ∷ []; ends = eof }) (omega arith) hi_read

receive-ne-stuck_example :
    (receive 8 text_wire (record { bytes = 1 ∷ 2 ∷ []; ends = eof })).1 ≢ stuck
receive-ne-stuck_example =
    receive-ne-stuck text_wire 8 (record { bytes = 1 ∷ 2 ∷ []; ends = eof }) (omega arith)

pub hi-Fits : Fits text_wire hi
hi-Fits = (hi_frame, hi_written, omega arith)

receive-send_all_example :
    receive 20 text_wire (record { bytes = send_all text_wire (hi ∷ hi ∷ []); ends = eof })
    ≡ (hi ∷ hi ∷ [], closed)
receive-send_all_example =
    receive-send_all text_wire (hi ∷ hi ∷ []) 20 (hi-Fits, (hi-Fits, tt)) short
  where
    short : length (send_all text_wire (hi ∷ hi ∷ [])) < 20
    short = unfold send_all write_frame write_text all_bytes to_bytes msg_type in omega arith

-- A text of 16 MiB and one byte.
abbrev big : Message
big = text_message (block 16777217)

abbrev big_frame : Bytes
big_frame = to_bytes (record { msg_type = MessageType.clipboard_data; payload = block 16777217 })

big-TooLarge : TooLarge text_wire big
unfolding write_frame write_text to_bytes msg_type
big-TooLarge = (big_frame, rw (all_bytes-block 16777217), over, under)
  where
    size : length big_frame ≡ 16777224
    size =
        length-to_bytes (record { msg_type = MessageType.clipboard_data; payload = block 16777217 })
        ∙ ap (λ n. 7 + n) (length-block 16777217)

    over : header_size + max_payload_size < length big_frame
    over = omega (arith, size)

    under : length big_frame < header_size + 2 ^ 32
    under = omega (arith, size)

abbrev big_stream : Bytes
big_stream = send_all text_wire (hi ∷ []) ++ send_all text_wire (big ∷ hi ∷ [])

receive-send_all-TooLarge_example :
    receive (length big_stream + 1) text_wire (record { bytes = big_stream; ends = eof })
    ≡ (hi ∷ [], broken payload_too_large)
receive-send_all-TooLarge_example =
    receive-send_all-TooLarge text_wire (hi ∷ []) big (hi ∷ []) (length big_stream + 1)
      (hi-Fits, tt) big-TooLarge (omega arith)
