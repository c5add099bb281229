-- ===== src/Examples/Clip.antt =====
-- Clipboard transfers of a small image, and polls of a clipboard.
use supershare.Base.{
  ◌≡◌, ◌≢◌, refl, Option, none, some, List, [], ◌∷◌, ◌++◌, codes, All, map, list_eq, nat_eq,
}
use supershare.Base.Outcome.{ok}
use supershare.Protocol.Kind.{Bytes, Message, ClipboardFormat}
use supershare.Protocol.Codec.{clipboard_chunk_size}
use supershare.Protocol.Content.{ClipboardContent, hash}
use supershare.Clipboard.Sync.{
  ClipboardReassembler, prepare_transfer, compress_image, chunks, chunks_of, chunk_messages,
  handle_all,
}
use supershare.Clipboard.Sync.Sorting.{numbered}
use supershare.Clipboard.Sync.Transfer.{transfer, chunk_message, handle_all-prepare_transfer}
use supershare.Clipboard.Sync.Verified.{first_transfer_lost}
use supershare.Base.Utf8.{as_bytes, encode_char}
use supershare.Base.{arith, inl, true, codes}
use supershare.Base.Assoc.{lookup}
use supershare.Protocol.Content.{hash}
use supershare.Server.{ConnectedClient, ServerState}
use supershare.Clipboard.Tasks.{
  Deed, written, client_receive, server_receive, receive_all, forward_to_clients, forward_to_server,
}
use supershare.Clipboard.Tasks.Shared.{across, forward-shared}
use supershare.Clipboard.Monitor.{ClipboardChange, Board, suppressed, elapsed, run, new, Event}
use supershare.Clipboard.Monitor.Echo.{no_echo}
use supershare.Examples.Params.{checksums, plain, sum_hash, text_wire, text_message}
use supershare.Examples.Frames.{hi-Fits}
use mathlib.Core.List.Perm

-- One pixel.
abbrev pixel : Bytes
pixel = 1 ∷ 2 ∷ 3 ∷ 255 ∷ []

abbrev pixel_messages : List Message
pixel_messages =
    Message.clipboard_begin ClipboardFormat.image 4 1 1
    ∷ Message.clipboard_chunk 0 pixel
    ∷ Message.clipboard_end (sum_hash pixel)
    ∷ []

pixel_prepared :
    prepare_transfer checksums plain (ClipboardContent.image 1 1 pixel) ≡ ok pixel_messages
unfolding prepare_transfer compress_image chunks chunks_of chunk_messages
pixel_prepared = refl

handle_all-prepare_transfer_example :
    (handle_all checksums plain pixel_messages none).0 ≡ ClipboardContent.image 1 1 pixel ∷ []
handle_all-prepare_transfer_example =
    handle_all-prepare_transfer checksums plain (ClipboardContent.image 1 1 pixel) pixel_messages
      none tt pixel_prepared

pixel_chunks : numbered 0 (chunks clipboard_chunk_size pixel) ≡ (0, pixel) ∷ []
unfolding chunks chunks_of
pixel_chunks = refl

abbrev pixel_slot : ClipboardReassembler
pixel_slot = record {
  total_size = 4;
  width = 1;
  height = 1;
  chunks = (0, pixel) ∷ [];
  received = 4;
}

first_transfer_lost_example :
    handle_all checksums plain
      (Message.clipboard_begin ClipboardFormat.image 4 1 1
        ∷ (map chunk_message ((0, 9 ∷ 9 ∷ 9 ∷ 9 ∷ []) ∷ [])
            ++ transfer checksums 1 1 pixel pixel (numbered 0 (chunks clipboard_chunk_size pixel)) (
                map chunk_message ((1, 8 ∷ []) ∷ [])
                ++ Message.clipboard_end (sum_hash (9 ∷ 9 ∷ 9 ∷ 9 ∷ 8 ∷ [])) ∷ [])))
      none
    ≡ (ClipboardContent.image 1 1 pixel ∷ [], none)
first_transfer_lost_example =
    first_transfer_lost checksums plain 4 1 1 ((0, 9 ∷ 9 ∷ 9 ∷ 9 ∷ []) ∷ []) ((1, 8 ∷ []) ∷ [])
      (sum_hash (9 ∷ 9 ∷ 9 ∷ 9 ∷ 8 ∷ [])) 1 1 pixel pixel
      (numbered 0 (chunks clipboard_chunk_size pixel)) none refl (Perm.refl _)

abbrev hello : ClipboardContent
hello = ClipboardContent.text (codes "hello")

abbrev board : Option Board
board = some (record { get_text = some (codes "hello"); get_image = none })

no_echo_example :
    All
      (λ c. c.hash ≢ hash checksums hello)
      (run checksums new
        (suppressed (hash checksums hello) 100 ∷ elapsed board 200 ∷ elapsed board 5000 ∷ []))
no_echo_example =
    no_echo checksums new (hash checksums hello) 100 (elapsed board 200 ∷ elapsed board 5000 ∷ [])
      (tt, (tt, tt))

abbrev hello_change : ClipboardChange
hello_change = record { content = hello; hash = hash checksums hello }

abbrev late : List Event
late = elapsed board 200 ∷ suppressed (hash checksums hello) 201 ∷ elapsed board 5000 ∷ []

abbrev early : List Event
early = suppressed (hash checksums hello) 201 ∷ elapsed board 200 ∷ elapsed board 5000 ∷ []

abbrev desk_client : ConnectedClient
desk_client = record {
  name = codes "desk";
  control_tx = 1;
  data_tx = 2;
  screen_width = 1280;
  screen_height = 720;
}

abbrev one_client : ServerState
one_client = record {
  clients = (codes "desk", desk_client) ∷ [];
  pending_data = [];
  notified = [];
  broadcast = [];
}

abbrev hi : ClipboardContent
hi = ClipboardContent.text (codes "hi")

abbrev hi_messages : List Message
hi_messages = text_message (104 ∷ 105 ∷ []) ∷ []

hi_prepared : prepare_transfer checksums plain hi ≡ ok hi_messages
unfolding prepare_transfer as_bytes encode_char
hi_prepared = refl

forward-shared_example :
    let can_write = λ (c : ClipboardContent). true in
    let deeds = written hi ∷ Deed.suppressed (hash checksums hi) ∷ [] in
    (lookup (codes "desk") (forward_to_clients checksums plain one_client hi)
      ≡ some (2, hi_messages))
    × (forward_to_server checksums plain hi ≡ hi_messages)
    × (receive_all (client_receive checksums plain can_write) none (across text_wire hi_messages)
        ≡ deeds)
    × (receive_all (server_receive checksums plain can_write) none (across text_wire hi_messages)
        ≡ deeds)
forward-shared_example =
    forward-shared checksums plain (λ c. true) text_wire one_client hi hi_messages none
      (codes "desk") desk_client (inl (omega arith), (inl (omega arith), tt)) refl hi_prepared
      (hi-Fits, tt) refl
