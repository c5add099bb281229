-- ===== src/Clipboard/Tasks/Shared.antt =====
-- src/main.rs: what is copied at one end is written at the other.
use supershare.Base.{
  length, ℕ, ◌+◌, ◌%◌, ◌^◌, ◌≡◌, refl, ap, ◌∙◌, Bool, true, some, List, [], ◌∷◌, ◌++◌, Text, map,
  All, list_eq, nat_eq, arith, Option-cases, inl, inr,
}
use supershare.Base.Assoc.{lookup}
use supershare.Base.Outcome.{ok}
use supershare.Protocol.Kind.{Bytes, Message}
use supershare.Protocol.Codec.{clipboard_chunk_size}
use supershare.Protocol.Content.{Hash, ClipboardContent, hash}
use supershare.Clipboard.Sync.{
  Zstd, Slot, prepare_transfer, handle_clipboard_message, handle_all, chunk_messages, chunks,
}
use supershare.Clipboard.Sync.Transfer.{IsContent, prepare_image, handle_all-prepare_transfer}
use supershare.Protocol.Codec.{Wire}
use supershare.Framing.{eof}
use supershare.Framing.Stream.{Fits, receive, send_all, receive-send_all}
use supershare.Server.{ServerState, ConnectedClient}
use supershare.Clipboard.Tasks.{
  Deed, written, suppressed, write_content, client_receive, server_receive, receive_all,
  forward_to_clients, forward_to_server,
}

-- What the reader task at the other end of a data channel passes on of some messages.
abbrev pub across : Wire → List Message → List Message
across w ms =
    (receive (length (send_all w ms) + 1) w (record { bytes = send_all w ms; ends = eof })).0

module _ (h : Hash) (z : Zstd) (can_write : ClipboardContent → Bool) where
  -- What a list of contents leads to.
  abbrev write_all : List ClipboardContent → List Deed
  write_all [] = []
  write_all (c ∷ cs) = write_content h can_write (some c) ++ write_all cs

  client_receives :
      (slot : Slot) (ms : List Message)
      → receive_all (client_receive h z can_write) slot ms ≡ write_all (handle_all h z ms slot).0
  unfolding receive_all client_receive handle_all write_content
  client_receives slot [] = refl
  client_receives slot (m ∷ ms) =
      let (content, slot') = handle_clipboard_message h z m slot in
      elim (Option-cases content) [
        | inl nothing ↦ ground (arith, nothing, client_receives slot' ms)
        | inr (c, some_content) ↦ ground (arith, some_content, client_receives slot' ms)
      ]

  -- What belongs to a transfer.
  IsTransfer : Message → Type 0
  IsTransfer (Message.clipboard_data format bytes) = Unit {0}
  IsTransfer (Message.clipboard_begin format size width height) = Unit {0}
  IsTransfer (Message.clipboard_chunk seq bytes) = Unit {0}
  IsTransfer (Message.clipboard_end checksum) = Unit {0}
  IsTransfer m = ⊥

  server_receive_same :
      (slot : Slot) (m : Message)
      → IsTransfer m
      → server_receive h z can_write slot m ≡ client_receive h z can_write slot m
  unfolding server_receive IsTransfer
  server_receive_same slot m t = ground arith

  server_receives :
      (slot : Slot) (ms : List Message)
      → All IsTransfer ms
      → receive_all (server_receive h z can_write) slot ms
        ≡ receive_all (client_receive h z can_write) slot ms
  unfolding receive_all
  server_receives slot [] t = refl
  server_receives slot (m ∷ ms) t =
      let (slot', deeds) = client_receive h z can_write slot m in
      rw (receive_all, server_receive_same slot m t.0)
        (ap (λ ds. deeds ++ ds) (server_receives slot' ms t.1))

  chunk_messages-IsTransfer : (seq : ℕ) (cs : List Bytes) → All IsTransfer (chunk_messages seq cs)
  unfolding chunk_messages IsTransfer
  chunk_messages-IsTransfer seq [] = tt
  chunk_messages-IsTransfer seq (c ∷ cs) = (tt, chunk_messages-IsTransfer ((seq + 1) % 2 ^ 32) cs)

  All-end :
      (ms : List Message) (m : Message)
      → All IsTransfer ms
      → IsTransfer m
      → All IsTransfer (ms ++ m ∷ [])
  All-end [] m h1 h2 = (h2, tt)
  All-end (x ∷ xs) m h1 h2 = (h1.0, All-end xs m h1.1 h2)

  prepare_transfer-IsTransfer :
      (content : ClipboardContent) (ms : List Message)
      → prepare_transfer h z content ≡ ok ms
      → All IsTransfer ms
  unfolding IsTransfer
  prepare_transfer-IsTransfer (ClipboardContent.text s) ms e =
      unfold prepare_transfer in ground arith
  prepare_transfer-IsTransfer (ClipboardContent.image width height rgba) ms e =
      let (compressed, ez, small, em) = prepare_image h z width height rgba ms e in
      let cs = chunks clipboard_chunk_size compressed in
      rw em (
        tt,
        All-end (chunk_messages 0 cs) (Message.clipboard_end (h.blake3 rgba))
            (chunk_messages-IsTransfer 0 cs) tt,
      )

  -- A client that gets what was prepared of some content.
  client_writes :
      (content : ClipboardContent) (ms : List Message) (slot : Slot)
      → IsContent content
      → can_write content ≡ true
      → prepare_transfer h z content ≡ ok ms
      → receive_all (client_receive h z can_write) slot ms
        ≡ written content ∷ suppressed (hash h content) ∷ []
  unfolding write_content
  client_writes content ms slot valid can e =
      client_receives slot ms
      ∙ ap write_all (handle_all-prepare_transfer h z content ms slot valid e)
      ∙ ground (arith, can)

  forwarded :
      (content : ClipboardContent) (ms : List Message) (clients : List (Text × ConnectedClient))
      (name : Text) (c : ConnectedClient)
      → lookup name clients ≡ some c
      → lookup {A = ℕ × List Message} name (map (λ p. (p.0, (p.1.data_tx, ms))) clients)
        ≡ some (c.data_tx, ms)
  forwarded content ms [] name c e = absurd (ground arith)
  forwarded content ms (p ∷ ps) name c e = ground (arith, forwarded content ms ps name c)

  -- Content that can be prepared into messages that each fit a frame, and that the other end's clipboard
  -- takes: copied at the server it goes into the data channel of every connected client, and copied at a
  -- client into that of the server; the reader task at the other end passes these messages on; and
  -- whatever that end was in the middle of, it writes exactly this content, once, and tells its own
  -- monitor of the content's hash. A server does nothing else with what a client copied.
  pub forward-shared :
      (w : Wire) (s : ServerState) (content : ClipboardContent) (ms : List Message) (slot : Slot)
      → (name : Text) (c : ConnectedClient) → IsContent content
      → can_write content ≡ true
      → prepare_transfer h z content ≡ ok ms
      → All (Fits w) ms
      → lookup name s.clients ≡ some c
      → let deeds = written content ∷ suppressed (hash h content) ∷ [] in
        (lookup name (forward_to_clients h z s content) ≡ some (c.data_tx, ms))
        × (forward_to_server h z content ≡ ms)
        × (receive_all (client_receive h z can_write) slot (across w ms) ≡ deeds)
        × (receive_all (server_receive h z can_write) slot (across w ms) ≡ deeds)
  unfolding forward_to_clients forward_to_server
  forward-shared w s content ms slot name c valid can e fits found =
      let at_client = client_writes content ms slot valid can e in
      let arrived : across w ms ≡ ms =
        ap (λ p. p.0) (receive-send_all w ms (length (send_all w ms) + 1) fits (omega arith)) in
      (
        rw (e, forward_to_clients) (forwarded content ms s.clients name c found),
        rw (e, forward_to_server) refl,
        rw arrived at_client,
        rw arrived (server_receives slot ms (prepare_transfer-IsTransfer content ms e) ∙ at_client),
      )
