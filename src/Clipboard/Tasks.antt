-- ===== src/Clipboard/Tasks.antt =====
-- src/main.rs: the tasks that send what is copied at one end, and write it at the other.
pub mod Shared
use supershare.Base.{
  ℕ, Bool, true, false, Option, none, some, List, [], ◌∷◌, ◌++◌, Text, map, if◌then◌else◌,
}
use supershare.Base.Outcome.{Outcome, ok, err}
use supershare.Protocol.Kind.{Bytes, Message}
use supershare.Protocol.Content.{Hash, ClipboardContent, hash}
use supershare.Clipboard.Sync.{Zstd, Slot, prepare_transfer, handle_clipboard_message}
use supershare.Server.{ServerState, ConnectedClient}

-- What a message leads to: content in the system's clipboard, the hash that the monitor is told of, and the
-- request to leave remote mode.
pub data Deed : Type 0 where
  written : ClipboardContent → Deed
  suppressed : Bytes → Deed
  exit_remote : Deed

-- Content that has come: written, if the system's clipboard takes it.
unfoldable pub write_content :
    Hash → (ClipboardContent → Bool) → Option ClipboardContent → List Deed
write_content h can_write none = []
write_content h can_write (some content) =
    if can_write content then written content ∷ suppressed (hash h content) ∷ [] else []

-- The client's task, with a message from the server.
unfoldable pub client_receive :
    Hash → Zstd → (ClipboardContent → Bool) → Slot → Message → Slot × List Deed
unfolding write_content
client_receive h z can_write slot m =
    let (content, slot') = handle_clipboard_message h z m slot in
    (slot', write_content h can_write content)

-- The server's task, with a message from any client.
unfoldable pub server_receive :
    Hash → Zstd → (ClipboardContent → Bool) → Slot → Message → Slot × List Deed
unfolding client_receive
server_receive h z can_write slot (Message.boundary_leave source) = (slot, exit_remote ∷ [])
server_receive h z can_write slot (Message.clipboard_data format bytes) =
    client_receive h z can_write slot (Message.clipboard_data format bytes)
server_receive h z can_write slot (Message.clipboard_begin format size width height) =
    client_receive h z can_write slot (Message.clipboard_begin format size width height)
server_receive h z can_write slot (Message.clipboard_chunk seq bytes) =
    client_receive h z can_write slot (Message.clipboard_chunk seq bytes)
server_receive h z can_write slot (Message.clipboard_end checksum) =
    client_receive h z can_write slot (Message.clipboard_end checksum)
server_receive h z can_write slot m = (slot, [])

-- Messages one after the other.
unfoldable pub receive_all : (Slot → Message → Slot × List Deed) → Slot → List Message → List Deed
receive_all receive slot [] = []
receive_all receive slot (m ∷ ms) =
    let (slot', deeds) = receive slot m in deeds ++ receive_all receive slot' ms

-- The server, with something that was copied: what goes into each client's data channel.
unfoldable pub forward_to_clients :
    Hash → Zstd → ServerState → ClipboardContent → List (Text × (ℕ × List Message))
unfolding prepare_transfer
forward_to_clients h z s content = elim (prepare_transfer h z content) [
  | ok messages ↦ map (λ p. (p.0, (p.1.data_tx, messages))) s.clients
  | err e ↦ []
]

-- The client, with something that was copied: what goes into its data channel.
unfoldable pub forward_to_server : Hash → Zstd → ClipboardContent → List Message
unfolding prepare_transfer
forward_to_server h z content = elim (prepare_transfer h z content) [
  | ok messages ↦ messages
  | err e ↦ []
]
