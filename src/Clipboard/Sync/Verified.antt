-- ===== src/Clipboard/Sync/Verified.antt =====
-- crates/ss-clipboard/src/sync.rs: what the receiver lets through, and transfers that mix.
use supershare.Base.{
  ℕ, ◌≡◌, refl, ◌∙◌, ap, sym, none, some, List, [], ◌∷◌, ◌++◌, map, arith, ==_iff, list_eq, nat_eq,
}
use supershare.Base.Outcome.{ok}
use supershare.Protocol.Kind.{Bytes, Message, ClipboardFormat}
use supershare.Protocol.Codec.{clipboard_chunk_size}
use supershare.Protocol.Content.{Hash, ClipboardContent}
use supershare.Clipboard.Sync.{
  Zstd, chunks, ClipboardReassembler, new, finish, Slot, handle_clipboard_message, handle_all,
}
use supershare.Clipboard.Sync.Sorting.{Chunk, numbered}
use supershare.Clipboard.Sync.Transfer.{
  chunk_message, transfer, added, handle_all-transfer, handle_all-begin, handle_all-chunks,
}
use mathlib.Core.List.{Perm}

finish-ok :
    (h : Hash) (z : Zstd) (a : ClipboardReassembler) (expected : Bytes) (w ht : ℕ) (rgba : Bytes)
    → finish h z a expected ≡ ok (w, ht, rgba)
    → (h.blake3 rgba ≡ expected) × (w ≡ a.width) × (ht ≡ a.height)
unfolding finish
finish-ok h z a expected w ht rgba e = ground (arith, ==_iff (h.blake3 rgba) expected)

-- The receiver hands out an image only at the end of a transfer that was begun, with the dimensions
-- of that beginning, and only if the pixels have the hash that the sender gave.
pub image_verified :
    (h : Hash) (z : Zstd) (m : Message) (slot : Slot) (w ht : ℕ) (rgba : Bytes)
    → (handle_clipboard_message h z m slot).0 ≡ some (ClipboardContent.image w ht rgba)
    → (a : ClipboardReassembler) × (slot ≡ some a)
      × (m ≡ Message.clipboard_end (h.blake3 rgba))
      × (w ≡ a.width)
      × (ht ≡ a.height)
unfolding handle_clipboard_message
image_verified h z (Message.clipboard_end expected) (some a) w ht rgba e =
    let (same, ew, eh) = finish-ok h z a expected w ht rgba (ground arith) in
    (a, refl, ap Message.clipboard_end (sym same), ew, eh)
image_verified h z m slot w ht rgba e = absurd (ground arith)

-- Chunks that come when no transfer is open are passed over.
handle_all-late :
    (h : Hash) (z : Zstd) (cs : List Chunk) (rest : List Message)
    → handle_all h z (map chunk_message cs ++ rest) none ≡ handle_all h z rest none
unfolding handle_all handle_clipboard_message
handle_all-late h z [] rest = refl
handle_all-late h z (c ∷ cs) rest = handle_all-late h z cs rest

-- Two transfers that share one slot, the whole of the second between two chunks of the first, or next to its
-- beginning or end. The receiver hands out the second image alone: the first is lost, though all of
-- its messages have come.
pub first_transfer_lost :
    (h : Hash) (z : Zstd) (size w1 h1 : ℕ) (front back : List Chunk) (end1 : Bytes) (w2 h2 : ℕ)
    (rgba compressed : Bytes) (cs : List Chunk) (slot : Slot)
    → z.encode_all rgba ≡ some compressed
    → Perm (numbered 0 (chunks clipboard_chunk_size compressed)) cs
    → handle_all h z
        (Message.clipboard_begin ClipboardFormat.image size w1 h1
          ∷ (map chunk_message front
              ++ transfer h w2 h2 rgba compressed cs
                  (map chunk_message back ++ Message.clipboard_end end1 ∷ [])))
        slot
      ≡ (ClipboardContent.image w2 h2 rgba ∷ [], none)
first_transfer_lost h z size w1 h1 front back end1 w2 h2 rgba compressed cs slot e p =
    let rest = map chunk_message back ++ Message.clipboard_end end1 ∷ [] in
    let late : handle_all h z rest none ≡ ([], none) =
      handle_all-late h z back (Message.clipboard_end end1 ∷ [])
      ∙ (unfold handle_all handle_clipboard_message in refl) in
    handle_all-begin h z size w1 h1 _ slot
    ∙ handle_all-chunks h z front (new size w1 h1) _
    ∙ handle_all-transfer h z w2 h2 rgba compressed cs rest (some (added (new size w1 h1) front)) e
        p
    ∙ rw late refl
