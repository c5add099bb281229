-- ===== src/Clipboard/Sync.antt =====
-- crates/ss-clipboard/src/sync.rs. zstd is a parameter.
pub mod Chunks
pub mod Sorting
pub mod Transfer
pub mod Verified
use supershare.Base.{
  ℕ, zero, suc, ◌+◌, ◌%◌, ◌^◌, ◌≡◌, Bool, Option, none, some, List, [], ◌∷◌, ◌++◌, length, take,
  drop, map, ltb, leb, if◌then◌else◌, ◌==◌, list_eq, nat_eq,
}
use supershare.Base.Utf8.{as_bytes, from_utf8_lossy}
use supershare.Base.Outcome.{Outcome, ok, err, ◌>>=◌, ◌>>◌, ensure, ok_or}
use supershare.Protocol.Kind.{Bytes, Message, ClipboardFormat}
use supershare.Protocol.Codec.{clipboard_chunk_size, max_clipboard_image_size}
use supershare.Protocol.Content.{Hash, ClipboardContent}

-- `zstd::encode_all` and `zstd::decode_all`: what was compressed is decompressed again.
pub record Zstd : Type 0 where
  pub encode_all : Bytes → Option Bytes
  pub decode_all : Bytes → Option Bytes
  pub read_back : (bs z : Bytes) → encode_all bs ≡ some z → decode_all z ≡ some bs

pub data SyncError : Type 0 where
  compress_error decompress_error image_too_large hash_mismatch : SyncError

unfoldable pub compress_image : Zstd → Bytes → Outcome SyncError Bytes
compress_image z rgba = ok_or (z.encode_all rgba) compress_error

unfoldable pub decompress_image : Zstd → Bytes → Outcome SyncError Bytes
decompress_image z bs = ok_or (z.decode_all bs) decompress_error

-- `slice::chunks`, with the number of elements for fuel.
unfoldable pub chunks_of : ℕ → ℕ → Bytes → List Bytes
chunks_of zero size bs = []
chunks_of (suc fuel) size [] = []
chunks_of (suc fuel) size (b ∷ bs) = take size (b ∷ bs) ∷ chunks_of fuel size (drop size (b ∷ bs))

unfoldable pub chunks : ℕ → Bytes → List Bytes
unfolding chunks_of
chunks size bs = chunks_of (length bs) size bs

-- The loop that numbers the chunks; `seq` is a `u32`.
unfoldable pub chunk_messages : ℕ → List Bytes → List Message
chunk_messages seq [] = []
chunk_messages seq (c ∷ cs) = Message.clipboard_chunk seq c ∷ chunk_messages ((seq + 1) % 2 ^ 32) cs

unfoldable pub prepare_transfer : Hash → Zstd → ClipboardContent → Outcome SyncError (List Message)
unfolding compress_image chunks chunk_messages
prepare_transfer h z (ClipboardContent.text s) =
    ok (Message.clipboard_data ClipboardFormat.text (as_bytes s) ∷ [])
prepare_transfer h z (ClipboardContent.image width height rgba) = do
  compressed ← compress_image z rgba
  ensure (leb (length compressed) max_clipboard_image_size) image_too_large
  let begins =
      Message.clipboard_begin ClipboardFormat.image (length compressed % 2 ^ 32) width height
  ok (
      begins
      ∷ (chunk_messages 0 (chunks clipboard_chunk_size compressed)
          ++ Message.clipboard_end (h.blake3 rgba) ∷ []))

pub record ClipboardReassembler : Type 0 where
  pub total_size : ℕ
  pub width : ℕ
  pub height : ℕ
  pub chunks : List (ℕ × Bytes)
  pub received : ℕ

unfoldable pub new : ℕ → ℕ → ℕ → ClipboardReassembler
new total_size width height = record {
  total_size = total_size;
  width = width;
  height = height;
  chunks = [];
  received = 0;
}

unfoldable pub add_chunk : ClipboardReassembler → ℕ → Bytes → ClipboardReassembler × Bool
add_chunk a seq bs =
    let received = (a.received + length bs % 2 ^ 32) % 2 ^ 32 in
    (
      record a { received = received; chunks = a.chunks ++ (seq, bs) ∷ [] },
      leb a.total_size received,
    )

-- `sort_by_key`, which is stable: a pair goes behind those of its key.
unfoldable pub insert_chunk : ℕ × Bytes → List (ℕ × Bytes) → List (ℕ × Bytes)
insert_chunk c [] = c ∷ []
insert_chunk c (d ∷ ds) = if leb c.0 d.0 then c ∷ d ∷ ds else d ∷ insert_chunk c ds

unfoldable pub sort_by_seq : List (ℕ × Bytes) → List (ℕ × Bytes)
unfolding insert_chunk
sort_by_seq [] = []
sort_by_seq (c ∷ cs) = insert_chunk c (sort_by_seq cs)

-- `flat_map` over the sorted chunks.
abbrev pub concat : List (ℕ × Bytes) → Bytes
concat [] = []
concat (c ∷ cs) = c.1 ++ concat cs

unfoldable pub finish :
    Hash → Zstd → ClipboardReassembler → Bytes → Outcome SyncError (ℕ × ℕ × Bytes)
unfolding sort_by_seq decompress_image
finish h z a expected = do
  rgba ← decompress_image z (concat (sort_by_seq a.chunks))
  ensure (h.blake3 rgba == expected) hash_mismatch
  ok (a.width, a.height, rgba)

abbrev pub Slot : Type 0
Slot = Option ClipboardReassembler

unfoldable pub handle_clipboard_message :
    Hash → Zstd → Message → Slot → Option ClipboardContent × Slot
unfolding finish add_chunk new
handle_clipboard_message h z (Message.clipboard_data ClipboardFormat.text bs) slot =
    (some (ClipboardContent.text (from_utf8_lossy bs)), slot)
handle_clipboard_message h z (Message.clipboard_data ClipboardFormat.image bs) slot = (none, slot)
handle_clipboard_message h z (Message.clipboard_begin ClipboardFormat.image size w ht) slot =
    (none, some (new size w ht))
handle_clipboard_message h z (Message.clipboard_begin ClipboardFormat.text size w ht) slot =
    (none, slot)
handle_clipboard_message h z (Message.clipboard_chunk seq bs) slot =
    (none, elim slot [ none ↦ none | some a ↦ some (add_chunk a seq bs).0 ])
handle_clipboard_message h z (Message.clipboard_end expected) slot = (
  elim slot [
    | none ↦ none
    | some a ↦ elim (finish h z a expected) [
      | ok (w, ht, rgba) ↦ some (ClipboardContent.image w ht rgba)
      | err e ↦ none
    ]
  ],
  none,
)
handle_clipboard_message h z m slot = (none, slot)

-- The messages of a channel one after the other: the contents that they complete, in order.
unfoldable pub handle_all : Hash → Zstd → List Message → Slot → List ClipboardContent × Slot
handle_all h z [] slot = ([], slot)
handle_all h z (m ∷ ms) slot =
    let (c, slot') = handle_clipboard_message h z m slot in
    let (cs, last) = handle_all h z ms slot' in
    (elim c [ none ↦ cs | some content ↦ content ∷ cs ], last)
