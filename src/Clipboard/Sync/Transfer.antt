-- ===== src/Clipboard/Sync/Transfer.antt =====
-- crates/ss-clipboard/src/sync.rs: what was prepared on one side is put together on the other.
use supershare.Base.{
  ℕ, ◌+◌, ◌%◌, ◌^◌, ◌≤◌, ◌<◌, ◌≡◌, refl, ◌∙◌, sym, ap, ap₂, none, some, Text, List, [], ◌∷◌, ◌++◌,
  length, map, arith, All, ==_refl, list_eq, nat_eq, append_assoc, append-nil,
}
use supershare.Base.Utf8.{IsChar, from_utf8_lossy-as_bytes}
use supershare.Base.Outcome.{ok}
use supershare.Protocol.Kind.{Bytes, Message, ClipboardFormat}
use supershare.Protocol.Codec.{clipboard_chunk_size, max_clipboard_image_size}
use supershare.Protocol.Content.{Hash, ClipboardContent}
use supershare.Clipboard.Sync.{
  Zstd, compress_image, decompress_image, chunks, chunk_messages, prepare_transfer,
  ClipboardReassembler, new, add_chunk, sort_by_seq, concat, finish, Slot, handle_clipboard_message,
  handle_all,
}
use supershare.Clipboard.Sync.Chunks.{chunks-flatten, chunks-length}
use supershare.Clipboard.Sync.Sorting.{
  Chunk, numbered, sort-numbered, concat-numbered, sort-Perm, numbered-Nodup,
}
use mathlib.Core.List.{Perm}
use mathlib.Core.List.Perm

abbrev pub chunk_message : Chunk → Message
chunk_message c = Message.clipboard_chunk c.0 c.1

-- The numbers do not wrap within 2 ^ 32 chunks.
chunk_messages-numbered :
    (seq : ℕ) (cs : List Bytes)
    → seq + length cs < 2 ^ 32
    → chunk_messages seq cs ≡ map chunk_message (numbered seq cs)
unfolding chunk_messages
chunk_messages-numbered seq [] h = refl
chunk_messages-numbered seq (c ∷ cs) h =
    let next : (seq + 1) % 2 ^ 32 ≡ seq + 1 = omega arith in
    rw next (
      ap (◌∷◌ (Message.clipboard_chunk seq c)) (chunk_messages-numbered (seq + 1) cs (omega arith)))

-- A reassembler with more chunks.
abbrev pub added : ClipboardReassembler → List Chunk → ClipboardReassembler
added a [] = a
added a (c ∷ cs) = added (add_chunk a c.0 c.1).0 cs

added-fields :
    (a : ClipboardReassembler) (cs : List Chunk)
    → ((added a cs).chunks ≡ a.chunks ++ cs)
      × ((added a cs).width ≡ a.width)
      × ((added a cs).height ≡ a.height)
unfolding add_chunk
added-fields a [] = (sym (append-nil a.chunks), refl, refl)
added-fields a (c ∷ cs) =
    let (e, w, h) = added-fields (add_chunk a c.0 c.1).0 cs in
    (e ∙ append_assoc a.chunks (c ∷ []) cs, w, h)

pub handle_all-chunks :
    (h : Hash) (z : Zstd) (cs : List Chunk) (a : ClipboardReassembler) (rest : List Message)
    → handle_all h z (map chunk_message cs ++ rest) (some a)
      ≡ handle_all h z rest (some (added a cs))
unfolding handle_all handle_clipboard_message
handle_all-chunks h z [] a rest = refl
handle_all-chunks h z (c ∷ cs) a rest = handle_all-chunks h z cs (add_chunk a c.0 c.1).0 rest

-- `finish` on the chunks of a compressed image, in any order.
finish_lem :
    (h : Hash) (z : Zstd) (a : ClipboardReassembler) (compressed rgba : Bytes)
    → z.encode_all rgba ≡ some compressed
    → Perm (numbered 0 (chunks clipboard_chunk_size compressed)) a.chunks
    → finish h z a (h.blake3 rgba) ≡ ok (a.width, a.height, rgba)
unfolding finish decompress_image
finish_lem h z a compressed rgba e p =
    let cs = chunks clipboard_chunk_size compressed in
    let sorted : concat (sort_by_seq a.chunks) ≡ compressed =
      ap concat (sym (sort-Perm p (numbered-Nodup 0 cs)) ∙ sort-numbered 0 cs)
      ∙ concat-numbered 0 cs
      ∙ chunks-flatten clipboard_chunk_size compressed (omega arith) in
    rw (sorted, z.read_back rgba compressed e, ==_refl (h.blake3 rgba))

-- The messages of an image transfer, its chunks in the order `cs`, and what follows.
abbrev pub transfer : Hash → ℕ → ℕ → Bytes → Bytes → List Chunk → List Message → List Message
transfer h width height rgba compressed cs rest =
    Message.clipboard_begin ClipboardFormat.image (length compressed % 2 ^ 32) width height
    ∷ (map chunk_message cs ++ Message.clipboard_end (h.blake3 rgba) ∷ rest)

pub handle_all-begin :
    (h : Hash) (z : Zstd) (size width height : ℕ) (rest : List Message) (slot : Slot)
    → handle_all h z (Message.clipboard_begin ClipboardFormat.image size width height ∷ rest) slot
      ≡ handle_all h z rest (some (new size width height))
unfolding handle_all handle_clipboard_message
handle_all-begin h z size width height rest slot = refl

handle_all-end :
    (h : Hash) (z : Zstd) (a : ClipboardReassembler) (width height : ℕ) (expected rgba : Bytes)
    (rest : List Message)
    → finish h z a expected ≡ ok (width, height, rgba)
    → let (cs, last) = handle_all h z rest none in
      handle_all h z (Message.clipboard_end expected ∷ rest) (some a)
      ≡ (ClipboardContent.image width height rgba ∷ cs, last)
unfolding handle_all handle_clipboard_message
handle_all-end h z a width height expected rgba rest e =
    rw (e, handle_all, handle_clipboard_message)

-- Whatever order the chunks of a transfer come in, and whatever was begun before it, the receiver puts
-- the image together at its end, and goes on with an empty slot.
pub handle_all-transfer :
    (h : Hash) (z : Zstd) (width height : ℕ) (rgba compressed : Bytes) (cs : List Chunk)
    (rest : List Message) (slot : Slot)
    → z.encode_all rgba ≡ some compressed
    → Perm (numbered 0 (chunks clipboard_chunk_size compressed)) cs
    → let (later, last) = handle_all h z rest none in
      handle_all h z (transfer h width height rgba compressed cs rest) slot
      ≡ (ClipboardContent.image width height rgba ∷ later, last)
handle_all-transfer h z width height rgba compressed cs rest slot e p =
    let fresh = new (length compressed % 2 ^ 32) width height in
    let (ec, ew, eh) = added-fields fresh cs in
    let clean : (fresh.chunks ≡ []) × (fresh.width ≡ width) × (fresh.height ≡ height) =
      unfold new in (refl, refl, refl) in
    let same : (added fresh cs).chunks ≡ cs = ec ∙ ap (λ x. x ++ cs) clean.0 in
    let done : finish h z (added fresh cs) (h.blake3 rgba) ≡ ok (width, height, rgba) =
      finish_lem h z (added fresh cs) compressed rgba e (rw same p)
      ∙ ap₂ (λ w ht. ok (w, ht, rgba)) (ew ∙ clean.1) (eh ∙ clean.2) in
    handle_all-begin h z (length compressed % 2 ^ 32) width height _ slot
    ∙ handle_all-chunks h z cs fresh (Message.clipboard_end (h.blake3 rgba) ∷ rest)
    ∙ handle_all-end h z (added fresh cs) width height (h.blake3 rgba) rgba rest done

-- Clipboard content whose text is made of Unicode characters.
abbrev pub IsContent : ClipboardContent → Type 0
IsContent (ClipboardContent.text s) = All IsChar s
IsContent (ClipboardContent.image width height rgba) = Unit {0}

pub prepare_image :
    (h : Hash) (z : Zstd) (width height : ℕ) (rgba : Bytes) (ms : List Message)
    → prepare_transfer h z (ClipboardContent.image width height rgba) ≡ ok ms
    → (compressed : Bytes) × (z.encode_all rgba ≡ some compressed)
      × (length compressed ≤ max_clipboard_image_size)
      × (ms
          ≡ Message.clipboard_begin ClipboardFormat.image (length compressed % 2 ^ 32) width height
            ∷ (chunk_messages 0 (chunks clipboard_chunk_size compressed)
                ++ Message.clipboard_end (h.blake3 rgba) ∷ []))
unfolding prepare_transfer compress_image
prepare_image h z width height rgba ms e = ground arith

handle_all-text :
    (h : Hash) (z : Zstd) (s : Text) (ms : List Message) (slot : Slot)
    → All IsChar s
    → prepare_transfer h z (ClipboardContent.text s) ≡ ok ms
    → (handle_all h z ms slot).0 ≡ ClipboardContent.text s ∷ []
unfolding handle_all handle_clipboard_message prepare_transfer
handle_all-text h z s ms slot valid e = ground (arith, from_utf8_lossy-as_bytes s valid)

-- Whatever `prepare_transfer` makes of an image, or of a text of Unicode characters,
-- `handle_clipboard_message` turns back into exactly that content, once, whatever it was in the
-- middle of.
pub handle_all-prepare_transfer :
    (h : Hash) (z : Zstd) (content : ClipboardContent) (ms : List Message) (slot : Slot)
    → IsContent content
    → prepare_transfer h z content ≡ ok ms
    → (handle_all h z ms slot).0 ≡ content ∷ []
handle_all-prepare_transfer h z (ClipboardContent.text s) ms slot valid e =
    handle_all-text h z s ms slot valid e
handle_all-prepare_transfer h z (ClipboardContent.image width height rgba) ms slot valid e =
    let (compressed, ez, small, em) = prepare_image h z width height rgba ms e in
    let cs = chunks clipboard_chunk_size compressed in
    let count = chunks-length clipboard_chunk_size compressed in
    rw (em, chunk_messages-numbered 0 cs (omega arith))
      (ap (λ (p : List ClipboardContent × Slot). p.0)
          (handle_all-transfer h z width height rgba compressed (numbered 0 cs) [] slot ez
            (Perm.refl _))
        ∙ (unfold handle_all in refl))
