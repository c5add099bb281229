-- ===== src/Clipboard/Sync/Sorting.antt =====
-- crates/ss-clipboard/src/sync.rs: the sort by sequence number that `finish` makes.
use supershare.Base.{ℕ, ◌+◌, ◌≤◌, ◌≡◌, ◌≢◌, refl, ◌∙◌, ap, sym, List, [], ◌∷◌, ◌++◌, arith, map}
use supershare.Protocol.Kind.{Bytes}
use supershare.Clipboard.Sync.{insert_chunk, sort_by_seq, concat}
use supershare.Clipboard.Sync.Chunks.{flatten}
use native.Mathlib.Bridge.{le_prop}
use mathlib.Core.Path.{ap₂, subst}
use mathlib.Core.Logic.{∥∥₁_elim}
use mathlib.Core.Logic.Or
use mathlib.Core.List.{
  Mem, Permᴰ, Perm, Nodup, Nodup-cons, Nodup-nil, mem-cons, mem-cons_self, not-mem-nil,
}
use mathlib.Core.List.Perm

abbrev pub Chunk : Type 0
Chunk = ℕ × Bytes

-- The chunks numbered from `seq` on.
abbrev pub numbered : ℕ → List Bytes → List Chunk
numbered seq [] = []
numbered seq (c ∷ cs) = (seq, c) ∷ numbered (seq + 1) cs

insert-numbered :
    (seq : ℕ) (c : Bytes) (cs : List Bytes)
    → insert_chunk (seq, c) (numbered (seq + 1) cs) ≡ (seq, c) ∷ numbered (seq + 1) cs
unfolding insert_chunk
insert-numbered seq c [] = refl
insert-numbered seq c (d ∷ ds) = ground arith

-- Chunks that come in order stay in order.
pub sort-numbered : (seq : ℕ) (cs : List Bytes) → sort_by_seq (numbered seq cs) ≡ numbered seq cs
unfolding sort_by_seq
sort-numbered seq [] = refl
sort-numbered seq (c ∷ cs) =
    ap (insert_chunk (seq, c)) (sort-numbered (seq + 1) cs) ∙ insert-numbered seq c cs

pub concat-numbered : (seq : ℕ) (cs : List Bytes) → concat (numbered seq cs) ≡ flatten cs
concat-numbered seq [] = refl
concat-numbered seq (c ∷ cs) = ap (◌++◌ c) (concat-numbered (seq + 1) cs)

-- Inserting two chunks of different numbers, in either order.
insert_swap :
    (c d : Chunk) (cs : List Chunk)
    → c.0 ≢ d.0
    → insert_chunk c (insert_chunk d cs) ≡ insert_chunk d (insert_chunk c cs)
unfolding insert_chunk
insert_swap c d [] h = ground arith
insert_swap c d (e ∷ es) h = ground (arith, insert_swap c d es)

abbrev pub seqs : List Chunk → List ℕ
seqs = map (λ c. c.0)

-- Two lists of the same chunks, with no number twice, are sorted alike.
sort-Permᴰ : {cs ds : List Chunk} → Permᴰ cs ds → Nodup (seqs cs) → sort_by_seq cs ≡ sort_by_seq ds
unfolding sort_by_seq
sort-Permᴰ Permᴰ.nil u = refl
sort-Permᴰ (Permᴰ.cons {a = c} {l₂ = ds} e d) u =
    ap (insert_chunk c) (sort-Permᴰ d (Nodup-cons.0 u).1)
    ∙ ap (λ x. insert_chunk x (sort_by_seq ds)) e
sort-Permᴰ (Permᴰ.swap {a = c} {b = d} {l = l} e f) u =
    insert_swap c d (sort_by_seq l)
      (λ same. (Nodup-cons.0 u).0 (subst (λ k. Mem k (d.0 ∷ seqs l)) (sym same) mem-cons_self))
    ∙ ap₂ (λ x y. insert_chunk x (insert_chunk y (sort_by_seq l))) f e
sort-Permᴰ (Permᴰ.trans d₁ d₂) u =
    sort-Permᴰ d₁ u ∙ sort-Permᴰ d₂ (Perm.nodup (Perm.map (λ c. c.0) ∣ d₁ ∣₁) u)

Chunks-set : IsSet (List Chunk)
Chunks-set = hlevel

pub sort-Perm :
    {cs ds : List Chunk} → Perm cs ds → Nodup (seqs cs) → sort_by_seq cs ≡ sort_by_seq ds
sort-Perm p u = ∥∥₁_elim p (Chunks-set _ _) (λ d. sort-Permᴰ d u)

numbered_from : (k seq : ℕ) (cs : List Bytes) → Mem k (seqs (numbered seq cs)) → seq ≤ k
numbered_from k seq [] m = absurd (not-mem-nil m)
numbered_from k seq (c ∷ cs) m =
    Or.elim le_prop (mem-cons.0 m) (λ e. omega (arith, e))
      (λ later. omega (arith, numbered_from k (seq + 1) cs later))

pub numbered-Nodup : (seq : ℕ) (cs : List Bytes) → Nodup (seqs (numbered seq cs))
numbered-Nodup seq [] = Nodup-nil
numbered-Nodup seq (c ∷ cs) =
    Nodup-cons.1
      (λ m. absurd (omega (arith, numbered_from seq (seq + 1) cs m)), numbered-Nodup (seq + 1) cs)
