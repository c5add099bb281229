-- ===== src/Clipboard/Sync/Chunks.antt =====
-- crates/ss-clipboard/src/sync.rs: the chunks of a transfer make up what was cut.
use supershare.Base.{
  ℕ, zero, suc, ◌≤◌, ◌<◌, ◌≡◌, refl, ◌∙◌, ap, List, [], ◌∷◌, ◌++◌, length, take, drop, arith,
  take-append-drop, length-drop, length-take, All,
}
use supershare.Protocol.Kind.{Bytes}
use supershare.Clipboard.Sync.{chunks_of, chunks}

abbrev pub flatten : List Bytes → Bytes
flatten [] = []
flatten (c ∷ cs) = c ++ flatten cs

chunks_of-flatten :
    (fuel size : ℕ) (bs : Bytes)
    → 0 < size
    → length bs ≤ fuel
    → flatten (chunks_of fuel size bs) ≡ bs
unfolding chunks_of
chunks_of-flatten zero size [] h l = refl
chunks_of-flatten zero size (b ∷ bs) h l = absurd (omega arith)
chunks_of-flatten (suc fuel) size [] h l = refl
chunks_of-flatten (suc fuel) size (b ∷ bs) h l =
    ap (◌++◌ (take size (b ∷ bs))) (
      chunks_of-flatten fuel size (drop size (b ∷ bs)) h (omega (arith, length-drop size (b ∷ bs))))
    ∙ take-append-drop size (b ∷ bs)

pub chunks-flatten : (size : ℕ) (bs : Bytes) → 0 < size → flatten (chunks size bs) ≡ bs
unfolding chunks
chunks-flatten size bs h = chunks_of-flatten (length bs) size bs h (omega arith)

chunks_of-length : (fuel size : ℕ) (bs : Bytes) → length (chunks_of fuel size bs) ≤ fuel
unfolding chunks_of
chunks_of-length zero size bs = omega arith
chunks_of-length (suc fuel) size [] = omega arith
chunks_of-length (suc fuel) size (b ∷ bs) =
    omega (arith, chunks_of-length fuel size (drop size (b ∷ bs)))

pub chunks-length : (size : ℕ) (bs : Bytes) → length (chunks size bs) ≤ length bs
unfolding chunks
chunks-length size bs = chunks_of-length (length bs) size bs

chunks_of-All : (fuel size : ℕ) (bs : Bytes) → All (λ c. length c ≤ size) (chunks_of fuel size bs)
unfolding chunks_of
chunks_of-All zero size bs = tt
chunks_of-All (suc fuel) size [] = tt
chunks_of-All (suc fuel) size (b ∷ bs) =
    (omega (arith, length-take size (b ∷ bs)), chunks_of-All fuel size (drop size (b ∷ bs)))

pub chunks-All : (size : ℕ) (bs : Bytes) → All (λ c. length c ≤ size) (chunks size bs)
unfolding chunks
chunks-All size bs = chunks_of-All (length bs) size bs
