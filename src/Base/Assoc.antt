-- ===== src/Base/Assoc.antt =====
-- Maps from texts, as lists of pairs with one pair per key.
use supershare.Base.{
  ◌≡◌, ◌≢◌, refl, ◌∙◌, Option, none, some, List, [], ◌∷◌, ◌++◌, Text, ◌==◌, ==_iff, ==_refl,
  list_eq, nat_eq, if◌then◌else◌, arith,
}

module _ {ℓ} {A : Type ℓ} where
  abbrev pub lookup : Text → List (Text × A) → Option A
  lookup k [] = none
  lookup k (p ∷ ps) = if p.0 == k then some p.1 else lookup k ps

  abbrev pub remove : Text → List (Text × A) → List (Text × A)
  remove k [] = []
  remove k (p ∷ ps) = let rest = remove k ps in if p.0 == k then rest else p ∷ rest

  -- `HashMap::insert`: the old value is dropped.
  abbrev pub insert : Text → A → List (Text × A) → List (Text × A)
  insert k a ps = remove k ps ++ (k, a) ∷ []

  pub lookup-remove : (k : Text) (ps : List (Text × A)) → lookup k (remove k ps) ≡ none
  lookup-remove k [] = refl
  lookup-remove k (p ∷ ps) = ground (arith, lookup-remove k ps)

  pub lookup-remove_other :
      (k l : Text) (ps : List (Text × A)) → k ≢ l → lookup l (remove k ps) ≡ lookup l ps
  lookup-remove_other k l [] ne = refl
  lookup-remove_other k l (p ∷ ps) ne =
      ground (arith, lookup-remove_other k l ps ne, ==_iff p.0 k, ==_iff p.0 l)

  lookup-append :
      (k : Text) (a : A) (ps : List (Text × A))
      → lookup k ps ≡ none
      → lookup k (ps ++ (k, a) ∷ []) ≡ some a
  lookup-append k a [] h = ground (arith, ==_refl k)
  lookup-append k a (p ∷ ps) h = ground (arith, lookup-append k a ps)

  lookup-append_other :
      (k l : Text) (a : A) (ps : List (Text × A))
      → k ≢ l
      → lookup l (ps ++ (k, a) ∷ []) ≡ lookup l ps
  lookup-append_other k l a [] ne = ground (arith, ==_iff k l)
  lookup-append_other k l a (p ∷ ps) ne = ground (arith, lookup-append_other k l a ps ne)

  pub lookup-insert : (k : Text) (a : A) (ps : List (Text × A)) → lookup k (insert k a ps) ≡ some a
  lookup-insert k a ps = lookup-append k a (remove k ps) (lookup-remove k ps)

  pub lookup-insert_other :
      (k l : Text) (a : A) (ps : List (Text × A)) → k ≢ l → lookup l (insert k a ps) ≡ lookup l ps
  lookup-insert_other k l a ps ne =
      lookup-append_other k l a (remove k ps) ne ∙ lookup-remove_other k l ps ne

  pub lookup-remove_if :
      (k l : Text) (ps : List (Text × A))
      → lookup l (remove k ps) ≡ (if k == l then none else lookup l ps)
  lookup-remove_if k l [] = ground arith
  lookup-remove_if k l (p ∷ ps) =
      ground (arith, lookup-remove_if k l ps, ==_iff p.0 k, ==_iff p.0 l, ==_iff k l)

  lookup-append_if :
      (k l : Text) (a : A) (ps : List (Text × A))
      → lookup k ps ≡ none
      → lookup l (ps ++ (k, a) ∷ []) ≡ (if k == l then some a else lookup l ps)
  lookup-append_if k l a [] h = ground arith
  lookup-append_if k l a (p ∷ ps) h =
      ground (arith, lookup-append_if k l a ps, ==_iff p.0 k, ==_iff p.0 l, ==_iff k l)

  pub lookup-insert_if :
      (k l : Text) (a : A) (ps : List (Text × A))
      → lookup l (insert k a ps) ≡ (if k == l then some a else lookup l ps)
  lookup-insert_if k l a ps =
      ground
        (arith, lookup-append_if k l a (remove k ps) (lookup-remove k ps), lookup-remove_if k l ps)
