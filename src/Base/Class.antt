-- ===== src/Base/Class.antt =====
-- Equality tests as an interface, with the instances for numbers and texts.
use Prim.Native.Nat.{ℕ}
use Prim.Native.Char.{code}
use Prim.Native.String.{String}
use mathlib.Core.Path.{◌≡◌, refl}
use mathlib.Core.Logic.{◌↔◌}
use mathlib.Core.Bool.{Bool, true, false, ◌&&◌}
use mathlib.Core.List.{List, [], ◌∷◌}
use native.Mathlib.Omega.{arith}
use supershare.Base.Tests.{eqb, eqb_iff}

-- `PartialEq`, for types whose test is equality.
pub record Eq {ℓ} (A : Type ℓ) : Type ℓ where
  pub same : A → A → Bool
  pub same_law : (x y : A) → (same x y ≡ true) ↔ (x ≡ y)

module _ {ℓ} {A : Type ℓ} ⦃eq : Eq A⦄ where
  infix 50 ◌==◌
  abbrev pub ◌==◌ : A → A → Bool
  x == y = eq.same x y

  pub ==_iff : (x y : A) → ((x == y) ≡ true) ↔ (x ≡ y)
  ==_iff x y = eq.same_law x y

  pub ==_refl : (x : A) → (x == x) ≡ true
  ==_refl x = (==_iff x x).1 refl

  abbrev pub all_same : List A → List A → Bool
  all_same [] ys = elim ys [ [] ↦ true | y ∷ rest ↦ false ]
  all_same (x ∷ xs) ys = elim ys [ [] ↦ false | y ∷ rest ↦ eq.same x y && all_same xs rest ]

  pub all_same_iff : (xs ys : List A) → (all_same xs ys ≡ true) ↔ (xs ≡ ys)
  all_same_iff [] [] = ground arith
  all_same_iff [] (y ∷ rest) = ground arith
  all_same_iff (x ∷ xs) [] = ground arith
  all_same_iff (x ∷ xs) (y ∷ rest) = ground (arith, ==_iff x y, all_same_iff xs rest)

instance abbrev pub nat_eq : Eq ℕ
nat_eq = record { same = eqb; same_law = eqb_iff }

instance abbrev pub list_eq {ℓ} : {A : Type ℓ} ⦃eq : Eq A⦄ → Eq (List A)
list_eq = record { same = all_same; same_law = all_same_iff }

-- A Rust `String` is its characters, each a Unicode scalar value.
abbrev pub Text : Type 0
Text = List ℕ

-- The characters of a literal.
abbrev pub codes : String → Text
codes String.[] = []
codes (String.◌∷◌ c s) = code c ∷ codes s
