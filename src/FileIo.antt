-- ===== src/FileIo.antt =====
-- Code that reads and writes files, and may fail: `std::fs` over the files of the disk.
pub mod Keeps
use supershare.Base.{
  ◌≡◌, refl, ◌==◌, Bool, true, false, ◌||◌, is_some, inl, inr, ℕ, none, some, Text, list_eq, nat_eq,
  arith, if◌then◌else◌,
}
use supershare.Base.Assoc.{lookup, insert, lookup-insert_if}
use supershare.Base.Outcome.{Outcome, ok, err, map_err, Outcome-cases}
use supershare.Config.{FilePath}
use supershare.Config.Trust.{Disk, write}

module _ {ℓ μ} (E : Type μ) (A : Type ℓ) where
  abbrev pub FileIo : Type (ℓ ⊔ μ)
  FileIo = Disk → Disk × Outcome E A

abbrev pub lift {ℓ μ} : {E : Type μ} {A : Type ℓ} → Outcome E A → FileIo E A
lift o d = (d, o)

abbrev then_do {ℓ κ μ} :
    {E : Type μ} {A : Type ℓ} {B : Type κ}
    → Disk × Outcome E A
    → (A → FileIo E B)
    → Disk × Outcome E B
then_do (d, ok a) f = f a d
then_do (d, err e) f = (d, err e)

infixl 5 ◌>>=◌ ◌>>◌
abbrev pub ◌>>=◌ {ℓ κ μ} :
    {E : Type μ} {A : Type ℓ} {B : Type κ} → FileIo E A → (A → FileIo E B) → FileIo E B
(m >>= f) d = then_do (m d) f

abbrev pub ◌>>◌ {ℓ μ} : {E : Type μ} {B : Type ℓ} → FileIo E (Unit {0}) → FileIo E B → FileIo E B
m >> k = m >>= λ _. k

-- The same code, its errors in another type.
abbrev pub map_error {ℓ μ ν} :
    {E : Type μ} {F : Type ν} {A : Type ℓ} → FileIo E A → (E → F) → FileIo F A
map_error m f d = let (d', o) = m d in (d', map_err o f)

-- `Path::exists`.
abbrev pub exists : Disk → FilePath → Bool
exists d path = is_some (lookup path d.files)

module _ {μ} {E : Type μ} (e : E) where
  unfoldable pub create_dir_all : FilePath → FileIo E (Unit {0})
  create_dir_all dir d = if d.creatable dir then (d, ok tt) else (d, err e)

  unfoldable pub read_to_string : FilePath → FileIo E Text
  read_to_string path d = elim (lookup path d.files) [
    | none ↦ (d, err e)
    | some content ↦ (d, ok content)
  ]

  unfoldable pub write_file : FilePath → Text → FileIo E (Unit {0})
  unfolding write
  write_file path content d =
      let (d', written) = write d path content in (d', if written then ok tt else err e)

  -- `std::fs::set_permissions`.
  unfoldable pub set_mode : FilePath → ℕ → FileIo E (Unit {0})
  set_mode path mode d =
      if d.owned path then (record d { modes = insert path mode d.modes }, ok tt) else (d, err e)

-- A sequence that succeeds has two parts that do.
pub bind_ok {ℓ κ μ} :
    {E : Type μ} {A : Type ℓ} {B : Type κ} (m : FileIo E A) (f : A → FileIo E B) (d d' : Disk)
    (b : B)
    → (m >>= f) d ≡ (d', ok b)
    → (d1 : Disk) × (a : A) × (m d ≡ (d1, ok a)) × (f a d1 ≡ (d', ok b))
bind_ok m f d d' b h = elim (Outcome-cases (m d).1) [
  | inl (e, he) ↦ absurd (ground (arith, he))
  | inr (a, ha) ↦ ((m d).0, a, ground (arith, ha), ground (arith, ha))
]
