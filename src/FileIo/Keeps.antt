-- ===== src/FileIo/Keeps.antt =====
-- Code on files: what leaves a file as it is, and what a success tells.
use supershare.Base.{
  ℕ, ◌≡◌, ◌≢◌, ◌∙◌, ◌==◌, true, inl, inr, Text, list_eq, nat_eq, ==_refl, arith, if◌then◌else◌,
  subst,
}
use supershare.Base.Assoc.{lookup, insert, lookup-insert_if, lookup-insert_other}
use supershare.Base.Outcome.{ok, Outcome-cases}
use supershare.Config.{FilePath}
use supershare.Config.Trust.{Disk, write}
use supershare.FileIo.{FileIo, ◌>>=◌, exists, create_dir_all, read_to_string, write_file, set_mode}

-- Whether it succeeds or not, the code leaves the file at `path` as it was.
module _ (path : FilePath) where
  abbrev pub Keeps {ℓ μ} : {E : Type μ} {A : Type ℓ} → FileIo E A → Type 0
  Keeps m = (d : Disk) → lookup path (m d).0.files ≡ lookup path d.files

  pub Keeps-bind {ℓ κ μ} :
      {E : Type μ} {A : Type ℓ} {B : Type κ} (m : FileIo E A) (f : A → FileIo E B)
      → Keeps m
      → ((a : A) → Keeps (f a))
      → Keeps (m >>= f)
  Keeps-bind m f hm hf d = elim (Outcome-cases (m d).1) [
    | inl (e, he) ↦ ground (arith, he, hm d)
    | inr (a, ha) ↦ ground (arith, ha, hm d, hf a (m d).0)
  ]

  pub Keeps-write_file {μ} :
      {E : Type μ} (e : E) (other : FilePath) (content : Text)
      → other ≢ path
      → Keeps (write_file e other content)
  unfolding write_file write
  Keeps-write_file e other content ne d =
      ground (arith, lookup-insert_other other path content d.files ne)

  pub Keeps-set_mode {μ} :
      {E : Type μ} (e : E) (other : FilePath) (mode : ℕ) → Keeps (set_mode e other mode)
  unfolding set_mode
  Keeps-set_mode e other mode d = ground arith

  pub Keeps-read_to_string {μ} :
      {E : Type μ} (e : E) (other : FilePath) → Keeps (read_to_string e other)
  unfolding read_to_string
  Keeps-read_to_string e other d = ground arith

  pub Keeps-create_dir_all {μ} :
      {E : Type μ} (e : E) (dir : FilePath) → Keeps (create_dir_all e dir)
  unfolding create_dir_all
  Keeps-create_dir_all e dir d = ground arith

-- A write that succeeds.
pub write_file_ok {μ} :
    {E : Type μ} (e : E) (path : FilePath) (content : Text) (d d' : Disk)
    → write_file e path content d ≡ (d', ok tt)
    → (d'.files ≡ insert path content d.files) × (d'.modes ≡ d.modes) × (d'.creatable ≡ d.creatable)
unfolding write_file write
write_file_ok e path content d d' h = ground arith

pub set_mode_ok {μ} :
    {E : Type μ} (e : E) (path : FilePath) (mode : ℕ) (d d' : Disk)
    → set_mode e path mode d ≡ (d', ok tt)
    → (d'.files ≡ d.files) × (d'.modes ≡ insert path mode d.modes) × (d'.creatable ≡ d.creatable)
unfolding set_mode
set_mode_ok e path mode d d' h = ground arith

-- A file is there after a write if it was, or is the one written.
pub exists-insert :
    (path other : FilePath) (content : Text) (d d' : Disk)
    → d'.files ≡ insert other content d.files
    → exists d' path ≡ (if other == path then true else exists d path)
exists-insert path other content d d' h =
    rw h (ground (arith, lookup-insert_if other path content d.files))

-- No file goes away, and the same directories can be created.
abbrev pub Grows : Disk → Disk → Type 0
Grows d d' =
    ((path : FilePath) → exists d path ≡ true → exists d' path ≡ true)
    × (d'.creatable ≡ d.creatable)

pub Grows-trans : (d d1 d2 : Disk) → Grows d d1 → Grows d1 d2 → Grows d d2
Grows-trans d d1 d2 a b = (λ path h. b.0 path (a.0 path h), b.1 ∙ a.1)

pub Grows-from : (d d1 d2 : Disk) → d1 ≡ d → Grows d1 d2 → Grows d d2
Grows-from d d1 d2 e g = subst (λ x. Grows x d2) e g

pub write_file-Grows {μ} :
    {E : Type μ} (e : E) (path : FilePath) (content : Text) (d d' : Disk)
    → write_file e path content d ≡ (d', ok tt)
    → Grows d d' × (exists d' path ≡ true)
write_file-Grows e path content d d' h =
    let (files, modes, same) = write_file_ok e path content d d' h in
    (
      (λ l there. ground (arith, exists-insert l path content d d' files), same),
      ground (arith, exists-insert path path content d d' files, ==_refl path),
    )

pub set_mode-Grows {μ} :
    {E : Type μ} (e : E) (path : FilePath) (mode : ℕ) (d d' : Disk)
    → set_mode e path mode d ≡ (d', ok tt)
    → Grows d d'
set_mode-Grows e path mode d d' h =
    let (files, modes, same) = set_mode_ok e path mode d d' h in
    (λ l there. ground (arith, files), same)
