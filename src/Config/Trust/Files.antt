-- ===== src/Config/Trust/Files.antt =====
-- crates/ss-core/src/config.rs: which files hold the trust material of an address.
use supershare.Base.{ℕ, ◌≡◌, ◌≢◌, refl, ◌∙◌, true, false, some, [], ◌∷◌, ◌++◌, Text, codes, arith}
use supershare.Base.Assoc.{lookup, insert, lookup-insert, lookup-insert_other}
use supershare.Cert.{is_ascii_alphanumeric}
use supershare.Config.{FilePath}
use supershare.Config.Trust.{
  Disk, write, safe_name, join, TrustPaths, trust_paths, write_trust_material,
}

abbrev pub Writable : Disk → TrustPaths → Type 0
Writable d p =
    (d.writable p.cert_path ≡ true) × (d.writable p.key_path ≡ true) × (d.writable p.ca_path ≡ true)

write_all :
    (d : Disk) (dir : FilePath) (key cert key_pem ca : Text)
    → let p = trust_paths dir key in
      Writable d p
      → write_trust_material d dir key cert key_pem ca ≡ (
        record d {
          files = insert p.ca_path ca (insert p.key_path key_pem (insert p.cert_path cert d.files));
        },
        some p,
      )
unfolding write_trust_material write
write_all d dir key cert key_pem ca w = ground arith

pub append-cancel : (xs ys zs : Text) → xs ++ ys ≡ xs ++ zs → ys ≡ zs
append-cancel [] ys zs e = e
append-cancel (x ∷ xs) ys zs e = append-cancel xs ys zs (ground arith)

-- Where a text of safe characters ends is where the first other one stands.
safe_split :
    (a b : Text) (s t : ℕ) (ss ts : Text)
    → is_ascii_alphanumeric s ≡ false
    → is_ascii_alphanumeric t ≡ false
    → s ≢ 95
    → t ≢ 95
    → safe_name a ++ s ∷ ss ≡ safe_name b ++ t ∷ ts
    → (safe_name a ≡ safe_name b) × (s ∷ ss ≡ t ∷ ts)
unfolding safe_name
safe_split [] [] s t ss ts hs ht ns nt e = (refl, e)
safe_split [] (y ∷ b) s t ss ts hs ht ns nt e = absurd (ground arith)
safe_split (x ∷ a) [] s t ss ts hs ht ns nt e = absurd (ground arith)
safe_split (x ∷ a) (y ∷ b) s t ss ts hs ht ns nt e =
    ground (arith, safe_split a b s t ss ts hs ht ns nt)

pub join-cancel : (dir a b : Text) → join dir a ≡ join dir b → a ≡ b
join-cancel dir a b e =
    let rest : codes "/" ++ a ≡ codes "/" ++ b =
      append-cancel dir (codes "/" ++ a) (codes "/" ++ b) e in
    ground (arith, rest)

-- The paths of two keys meet only if their safe names do, and then for files of one kind.
paths_meet :
    (dir a b : Text) (s t : ℕ) (ss ts : Text)
    → is_ascii_alphanumeric s ≡ false
    → is_ascii_alphanumeric t ≡ false
    → s ≢ 95
    → t ≢ 95
    → join dir (safe_name a ++ s ∷ ss) ≡ join dir (safe_name b ++ t ∷ ts)
    → (safe_name a ≡ safe_name b) × (s ∷ ss ≡ t ∷ ts)
paths_meet dir a b s t ss ts hs ht ns nt e =
    safe_split a b s t ss ts hs ht ns nt
      (join-cancel dir (safe_name a ++ s ∷ ss) (safe_name b ++ t ∷ ts) e)

-- A path other than the three that are written.
Other : FilePath → TrustPaths → Type 0
Other path p = (p.cert_path ≢ path) × (p.key_path ≢ path) × (p.ca_path ≢ path)

write-Other :
    (d : Disk) (dir : FilePath) (key cert key_pem ca : Text) (path : FilePath)
    → let p = trust_paths dir key in
      Writable d p
      → Other path p
      → lookup path (write_trust_material d dir key cert key_pem ca).0.files ≡ lookup path d.files
unfolding Other
write-Other d dir key cert key_pem ca path w o =
    let p = trust_paths dir key in
    rw (write_all d dir key cert key_pem ca w) (
      lookup-insert_other p.ca_path path ca _ o.2
      ∙ lookup-insert_other p.key_path path key_pem _ o.1
      ∙ lookup-insert_other p.cert_path path cert d.files o.0)

-- The trust material of an address, once written, is what its three files hold.
pub write_trust_material-read :
    (d : Disk) (dir : FilePath) (key cert key_pem ca : Text)
    → let p = trust_paths dir key in
      let (d', o) = write_trust_material d dir key cert key_pem ca in
      Writable d p
      → (o ≡ some p)
        × (lookup p.cert_path d'.files ≡ some cert)
        × (lookup p.key_path d'.files ≡ some key_pem)
        × (lookup p.ca_path d'.files ≡ some ca)
unfolding trust_paths
write_trust_material-read d dir key cert key_pem ca w =
    let p = trust_paths dir key in
    let one = insert p.cert_path cert d.files in
    let two = insert p.key_path key_pem one in
    let ca_cert : p.ca_path ≢ p.cert_path = λ e. absurd (
      ground (
        arith,
        paths_meet dir key key 45 46 (codes "ca.pem") (codes "pem") refl refl (omega arith)
            (omega arith) e,
      )) in
    let key_cert : p.key_path ≢ p.cert_path = λ e. absurd (
      ground (
        arith,
        paths_meet dir key key 45 46 (codes "key.pem") (codes "pem") refl refl (omega arith)
            (omega arith) e,
      )) in
    let ca_key : p.ca_path ≢ p.key_path = λ e. absurd (
      ground (
        arith,
        paths_meet dir key key 45 45 (codes "ca.pem") (codes "key.pem") refl refl (omega arith)
            (omega arith) e,
      )) in
    rw (write_all d dir key cert key_pem ca w) (
      refl,
      lookup-insert_other p.ca_path p.cert_path ca two ca_cert
          ∙ lookup-insert_other p.key_path p.cert_path key_pem one key_cert
          ∙ lookup-insert p.cert_path cert d.files,
      lookup-insert_other p.ca_path p.key_path ca two ca_key ∙ lookup-insert p.key_path key_pem one,
      lookup-insert p.ca_path ca two,
    )

others :
    (dir key other : Text) (t : ℕ) (ts : Text)
    → is_ascii_alphanumeric t ≡ false
    → t ≢ 95
    → safe_name key ≢ safe_name other
    → Other (join dir (safe_name other ++ t ∷ ts)) (trust_paths dir key)
unfolding Other trust_paths
others dir key other t ts ht nt differ = (
  λ e. differ ((paths_meet dir key other 46 t (codes "pem") ts refl ht (omega arith) nt e).0),
  λ e. differ ((paths_meet dir key other 45 t (codes "key.pem") ts refl ht (omega arith) nt e).0),
  λ e. differ ((paths_meet dir key other 45 t (codes "ca.pem") ts refl ht (omega arith) nt e).0),
)

-- Addresses that differ in their letters and digits keep separate files: where one's material can be
-- written, writing it leaves the other's as it was.
pub write_trust_material-separate :
    (d : Disk) (dir : FilePath) (key other cert key_pem ca : Text)
    → Writable d (trust_paths dir key)
    → safe_name key ≢ safe_name other
    → let p = trust_paths dir other in
      let d' = (write_trust_material d dir key cert key_pem ca).0 in
      (lookup p.cert_path d'.files ≡ lookup p.cert_path d.files)
      × (lookup p.key_path d'.files ≡ lookup p.key_path d.files)
      × (lookup p.ca_path d'.files ≡ lookup p.ca_path d.files)
unfolding trust_paths Other
write_trust_material-separate d dir key other cert key_pem ca w differ =
    let p = trust_paths dir other in
    (
      write-Other d dir key cert key_pem ca p.cert_path w
          (others dir key other 46 (codes "pem") refl (omega arith) differ),
      write-Other d dir key cert key_pem ca p.key_path w
          (others dir key other 45 (codes "key.pem") refl (omega arith) differ),
      write-Other d dir key cert key_pem ca p.ca_path w
          (others dir key other 45 (codes "ca.pem") refl (omega arith) differ),
    )

-- Addresses with the same safe name, which differ in other characters only, share their files: where
-- the material of one can be written, it is what the files of the other hold.
pub write_trust_material-shared :
    (d : Disk) (dir : FilePath) (key other cert key_pem ca : Text)
    → Writable d (trust_paths dir key)
    → safe_name key ≡ safe_name other
    → let p = trust_paths dir other in
      let d' = (write_trust_material d dir key cert key_pem ca).0 in
      (lookup p.cert_path d'.files ≡ some cert)
      × (lookup p.key_path d'.files ≡ some key_pem)
      × (lookup p.ca_path d'.files ≡ some ca)
unfolding trust_paths
write_trust_material-shared d dir key other cert key_pem ca w same =
    let (o, a, b, c) = write_trust_material-read d dir key cert key_pem ca w in rw⁻¹ same (a, b, c)
