-- ===== src/Config/Paired.antt =====
-- crates/ss-core/src/config.rs: the lists of paired devices, which have one entry per key.
use supershare.Base.{
  ◌≡◌, ◌≢◌, refl, ◌∙◌, sym, Bool, true, false, not, Option, none, some, List, [], ◌∷◌, Text, find,
  any, retain, length, ◌==◌, ==_iff, ==_refl, list_eq, nat_eq, arith, eqb, if◌then◌else◌, is_some,
  ◌≤◌, Bool-cases, inl, inr, subst,
}
use supershare.Pairing.Server.{PairedClient}
use supershare.Config.{
  ServerConfig, ClientConfig, KnownServer, upsert, find_known_server, upsert_known_server,
  forget_server, is_client_paired, upsert_paired_client, revoke_client,
}

-- Lists of entries that a text names.
module _ {ℓ} {A : Type ℓ} (key : A → Text) where
  -- No two entries have one key.
  abbrev pub Keyed : List A → Type 0
  Keyed [] = Unit {0}
  Keyed (x ∷ xs) = (any (λ y. key y == key x) xs ≡ false) × Keyed xs

  abbrev pub named : Text → List A → Option A
  named k xs = find (λ y. key y == k) xs

  pub named-upsert :
      (a : A) (k : Text) (xs : List A)
      → named k (upsert (λ y. key y == key a) a xs) ≡ (if key a == k then some a else named k xs)
  unfolding upsert
  named-upsert a k [] = ground arith
  named-upsert a k (x ∷ xs) =
      ground
        (arith, named-upsert a k xs, ==_iff (key x) (key a), ==_iff (key x) k, ==_iff (key a) k)

  pub any-upsert :
      (a : A) (k : Text) (xs : List A)
      → any (λ y. key y == k) (upsert (λ y. key y == key a) a xs)
        ≡ (if key a == k then true else any (λ y. key y == k) xs)
  unfolding upsert
  any-upsert a k [] = ground arith
  any-upsert a k (x ∷ xs) =
      ground (arith, any-upsert a k xs, ==_iff (key x) (key a), ==_iff (key x) k, ==_iff (key a) k)

  pub upsert-Keyed : (a : A) (xs : List A) → Keyed xs → Keyed (upsert (λ y. key y == key a) a xs)
  unfolding upsert
  upsert-Keyed a [] h = (refl, tt)
  upsert-Keyed a (x ∷ xs) h = elim (Bool-cases (key x == key a)) [
    | inl same ↦
        rw (same, upsert)
          (subst (λ k. any (λ y. key y == k) xs ≡ false) ((==_iff (key x) (key a)).0 same) h.0, h.1)
    | inr other ↦
        rw (other, upsert)
          (
            ground (arith, any-upsert a (key x) xs, ==_iff (key x) (key a), ==_iff (key a) (key x)),
            upsert-Keyed a xs h.1,
          )
  ]

  pub any-retain :
      (k l : Text) (xs : List A)
      → any (λ y. key y == l) (retain (λ y. not (key y == k)) xs)
        ≡ (if k == l then false else any (λ y. key y == l) xs)
  any-retain k l [] = ground arith
  any-retain k l (x ∷ xs) =
      ground (arith, any-retain k l xs, ==_iff (key x) k, ==_iff (key x) l, ==_iff k l)

  pub named-retain :
      (k l : Text) (xs : List A)
      → named l (retain (λ y. not (key y == k)) xs) ≡ (if k == l then none else named l xs)
  named-retain k l [] = ground arith
  named-retain k l (x ∷ xs) =
      ground (arith, named-retain k l xs, ==_iff (key x) k, ==_iff (key x) l, ==_iff k l)

  pub retain-Keyed : (k : Text) (xs : List A) → Keyed xs → Keyed (retain (λ y. not (key y == k)) xs)
  retain-Keyed k [] h = tt
  retain-Keyed k (x ∷ xs) h = ground (arith, retain-Keyed k xs h.1, any-retain k (key x) xs)

  -- Something is left out exactly if the key was there.
  retain-shorter :
      (k : Text) (xs : List A)
      → (length (retain (λ y. not (key y == k)) xs) ≤ length xs)
        × (not (eqb (length (retain (λ y. not (key y == k)) xs)) (length xs))
            ≡ any (λ y. key y == k) xs)
  retain-shorter k [] = ground arith
  retain-shorter k (x ∷ xs) = ground (arith, retain-shorter k xs)

find-any {ℓ} : {A : Type ℓ} (p : A → Bool) (xs : List A) → is_some (find p xs) ≡ any p xs
find-any p [] = refl
find-any p (x ∷ xs) = ground (arith, find-any p xs)

-- In a list that has no address twice: after a server is stored, it is found under its address,
-- every other address finds what it found before, and still no address is listed twice.
pub upsert_known_server-find :
    (c : ClientConfig) (s : KnownServer)
    → Keyed (λ k. k.address) c.known_servers
    → let d = upsert_known_server c s in
      (find_known_server d s.address ≡ some s)
      × ((address : Text)
          → s.address ≢ address
          → find_known_server d address ≡ find_known_server c address)
      × Keyed (λ k. k.address) d.known_servers
unfolding upsert_known_server find_known_server
upsert_known_server-find c s h = (
  ground (arith, named-upsert (λ k. k.address) s s.address c.known_servers, ==_refl s.address),
  λ address ne.
      ground
        (arith, named-upsert (λ k. k.address) s address c.known_servers, ==_iff s.address address),
  upsert-Keyed (λ k. k.address) s c.known_servers h,
)

-- Forgetting a server says whether its address was known; after it the address is not, and every other
-- address finds what it found before.
pub forget_server-find :
    (c : ClientConfig) (address : Text)
    → let (d, was) = forget_server c address in
      (was ≡ is_some (find_known_server c address))
      × (find_known_server d address ≡ none)
      × ((other : Text) → address ≢ other → find_known_server d other ≡ find_known_server c other)
unfolding forget_server find_known_server
forget_server-find c address = (
  (retain-shorter (λ k. k.address) address c.known_servers).1
      ∙ sym (find-any (λ k. k.address == address) c.known_servers),
  ground (arith, named-retain (λ k. k.address) address address c.known_servers, ==_refl address),
  λ other ne.
      ground
        (arith, named-retain (λ k. k.address) address other c.known_servers, ==_iff address other),
)

-- After a pairing is stored, its fingerprint is paired, every other one is exactly if it was, and no
-- fingerprint is listed twice if none was.
pub upsert_paired_client-is_client_paired :
    (c : ServerConfig) (p : PairedClient)
    → Keyed (λ k. k.cert_fingerprint) c.paired_clients
    → let d = upsert_paired_client c p in
      ((f : Text)
        → is_client_paired d f ≡ (if p.cert_fingerprint == f then true else is_client_paired c f))
      × Keyed (λ k. k.cert_fingerprint) d.paired_clients
unfolding upsert_paired_client is_client_paired
upsert_paired_client-is_client_paired c p h = (
  λ f. any-upsert (λ k. k.cert_fingerprint) p f c.paired_clients,
  upsert-Keyed (λ k. k.cert_fingerprint) p c.paired_clients h,
)

-- Revoking says whether the fingerprint was paired; after it the fingerprint is not, and every other one
-- is exactly if it was.
pub revoke_client-is_client_paired :
    (c : ServerConfig) (fingerprint : Text)
    → let (d, was) = revoke_client c fingerprint in
      (was ≡ is_client_paired c fingerprint)
      × ((f : Text)
          → is_client_paired d f ≡ (if fingerprint == f then false else is_client_paired c f))
unfolding revoke_client is_client_paired
revoke_client-is_client_paired c fingerprint = (
  (retain-shorter (λ k. k.cert_fingerprint) fingerprint c.paired_clients).1,
  λ f. any-retain (λ k. k.cert_fingerprint) fingerprint f c.paired_clients,
)
