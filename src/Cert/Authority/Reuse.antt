-- ===== src/Cert/Authority/Reuse.antt =====
-- crates/ss-network/src/cert.rs: a CA that was made once is used from then on.
use supershare.Base.{
  ℕ, ◌≡◌, subst, sym, ap, true, ◌||◌, not, inl, inr, List, Text, list_eq, nat_eq, arith, Bool-cases,
}
use supershare.Base.Outcome.{ok, map_err}
use supershare.Cert.{Issuer, generate_ca_cert, generate_server_cert}
use supershare.Config.{FilePath}
use supershare.Config.Trust.{Disk}
use supershare.FileIo.{
  lift, ◌>>=◌, ◌>>◌, exists, bind_ok, create_dir_all, read_to_string, write_file,
}
use supershare.FileIo.Keeps.{Grows, Grows-trans, Grows-from, write_file-Grows, set_mode-Grows}
use supershare.Cert.Authority.{
  IoError, create_failed, read_failed, write_failed, permissions_failed, certificate, ServerCa,
  ca_paths, owner_only, write_private, write_server_cert, reuse, fresh, with_files,
  ensure_server_ca,
}

-- All four files are there.
abbrev pub IsComplete : ServerCa → Disk → Type 0
IsComplete p d =
    (exists d p.ca_cert_path ≡ true)
    × (exists d p.ca_key_path ≡ true)
    × (exists d p.server_cert_path ≡ true)
    × (exists d p.server_key_path ≡ true)

write_private-Grows :
    (path : FilePath) (content : Text) (d d' : Disk)
    → write_private path content d ≡ (d', ok tt)
    → Grows d d' × (exists d' path ≡ true)
unfolding write_private
write_private-Grows path content d d' h =
    let (d1, u, h1, h2) = bind_ok (write_file write_failed path content) _ d d' tt h in
    let (g1, there) = write_file-Grows write_failed path content d d1 h1 in
    let g2 = set_mode-Grows permissions_failed path owner_only d1 d' h2 in
    (Grows-trans d d1 d' g1 g2, g2.0 path there)

read_same :
    (path : FilePath) (d d' : Disk) (content : Text)
    → read_to_string read_failed path d ≡ (d', ok content)
    → d' ≡ d
unfolding read_to_string
read_same path d d' content h = ground arith

module _ (i : Issuer) (p : ServerCa) (server_ips : List Text) where
  write_server_cert-Grows :
      (ca_cert ca_key : Text) (seed : ℕ) (d d' : Disk)
      → write_server_cert i p ca_cert ca_key server_ips seed d ≡ (d', ok tt)
      → Grows d d' × (exists d' p.server_cert_path ≡ true) × (exists d' p.server_key_path ≡ true)
  unfolding write_server_cert
  write_server_cert-Grows ca_cert ca_key seed d d' h =
      let (d1, pair, h1, rest) =
        bind_ok (lift (map_err (generate_server_cert i ca_cert ca_key server_ips seed) certificate))
          _ d d' tt h in
      let same : d1 ≡ d = ap (λ r. r.0) (sym h1) in
      let (d2, u, h2, h3) =
        bind_ok (write_file write_failed p.server_cert_path pair.0) _ d1 d' tt rest in
      let (g2, cert) = write_file-Grows write_failed p.server_cert_path pair.0 d1 d2 h2 in
      let (g3, key) = write_private-Grows p.server_key_path pair.1 d2 d' h3 in
      (Grows-from d d1 d' same (Grows-trans d1 d2 d' g2 g3), g3.0 p.server_cert_path cert, key)

  fresh-IsComplete :
      (ca_seed seed : ℕ) (d d' : Disk) (ca : ServerCa)
      → fresh i p server_ips ca_seed seed d ≡ (d', ok ca)
      → (ca ≡ p) × IsComplete p d' × Grows d d'
  unfolding fresh
  fresh-IsComplete ca_seed seed d d' ca h =
      let (d1, pair, h1, rest1) =
        bind_ok (lift (map_err (generate_ca_cert i true ca_seed) certificate)) _ d d' ca h in
      let same : d1 ≡ d = ap (λ r. r.0) (sym h1) in
      let (d2, u2, h2, rest2) =
        bind_ok (write_file write_failed p.ca_cert_path pair.0) _ d1 d' ca rest1 in
      let (g2, cert) = write_file-Grows write_failed p.ca_cert_path pair.0 d1 d2 h2 in
      let (d3, u3, h3, rest3) = bind_ok (write_private p.ca_key_path pair.1) _ d2 d' ca rest2 in
      let (g3, key) = write_private-Grows p.ca_key_path pair.1 d2 d3 h3 in
      let (d4, u4, h4, h5) =
        bind_ok (write_server_cert i p pair.0 pair.1 server_ips seed) _ d3 d' ca rest3 in
      let (g4, server_cert, server_key) = write_server_cert-Grows pair.0 pair.1 seed d3 d4 h4 in
      let last : d4 ≡ d' = ap (λ r. r.0) h5 in
      let result : ca ≡ p = ground (arith, h5) in
      (
        result,
        subst (IsComplete p) last (
          g4.0 p.ca_cert_path (g3.0 p.ca_cert_path cert),
          g4.0 p.ca_key_path key,
          server_cert,
          server_key,
        ),
        subst (Grows d) last
            (Grows-from d d1 d4 same (Grows-trans d1 d2 d4 g2 (Grows-trans d2 d3 d4 g3 g4))),
      )

  -- The four steps of an existing CA whose server certificate is made again.
  remade-IsComplete :
      (seed : ℕ) (d d1 d2 d3 d' : Disk) (ca : ServerCa) (c k : Text)
      → exists d p.ca_cert_path ≡ true
      → exists d p.ca_key_path ≡ true
      → read_to_string read_failed p.ca_cert_path d ≡ (d1, ok c)
      → read_to_string read_failed p.ca_key_path d1 ≡ (d2, ok k)
      → write_server_cert i p c k server_ips seed d2 ≡ (d3, ok tt)
      → lift {E = IoError} (ok p) d3 ≡ (d', ok ca)
      → (ca ≡ p) × IsComplete p d' × Grows d d'
  remade-IsComplete seed d d1 d2 d3 d' ca c k cert key h1 h2 h3 h4 =
      let (g, server_cert, server_key) = write_server_cert-Grows c k seed d2 d3 h3 in
      let one = read_same p.ca_cert_path d d1 c h1 in
      let two = read_same p.ca_key_path d1 d2 k h2 in
      let all = Grows-from d d1 d3 one (Grows-from d1 d2 d3 two g) in
      let last : d3 ≡ d' = ap (λ r. r.0) h4 in
      (
        ground (arith, h4),
        subst (IsComplete p) last
            (all.0 p.ca_cert_path cert, all.0 p.ca_key_path key, server_cert, server_key),
        subst (Grows d) last all,
      )

  remake_ok :
      (seed : ℕ) (d d' : Disk) (ca : ServerCa)
      → exists d p.ca_cert_path ≡ true
      → exists d p.ca_key_path ≡ true
      → (read_to_string read_failed p.ca_cert_path >>= λ c.
            read_to_string read_failed p.ca_key_path >>= λ k.
            write_server_cert i p c k server_ips seed >> lift (ok p))
          d
        ≡ (d', ok ca)
      → (ca ≡ p) × IsComplete p d' × Grows d d'
  remake_ok seed d d' ca cert key made =
      let (d1, c, h1, rest1) = bind_ok (read_to_string read_failed p.ca_cert_path) _ d d' ca made in
      let (d2, k, h2, rest2) =
        bind_ok (read_to_string read_failed p.ca_key_path) _ d1 d' ca rest1 in
      let (d3, u, h3, h4) = bind_ok (write_server_cert i p c k server_ips seed) _ d2 d' ca rest2 in
      remade-IsComplete seed d d1 d2 d3 d' ca c k cert key h1 h2 h3 h4

  reuse-IsComplete :
      (seed : ℕ) (d d' : Disk) (ca : ServerCa)
      → exists d p.ca_cert_path ≡ true
      → exists d p.ca_key_path ≡ true
      → reuse i p server_ips seed d ≡ (d', ok ca)
      → (ca ≡ p) × IsComplete p d' × Grows d d'
  unfolding reuse
  reuse-IsComplete seed d d' ca cert key h =
      elim (Bool-cases (not (exists d p.server_cert_path) || not (exists d p.server_key_path))) [
        | inr whole ↦ ground (arith, whole)
        | inl missing ↦ remake_ok seed d d' ca cert key (ground (arith, missing))
      ]

  with_files-IsComplete :
      (ca_seed seed : ℕ) (d d' : Disk) (ca : ServerCa)
      → with_files i p server_ips ca_seed seed d ≡ (d', ok ca)
      → (ca ≡ p) × IsComplete p d' × Grows d d'
  unfolding with_files
  with_files-IsComplete ca_seed seed d d' ca h = elim (Bool-cases (exists d p.ca_cert_path)) [
    | inr no_cert ↦ fresh-IsComplete ca_seed seed d d' ca (ground (arith, no_cert))
    | inl cert ↦ elim (Bool-cases (exists d p.ca_key_path)) [
      | inr no_key ↦ fresh-IsComplete ca_seed seed d d' ca (ground (arith, cert, no_key))
      | inl key ↦ reuse-IsComplete seed d d' ca cert key (ground (arith, cert, key))
    ]
  ]

  with_files_again :
      (ca_seed seed : ℕ) (d : Disk)
      → IsComplete p d
      → with_files i p server_ips ca_seed seed d ≡ (d, ok p)
  unfolding with_files reuse
  with_files_again ca_seed seed d (a, b, c, e) = ground arith

-- Once `ensure_server_ca` has succeeded, the four files are there, and a later call, on the disk that the
-- first has left, succeeds with the same paths and writes nothing: the CA and the server's certificate
-- are used again, whatever the addresses of the machine are by then.
pub ensure_server_ca_twice :
    (i : Issuer) (dir : FilePath) (ips later_ips : List Text) (ca_seed seed ca_seed' seed' : ℕ)
    → (d d' : Disk) (ca : ServerCa) → ensure_server_ca i dir ips ca_seed seed d ≡ (d', ok ca)
    → (ca ≡ ca_paths dir)
      × IsComplete ca d'
      × (ensure_server_ca i dir later_ips ca_seed' seed' d' ≡ (d', ok ca))
unfolding ensure_server_ca create_dir_all
ensure_server_ca_twice i dir ips later_ips ca_seed seed ca_seed' seed' d d' ca h =
    let (d1, u, h1, h2) = bind_ok (create_dir_all create_failed dir) _ d d' ca h in
    let (same, there, grows) =
      with_files-IsComplete i (ca_paths dir) ips ca_seed seed d1 d' ca h2 in
    let creatable : d'.creatable dir ≡ true = ground (arith, grows.1, h1) in
    (
      same,
      subst (λ x. IsComplete x d') (sym same) there,
      ground (
        arith,
        creatable,
        same,
        with_files_again i (ca_paths dir) later_ips ca_seed' seed' d' there,
      ),
    )
