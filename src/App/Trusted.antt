-- ===== src/App/Trusted.antt =====
-- src/main.rs: after a pairing, the client connects with what the pairing gave it.
use supershare.Base.{
  ◌≡◌, ◌≢◌, refl, ◌∙◌, true, false, ==_refl, list_eq, nat_eq, none, some, [], ◌∷◌, ◌++◌,
  append_assoc, Text, codes, arith, inl, inr, Option-cases,
}
use supershare.Base.Assoc.{lookup, lookup-insert_other}
use supershare.Base.Outcome.{ok, err}
use supershare.Config.{FilePath, AppConfig, KnownServer, find_known_server, upsert_known_server}
use supershare.Config.Paired.{named-upsert}
use supershare.Config.Trust.{Disk, TrustPaths, trust_paths, join, safe_name, write}
use supershare.Config.Trust.Files.{Writable, join-cancel, write_trust_material-read}
use supershare.Config.Store.{
  Platform, config_dir, config_file_path, trust_dir, ensure_trust_dir, prepared, save,
}
use supershare.Pairing.Client.{PairedMaterial, PairError}
use supershare.App.{Backend, Around, pair_and_connect, connect_client}
use supershare.App.Resolve.{resolve_client_certs, persist_client_trust}
use supershare.App.Handler.{
  handle, on_pair_and_connect, on_material, on_connect_client, pairing_begun, pairing_target,
  device_of, known_server, link_with,
}

-- The file of the configuration is none of those in the trust directory.
not_config :
    (dir name : Text) → join dir (codes "config.toml") ≢ join (join dir (codes "trust")) name
not_config dir name e =
    let same : join dir (codes "config.toml") ≡ join dir (codes "trust" ++ (codes "/" ++ name)) =
      e ∙ append_assoc dir (codes "/trust") (codes "/" ++ name) in
    let names : codes "config.toml" ≡ codes "trust" ++ (codes "/" ++ name) =
      join-cancel dir (codes "config.toml") (codes "trust" ++ (codes "/" ++ name)) same in
    absurd (ground (arith, names))

abbrev pub config_home : FilePath → FilePath
config_home base = join base (codes "supershare")

abbrev pub trust_home : FilePath → FilePath
trust_home base = join (config_home base) (codes "trust")

-- Saving the configuration leaves every file of the trust directory as it is.
save_keeps :
    (p : Platform) (d : Disk) (c : AppConfig) (base name : Text)
    → p.base_dir ≡ some base
    → let path = join (trust_home base) name in
      lookup path (save p d c).0.files ≡ lookup path d.files
unfolding save prepared write config_file_path config_dir
save_keeps p d c base name h =
    let path = join (trust_home base) name in
    let file = join (config_home base) (codes "config.toml") in
    elim (Option-cases (p.to_toml c)) [
      | inl bad ↦ ground (arith, h, bad)
      | inr (t, ht) ↦ ground (
        arith,
        h,
        ht,
        lookup-insert_other file path t d.files (not_config (config_home base) name),
      )
    ]

-- Where the trust directory can be made and the three files written, they hold the material.
pub persist_read :
    (a : Around) (d : Disk) (address base : Text) (m : PairedMaterial)
    → a.platform.base_dir ≡ some base
    → d.creatable (trust_home base) ≡ true
    → let p = trust_paths (trust_home base) address in
      let (d', o) = persist_client_trust a address m d in
      Writable d p
      → (o ≡ ok p)
        × (lookup p.cert_path d'.files ≡ some m.client_cert_pem)
        × (lookup p.key_path d'.files ≡ some m.client_key_pem)
        × (lookup p.ca_path d'.files ≡ some m.ca_cert_pem)
unfolding persist_client_trust ensure_trust_dir trust_dir config_dir
persist_read a d address base m h c w =
    let read =
      write_trust_material-read d (trust_home base) address m.client_cert_pem m.client_key_pem
        m.ca_cert_pem w in
    ground (arith, h, c, read)

-- A known server is found by a later command that brings no files of its own.
pub resolve_known :
    (c : AppConfig) (s : KnownServer) (address : Text)
    → s.address ≡ address
    → resolve_client_certs
        (record c { client = upsert_known_server c.client s })
        address
        none
        none
        none
      ≡ some (record { cert_path = s.cert_path; key_path = s.key_path; ca_path = s.ca_path })
unfolding resolve_client_certs find_known_server upsert_known_server
resolve_known c s address same =
    ground
      (arith, same, named-upsert (λ k. k.address) s address c.client.known_servers, ==_refl address)

-- What the handler goes on to once the material is stored.
abbrev stored :
    Around → Backend → (address name : Text) → PairedMaterial → TrustPaths → Disk → Backend
stored a b address name m p disk =
    let config = record b.config {
      client = upsert_known_server b.config.client (known_server a address m p);
    } in
    record b {
      disk = (save a.platform disk config).0;
      config = config;
      state = record b.state {
        pairing_required = false;
        pairing_status = some (codes "Paired! Connecting…");
      };
      client_shutdown = true;
      effects = b.effects ++ link_with a address name p ∷ [];
    }

on_material-stored :
    (a : Around) (b : Backend) (address name : Text) (m : PairedMaterial) (p : TrustPaths)
    → (persist_client_trust a address m b.disk).1 ≡ ok p
    → on_material a b address name m
      ≡ stored a b address name m p (persist_client_trust a address m b.disk).0
unfolding on_material
on_material-stored a b address name m p h = ground (arith, h)

on_material-Trusted :
    (a : Around) (b : Backend) (address name base : Text) (m : PairedMaterial)
    → a.platform.base_dir ≡ some base
    → b.disk.creatable (trust_home base) ≡ true
    → let p = trust_paths (trust_home base) address in
      let b' = on_material a b address name m in
      Writable b.disk p
      → (b'.effects ≡ b.effects ++ link_with a address name p ∷ [])
        × (resolve_client_certs b'.config address none none none ≡ some p)
        × (lookup p.cert_path b'.disk.files ≡ some m.client_cert_pem)
        × (lookup p.key_path b'.disk.files ≡ some m.client_key_pem)
        × (lookup p.ca_path b'.disk.files ≡ some m.ca_cert_pem)
unfolding trust_paths known_server
on_material-Trusted a b address name base m h c w =
    let p = trust_paths (trust_home base) address in
    let (done, one, two, three) = persist_read a b.disk address base m h c w in
    let disk = (persist_client_trust a address m b.disk).0 in
    let s = known_server a address m p in
    let config = record b.config { client = upsert_known_server b.config.client s } in
    let keeps : (n : Text)
        → lookup (join (trust_home base) n) (save a.platform disk config).0.files
          ≡ lookup (join (trust_home base) n) disk.files =
      λ n. save_keeps a.platform disk config base n h in
    let known = resolve_known b.config s address refl in
    rw (on_material-stored a b address name m p done) (
      refl,
      known,
      keeps (safe_name address ++ codes ".pem") ∙ one,
      keeps (safe_name address ++ codes "-key.pem") ∙ two,
      keeps (safe_name address ++ codes "-ca.pem") ∙ three,
    )

connect_known :
    (a : Around) (b : Backend) (address name : Text) (p : TrustPaths)
    → resolve_client_certs b.config address none none none ≡ some p
    → let b' = handle a b (connect_client address none none none name) in
      (b'.effects ≡ b.effects ++ link_with a address name p ∷ [])
      × (b'.state.pairing_required ≡ false)
unfolding handle on_connect_client
connect_known a b address name p h = ground (arith, h)

-- Where the trust directory can be made and its files written, a pairing that succeeds has three effects:
-- a connection starts with the files of the trust directory, these files hold what the pairing gave, and
-- whenever the handler's configuration is still what the pairing made of it, whatever else has changed, a
-- command to connect to the same address, with no files of its own, connects with them too and does not
-- ask for a PIN.
pub handle-pair_Trusted :
    (a later : Around) (b after : Backend) (address pin name later_name base : Text)
    (m : PairedMaterial)
    → a.platform.base_dir ≡ some base
    → b.disk.creatable (trust_home base) ≡ true
    → let p = trust_paths (trust_home base) address in
      let (host, port) = pairing_target address in
      let dev = device_of a name in
      Writable b.disk p
      → a.pair host port pin dev ≡ ok m
      → let b' = handle a b (pair_and_connect address pin name) in
        let b'' = handle later after (connect_client address none none none later_name) in
        after.config ≡ b'.config
        → (b'.effects ≡ b.effects ++ link_with a address dev p ∷ [])
          × (lookup p.cert_path b'.disk.files ≡ some m.client_cert_pem)
          × (lookup p.key_path b'.disk.files ≡ some m.client_key_pem)
          × (lookup p.ca_path b'.disk.files ≡ some m.ca_cert_pem)
          × (b''.effects ≡ after.effects ++ link_with later address later_name p ∷ [])
          × (b''.state.pairing_required ≡ false)
unfolding pairing_begun
handle-pair_Trusted a later b after address pin name later_name base m h c w paired kept =
    let p = trust_paths (trust_home base) address in
    let dev = device_of a name in
    let now : handle a b (pair_and_connect address pin name)
        ≡ on_material a (pairing_begun b) address dev m =
      unfold handle on_pair_and_connect in ground (arith, paired) in
    let (effects, known, one, two, three) =
      on_material-Trusted a (pairing_begun b) address dev base m h c w in
    let b' = on_material a (pairing_begun b) address dev m in
    let (again, asked) = connect_known later after address later_name p (rw (kept, now) known) in
    rw now (effects, one, two, three, again, asked)

-- A pairing that fails stores nothing and starts nothing: the files, the configuration, the tasks and the
-- connection that is shown stay as they are, and the window shows the error twice.
pub handle-pair_failed :
    (a : Around) (b : Backend) (address pin name : Text) (e : PairError)
    → let (host, port) = pairing_target address in
      a.pair host port pin (device_of a name) ≡ err e
      → let b' = handle a b (pair_and_connect address pin name) in
        let text = some (codes "Pairing failed: " ++ a.pair_text e) in
        (b'.disk ≡ b.disk)
        × (b'.config ≡ b.config)
        × (b'.effects ≡ b.effects)
        × (b'.state ≡ record b.state { pairing_status = text; last_error = text })
unfolding handle on_pair_and_connect pairing_begun
handle-pair_failed a b address pin name e h = ground (arith, h)
