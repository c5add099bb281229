-- ===== src/App/Headless/Again.antt =====
-- src/main.rs: a client without a window that has paired once does not need the PIN again.
use supershare.Base.{◌≡◌, refl, ap, ◌∙◌, Bool, true, false, none, some, Text, codes, arith}
use supershare.Base.Outcome.{ok}
use supershare.Base.Strings.{trim}
use supershare.Config.{AppConfig, find_known_server, upsert_known_server}
use supershare.Config.Trust.{Disk, TrustPaths, trust_paths, join, write, write_trust_material}
use supershare.Config.Trust.Files.{Writable}
use supershare.Config.Store.{load, save, load-save, prepared, config_file_path, config_dir}
use supershare.Pairing.Client.{PairedMaterial}
use supershare.App.{Around}
use supershare.App.Resolve.{resolve_client_certs, persist_client_trust}
use supershare.App.Handler.{pairing_target, known_server, link_with}
use supershare.App.Trusted.{config_home, trust_home, persist_read, resolve_known}
use supershare.App.Headless.{run_headless_client, pair_first, remember}

-- The configuration after the pairing.
abbrev pub remembered : Around → AppConfig → Text → PairedMaterial → TrustPaths → AppConfig
remembered a config server m p = record config {
  client = upsert_known_server config.client (known_server a server m p);
}

-- Material that is stored, with a configuration that is.
remember_ok :
    (a : Around) (config : AppConfig) (server : Text) (m : PairedMaterial) (d : Disk)
    (p : TrustPaths)
    → (persist_client_trust a server m d).1 ≡ ok p
    → remember a config server m d ≡ (
      (save a.platform (persist_client_trust a server m d).0 (remembered a config server m p)).0,
      ok p,
    )
unfolding remember
remember_ok a config server m d p h = ground (arith, h)

client_known :
    (a : Around) (d : Disk) (server name typed : Text) (pair : Bool) (p : TrustPaths)
    → resolve_client_certs (load a.platform d) server none none none ≡ some p
    → run_headless_client a server none none none name pair typed d
      ≡ (d, ok (link_with a server name p))
unfolding run_headless_client
client_known a d server name typed pair p h = ground (arith, h)

client_pairs :
    (a : Around) (d d' : Disk) (server name typed : Text) (p : TrustPaths)
    → resolve_client_certs (load a.platform d) server none none none ≡ none
    → pair_first a (load a.platform d) server name typed d ≡ (d', ok p)
    → run_headless_client a server none none none name true typed d
      ≡ (d', ok (link_with a server name p))
unfolding run_headless_client
client_pairs a d d' server name typed p h e = ground (arith, h, e)

-- Storing the material changes files only.
persist_same :
    (a : Around) (d : Disk) (server : Text) (m : PairedMaterial)
    → let d' = (persist_client_trust a server m d).0 in
      (d'.writable ≡ d.writable) × (d'.creatable ≡ d.creatable)
unfolding persist_client_trust write_trust_material write
persist_same a d server m = ground arith

save_ok :
    (a : Around) (d : Disk) (c : AppConfig) (base t : Text)
    → a.platform.base_dir ≡ some base
    → d.creatable (config_home base) ≡ true
    → d.writable (join (config_home base) (codes "config.toml")) ≡ true
    → a.platform.to_toml c ≡ some t
    → (save a.platform d c).1 ≡ ok tt
unfolding save prepared config_file_path config_dir write
save_ok a d c base t h c1 w1 to = ground (arith, h, to, c1, w1)

reload :
    (a : Around) (d : Disk) (c : AppConfig) (t : Text)
    → (save a.platform d c).1 ≡ ok tt
    → a.platform.to_toml c ≡ some t
    → a.platform.from_toml t ≡ some c
    → load a.platform (save a.platform d c).0 ≡ c
reload a d c t saved to from =
    load-save a.platform d (save a.platform d c).0 c (λ t' e. ground (arith, e, to, from))
      (ap (λ o. ((save a.platform d c).0, o)) saved)

-- On a machine whose directories can be made and files written, and if toml writes the configuration with
-- the new server and reads the same back: a client that does not know the server and pairs with the
-- right PIN starts a connection with the stored files; and every later run without a PIN, on the files as
-- that run left them, starts one with the same files, and writes nothing.
pub run_headless_client_again :
    (a : Around) (d : Disk) (server name typed base t : Text) (m : PairedMaterial)
    → a.platform.base_dir ≡ some base
    → d.creatable (config_home base) ≡ true
    → d.creatable (trust_home base) ≡ true
    → d.writable (join (config_home base) (codes "config.toml")) ≡ true
    → Writable d (trust_paths (trust_home base) server)
    → find_known_server (load a.platform d).client server ≡ none
    → a.pair (pairing_target server).0 (pairing_target server).1 (trim typed) name ≡ ok m
    → let p = trust_paths (trust_home base) server in
      let c = remembered a (load a.platform d) server m p in
      a.platform.to_toml c ≡ some t
      → a.platform.from_toml t ≡ some c
      → let (d', started) = run_headless_client a server none none none name true typed d in
        (started ≡ ok (link_with a server name p))
        × ((later typed' : Text)
            → run_headless_client a server none none none later false typed' d'
              ≡ (d', ok (link_with a server later p)))
unfolding known_server
run_headless_client_again a d server name typed base t m h c1 c2 w1 w unknown paired to from =
    let p = trust_paths (trust_home base) server in
    let config = load a.platform d in
    let c = remembered a config server m p in
    let d1 = (persist_client_trust a server m d).0 in
    let d2 = (save a.platform d1 c).0 in
    let stored = (persist_read a d server base m h c2 w).0 in
    let same = persist_same a d server m in
    let saved =
      save_ok a d1 c base t h (ap (λ f. f (config_home base)) same.1 ∙ c1)
        (ap (λ f. f (join (config_home base) (codes "config.toml"))) same.0 ∙ w1) to in
    let found : resolve_client_certs (load a.platform d2) server none none none ≡ some p =
      rw (reload a d1 c t saved to from)
        (resolve_known config (known_server a server m p) server refl) in
    let first : pair_first a config server name typed d ≡ (d2, ok p) =
      unfold pair_first in ground (arith, paired, remember_ok a config server m d p stored) in
    let asks : resolve_client_certs config server none none none ≡ none =
      unfold resolve_client_certs in ground (arith, unknown) in
    let run = client_pairs a d d2 server name typed p asks first in
    rw run (refl, λ later typed'. client_known a d2 server later typed' false p found)
