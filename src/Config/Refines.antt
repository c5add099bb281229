-- ===== src/Config/Refines.antt =====
-- crates/ss-core/src/config.rs: the lists of paired devices, seen as a map from addresses and as a set
-- of fingerprints, over any sequence of operations.
use mathlib.Core.Path.{fun_ext}
use supershare.Base.{
  ◌≡◌, refl, ◌∙◌, ap, Bool, true, false, Option, none, some, List, [], ◌∷◌, Text, ◌==◌, list_eq,
  nat_eq, if◌then◌else◌,
}
use supershare.Pairing.Server.{PairedClient}
use supershare.Config.{
  ServerConfig, ClientConfig, KnownServer, find_known_server, upsert_known_server, forget_server,
  is_client_paired, upsert_paired_client, revoke_client,
}
use supershare.Config.Paired.{
  Keyed, named-upsert, any-upsert, upsert-Keyed, named-retain, any-retain, retain-Keyed,
}

pub data KnownOp : Type 0 where
  upsert : KnownServer → KnownOp
  forget : (address : Text) → KnownOp

unfoldable pub run_known : List KnownOp → ClientConfig → ClientConfig
run_known [] c = c
run_known (upsert s ∷ ops) c = run_known ops (upsert_known_server c s)
run_known (forget a ∷ ops) c = run_known ops (forget_server c a).0

-- The map: one entry is set or dropped at a time.
unfoldable pub replay_known : List KnownOp → (Text → Option KnownServer) → Text → Option KnownServer
replay_known [] f = f
replay_known (upsert s ∷ ops) f = replay_known ops (λ k. if s.address == k then some s else f k)
replay_known (forget a ∷ ops) f = replay_known ops (λ k. if a == k then none else f k)

pub data PairedOp : Type 0 where
  pair : PairedClient → PairedOp
  revoke : (fingerprint : Text) → PairedOp

unfoldable pub run_paired : List PairedOp → ServerConfig → ServerConfig
run_paired [] c = c
run_paired (pair p ∷ ops) c = run_paired ops (upsert_paired_client c p)
run_paired (revoke f ∷ ops) c = run_paired ops (revoke_client c f).0

-- The set of fingerprints, by its test.
unfoldable pub replay_paired : List PairedOp → (Text → Bool) → Text → Bool
replay_paired [] test = test
replay_paired (pair p ∷ ops) test =
    replay_paired ops (λ k. if p.cert_fingerprint == k then true else test k)
replay_paired (revoke f ∷ ops) test = replay_paired ops (λ k. if f == k then false else test k)

-- From a list without repeated addresses, any sequence of stored and forgotten servers gives the lookup
-- of the map that changes in the same places, and a list without repeated addresses.
pub run_known_refines :
    (ops : List KnownOp) (c : ClientConfig)
    → Keyed (λ k. k.address) c.known_servers
    → (find_known_server (run_known ops c) ≡ replay_known ops (find_known_server c))
      × Keyed (λ k. k.address) (run_known ops c).known_servers
unfolding run_known replay_known find_known_server upsert_known_server forget_server
run_known_refines [] c h = (refl, h)
run_known_refines (upsert s ∷ ops) c h =
    let (same, keyed) =
      run_known_refines ops (upsert_known_server c s)
        (upsert-Keyed (λ k. k.address) s c.known_servers h) in
    (
      same ∙ ap (replay_known ops) (fun_ext λ k. named-upsert (λ k. k.address) s k c.known_servers),
      keyed,
    )
run_known_refines (forget a ∷ ops) c h =
    let (same, keyed) =
      run_known_refines ops (forget_server c a).0
        (retain-Keyed (λ k. k.address) a c.known_servers h) in
    (
      same ∙ ap (replay_known ops) (fun_ext λ k. named-retain (λ k. k.address) a k c.known_servers),
      keyed,
    )

-- From a list without repeated fingerprints, any sequence of pairings and revocations gives the test
-- of the set that changes in the same places, and a list without repeated fingerprints.
pub run_paired_refines :
    (ops : List PairedOp) (c : ServerConfig)
    → Keyed (λ k. k.cert_fingerprint) c.paired_clients
    → (is_client_paired (run_paired ops c) ≡ replay_paired ops (is_client_paired c))
      × Keyed (λ k. k.cert_fingerprint) (run_paired ops c).paired_clients
unfolding run_paired replay_paired is_client_paired upsert_paired_client revoke_client
run_paired_refines [] c h = (refl, h)
run_paired_refines (pair p ∷ ops) c h =
    let (same, keyed) =
      run_paired_refines ops (upsert_paired_client c p)
        (upsert-Keyed (λ k. k.cert_fingerprint) p c.paired_clients h) in
    (
      same
          ∙ ap (replay_paired ops)
              (fun_ext λ k. any-upsert (λ k. k.cert_fingerprint) p k c.paired_clients),
      keyed,
    )
run_paired_refines (revoke f ∷ ops) c h =
    let (same, keyed) =
      run_paired_refines ops (revoke_client c f).0
        (retain-Keyed (λ k. k.cert_fingerprint) f c.paired_clients h) in
    (
      same
          ∙ ap (replay_paired ops)
              (fun_ext λ k. any-retain (λ k. k.cert_fingerprint) f k c.paired_clients),
      keyed,
    )
