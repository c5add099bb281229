-- ===== src/Pairing/Run.antt =====
-- A client and a server that pair, with no other connection in between: what one side writes is what
-- the other reads.
pub mod Stages
pub mod Outcomes
use supershare.Base.{ℕ, Option, none, some, List, [], ◌∷◌, ◌++◌, Text}
use supershare.Base.Outcome.{Outcome, ok, err}
use supershare.Protocol.Kind.{Bytes, Message}
use supershare.Pairing.Pin.{PinManager}
use supershare.Pairing.Server.{
  PairFailure, Outside, PairingServerConfig, Env, Turn, next, failed, paired, Input, accept,
  handle_pairing, notify,
}
use supershare.Pairing.Client.{PairedMaterial, PairError, begin_pairing, on_server_spake, on_result}

-- A frame arrives at the server, if it still waits for one; what it writes, the listener's report of a
-- failure included.
unfoldable pub deliver :
    Outside
    → PairingServerConfig
    → Env
    → Message
    → PinManager
    → Turn
    → PinManager × List Message × Turn
unfolding handle_pairing notify
deliver o config env msg m (next phase) =
    let (m', out, t) = handle_pairing o config m env phase (ok (some msg)) in
    (m', notify o env out t, t)
deliver o config env msg m t = (m, [], t)

-- What is read from the other side: its first frame, or the end of the stream.
abbrev pub first_of : List Message → Input
first_of [] = ok none
first_of (m ∷ ms) = ok (some m)

-- The times and random numbers of a run.
pub record Draws : Type 0 where
  pub accepting : Env
  pub requesting : Env
  pub exchanging : Env
  pub confirming : Env
  pub spake_seed : ℕ
  pub key_seed : ℕ
  pub nonce_seed : ℕ

-- The client's first two messages at the server.
unfoldable pub greet :
    Outside
    → PairingServerConfig
    → Draws
    → PinManager
    → Message
    → Message
    → PinManager × List Message × Turn
unfolding accept deliver
greet o config d m request spake =
    let (m1, t1) = accept m d.accepting.now in
    let (m2, out2, t2) = deliver o config d.requesting request m1 t1 in
    let (m3, out3, t3) = deliver o config d.exchanging spake m2 t2 in
    (m3, notify o d.accepting [] t1 ++ (out2 ++ out3), t3)

-- The client's second part, with what it read.
unfoldable pub confirm :
    Outside
    → PairingServerConfig
    → Draws
    → PinManager
    → Turn
    → Outcome PairError (Bytes × Text × Message)
    → PinManager × Turn × Outcome PairError PairedMaterial
unfolding deliver on_result
confirm o config d m t (err e) = (m, t, err e)
confirm o config d m t (ok (key, key_pem, msg)) =
    let (m', out, t') = deliver o config d.confirming msg m t in
    (m', t', on_result o key key_pem (first_of out))

-- The whole run: the manager and the server's end, and what `pair_with_server` returns.
unfoldable pub converse :
    Outside
    → PairingServerConfig
    → Draws
    → PinManager
    → (pin device_name : Text) → PinManager × Turn × Outcome PairError PairedMaterial
unfolding greet begin_pairing on_server_spake confirm
converse o config d m pin device_name =
    let (exchange, request, spake) = begin_pairing o pin device_name d.spake_seed in
    let (m', out, t) = greet o config d m request spake in
    confirm o config d m' t
      (on_server_spake o device_name exchange d.key_seed d.nonce_seed (first_of out))
