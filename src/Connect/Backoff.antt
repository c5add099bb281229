-- ===== src/Connect/Backoff.antt =====
-- crates/ss-network/src/client.rs: how long the client waits before each retry.
use supershare.Base.{
  ℕ, zero, suc, ◌^◌, ◌≡◌, refl, min, Option, none, some, List, [], ◌∷◌, ◌++◌, arith,
}
use supershare.Connect.{next_backoff, retry, connect_with_retry, max_backoff}
use native.Mathlib.Nat.{pow-suc}

-- The first `n` waits, the first of them after `i` others.
abbrev pub doubling : (i n : ℕ) → List ℕ
doubling i zero = []
doubling i (suc n) = min (2 ^ i) max_backoff ∷ doubling (suc i) n

-- `n` attempts that fail.
abbrev pub failures {ℓ} : {A : Type ℓ} → ℕ → List (Option A)
failures zero = []
failures (suc n) = none ∷ failures n

pub next_backoff-min :
    (i : ℕ) → next_backoff (min (2 ^ i) max_backoff) ≡ min (2 ^ suc i) max_backoff
unfolding next_backoff
next_backoff-min i = omega (arith, pow-suc 2 i)

retry_waits {ℓ} :
    {A : Type ℓ} (conn : A) (later : List (Option A)) (i n : ℕ)
    → retry (min (2 ^ i) max_backoff) (failures n ++ some conn ∷ later) ≡ (some conn, doubling i n)
unfolding retry
retry_waits conn later i zero = refl
retry_waits conn later i (suc n) =
    let rest = retry_waits conn later (suc i) n in rw (next_backoff-min i, rest) refl

-- After `n` failed attempts the client has the connection of the next one that succeeds, and it has waited
-- a second, then twice as long each time, but never more than half a minute.
pub connect_with_retry-waits {ℓ} :
    {A : Type ℓ} (conn : A) (later : List (Option A)) (n : ℕ)
    → connect_with_retry (failures n ++ some conn ∷ later) ≡ (some conn, doubling 0 n)
unfolding connect_with_retry
connect_with_retry-waits conn later n = retry_waits conn later 0 n
