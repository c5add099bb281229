-- ===== src/Connect.antt =====
-- crates/ss-network/src/client.rs: the addresses of the two channels, and the retries.
pub mod Addresses
pub mod Backoff
pub mod Session
pub mod Ports
use supershare.Base.{
  ℕ, ◌+◌, ◌*◌, ◌/◌, ◌%◌, ◌-◌, ◌^◌, min, Bool, true, false, ◌&&◌, Option, none, some, List, [], ◌∷◌,
  ◌++◌, Text, codes, eqb, ltb, leb, any, if◌then◌else◌, unwrap_or, is_empty,
}

-- `:` is 58.
abbrev pub has_colon : Text → Bool
has_colon s = any (λ c. eqb c 58) s

-- `format!` of a `u16`.
abbrev pub digit : ℕ → ℕ
digit n = 48 + n % 10

unfoldable pub decimal : ℕ → Text
decimal n =
    if ltb n 10
    then digit n ∷ []
    else if ltb n 100
    then digit (n / 10) ∷ digit n ∷ []
    else if ltb n 1000
    then digit (n / 100) ∷ digit (n / 10) ∷ digit n ∷ []
    else if ltb n 10000
    then digit (n / 1000) ∷ digit (n / 100) ∷ digit (n / 10) ∷ digit n ∷ []
    else digit (n / 10000) ∷ digit (n / 1000) ∷ digit (n / 100) ∷ digit (n / 10) ∷ digit n ∷ []

-- `u16::from_str`: digits after an optional `+` (43), within the type.
unfoldable pub parse_digits : ℕ → Text → Option ℕ
parse_digits acc [] = some acc
parse_digits acc (c ∷ cs) =
    let next = acc * 10 + (c - 48) in
    let rest = parse_digits next cs in
    if leb 48 c && leb c 57 && ltb next (2 ^ 16) then rest else none

unfoldable pub parse_u16 : Text → Option ℕ
unfolding parse_digits
parse_u16 [] = none
parse_u16 (c ∷ cs) =
    if eqb c 43 then (if is_empty cs then none else parse_digits 0 cs) else parse_digits 0 (c ∷ cs)

-- `str::split(':')`, which has at least one part.
unfoldable pub split_first : Text → Text × List Text
split_first [] = ([], [])
split_first (c ∷ cs) =
    let (part, parts) = split_first cs in if eqb c 58 then ([], part ∷ parts) else (c ∷ part, parts)

unfoldable pub control_address : Text → Text
control_address address = if has_colon address then address else address ++ codes ":9876"

-- `port + 1` on `u16`.
unfoldable pub data_address : Text → Text
unfolding control_address split_first parse_u16 decimal
data_address address =
    let (host, rest) = split_first (control_address address) in
    elim rest [
      | [] ↦ address ++ codes ":9877"
      | port ∷ more ↦ elim more [
        | [] ↦ host ++ (codes ":" ++ decimal ((unwrap_or (parse_u16 port) 9876 + 1) % 2 ^ 16))
        | another ∷ others ↦ address ++ codes ":9877"
      ]
    ]

-- Seconds.
abbrev pub max_backoff : ℕ
max_backoff = 30

unfoldable pub next_backoff : ℕ → ℕ
next_backoff backoff = min (backoff * 2) max_backoff

-- The loop, given how each attempt ends: the connection, if one succeeds, and the waits before.
unfoldable pub retry {ℓ} : {A : Type ℓ} → ℕ → List (Option A) → Option A × List ℕ
unfolding next_backoff
retry backoff [] = (none, [])
retry backoff (some conn ∷ attempts) = (some conn, [])
retry backoff (none ∷ attempts) =
    let (conn, waits) = retry (next_backoff backoff) attempts in (conn, backoff ∷ waits)

unfoldable pub connect_with_retry {ℓ} : {A : Type ℓ} → List (Option A) → Option A × List ℕ
unfolding retry
connect_with_retry attempts = retry 1 attempts
