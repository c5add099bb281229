-- ===== src/Pairing/Pin.antt =====
-- crates/ss-network/src/pairing/server.rs: PinManager. Time is in milliseconds; each operation is given
-- the time, and where it may make a PIN, the random number for it.
pub mod Lockout
use supershare.Base.{
  ℕ, ◌+◌, ◌-◌, ◌*◌, ◌/◌, ◌%◌, ◌^◌, Bool, true, false, Option, none, some, [], ◌∷◌, Text, ltb, leb,
  if◌then◌else◌,
}

pub record PinManager : Type 0 where
  pub pin : Text
  pub generated_at : ℕ
  pub failures : ℕ
  pub locked_until : Option ℕ
  pub ttl : ℕ
  pub max_failures : ℕ
  pub lockout : ℕ

abbrev pub pin_ttl : ℕ
pin_ttl = 180 * 1000

abbrev pub default_max_failures : ℕ
default_max_failures = 5

abbrev pub default_lockout : ℕ
default_lockout = 60 * 1000

-- A decimal digit as a character.
abbrev pub digit : ℕ → ℕ
digit n = 48 + n % 10

-- `format!("{n:06}")` of a number below 1_000_000.
unfoldable pub generate_pin : ℕ → Text
generate_pin n =
    digit (n / 100000)
    ∷ digit (n / 10000)
    ∷ digit (n / 1000)
    ∷ digit (n / 100)
    ∷ digit (n / 10)
    ∷ digit n
    ∷ []

unfoldable pub with_params : ℕ → ℕ → ℕ → ℕ → ℕ → PinManager
with_params ttl max_failures lockout now n = record {
  pin = generate_pin n;
  generated_at = now;
  failures = 0;
  locked_until = none;
  ttl = ttl;
  max_failures = max_failures;
  lockout = lockout;
}

unfoldable pub new : ℕ → ℕ → PinManager
new now n = with_params pin_ttl default_max_failures default_lockout now n

unfoldable pub current_pin : PinManager → ℕ → ℕ → PinManager × Text
current_pin m now n =
    let m' =
      if leb m.ttl (now - m.generated_at)
      then record m { pin = generate_pin n; generated_at = now }
      else m in
    (m', m'.pin)

unfoldable pub is_locked : PinManager → ℕ → PinManager × Bool
is_locked m now = elim m.locked_until [
  | some t ↦
      if ltb now t then (m, true) else (record m { locked_until = none; failures = 0 }, false)
  | none ↦ (m, false)
]

unfoldable pub record_success : PinManager → ℕ → ℕ → PinManager
record_success m now n = record m {
  pin = generate_pin n;
  generated_at = now;
  failures = 0;
  locked_until = none;
}

-- `failures` is a `u32`.
unfoldable pub record_failure : PinManager → ℕ → PinManager
record_failure m now =
    let failures = (m.failures + 1) % 2 ^ 32 in
    if leb m.max_failures failures
    then record m { failures = failures; locked_until = some (now + m.lockout) }
    else record m { failures = failures }
