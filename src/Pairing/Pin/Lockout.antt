-- ===== src/Pairing/Pin/Lockout.antt =====
-- crates/ss-network/src/pairing/server.rs: how many guesses the lockout leaves.
use supershare.Base.{
  ℕ, ◌+◌, ◌-◌, ◌*◌, ◌^◌, ◌<◌, ◌≤◌, ◌≡◌, refl, Bool, true, false, none, some, List, [], ◌∷◌, arith,
  if◌then◌else◌, Option-cases, Bool-cases, inl, inr, ◌⊎◌, ap,
}
use supershare.Pairing.Pin.{PinManager, with_params, is_locked, record_failure}
use native.Mathlib.Nat.{
  mul-le-mul_left, mul-le-mul_right, le_of_lt, le-add_left, le-add_right, le_trans,
}

-- A wrong guess at a time, one attempt after the other: whether it is judged, and the manager after it.
unfoldable pub wrong_guess : PinManager → ℕ → PinManager × Bool
unfolding is_locked record_failure
wrong_guess m now =
    let (m', locked) = is_locked m now in
    if locked then (m', false) else (record_failure m' now, true)

-- How many of the wrong guesses at the times are judged.
unfoldable pub judged : PinManager → List ℕ → ℕ
judged m [] = 0
judged m (t ∷ ts) =
    let (m', was) = wrong_guess m t in let rest = judged m' ts in if was then 1 + rest else rest

-- Times in order, from `t` to `last`.
abbrev pub Between : ℕ → ℕ → List ℕ → Type 0
Between t last [] = t ≤ last
Between t last (s ∷ ts) = (t ≤ s) × Between s last ts

-- Where a manager stands: its failures are within the limit, and are at it only if it is locked.
pub record IsSound (m : PinManager) : Type 0 where
  pub some_allowed : 0 < m.max_failures
  pub small : m.max_failures < 2 ^ 32
  pub below : m.locked_until ≡ none → m.failures < m.max_failures

-- The time that the manager is good for: what is left until `last`, and a lockout to come.
abbrev budget : PinManager → ℕ → ℕ → ℕ
budget m t last = elim m.locked_until [
  | none ↦ (last - t) + m.lockout
  | some u ↦ (last + m.lockout) - u
]

abbrev debt : PinManager → ℕ
debt m = elim m.locked_until [ none ↦ m.failures | some u ↦ 0 ]

wrong_guess_refused :
    (m : PinManager) (u now : ℕ)
    → m.locked_until ≡ some u
    → now < u
    → wrong_guess m now ≡ (m, false)
unfolding wrong_guess is_locked
wrong_guess_refused m u now e h = ground arith

-- A judged guess leaves the limits and the soundness, and what it costs.
wrong_guess_judged :
    (m : PinManager) (now last : ℕ)
    → IsSound m
    → (wrong_guess m now).1 ≡ true
    → let m' = (wrong_guess m now).0 in
      IsSound m' × (m'.max_failures ≡ m.max_failures) × (m'.lockout ≡ m.lockout)
unfolding wrong_guess is_locked record_failure
wrong_guess_judged m now last s j = ground arith

wrong_guess_next :
    (m : PinManager) (now : ℕ)
    → IsSound m
    → (wrong_guess m now).1 ≡ true
    → let m' = (wrong_guess m now).0 in
      ((m'.locked_until ≡ none) × (m'.failures ≡ debt m + 1))
      ⊎ ((m'.locked_until ≡ some (now + m.lockout)) × (debt m + 1 ≡ m.max_failures))
unfolding wrong_guess is_locked record_failure
wrong_guess_next m now s j = ground arith

budget-le :
    (m : PinManager) (t now last : ℕ)
    → t ≤ now
    → now ≤ last
    → (wrong_guess m now).1 ≡ true
    → (last - now) + m.lockout ≤ budget m t last
unfolding wrong_guess is_locked record_failure
budget-le m t now last le hi j = ground arith

room : (l k d max b c : ℕ) → (k + (d + 1)) * l ≤ max * c → c ≤ b → ((1 + k) + d) * l ≤ max * b
room l k d max b c h le = omega (arith, mul-le-mul_left max le)

full :
    (l k d max b c : ℕ)
    → (k + 0) * l ≤ max * c
    → d + 1 ≡ max
    → c + l ≤ b
    → ((1 + k) + d) * l ≤ max * b
full l k d max b c h e le = omega (arith, mul-le-mul_left max le, ap (λ n. n * l) e)

judged-cons :
    (m : PinManager) (t : ℕ) (ts : List ℕ)
    → judged m (t ∷ ts) ≡ (
        if (wrong_guess m t).1
        then 1 + judged (wrong_guess m t).0 ts
        else judged (wrong_guess m t).0 ts)
unfolding judged
judged-cons m t ts = refl

wrong_guess_kept :
    (m : PinManager) (now : ℕ) → (wrong_guess m now).1 ≡ false → (wrong_guess m now).0 ≡ m
unfolding wrong_guess is_locked record_failure
wrong_guess_kept m now h = ground arith

debt_free :
    (m : PinManager) (t last : ℕ)
    → m.locked_until ≡ none
    → (debt m ≡ m.failures) × (budget m t last ≡ last - t + m.lockout)
debt_free m t last e = ground arith

debt_held :
    (m : PinManager) (t last u : ℕ)
    → m.locked_until ≡ some u
    → (debt m ≡ 0) × (budget m t last ≡ (last + m.lockout) - u)
debt_held m t last u e = ground arith

covered : (l d max c : ℕ) → d < max → d * l ≤ max * (c + l)
covered l d max c h =
    omega (arith, mul-le-mul_right l (le_of_lt h), mul-le-mul_left max (le-add_left l c))

debt-le :
    (m : PinManager) (t last : ℕ)
    → IsSound m
    → debt m * m.lockout ≤ m.max_failures * budget m t last
debt-le m t last s = elim (Option-cases m.locked_until) [
  | inl e ↦
      let (d, b) = debt_free m t last e in
      rw (d, b) (covered m.lockout m.failures m.max_failures (last - t) (s.below e))
  | inr (u, e) ↦ let (d, b) = debt_held m t last u e in rw d (omega arith)
]

budget-le_later : (m : PinManager) (t now last : ℕ) → t ≤ now → budget m now last ≤ budget m t last
budget-le_later m t now last h = ground arith

in_time : (t last : ℕ) (ts : List ℕ) → Between t last ts → t ≤ last
in_time t last [] h = h
in_time t last (s ∷ ts) (le, h) = omega (arith, in_time s last ts h)

-- What was judged, and the failures before, cost a lockout for every `max_failures` of them.
judged_spent :
    (m : PinManager) (t last : ℕ) (ts : List ℕ)
    → IsSound m
    → Between t last ts
    → (judged m ts + debt m) * m.lockout ≤ m.max_failures * budget m t last
judged_spent m t last [] s h = unfold judged in omega (arith, debt-le m t last s)
judged_spent m t last (now ∷ ts) s (le, h) = elim (Bool-cases (wrong_guess m now).1) [
  | inr refused ↦
      rw (judged-cons m now ts, refused, wrong_guess_kept m now refused)
        (le_trans (judged_spent m now last ts s h)
          (mul-le-mul_left m.max_failures (budget-le_later m t now last le)))
  | inl was ↦
      let m' = (wrong_guess m now).0 in
      let (s', em, el) = wrong_guess_judged m now last s was in
      let ih = judged_spent m' now last ts s' h in
      let fits = budget-le m t now last le (in_time now last ts h) was in
      rw (judged-cons m now ts, was)
        (elim (wrong_guess_next m now s was) [
          | inl (free, spent) ↦
              let (d, b) = debt_free m' now last free in
              room m.lockout (judged m' ts) (debt m) m.max_failures (budget m t last)
                (last - now + m.lockout) (rw (d, spent, b, el, em) at ih) fits
          | inr (held, spent) ↦
              let (d, b) = debt_held m' now last (now + m.lockout) held in
              full m.lockout (judged m' ts) (debt m) m.max_failures (budget m t last)
                ((last + m.lockout) - (now + m.lockout)) (rw (d, b, el, em) at ih) spent
                (omega (arith, fits))
        ])
]

-- Guessing one attempt after the other, at times in order, from an unlocked manager with fewer
-- failures than its limit: in any stretch of time, at most `max_failures` wrong guesses are judged
-- for every lockout that fits into it, and for one more. The others are refused.
pub judged-bounded :
    (m : PinManager) (t last : ℕ) (ts : List ℕ)
    → IsSound m
    → m.locked_until ≡ none
    → Between t last ts
    → judged m ts * m.lockout ≤ m.max_failures * (last - t + m.lockout)
judged-bounded m t last ts s e h =
    let (d, b) = debt_free m t last e in
    let x = rw b at (judged_spent m t last ts s h) in
    le_trans (mul-le-mul_right m.lockout (le-add_right (judged m ts) (debt m))) x

-- A manager with a limit from 1 to `u32::MAX` starts out sound.
pub with_params-IsSound :
    (ttl max_failures lockout now n : ℕ)
    → 0 < max_failures
    → max_failures < 2 ^ 32
    → IsSound (with_params ttl max_failures lockout now n)
unfolding with_params
with_params-IsSound ttl max_failures lockout now n lo hi = ground arith
