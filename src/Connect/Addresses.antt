-- ===== src/Connect/Addresses.antt =====
-- crates/ss-network/src/client.rs: where the two channels of a client go.
use supershare.Base.{
  ℕ, ◌+◌, ◌*◌, ◌/◌, ◌%◌, ◌^◌, ◌<◌, ◌≡◌, refl, ◌∙◌, ap, true, false, ◌||◌, some, [], ◌∷◌, ◌++◌, Text,
  codes, arith, ltb, Bool-cases, inl, inr,
}
use supershare.Connect.{
  digit, has_colon, decimal, parse_digits, parse_u16, split_first, control_address, data_address,
}

parse_step :
    (acc n : ℕ) (cs : Text)
    → acc * 10 + n % 10 < 2 ^ 16
    → parse_digits acc (digit n ∷ cs) ≡ parse_digits (acc * 10 + n % 10) cs
unfolding parse_digits
parse_step acc n cs h = ground arith

parse_u16-digit : (n : ℕ) (cs : Text) → parse_u16 (digit n ∷ cs) ≡ parse_digits 0 (digit n ∷ cs)
unfolding parse_u16
parse_u16-digit n cs = ground arith

parse_end : (acc p : ℕ) → acc ≡ p → parse_digits acc [] ≡ some p
unfolding parse_digits
parse_end acc p h = ap some h

-- The digits of `p`, by their tens, with `p` below the power of ten that follows.
parse_1 : (p : ℕ) → p < 10 → parse_u16 (digit p ∷ []) ≡ some p
parse_1 p h =
    parse_u16-digit p []
    ∙ parse_step 0 p [] (omega arith)
    ∙ parse_end (0 * 10 + p % 10) p (omega arith)

-- Two more digits than `acc` has.
parse_2 :
    (acc p : ℕ)
    → acc ≡ p / 100
    → p < 2 ^ 16
    → parse_digits acc (digit (p / 10) ∷ digit p ∷ []) ≡ some p
parse_2 acc p e h =
    parse_step acc (p / 10) (digit p ∷ []) (omega (arith, e))
    ∙ parse_step (acc * 10 + p / 10 % 10) p [] (omega (arith, e))
    ∙ parse_end ((acc * 10 + p / 10 % 10) * 10 + p % 10) p (omega (arith, e))

-- A port is read back from the text that it is written as.
pub parse_u16-decimal : (p : ℕ) → p < 2 ^ 16 → parse_u16 (decimal p) ≡ some p
unfolding decimal
parse_u16-decimal p h = elim (Bool-cases (ltb p 10)) [
  | inl e1 ↦ rw (e1, decimal) (parse_1 p (ground arith))
  | inr e1 ↦ elim (Bool-cases (ltb p 100)) [
    | inl e2 ↦
        rw (e1, e2, decimal)
          (parse_u16-digit (p / 10) (digit p ∷ []) ∙ parse_2 0 p (ground arith) h)
    | inr e2 ↦ elim (Bool-cases (ltb p 1000)) [
      | inl e3 ↦
          rw (e1, e2, e3, decimal)
            (parse_u16-digit (p / 100) (digit (p / 10) ∷ digit p ∷ [])
              ∙ parse_step 0 (p / 100) (digit (p / 10) ∷ digit p ∷ []) (omega arith)
              ∙ parse_2 (0 * 10 + p / 100 % 10) p (ground arith) h)
      | inr e3 ↦ elim (Bool-cases (ltb p 10000)) [
        | inl e4 ↦
            rw (e1, e2, e3, e4, decimal)
              (parse_u16-digit (p / 1000) (digit (p / 100) ∷ digit (p / 10) ∷ digit p ∷ [])
                ∙ parse_step 0 (p / 1000) (digit (p / 100) ∷ digit (p / 10) ∷ digit p ∷ [])
                    (omega arith)
                ∙ parse_step (0 * 10 + p / 1000 % 10) (p / 100) (digit (p / 10) ∷ digit p ∷ [])
                    (omega arith)
                ∙ parse_2 ((0 * 10 + p / 1000 % 10) * 10 + p / 100 % 10) p (ground arith) h)
        | inr e4 ↦
            rw (e1, e2, e3, e4, decimal)
              (parse_u16-digit (p / 10000)
                  (digit (p / 1000) ∷ digit (p / 100) ∷ digit (p / 10) ∷ digit p ∷ [])
                ∙ parse_step 0 (p / 10000)
                    (digit (p / 1000) ∷ digit (p / 100) ∷ digit (p / 10) ∷ digit p ∷ [])
                    (omega arith)
                ∙ parse_step (0 * 10 + p / 10000 % 10) (p / 1000)
                    (digit (p / 100) ∷ digit (p / 10) ∷ digit p ∷ []) (omega arith)
                ∙ parse_step ((0 * 10 + p / 10000 % 10) * 10 + p / 1000 % 10) (p / 100)
                    (digit (p / 10) ∷ digit p ∷ []) (omega arith)
                ∙ parse_2 (((0 * 10 + p / 10000 % 10) * 10 + p / 1000 % 10) * 10 + p / 100 % 10) p
                    (omega arith) h)
      ]
    ]
  ]
]

decimal-no_colon : (p : ℕ) → has_colon (decimal p) ≡ false
unfolding decimal
decimal-no_colon p = ground arith

has_colon-append : (a b : Text) → has_colon (a ++ b) ≡ has_colon a || has_colon b
has_colon-append [] b = refl
has_colon-append (c ∷ a) b = ground (arith, has_colon-append a b)

split_first_whole : (a : Text) → has_colon a ≡ false → split_first a ≡ (a, [])
unfolding split_first
split_first_whole [] h = refl
split_first_whole (c ∷ a) h = ground (arith, split_first_whole a)

split_first-colon :
    (a b : Text)
    → has_colon a ≡ false
    → split_first (a ++ 58 ∷ b) ≡ (a, let (part, parts) = split_first b in part ∷ parts)
unfolding split_first
split_first-colon [] b h = refl
split_first-colon (c ∷ a) b h = ground (arith, split_first-colon a b)

-- For an address of a host without a colon and a port below 65535, the control channel goes to that
-- address, and the data channel to the next port of the host.
pub data_address-port :
    (host : Text) (port : ℕ)
    → has_colon host ≡ false
    → port + 1 < 2 ^ 16
    → let address = host ++ (codes ":" ++ decimal port) in
      (control_address address ≡ address)
      × (data_address address ≡ host ++ (codes ":" ++ decimal (port + 1)))
unfolding control_address data_address
data_address-port host port h small =
    let whole : has_colon (host ++ 58 ∷ decimal port) ≡ true =
      ground (arith, has_colon-append host (58 ∷ decimal port)) in
    let wrap : (port + 1) % 2 ^ 16 ≡ port + 1 = omega arith in
    ground (
      arith,
      whole,
      split_first-colon host (decimal port) h,
      split_first_whole (decimal port) (decimal-no_colon port),
      parse_u16-decimal port (omega arith),
      wrap,
    )

-- For an address without a port both channels get the default ports.
pub data_address-default :
    (host : Text)
    → has_colon host ≡ false
    → (control_address host ≡ host ++ codes ":9876") × (data_address host ≡ host ++ codes ":9877")
unfolding control_address data_address
data_address-default host h =
    let written : parse_u16 (codes "9876") ≡ some 9876 = unfold parse_u16 parse_digits in refl in
    let next : decimal ((9876 + 1) % 2 ^ 16) ≡ codes "9877" = unfold decimal in refl in
    ground (
      arith,
      h,
      split_first-colon host (codes "9876") h,
      split_first_whole (codes "9876") refl,
      written,
      next,
    )

-- An address with two colons or more, as an IPv6 address has, is taken as it stands for the control
-- channel; for the data channel a port is put behind all of it, a port that it has included.
pub data_address-many :
    (a b c : Text)
    → has_colon a ≡ false
    → has_colon b ≡ false
    → let address = a ++ 58 ∷ (b ++ 58 ∷ c) in
      (control_address address ≡ address) × (data_address address ≡ address ++ codes ":9877")
unfolding control_address data_address
data_address-many a b c ha hb =
    let whole : has_colon (a ++ 58 ∷ (b ++ 58 ∷ c)) ≡ true =
      ground (arith, has_colon-append a (58 ∷ (b ++ 58 ∷ c))) in
    ground (arith, whole, split_first-colon a (b ++ 58 ∷ c) ha, split_first-colon b c hb)
