-- ===== src/Num/Nearest.antt =====
-- The rounding of internal/num/num.go against the numbers that its texts stand for.
use mathlib.Core.List.{append_assoc}
use ddcore.Common.{
  ℕ, suc, ◌+◌, ◌-◌, ◌*◌, ◌%◌, ◌^◌, ◌≤◌, ◌<◌, ◌≡◌, refl, ap, ◌∙◌, Bool, true, false, not, Option,
  some, [], ◌∷◌, ◌++◌, if◌then◌else◌, leb, ◌==◌, arith, Bool-cases, inl, inr, ◌⊎◌, All, All-append,
  length, ==→eq, length-append, sym, subst, take, drop, append-take-drop, length-drop, All-take,
  All-drop,
}
use ddcore.Text.{Text, is_digit, value_from}
use ddcore.Text.Decimal.{span-run}
use ddcore.Num.{
  Rounding, half_away_from_zero, half_to_even, tie_rounds_up, rounds_up, increment, insert_point,
  round_unsigned, round, with_minus,
}
use ddcore.Num.Digits.{IsDigits, digit-bounds, value-append, value-lt, last_or-value}
use ddcore.Num.Increment.{value-increment, increment-IsDigits, length-increment}
use ddcore.Num.Pointed.{IsDecimal, insert_point-IsDecimal}
use ddcore.Num.Side.{IsSide, rounds_up-IsSide}

-- n units of size b are as near to v as any number of them; half way between two, a rule chooses
-- the greater one, or the even one
abbrev pub IsNearest : Rounding → ℕ → ℕ → ℕ → Type 0
IsNearest half_away_from_zero b v n = 2 * (n * b) ≤ 2 * v + b × (2 * v < 2 * (n * b) + b)
IsNearest half_to_even b v n =
    2 * (n * b) ≤ 2 * v + b
    × (2 * v ≤ 2 * (n * b) + b)
    × ((2 * (n * b) ≡ 2 * v + b) ⊎ (2 * v ≡ 2 * (n * b) + b) → n % 2 ≡ 0)

module _ (digits : Text) (h : IsDigits digits) where
  tie-odd : tie_rounds_up digits half_to_even ≡ true → value_from 0 digits % 2 ≡ 1
  unfolding tie_rounds_up
  tie-odd e = sym (last_or-value digits h) ∙ ==→eq _ 1 e

  tie-even : tie_rounds_up digits half_to_even ≡ false → value_from 0 digits % 2 ≡ 0
  unfolding tie_rounds_up
  tie-even e = ground (arith, last_or-value digits h)

  away-strict : (x b : ℕ) → IsSide false x b (tie_rounds_up digits half_away_from_zero) → 2 * x < b
  unfolding tie_rounds_up
  away-strict x b side = elim (Bool-cases (2 * x == b)) [
    | inl e ↦ cc (side.1 (==→eq (2 * x) b e))
    | inr e ↦ ground (arith, side.0)
  ]

  IsNearest-up :
      (r : Rounding) (b x : ℕ)
      → x < b
      → IsSide true x b (tie_rounds_up digits r)
      → IsNearest r b (value_from 0 digits * b + x) (suc (value_from 0 digits))
  IsNearest-up half_away_from_zero b x small side = (omega (arith, side.0), omega (arith, side.0))
  IsNearest-up half_to_even b x small side = (
    omega (arith, side.0),
    omega (arith, side.0),
    λ o. elim o [
      | inl e ↦ omega (arith, tie-odd (side.1 (omega (arith, e))))
      | inr e ↦ absurd (omega (arith, e))
    ],
  )

  IsNearest-down :
      (r : Rounding) (b x : ℕ)
      → x < b
      → IsSide false x b (tie_rounds_up digits r)
      → IsNearest r b (value_from 0 digits * b + x) (value_from 0 digits)
  IsNearest-down half_away_from_zero b x small side =
      (omega arith, omega (arith, away-strict x b side))
  IsNearest-down half_to_even b x small side = (
    omega arith,
    omega (arith, side.0),
    λ o. elim o [
      | inl e ↦ absurd (omega (arith, e))
      | inr e ↦ tie-even (side.1 (omega (arith, e)))
    ],
  )

All-not_point : (s : Text) → IsDigits s → All (λ c. not (c == 46) ≡ true) s
All-not_point [] h = tt
All-not_point (c ∷ s) h = (ground (arith, digit-bounds c h.0), All-not_point s h.1)

-- a text, with a minus sign or without
abbrev pub signed : Bool → Text → Text
signed true s = 45 ∷ s
signed false s = s

abbrev pub signed_result : Bool → Option Text → Option Text
signed_result true o = with_minus o
signed_result false o = o

round-signed :
    (neg : Bool) (whole s : Text) (p : ℕ) (r : Rounding)
    → IsDigits whole
    → 0 < length whole
    → round (signed neg (whole ++ s)) p r ≡ signed_result neg (round_unsigned (whole ++ s) p r)
unfolding round
round-signed true whole s p r h l = refl
round-signed false [] s p r h l = absurd (omega (arith, l))
round-signed false (c ∷ whole) s p r h l =
    let digit : (c == 45) ≡ false = ground (arith, digit-bounds c h.0) in rw digit refl

module _ (d : Text) (h : IsDigits d) where
  bumped-IsDecimal :
      (up : Bool) (p : ℕ)
      → 0 < length d
      → IsDecimal p
          (insert_point (if up then increment d else d) p)
          (if up then suc (value_from 0 d) else value_from 0 d)
  bumped-IsDecimal true p l =
      subst (IsDecimal p (insert_point (increment d) p)) (value-increment d h) (
        insert_point-IsDecimal (increment d) p (increment-IsDigits d h)
          (omega (arith, length-increment d h)))
  bumped-IsDecimal false p l = insert_point-IsDecimal d p h l

  bumped-IsNearest :
      (up : Bool) (r : Rounding) (b x : ℕ)
      → x < b
      → IsSide up x b (tie_rounds_up d r)
      → IsNearest r b (value_from 0 d * b + x) (if up then suc (value_from 0 d) else value_from 0 d)
  bumped-IsNearest true r b x small side = IsNearest-up d h r b x small side
  bumped-IsNearest false r b x small side = IsNearest-down d h r b x small side

-- the kept digits and the dropped ones make up the number
value-kept :
    (p : ℕ) (whole frac : Text)
    → value_from 0 (whole ++ take p frac) * 10 ^ (length frac - p) + value_from 0 (drop p frac)
      ≡ value_from 0 (whole ++ frac)
value-kept p whole frac =
    subst
      (λ k.
        value_from 0 (whole ++ take p frac) * 10 ^ k + value_from 0 (drop p frac)
        ≡ value_from 0 (whole ++ frac))
      (length-drop p frac)
      (sym (value-append (whole ++ take p frac) (drop p frac))
        ∙ ap (value_from 0) (
            append_assoc whole (take p frac) (drop p frac)
            ∙ ap (λ f. whole ++ f) (append-take-drop p frac)))

signed-some : (neg : Bool) (out : Text) → signed_result neg (some out) ≡ some (signed neg out)
signed-some true out = refl
signed-some false out = refl

round_unsigned-longer :
    (p : ℕ) (r : Rounding) (whole frac : Text)
    → IsDigits whole
    → p < length frac
    → round_unsigned (whole ++ (46 ∷ frac)) p r
      ≡ some (
          insert_point
            (if rounds_up (whole ++ take p frac) (drop p frac) r
              then increment (whole ++ take p frac)
              else whole ++ take p frac)
            p)
unfolding round_unsigned
round_unsigned-longer p r whole frac h l =
    let enough : leb (length frac) p ≡ false = ground arith in
    rw (span-run (λ c. not (c == 46)) whole (46 ∷ frac) (All-not_point whole h) refl, enough) refl

-- The rounding of a number with more than p decimals is a text with exactly p decimals and the
-- sign of the number, and the number it writes is as near as any with p decimals: half way between
-- two, the commercial rule takes the one that is farther from zero, the bankers' rule the even one.
pub round-IsNearest :
    (p : ℕ) (r : Rounding) (neg : Bool) (whole frac : Text)
    → IsDigits whole
    → IsDigits frac
    → 0 < length whole
    → p < length frac
    → (out : Text) × (n : ℕ) × (round (signed neg (whole ++ (46 ∷ frac))) p r
        ≡ some (signed neg out))
      × IsDecimal p out n
      × IsNearest r (10 ^ (length frac - p)) (value_from 0 (whole ++ frac)) n
round-IsNearest p r neg whole frac hw hf not_bare longer =
    let kept = whole ++ take p frac in
    let rest = drop p frac in
    let digits : IsDigits kept =
      All-append (λ c. is_digit c ≡ true) whole (take p frac) hw
        (All-take (λ c. is_digit c ≡ true) p frac hf) in
    let dropped : IsDigits rest = All-drop (λ c. is_digit c ≡ true) p frac hf in
    let up = rounds_up kept rest r in
    let near : IsNearest r (10 ^ length rest)
        (value_from 0 kept * 10 ^ length rest + value_from 0 rest)
        (if up then suc (value_from 0 kept) else value_from 0 kept) =
      bumped-IsNearest kept digits up r (10 ^ length rest) (value_from 0 rest)
        (value-lt rest dropped) (rounds_up-IsSide kept rest r dropped) in
    (
      _,
      _,
      round-signed neg whole (46 ∷ frac) p r hw not_bare
          ∙ (ap (signed_result neg) (round_unsigned-longer p r whole frac hw longer)
              ∙ signed-some neg _),
      bumped-IsDecimal kept digits up p (omega (arith, length-append whole (take p frac))),
      rw (sym (value-kept p whole frac), sym (length-drop p frac)) near,
    )
