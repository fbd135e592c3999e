-- ===== src/Num/Side.antt =====
-- Where roundsUp of internal/num/num.go puts the digits it drops: on which side of one half.
use native.Mathlib.Nat.{mul-le-mul_right, pow-suc}
use ddcore.Common.{
  ℕ, suc, ◌+◌, ◌-◌, ◌*◌, ◌^◌, ◌≤◌, ◌<◌, ◌≡◌, refl, ap, ◌∙◌, Bool, true, false, [], ◌∷◌, ltb, arith,
  Bool-cases, inl, inr, length, ltb→lt,
}
use ddcore.Text.{Text, is_digit, value_from}
use ddcore.Num.{Rounding, has_nonzero, tie_rounds_up, rounds_up}
use ddcore.Num.Digits.{IsDigits, value-cons, value-lt, value-zeros, value-nonzero}

-- Whether a rule rounds up, for the value x of the digits it drops and one unit b: no more than
-- half a unit away, and by the tie of the rule at the half.
abbrev pub IsSide : Bool → ℕ → ℕ → Bool → Type 0
IsSide true x b tie = b ≤ 2 * x × (2 * x ≡ b → tie ≡ true)
IsSide false x b tie = 2 * x ≤ b × (2 * x ≡ b → tie ≡ false)

by_tie : (tie : Bool) (x b : ℕ) → 2 * x ≡ b → IsSide tie x b tie
by_tie true x b h = (omega (arith, h), λ _. refl)
by_tie false x b h = (omega (arith, h), λ _. refl)

module _ (c : ℕ) (s : Text) (h : is_digit c ≡ true) (k : IsDigits s) (tie : Bool) where
  below_half : ltb c 53 ≡ true → IsSide false (value_from 0 (c ∷ s)) (10 ^ suc (length s)) tie
  below_half l =
      let four : (c - 48) * 10 ^ length s ≤ 4 * 10 ^ length s =
        mul-le-mul_right (10 ^ length s) (omega (arith, ltb→lt c 53 l)) in
      let less : 2 * value_from 0 (c ∷ s) < 10 ^ suc (length s) =
        omega (arith, four, value-cons c s, value-lt s k, pow-suc 10 (length s)) in
      (omega (arith, less), λ e. absurd (omega (arith, less, e)))

  above_half : ltb 53 c ≡ true → IsSide true (value_from 0 (c ∷ s)) (10 ^ suc (length s)) tie
  above_half l =
      let six : 6 * 10 ^ length s ≤ (c - 48) * 10 ^ length s =
        mul-le-mul_right (10 ^ length s) (omega (arith, ltb→lt 53 c l)) in
      let more : 10 ^ suc (length s) < 2 * value_from 0 (c ∷ s) =
        omega (arith, six, value-cons c s, value-lt s k, pow-suc 10 (length s)) in
      (omega (arith, more), λ e. absurd (omega (arith, more, e)))

  module _ (five : c ≡ 53) where
    at_five : value_from 0 (c ∷ s) ≡ 5 * 10 ^ length s + value_from 0 s
    at_five = value-cons c s ∙ ap (λ d. (d - 48) * 10 ^ length s + value_from 0 s) five

    past_half : has_nonzero s ≡ true → IsSide true (value_from 0 (c ∷ s)) (10 ^ suc (length s)) tie
    past_half z =
        let more : 10 ^ suc (length s) < 2 * value_from 0 (c ∷ s) =
          omega (arith, at_five, value-nonzero s k z, pow-suc 10 (length s)) in
        (omega (arith, more), λ e. absurd (omega (arith, more, e)))

    on_half : has_nonzero s ≡ false → IsSide tie (value_from 0 (c ∷ s)) (10 ^ suc (length s)) tie
    on_half z = by_tie tie _ _ (omega (arith, at_five, value-zeros s k z, pow-suc 10 (length s)))

pub rounds_up-IsSide :
    (digits rest : Text) (r : Rounding)
    → IsDigits rest
    → IsSide
        (rounds_up digits rest r)
        (value_from 0 rest)
        (10 ^ length rest)
        (tie_rounds_up digits r)
unfolding rounds_up value_from
rounds_up-IsSide digits [] r h = (omega arith, λ e. absurd (omega arith))
rounds_up-IsSide digits (c ∷ s) r h = elim (Bool-cases (ltb c 53)) [
  | inl l ↦ rw l (below_half c s h.0 h.1 _ l)
  | inr l ↦ elim (Bool-cases (ltb 53 c)) [
    | inl m ↦ rw (l, m) (above_half c s h.0 h.1 _ m)
    | inr m ↦
        let five : c ≡ 53 = ground arith in
        elim (Bool-cases (has_nonzero s)) [
          | inl z ↦ rw (l, m, z) (past_half c s h.0 h.1 _ five z)
          | inr z ↦ rw (l, m, z) (on_half c s h.0 h.1 _ five z)
        ]
  ]
]
