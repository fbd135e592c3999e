-- ===== src/Text/Decimal.antt =====
-- Decimal numbers: printing them with %d and reading them with strconv.Atoi.
use ddcore.Common.{
  List, ℕ, zero, suc, ◌+◌, ◌*◌, ◌/◌, ◌%◌, ◌≤◌, ◌<◌, ◌≡◌, refl, ap, ◌∙◌, Bool, true, false, some, [],
  ◌∷◌, ◌++◌, ltb, arith, Bool-cases, inl, inr, All,
}
use ddcore.Text.{Text, is_digit, span, value_from, max_int, atoi, digits_onto, decimal}

ltb-false : (a b : ℕ) → ltb a b ≡ false → b ≤ a
ltb-false a b h = ground arith

value-digit : (m d : ℕ) → d < 10 → value_from m ((48 + d) ∷ []) ≡ m * 10 + d
unfolding value_from
value-digit m d h = omega arith

-- reading the digits of n, then `out`, is reading `out` with n read
value-digits_onto :
    (fuel n : ℕ) (out : Text) → n < fuel → value_from 0 (digits_onto fuel n out) ≡ value_from n out
unfolding value_from digits_onto
value-digits_onto zero n out h = absurd (omega arith)
value-digits_onto (suc fuel) n out h = elim (Bool-cases (ltb n 10)) [
  | inl t ↦ rw t (ap (λ k. value_from k out) (omega arith))
  | inr t ↦ rw t (
      value-digits_onto fuel (n / 10) ((48 + n % 10) ∷ out) (omega (arith, ltb-false n 10 t))
      ∙ ap (λ k. value_from k out) (omega arith))
]

pub value-decimal : (n : ℕ) → value_from 0 (decimal n) ≡ n
unfolding decimal value_from
value-decimal n = value-digits_onto (suc n) n [] (omega arith)

pub atoi-decimal : (n : ℕ) → n ≤ max_int → atoi (decimal n) ≡ some n
unfolding atoi
atoi-decimal n h = rw (atoi, value-decimal n) (ground arith)

-- a printed number is a run of digits, and not empty
pub digits_onto-All :
    (fuel n : ℕ) (out : Text)
    → n < fuel
    → All (λ c. is_digit c ≡ true) out
    → All (λ c. is_digit c ≡ true) (digits_onto fuel n out)
unfolding digits_onto
digits_onto-All zero n out h a = a
digits_onto-All (suc fuel) n out h a = elim (Bool-cases (ltb n 10)) [
  | inl t ↦ rw t (ground arith, a)
  | inr t ↦ rw t (
      digits_onto-All fuel (n / 10) ((48 + n % 10) ∷ out) (omega (arith, ltb-false n 10 t))
        (ground arith, a))
]

pub decimal-All : (n : ℕ) → All (λ c. is_digit c ≡ true) (decimal n)
unfolding decimal
decimal-All n = digits_onto-All (suc n) n [] (omega arith) tt

pub span-run :
    (p : ℕ → Bool) (run rest : Text)
    → All (λ c. p c ≡ true) run
    → span p rest ≡ ([], rest)
    → span p (run ++ rest) ≡ (run, rest)
unfolding span
span-run p [] rest a e = e
span-run p (c ∷ run) rest a e = rw (span-run p run rest a.1 e, a.0) refl

cons-nil : {c : ℕ} {s : Text} → ◌≡◌ {A = List ℕ} (c ∷ s) [] → ⊥
cons-nil h = cc h

digits_onto-nonempty : (fuel n : ℕ) (out : Text) → n < fuel → digits_onto fuel n out ≡ [] → ⊥
unfolding digits_onto
digits_onto-nonempty zero n out h e = omega arith
digits_onto-nonempty (suc fuel) n out h e = elim (Bool-cases (ltb n 10)) [
  | inl t ↦ cons-nil (rw t at e)
  | inr t ↦
      digits_onto-nonempty fuel (n / 10) ((48 + n % 10) ∷ out) (omega (arith, ltb-false n 10 t))
        (rw t at e)
]

pub decimal-nonempty : (n : ℕ) → decimal n ≡ [] → ⊥
unfolding decimal
decimal-nonempty n h = digits_onto-nonempty (suc n) n [] (omega arith) h

pub span_whole : (p : ℕ → Bool) (run : Text) → All (λ c. p c ≡ true) run → span p run ≡ (run, [])
unfolding span
span_whole p [] a = refl
span_whole p (c ∷ run) a = rw (span_whole p run a.1, a.0) refl
