-- ===== src/Num/Digits.antt =====
-- The numbers that the digit texts of internal/num/num.go stand for.
use native.Mathlib.Nat.{mul-le-mul_right, add-mul, mul_assoc, mul_comm, pow-suc}
use ddcore.Num.{has_nonzero, last_or}
use ddcore.Common.{
  ◌==◌, ◌%◌, inl, inr, Bool-cases, ==→eq, false, Bool-cases, false, sym, ℕ, ◌+◌, ◌-◌, ◌*◌, ◌^◌, ◌≤◌,
  ◌<◌, ◌≡◌, refl, ap, ◌∙◌, true, [], ◌∷◌, ◌++◌, arith, All, length,
}
use ddcore.Text.{Text, is_digit, value_from}

abbrev pub IsDigits : Text → Type 0
IsDigits s = All (λ c. is_digit c ≡ true) s

pub digit-bounds : (c : ℕ) → is_digit c ≡ true → (48 ≤ c) × (c ≤ 57)
digit-bounds c h = ground arith

-- a number of tens, times a power of ten, and the same for the digit below them
carry_up : (n d t r : ℕ) → (n * 10 + d) * t + r ≡ n * (t * 10) + (d * t + r)
carry_up n d t r = rw (add-mul (n * 10) d t, mul_assoc n 10 t, mul_comm 10 t) (omega arith)

value-head : (c : ℕ) (s : Text) → value_from 0 (c ∷ s) ≡ value_from (c - 48) s
unfolding value_from
value-head c s = ap (λ k. value_from k s) (omega arith)

value-split : (s : Text) (n : ℕ) → value_from n s ≡ n * 10 ^ length s + value_from 0 s
unfolding value_from
value-split [] n = omega arith
value-split (c ∷ s) n =
    rw
      (
        value-head c s,
        value-split s (c - 48),
        value-split s (n * 10 + (c - 48)),
        pow-suc 10 (length s),
      )
      (carry_up n (c - 48) (10 ^ length s) (value_from 0 s))

value_from-append : (s t : Text) (n : ℕ) → value_from n (s ++ t) ≡ value_from (value_from n s) t
unfolding value_from
value_from-append [] t n = refl
value_from-append (c ∷ s) t n = value_from-append s t (n * 10 + (c - 48))

pub value-append :
    (s t : Text) → value_from 0 (s ++ t) ≡ value_from 0 s * 10 ^ length t + value_from 0 t
value-append s t = value_from-append s t 0 ∙ value-split t (value_from 0 s)

pub value-cons :
    (c : ℕ) (s : Text) → value_from 0 (c ∷ s) ≡ (c - 48) * 10 ^ length s + value_from 0 s
value-cons c s = value-head c s ∙ value-split s (c - 48)

pub value-lt : (s : Text) → IsDigits s → value_from 0 s < 10 ^ length s
unfolding value_from
value-lt [] h = omega arith
value-lt (c ∷ s) h =
    let below : (c - 48) * 10 ^ length s ≤ 9 * 10 ^ length s =
      mul-le-mul_right (10 ^ length s) (omega (arith, digit-bounds c h.0)) in
    omega (arith, value-cons c s, value-lt s h.1, below, pow-suc 10 (length s))

ne-true : true ≡ false → ⊥
ne-true e = cc

pub value-zeros : (s : Text) → IsDigits s → has_nonzero s ≡ false → value_from 0 s ≡ 0
unfolding has_nonzero value_from
value-zeros [] h e = refl
value-zeros (c ∷ s) h e = elim (Bool-cases (c == 48)) [
  | inl z ↦ rw (==→eq c 48 z) (value-zeros s h.1 (rw z at e))
  | inr z ↦ absurd (ne-true (rw z at e))
]

pub value-nonzero : (s : Text) → IsDigits s → has_nonzero s ≡ true → 0 < value_from 0 s
unfolding has_nonzero value_from
value-nonzero [] h e = absurd (ne-true (sym e))
value-nonzero (c ∷ s) h e = elim (Bool-cases (c == 48)) [
  | inl z ↦ rw (==→eq c 48 z) (value-nonzero s h.1 (rw z at e))
  | inr z ↦
      let above : 1 * 10 ^ length s ≤ (c - 48) * 10 ^ length s =
        mul-le-mul_right (10 ^ length s) (ground (arith, digit-bounds c h.0)) in
      omega (arith, value-cons c s, value-lt s h.1, above)
]

-- the parity of a number is that of its last digit
value-parity :
    (s : Text) (n c : ℕ) → n % 2 ≡ (c - 48) % 2 → value_from n s % 2 ≡ (last_or c s - 48) % 2
unfolding value_from last_or
value-parity [] n c h = h
value-parity (d ∷ s) n c h = value-parity s (n * 10 + (d - 48)) d (omega arith)

last_or-digit :
    (s : Text) (c : ℕ) → IsDigits s → 48 ≤ c → c ≤ 57 → (48 ≤ last_or c s) × (last_or c s ≤ 57)
unfolding last_or
last_or-digit [] c h l u = (l, u)
last_or-digit (d ∷ s) c h l u = last_or-digit s d h.1 (digit-bounds d h.0).0 (digit-bounds d h.0).1

pub last_or-value :
    (s : Text) → IsDigits s → (last_or 48 s + (2 ^ 8 - 48)) % 2 ^ 8 % 2 ≡ value_from 0 s % 2
last_or-value s h =
    omega (arith, last_or-digit s 48 h (omega arith) (omega arith), value-parity s 0 48 refl)
