-- ===== src/Num/Pointed.antt =====
-- The texts with a decimal point that insertPoint of internal/num/num.go returns.
use mathlib.Core.List.{append-nil}
use ddcore.Common.{
  ℕ, zero, suc, ◌+◌, ◌-◌, ◌<◌, ◌≡◌, refl, ap, true, [], ◌∷◌, ◌++◌, leb, arith, Bool-cases, inl, inr,
  length, subst, take, drop, append-take-drop, length-drop, All-take, All-drop, length-take,
}
use ddcore.Text.{Text, is_digit, value_from}
use ddcore.Num.{padded, insert_point}
use ddcore.Num.Digits.{IsDigits}

-- a whole part and, where there are any, a point and the decimals
abbrev pub pointed : Text → Text → Text
pointed whole [] = whole
pointed whole (d ∷ ds) = whole ++ (46 ∷ d ∷ ds)

-- the text writes n units of the p-th decimal place, with p decimals and at least one digit
-- before them
pub record IsDecimal (p : ℕ) (out : Text) (n : ℕ) : Type 0 where
  pub whole : Text
  pub decimals : Text
  pub text : out ≡ pointed whole decimals
  pub digits : IsDigits whole × IsDigits decimals
  pub places : length decimals ≡ p
  pub not_bare : 0 < length whole
  pub units : value_from 0 (whole ++ decimals) ≡ n

padded-IsDigits : (fuel p : ℕ) (d : Text) → IsDigits d → IsDigits (padded fuel p d)
unfolding padded
padded-IsDigits zero p d h = h
padded-IsDigits (suc fuel) p d h =
    let more = padded-IsDigits fuel p (48 ∷ d) (refl, h) in
    elim (Bool-cases (leb (length d) p)) [ inl e ↦ rw e more | inr e ↦ rw e h ]

value-padded : (fuel p : ℕ) (d : Text) → value_from 0 (padded fuel p d) ≡ value_from 0 d
unfolding padded value_from
value-padded zero p d = refl
value-padded (suc fuel) p d =
    let more = value-padded fuel p (48 ∷ d) in
    elim (Bool-cases (leb (length d) p)) [ inl e ↦ rw e more | inr e ↦ rw e refl ]

-- with fuel for every place that is missing, there are more digits than decimals
lt-padded : (fuel p : ℕ) (d : Text) → p < length d + fuel → p < length (padded fuel p d)
unfolding padded
lt-padded zero p d h = omega arith
lt-padded (suc fuel) p d h =
    let more = lt-padded fuel p (48 ∷ d) in
    elim (Bool-cases (leb (length d) p)) [
      | inl e ↦ rw e (more (omega arith))
      | inr e ↦ rw e (ground arith)
    ]

pointed-cons : (whole ds : Text) → 0 < length ds → whole ++ (46 ∷ ds) ≡ pointed whole ds
pointed-cons whole [] h = absurd (omega arith)
pointed-cons whole (d ∷ ds) h = refl

-- A point before the last decimals of a text with more digits than them.
split_at :
    (p : ℕ) (e : Text)
    → IsDigits e
    → 0 < p
    → p < length e
    → IsDecimal p (take (length e - p) e ++ (46 ∷ drop (length e - p) e)) (value_from 0 e)
split_at p e h some_places longer =
    let k = length e - p in
    record {
      whole = take k e;
      decimals = drop k e;
      text = pointed-cons (take k e) (drop k e) (omega (arith, length-drop k e));
      digits = (All-take (λ c. is_digit c ≡ true) k e h, All-drop (λ c. is_digit c ≡ true) k e h);
      places = omega (arith, length-drop k e);
      not_bare = omega (arith, length-take k e (omega arith));
      units = ap (value_from 0) (append-take-drop k e);
    }

pub insert_point-IsDecimal :
    (d : Text) (p : ℕ) → IsDigits d → 0 < length d → IsDecimal p (insert_point d p) (value_from 0 d)
unfolding insert_point
insert_point-IsDecimal d zero h some_digits = record {
  whole = d;
  decimals = [];
  text = refl;
  digits = (h, tt);
  places = refl;
  not_bare = some_digits;
  units = ap (value_from 0) (append-nil d);
}
insert_point-IsDecimal d (suc q) h some_digits =
    let p = suc q in
    subst (IsDecimal p (insert_point d p)) (value-padded (suc p) p d) (
      split_at p (padded (suc p) p d) (padded-IsDigits (suc p) p d h) (omega arith)
        (lt-padded (suc p) p d (omega arith)))
