-- ===== src/Num.antt =====
-- Rounding to decimal places: internal/num/num.go. A value is the text that strconv.FormatFloat
-- prints of it, with format 'f' and the least number of digits.
pub mod Digits
pub mod Increment
pub mod Pointed
pub mod Side
pub mod Nearest
mod Tests
use ddcore.Common.{
  ℕ, zero, suc, ◌+◌, ◌-◌, ◌%◌, ◌^◌, Bool, true, false, not, ◌||◌, Option, none, some, List, [], ◌∷◌,
  ◌++◌, if◌then◌else◌, ltb, leb, ◌==◌, length, take, drop,
}
use ddcore.Text.{Text, span}

pub data Rounding : Type 0 where
  half_away_from_zero : Rounding
  half_to_even : Rounding

-- strings.Trim(s, "0") != ""
unfoldable pub has_nonzero : Text → Bool
has_nonzero [] = false
has_nonzero (c ∷ s) = not (c == 48) || has_nonzero s

-- the last byte of a text, and `c` for the empty one
unfoldable pub last_or : ℕ → Text → ℕ
last_or c [] = c
last_or c (d ∷ s) = last_or d s

-- what half way between two results does
unfoldable pub tie_rounds_up : Text → Rounding → Bool
unfolding last_or
tie_rounds_up digits half_away_from_zero = true
tie_rounds_up digits half_to_even = (last_or 48 digits + (2 ^ 8 - 48)) % 2 ^ 8 % 2 == 1

unfoldable pub rounds_up : Text → Text → Rounding → Bool
unfolding has_nonzero tie_rounds_up
rounds_up digits [] r = false
rounds_up digits (c ∷ rest) r =
    if ltb c 53
    then false
    else if ltb 53 c || has_nonzero rest
    then true
    else tie_rounds_up digits r

-- the loop of increment, from the last digit: the digits, and whether one is still carried
unfoldable pub increment_loop : Text → Bool × Text
increment_loop [] = (true, [])
increment_loop (c ∷ s) =
    let (carried, t) = increment_loop s in
    if carried then (if ltb c 57 then (false, suc c ∷ t) else (true, 48 ∷ t)) else (false, c ∷ t)

unfoldable pub increment : Text → Text
unfolding increment_loop
increment d = let (carried, t) = increment_loop d in if carried then 49 ∷ t else t

-- the loop of insertPoint, on fuel
unfoldable pub padded : ℕ → ℕ → Text → Text
padded zero p d = d
padded (suc fuel) p d = let more = padded fuel p (48 ∷ d) in if leb (length d) p then more else d

unfoldable pub insert_point : Text → ℕ → Text
unfolding padded
insert_point d zero = d
insert_point d (suc q) =
    let p = suc q in
    let e = padded (suc p) p d in take (length e - p) e ++ (46 ∷ drop (length e - p) e)

-- strings.Cut(s, ".")
unfoldable pub cut_point : Text → Text × Text
unfolding span
cut_point s = let (before, after) = span (λ c. not (c == 46)) s in (before, drop 1 after)

-- Round, of a text without a sign; none is the value untouched
unfoldable pub round_unsigned : Text → ℕ → Rounding → Option Text
unfolding cut_point rounds_up increment insert_point
round_unsigned s p r =
    let (int_part, frac) = cut_point s in
    let digits = int_part ++ take p frac in
    let rest = drop p frac in
    if leb (length frac) p
    then none
    else some (insert_point (if rounds_up digits rest r then increment digits else digits) p)

abbrev pub with_minus : Option Text → Option Text
with_minus none = none
with_minus (some out) = some (45 ∷ out)

unfoldable pub round : Text → ℕ → Rounding → Option Text
unfolding round_unsigned
round [] p r = round_unsigned [] p r
round (c ∷ s) p r =
    if c == 45 then with_minus (round_unsigned s p r) else round_unsigned (c ∷ s) p r
