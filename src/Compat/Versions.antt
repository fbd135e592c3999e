-- ===== src/Compat/Versions.antt =====
-- Versions, their order and how they are read: internal/engine/compat.go.
use ddcore.Common.{
  ℕ, zero, suc, Bool, true, false, not, ◌&&◌, Option, none, some, List, [], ◌∷◌, ◌++◌,
  if◌then◌else◌, ◌==◌, ltb,
}
use ddcore.Text.{Text, is_digit, span, trim_space, atoi, decimal}

pub record Semver : Type 0 where
  pub major : ℕ
  pub minor : ℕ
  pub patch : ℕ

-- the sign of cmp
pub data Cmp : Type 0 where
  less same more : Cmp

unfoldable pub cmp : Semver → Semver → Cmp
cmp v o =
    if not (v.major == o.major)
    then (if ltb v.major o.major then less else more)
    else if not (v.minor == o.minor)
    then (if ltb v.minor o.minor then less else more)
    else if not (v.patch == o.patch)
    then (if ltb v.patch o.patch then less else more)
    else same

-- %d.%d.%d
unfoldable pub print_semver : Semver → Text
print_semver v = decimal v.major ++ b'.' ∷ (decimal v.minor ++ b'.' ∷ decimal v.patch)

abbrev pub drop_v : Text → Text
drop_v [] = []
drop_v (c ∷ s) = if c == b'v' then s else c ∷ s

abbrev pub cons_run : Text → Option (List Text) → Option (List Text)
cons_run run none = none
cons_run run (some rs) = some (run ∷ rs)

abbrev pub run_then : Text → Text → (Text → Option (List Text)) → Option (List Text)
run_then [] rest more_runs = none
run_then (d ∷ run) [] more_runs = some ((d ∷ run) ∷ [])
run_then (d ∷ run) (c ∷ rest) more_runs =
    if c == b'.' then cons_run (d ∷ run) (more_runs rest) else none

-- The groups of versionRe: up to three runs of digits, joined by dots, and nothing behind them.
-- `room` counts the runs that may still be read.
unfoldable pub runs : ℕ → Text → Option (List Text)
runs zero s = none
runs (suc room) s = let (run, rest) = span is_digit s in run_then run rest (runs room)

-- the version of one, two or three parts, if each of its runs is a number
abbrev pub one_part : Option ℕ → Option (Semver × ℕ)
one_part (some x) = some (record { major = x; minor = 0; patch = 0 }, 1)
one_part none = none

abbrev pub two_parts : Option ℕ → Option ℕ → Option (Semver × ℕ)
two_parts (some x) (some y) = some (record { major = x; minor = y; patch = 0 }, 2)
two_parts _ _ = none

abbrev pub three_parts : Option ℕ → Option ℕ → Option ℕ → Option (Semver × ℕ)
three_parts (some x) (some y) (some z) = some (record { major = x; minor = y; patch = z }, 3)
three_parts _ _ _ = none

-- the numbers of the groups, 0 for one that is not there, and how many were written
abbrev pub numbers : List Text → Option (Semver × ℕ)
numbers (a ∷ []) = one_part (atoi a)
numbers (a ∷ b ∷ []) = two_parts (atoi a) (atoi b)
numbers (a ∷ b ∷ c ∷ []) = three_parts (atoi a) (atoi b) (atoi c)
numbers _ = none

abbrev pub numbers_of : Option (List Text) → Option (Semver × ℕ)
numbers_of none = none
numbers_of (some rs) = numbers rs

unfoldable pub parse_version : Text → Option (Semver × ℕ)
parse_version s = numbers_of (runs 3 (drop_v s))

-- coreVersionRe: three runs, and behind them nothing or a dash and the rest of one line
abbrev newline_free : Text → Bool
newline_free [] = true
newline_free (c ∷ s) = not (c == 10) && newline_free s

abbrev release_end : Text → Bool
release_end [] = true
release_end (c ∷ s) = c == b'-' && newline_free s

-- a run of digits and a dot
abbrev dotted : Text × Text → Option (Text × Text)
dotted ([], rest) = none
dotted (d ∷ run, []) = none
dotted (d ∷ run, c ∷ rest) = if c == b'.' then some (d ∷ run, rest) else none

abbrev last_run : Text → Text → Text × Text → Option (List Text)
last_run a b ([], rest) = none
last_run a b (d ∷ run, rest) = if release_end rest then some (a ∷ b ∷ (d ∷ run) ∷ []) else none

abbrev pub core_runs : Text → Option (List Text)
core_runs s = elim (dotted (span is_digit s)) [
  | none ↦ none
  | some (a, s') ↦ elim (dotted (span is_digit s')) [
    | none ↦ none
    | some (b, s'') ↦ last_run a b (span is_digit s'')
  ]
]

abbrev pub version_of : Option (Semver × ℕ) → Option Semver
version_of none = none
version_of (some (v, parts)) = some v

unfoldable pub parse_core_version : Text → Option Semver
parse_core_version s = version_of (numbers_of (core_runs (drop_v (trim_space s))))

unfoldable pub is_release : Text → Bool
is_release s = elim (parse_core_version s) [ none ↦ false | some v ↦ true ]

-- Newer: `none` where either side is not a release
unfoldable pub newer : Text → Text → Option Bool
newer a b = elim (parse_core_version a) [
  | none ↦ none
  | some av ↦ elim (parse_core_version b) [
    | none ↦ none
    | some bv ↦ some (elim (cmp bv av) [ more ↦ true | _ ↦ false ])
  ]
]
