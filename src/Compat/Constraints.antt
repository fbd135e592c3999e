-- ===== src/Compat/Constraints.antt =====
-- Ranges of versions and how they are read: internal/engine/compat.go.
use ddcore.Common.{
  ℕ, ◌+◌, Bool, true, false, ◌&&◌, ◌||◌, Option, none, some, List, [], ◌∷◌, ◌++◌, if◌then◌else◌,
  ◌==◌, ltb,
}
use ddcore.Text.{Text, codes, starts_with, fields}
use ddcore.Compat.Versions.{Cmp, Semver, cmp, less, more, parse_version, same}

pub data Op : Type 0 where
  ge gt le lt eq : Op

pub record Constraint : Type 0 where
  pub op : Op
  pub v : Semver

abbrev pub holds : Op → Cmp → Bool
holds ge less = false
holds ge _ = true
holds gt more = true
holds gt _ = false
holds le more = false
holds le _ = true
holds lt less = true
holds lt _ = false
holds eq same = true
holds eq _ = false

unfoldable pub allows : List Constraint → Semver → Bool
allows [] v = true
allows (c ∷ r) v = let rest = allows r v in if holds c.op (cmp v c.v) then rest else false

-- the operator that a constraint is written with
pub data Prefix : Type 0 where
  bare caret tilde : Prefix
  op : Op → Prefix

abbrev pub tail : Text → Text
tail [] = []
tail (c ∷ s) = s

-- the first of >= <= > < = ^ ~ that the word begins with, and what is left
unfoldable pub read_prefix : Text → Prefix × Text
read_prefix [] = (bare, [])
read_prefix (c ∷ s) =
    if starts_with (codes ">=") (c ∷ s)
    then (op ge, tail s)
    else if starts_with (codes "<=") (c ∷ s)
    then (op le, tail s)
    else if c == b'>'
    then (op gt, s)
    else if c == b'<'
    then (op lt, s)
    else if c == b'='
    then (op eq, s)
    else if c == b'^'
    then (caret, s)
    else if c == b'~'
    then (tilde, s)
    else (bare, c ∷ s)

-- where ^ stops: npm's leftmost non-zero part is fixed, and a part nobody wrote is a range
unfoldable pub caret_upper : Semver → ℕ → Semver
caret_upper v parts =
    if ltb 0 v.major
    then record { major = v.major + 1; minor = 0; patch = 0 }
    else if ltb 0 v.minor
    then record { major = 0; minor = v.minor + 1; patch = 0 }
    else if ltb 0 v.patch || parts == 3
    then record { major = 0; minor = 0; patch = v.patch + 1 }
    else if parts == 2
    then record { major = 0; minor = 1; patch = 0 }
    else record { major = 1; minor = 0; patch = 0 }

unfoldable pub tilde_upper : Semver → ℕ → Semver
tilde_upper v parts =
    if parts == 1
    then record { major = v.major + 1; minor = 0; patch = 0 }
    else record { major = v.major; minor = v.minor + 1; patch = 0 }

abbrev pub between : Semver → Semver → List Constraint
between v upper = record { op = ge; v = v } ∷ record { op = lt; v = upper } ∷ []

unfoldable pub constraints : Prefix → Semver → ℕ → List Constraint
constraints bare v parts = record { op = eq; v = v } ∷ []
constraints caret v parts = between v (caret_upper v parts)
constraints tilde v parts = between v (tilde_upper v parts)
constraints (op o) v parts = record { op = o; v = v } ∷ []

abbrev pub and_then :
    Prefix → Option (Semver × ℕ) → Option (List Constraint) → Option (List Constraint)
and_then p none rest = none
and_then p (some (v, parts)) none = none
and_then p (some (v, parts)) (some r) = some (constraints p v parts ++ r)

-- `none` where a word is not a version
unfoldable pub parse_words : List Text → Option (List Constraint)
parse_words [] = some []
parse_words (w ∷ ws) = let (p, w') = read_prefix w in and_then p (parse_version w') (parse_words ws)

-- An empty range is refused.
abbrev pub nonempty_words : List Text → Option (List Constraint)
nonempty_words [] = none
nonempty_words (w ∷ ws) = parse_words (w ∷ ws)

unfoldable pub parse_range : Text → Option (List Constraint)
parse_range s = nonempty_words (fields s)

abbrev pub is_lower : Op → Bool
is_lower ge = true
is_lower gt = true
is_lower eq = true
is_lower _ = false

abbrev pub is_more : Cmp → Bool
is_more more = true
is_more _ = false

abbrev pub is_less : Cmp → Bool
is_less less = true
is_less _ = false

abbrev pub zero_version : Semver
zero_version = record { major = 0; minor = 0; patch = 0 }

unfoldable pub lower_from : Semver → List Constraint → Semver
lower_from lo [] = lo
lower_from lo (c ∷ r) = lower_from (if is_lower c.op && is_more (cmp c.v lo) then c.v else lo) r

unfoldable pub lower_bound : List Constraint → Semver
lower_bound r = lower_from zero_version r
