-- ===== src/Args.antt =====
-- The arguments of a command: reorder of cmd/ddcore/args.go, and what FlagSet.Parse of Go's flag
-- package, which it hands its result to, makes of a list of arguments.
pub mod Parsing
pub mod Reordered
mod Tests
use ddcore.Common.{
  ℕ, Bool, true, false, not, ◌||◌, Option, none, some, List, [], ◌∷◌, ◌++◌, if◌then◌else◌, ◌==◌,
}
use ddcore.Text.{Text, codes, text_eq}

-- what reorder returns: the flags and the other arguments, or an error
pub data Ordered : Type 0 where
  ordered : (flags pos : List Text) → Ordered
  shows_help : Ordered
  unknown_flag : (arg : Text) → Ordered
  needs_value : (name : Text) → Ordered

abbrev pub with_flags : List Text → Ordered → Ordered
with_flags fs (ordered flags pos) = ordered (fs ++ flags) pos
with_flags fs shows_help = shows_help
with_flags fs (unknown_flag a) = unknown_flag a
with_flags fs (needs_value n) = needs_value n

abbrev pub with_pos : Text → Ordered → Ordered
with_pos a (ordered flags pos) = ordered flags (a ∷ pos)
with_pos a shows_help = shows_help
with_pos a (unknown_flag b) = unknown_flag b
with_pos a (needs_value n) = needs_value n

-- len(a) < 2 || a[0] != '-'
unfoldable pub is_positional : Text → Bool
is_positional [] = true
is_positional (c ∷ []) = true
is_positional (c ∷ d ∷ s) = not (c == 45)

-- strings.TrimPrefix(s, "-")
unfoldable pub trim_dash : Text → Text
trim_dash [] = []
trim_dash (c ∷ s) = if c == 45 then s else c ∷ s

-- the text before the first "=", and the one behind it where there is one
unfoldable pub split_value : Text → Text × Option Text
split_value [] = ([], none)
split_value (c ∷ s) =
    let (name, value) = split_value s in if c == 61 then ([], some s) else (c ∷ name, value)

abbrev pub is_help : Text → Bool
is_help name = text_eq name (codes "h") || text_eq name (codes "help")

-- `lookup` is FlagSet.Lookup, of a declared flag whether isBoolFlag holds of it. `pending` is the
-- flag whose value comes next: the loop's `i++`.
unfoldable pub reorder_loop : (Text → Option Bool) → Option Text → List Text → Ordered
unfolding is_positional trim_dash split_value
reorder_loop lookup none [] = ordered [] []
reorder_loop lookup (some name) [] = needs_value name
reorder_loop lookup (some name) (a ∷ args) =
    with_flags ((45 ∷ name) ∷ a ∷ []) (reorder_loop lookup none args)
reorder_loop lookup none (a ∷ args) =
    let rest = reorder_loop lookup none args in
    let (name, value) = split_value (trim_dash (trim_dash a)) in
    let valued = reorder_loop lookup (some name) args in
    if text_eq a (codes "--")
    then ordered [] args
    else if is_positional a
    then with_pos a rest
    else elim (lookup name) [
      | none ↦ if is_help name then shows_help else unknown_flag a
      | some is_bool ↦ elim value [
        | some v ↦ with_flags ((45 ∷ name ++ (61 ∷ v)) ∷ []) rest
        | none ↦ if is_bool then with_flags ((45 ∷ name) ∷ []) rest else valued
      ]
    ]

unfoldable pub reorder : (Text → Option Bool) → List Text → Ordered
unfolding reorder_loop
reorder lookup args = reorder_loop lookup none args
