-- ===== src/Args/Parsing.antt =====
-- What FlagSet.Parse does with a list of arguments, which stops at the first one that is not a
-- flag, and the parse that reorder of cmd/ddcore/args.go is for, which does not.
use ddcore.Common.{false, Bool, true, ◌||◌, Option, none, some, List, [], ◌∷◌, if◌then◌else◌, ◌==◌}
use ddcore.Text.{Text, codes, text_eq}
use ddcore.Args.{is_positional, trim_dash, split_value}

-- the flags that are set, and the arguments that are left; or an error
pub data Parsed : Type 0 where
  parsed : (sets : List (Text × Text)) (left : List Text) → Parsed
  refused : Parsed

abbrev pub with_set : Text → Text → Parsed → Parsed
with_set name v (parsed sets left) = parsed ((name, v) ∷ sets) left
with_set name v refused = refused

abbrev pub with_left : Text → Parsed → Parsed
with_left a (parsed sets left) = parsed sets (a ∷ left)
with_left a refused = refused

-- a flag's name is not empty and does not begin with a dash or "="
unfoldable pub is_bad : Text → Bool
is_bad [] = true
is_bad (c ∷ s) = c == 45 || c == 61

-- a flag, of what FlagSet.Lookup finds: with a value, one that needs none, or one whose value
-- comes next
abbrev pub set_flag : Option Bool → Text → Option Text → Parsed → Parsed → Parsed
set_flag none name value rest valued = refused
set_flag (some is_bool) name (some v) rest valued = with_set name v rest
set_flag (some true) name none rest valued = with_set name (codes "true") rest
set_flag (some false) name none rest valued = valued

-- `mixed` parses past the arguments that are not flags
unfoldable pub parse : Bool → (Text → Option Bool) → Option Text → List Text → Parsed
unfolding is_positional trim_dash split_value is_bad
parse mixed lookup none [] = parsed [] []
parse mixed lookup (some name) [] = refused
parse mixed lookup (some name) (a ∷ args) = with_set name a (parse mixed lookup none args)
parse mixed lookup none (a ∷ args) =
    let rest = parse mixed lookup none args in
    let body = trim_dash (trim_dash a) in
    let (name, value) = split_value body in
    let valued = parse mixed lookup (some name) args in
    if text_eq a (codes "--")
    then parsed [] args
    else if is_positional a
    then (if mixed then with_left a rest else parsed [] (a ∷ args))
    else if is_bad body
    then refused
    else set_flag (lookup name) name value rest valued
