-- ===== src/Compat/Tests.antt =====
-- Versions and ranges that the code reads, and the theorems at them.
use ddcore.Common.{ℕ, ◌≡◌, ◌≢◌, ◌↔◌, refl, true, none, some, List, [], ◌∷◌, All, arith}
use ddcore.Text.{Text, codes}
use ddcore.Compat.Versions.{
  print_semver, Semver, less, cmp, parse_version, parse_core_version, newer,
}
use ddcore.Compat.Constraints.{
  allows, parse_range, constraints, caret, tilde, Constraint, lower_bound,
}
use ddcore.Compat.Printed.{parse_version-print_semver}
use ddcore.Compat.Ranges.{allows-lower_bound}
use ddcore.Compat.Checks.{
  App, check_core_compat, SiteVersion, older_than_site, app_range, image_tag, predates_id_key,
  first_of, version_in,
}
use ddcore.Compat.Checks.Accepted.{
  IsMet, IsAppMet, IsNotOlder, check_core_compat-nil, older_than_site-nil,
}

abbrev version : ℕ → ℕ → ℕ → Semver
version a b c = record { major = a; minor = b; patch = c }

abbrev shop : App
shop = record { version = codes "1.2"; ddcore = codes ">=0.17.0 <1.0.0" }

-- a described binary reads as its release
parse_described : parse_core_version (codes " v0.21.0-3-gabc\n") ≡ some (version 0 21 0)
unfolding parse_core_version ddcore.Text.span ddcore.Text.trim_space ddcore.Text.atoi
parse_described = refl

parse_dev : parse_core_version (codes "dev") ≡ none
unfolding parse_core_version ddcore.Text.span ddcore.Text.trim_space
parse_dev = refl

check_dev : check_core_compat (("shop", some shop) ∷ []) (codes "^0.17") (codes "dev") ≡ (true, [])
unfolding check_core_compat parse_range ddcore.Text.fields ddcore.Compat.Constraints.parse_words
    parse_version ddcore.Compat.Versions.runs ddcore.Text.span ddcore.Compat.Constraints.read_prefix
    ddcore.Text.atoi parse_core_version ddcore.Text.trim_space ddcore.Compat.Checks.apps_judged
check_dev = refl

app_range_described : app_range (codes "v0.21.3") ≡ some (codes ">=0.21.0 <0.22.0")
unfolding app_range parse_core_version ddcore.Text.span ddcore.Text.trim_space ddcore.Text.atoi
    ddcore.Text.decimal
app_range_described = refl

image_tag_unstamped : image_tag (codes "0.1.0") ≡ none
unfolding image_tag parse_core_version ddcore.Text.span ddcore.Text.trim_space ddcore.Text.atoi
image_tag_unstamped = refl

predates_shop :
    predates_id_key
      (("shop", some shop)
        ∷ ("old", some (record shop { ddcore = codes "*" }))
        ∷ ("wide", some (record shop { ddcore = codes "<2" }))
        ∷ [])
      (codes "0.20.0")
    ≡ "wide" ∷ []
unfolding predates_id_key parse_core_version ddcore.Text.span ddcore.Text.trim_space
    ddcore.Text.atoi cmp ddcore.Compat.Checks.names_below parse_range ddcore.Text.fields
    ddcore.Compat.Constraints.parse_words parse_version ddcore.Compat.Versions.runs
    ddcore.Compat.Constraints.read_prefix lower_bound ddcore.Compat.Constraints.lower_from
    constraints
predates_shop = refl

abbrev caret_range : List Constraint
caret_range = constraints caret (version 0 17 0) 2

in_caret_range : allows caret_range (version 0 17 4) ≡ true
unfolding allows constraints cmp ddcore.Compat.Constraints.caret_upper
in_caret_range = refl

allows-lower_bound_example : cmp (version 0 17 4) (lower_bound caret_range) ≢ less
allows-lower_bound_example = allows-lower_bound caret_range (version 0 17 4) in_caret_range

check_core_compat-nil_example :
    ((check_core_compat (("shop", some shop) ∷ []) (codes "^0.20") (codes "v0.20.1")).1 ≡ [])
    ↔ IsMet (codes "^0.20") (parse_core_version (codes "v0.20.1"))
      × All (IsAppMet (parse_core_version (codes "v0.20.1"))) (("shop", some shop) ∷ [])
check_core_compat-nil_example =
    check_core_compat-nil (("shop", some shop) ∷ []) (codes "^0.20") (codes "v0.20.1")

abbrev recorded : SiteVersion
recorded = record { core = codes "0.20.0"; apps = ("shop", codes "1.3") ∷ [] }

older_than_site-nil_example :
    (older_than_site (some recorded) (codes "0.19.2") (("shop", codes "1.2") ∷ []) ≡ [])
    ↔ IsNotOlder (parse_core_version (codes "0.19.2")) (parse_core_version recorded.core)
      × All
          (λ r.
            IsNotOlder
              (first_of (parse_version (version_in (("shop", codes "1.2") ∷ []) r.0)))
              (first_of (parse_version r.1)))
          recorded.apps
older_than_site-nil_example =
    older_than_site-nil recorded (codes "0.19.2") (("shop", codes "1.2") ∷ [])

parse_version-print_semver_example :
    parse_version (print_semver (version 0 21 10)) ≡ some (version 0 21 10, 3)
parse_version-print_semver_example =
    parse_version-print_semver (version 0 21 10) (omega arith) (omega arith) (omega arith)
