-- ===== src/Compat/Checks.antt =====
-- checkCoreCompat, predatesIDKey, AppRange and ImageTag of internal/engine/compat.go, and
-- OlderThanSite and CheckSiteVersion of internal/engine/siteversion.go. A map from app names is
-- the list of its entries in name order, the order in which the code walks it.
pub mod Accepted
use ddcore.Common.{
  ℕ, zero, suc, ◌+◌, String, Bool, true, false, not, ◌&&◌, ◌||◌, Option, none, some, List, [], ◌∷◌,
  ◌++◌, if◌then◌else◌, str_eq, ◌==◌,
}
use ddcore.Text.{Text, codes, decimal, trim_space}
use ddcore.Compat.Versions.{Semver, Cmp, less, same, more, cmp, parse_version, parse_core_version}
use ddcore.Compat.Constraints.{allows, parse_range, lower_bound, is_less, Constraint}

-- what an app's manifest declares; an empty text where it declares nothing
pub record App : Type 0 where
  pub version : Text
  pub ddcore : Text

pub data Problem : Type 0 where
  site_invalid : Text → Problem
  site_requires : Text → Semver → Problem
  app_version : String → Text → Problem
  app_invalid : String → Text → Problem
  app_requires : String → Text → Semver → Problem

abbrev pub range_judged :
    Option (List Constraint) → Option Semver → Problem → (Semver → Problem) → Bool × List Problem
range_judged none cv invalid requires = (false, invalid ∷ [])
range_judged (some r) none invalid requires = (true, [])
range_judged (some r) (some v) invalid requires =
    (false, if allows r v then [] else requires v ∷ [])

-- Of one declared range: whether the comparison was skipped, and the problem it is.
abbrev pub judged : Text → Option Semver → Problem → (Semver → Problem) → Bool × List Problem
judged [] cv invalid requires = (false, [])
judged (c ∷ s) cv invalid requires = range_judged (parse_range (c ∷ s)) cv invalid requires

abbrev pub version_problem : String → Text → List Problem
version_problem n [] = []
version_problem n (c ∷ s) = elim (parse_version (c ∷ s)) [
  | none ↦ app_version n (c ∷ s) ∷ []
  | some v ↦ []
]

abbrev pub joined : Bool × List Problem → Bool × List Problem → Bool × List Problem
joined (s, ps) (t, qs) = (s || t, ps ++ qs)

abbrev pub app_judged : Option Semver → String → Option App → Bool × List Problem
app_judged cv n none = (false, [])
app_judged cv n (some am) =
    joined (false, version_problem n am.version)
      (judged am.ddcore cv (app_invalid n am.ddcore) (app_requires n am.ddcore))

unfoldable pub apps_judged : Option Semver → List (String × Option App) → Bool × List Problem
apps_judged cv [] = (false, [])
apps_judged cv ((n, am) ∷ apps) = joined (app_judged cv n am) (apps_judged cv apps)

-- whether a comparison was skipped, and every problem
unfoldable pub check_core_compat : List (String × Option App) → Text → Text → Bool × List Problem
check_core_compat apps site core =
    let cv = parse_core_version core in
    joined (judged site cv (site_invalid site) (site_requires site)) (apps_judged cv apps)

abbrev pub id_key_release : Semver
id_key_release = record { major = 0; minor = 17; patch = 0 }

abbrev pub below_id_key : Text → Bool
below_id_key [] = false
below_id_key (c ∷ s) = elim (parse_range (c ∷ s)) [
  | none ↦ false
  | some r ↦ is_less (cmp (lower_bound r) id_key_release)
]

abbrev pub app_below : Option App → Bool
app_below none = false
app_below (some am) = below_id_key am.ddcore

unfoldable pub names_below : List (String × Option App) → List String
names_below [] = []
names_below ((n, am) ∷ apps) =
    let rest = names_below apps in if app_below am then n ∷ rest else rest

unfoldable pub predates_id_key : List (String × Option App) → Text → List String
predates_id_key apps core = elim (parse_core_version core) [
  | none ↦ []
  | some cv ↦ if is_less (cmp cv id_key_release) then [] else names_below apps
]

-- `none` for a binary that is not a release, the unstamped 0.1.0 included
abbrev pub unstamped : Text → Bool
unstamped core = text_eq (trim_space core) (codes "0.1.0")
  where
    text_eq : Text → Text → Bool
    text_eq [] [] = true
    text_eq (c ∷ s) (d ∷ t) = c == d && text_eq s t
    text_eq _ _ = false

abbrev pub series_range : Semver → Text
series_range v =
    codes ">="
    ++ (decimal v.major
        ++ (codes "."
            ++ (decimal v.minor
                ++ (codes ".0 <"
                    ++ (decimal v.major ++ (codes "." ++ (decimal (v.minor + 1) ++ codes ".0")))))))

unfoldable pub app_range : Text → Option Text
app_range core = elim (parse_core_version core) [
  | none ↦ none
  | some v ↦ if unstamped core then none else some (series_range v)
]

unfoldable pub image_tag : Text → Option Text
image_tag core = elim (parse_core_version core) [
  | none ↦ none
  | some v ↦
      if unstamped core then none else some (decimal v.major ++ (codes "." ++ decimal v.minor))
]

-- what the last migration of the database recorded
pub record SiteVersion : Type 0 where
  pub core : Text
  pub apps : List (String × Text)

pub data Older : Type 0 where
  core : Semver → Semver → Older
  app : String → Semver → Semver → Older

abbrev pub older_of : Option Semver → Option Semver → (Semver → Semver → Older) → List Older
older_of (some have) (some was) f = if is_less (cmp have was) then f have was ∷ [] else []
older_of _ _ f = []

-- the version without the count of its parts
abbrev pub first_of : Option (Semver × ℕ) → Option Semver
first_of none = none
first_of (some (v, parts)) = some v

-- apps[n], an empty text where the binary has no such app
abbrev pub version_in : List (String × Text) → String → Text
version_in [] n = []
version_in ((m, v) ∷ apps) n = let rest = version_in apps n in if str_eq m n then v else rest

unfoldable pub older_apps : List (String × Text) → List (String × Text) → List Older
older_apps apps [] = []
older_apps apps ((n, was) ∷ sv) =
    older_of (first_of (parse_version (version_in apps n))) (first_of (parse_version was)) (app n)
    ++ older_apps apps sv

unfoldable pub older_than_site : Option SiteVersion → Text → List (String × Text) → List Older
older_than_site none binary apps = []
older_than_site (some sv) binary apps =
    older_of (parse_core_version binary) (parse_core_version sv.core) core
    ++ older_apps apps sv.apps

-- LastSiteVersion's answer
pub data Ledger : Type 0 where
  unreadable : Ledger
  entry : Option SiteVersion → Ledger

abbrev pub refusal : Bool → List Older → List Older
refusal allow [] = []
refusal allow (o ∷ os) = if allow then [] else o ∷ os

-- CheckSiteVersion: what the refusal lists, nothing where the start is not refused
unfoldable pub check_site_version : Ledger → Bool → Text → List (String × Text) → List Older
check_site_version unreadable allow binary apps = []
check_site_version (entry sv) allow binary apps = refusal allow (older_than_site sv binary apps)
