-- ===== src/Compat/Checks/Accepted.antt =====
-- The loads that checkCoreCompat of internal/engine/compat.go accepts, and the binaries that
-- OlderThanSite of internal/engine/siteversion.go has nothing against.
use ddcore.Common.{
  subst, ◌≡◌, ◌≢◌, ◌↔◌, refl, sym, Bool, true, false, Option, none, some, List, [], ◌∷◌, ◌++◌,
  String, All, if◌then◌else◌,
}
use ddcore.Text.{Text}
use ddcore.Compat.Versions.{Semver, less, cmp, parse_version, parse_core_version, same, more, Cmp}
use ddcore.Compat.Constraints.{allows, parse_range, Constraint, is_less}
use ddcore.Compat.Checks.{
  App, Problem, judged, range_judged, version_problem, joined, app_judged, apps_judged,
  check_core_compat, SiteVersion, Older, core, app, older_of, first_of, version_in, older_apps,
  older_than_site, app_invalid, app_requires, app_version, site_invalid, site_requires,
}

-- A declared range is met: it is empty, or it parses and, if the binary is a release, allows it.
abbrev pub IsMet : Text → Option Semver → Type 0
IsMet [] cv = Unit
IsMet (c ∷ s) none = (r : List Constraint) × (parse_range (c ∷ s) ≡ some r)
IsMet (c ∷ s) (some v) =
    (r : List Constraint) × (parse_range (c ∷ s) ≡ some r) × (allows r v ≡ true)

abbrev pub IsVersion : Text → Type 0
IsVersion [] = Unit
IsVersion (c ∷ s) = parse_version (c ∷ s) ≢ none

abbrev pub IsAppMet : Option Semver → String × Option App → Type 0
IsAppMet cv (n, none) = Unit
IsAppMet cv (n, some am) = IsVersion am.version × IsMet am.ddcore cv

module _ {A : Type 0} where
  append-nil : (xs ys : List A) → xs ++ ys ≡ [] → (xs ≡ []) × (ys ≡ [])
  append-nil [] ys h = (refl, h)
  append-nil (x ∷ xs) ys h = absurd (cc h)

  nil-append : (xs ys : List A) → xs ≡ [] → ys ≡ [] → xs ++ ys ≡ []
  nil-append xs ys h k = rw (h, k) refl

joined-nil : (a b : Bool × List Problem) → ((joined a b).1 ≡ []) ↔ (a.1 ≡ []) × (b.1 ≡ [])
joined-nil (s, ps) (t, qs) = (append-nil ps qs, λ h. nil-append ps qs h.0 h.1)

-- an answer that parsed, with the release there to compare it with or not
parsed-nil :
    (o : Option (List Constraint)) (p : Problem) (q : Semver → Problem)
    → ((range_judged o none p q).1 ≡ []) ↔ ((r : List Constraint) × (o ≡ some r))
parsed-nil none p q = (λ e. absurd (cc e), λ (r, e). cc)
parsed-nil (some r) p q = (λ _. (r, refl), λ _. refl)

if-nil : {A : Type 0} (b : Bool) (x : A) → ((if b then [] else x ∷ []) ≡ []) ↔ (b ≡ true)
if-nil true x = (λ _. refl, λ _. refl)
if-nil false x = (λ e. absurd (cc e), λ e. cc)

allowed-nil :
    (o : Option (List Constraint)) (v : Semver) (p : Problem) (q : Semver → Problem)
    → ((range_judged o (some v) p q).1 ≡ [])
      ↔ ((r : List Constraint) × (o ≡ some r) × (allows r v ≡ true))
allowed-nil none v p q = (λ e. absurd (cc e), λ (r, e, a). cc)
allowed-nil (some r) v p q =
    let (f, g) = if-nil (allows r v) (q v) in
    (
      λ e. (r, refl, f e),
      λ (r', e, a). g (let same : r ≡ r' = cc e in subst (λ x. allows x v ≡ true) (sym same) a),
    )

judged-nil :
    (s : Text) (cv : Option Semver) (p : Problem) (q : Semver → Problem)
    → ((judged s cv p q).1 ≡ []) ↔ IsMet s cv
judged-nil [] cv p q = (λ _. tt, λ _. refl)
judged-nil (c ∷ s) none p q = parsed-nil (parse_range (c ∷ s)) p q
judged-nil (c ∷ s) (some v) p q = allowed-nil (parse_range (c ∷ s)) v p q

unread-nil :
    {A : Type 0} (o : Option A) (p : Problem)
    → (◌≡◌ {A = List Problem} (elim o [ none ↦ p ∷ [] | some v ↦ [] ]) []) ↔ (o ≢ none)
unread-nil none p = (λ e. absurd (cc e), λ k. absurd (k refl))
unread-nil (some v) p = (λ _ e. cc, λ _. refl)

version_problem-nil : (n : String) (s : Text) → (version_problem n s ≡ []) ↔ IsVersion s
version_problem-nil n [] = (λ _. tt, λ _. refl)
version_problem-nil n (c ∷ s) = unread-nil (parse_version (c ∷ s)) (app_version n (c ∷ s))

app_judged-nil :
    (cv : Option Semver) (n : String) (am : Option App)
    → ((app_judged cv n am).1 ≡ []) ↔ IsAppMet cv (n, am)
app_judged-nil cv n none = (λ _. tt, λ _. refl)
app_judged-nil cv n (some am) =
    let (f, g) =
      joined-nil (false, version_problem n am.version)
        (judged am.ddcore cv (app_invalid n am.ddcore) (app_requires n am.ddcore)) in
    let (vf, vg) = version_problem-nil n am.version in
    let (jf, jg) = judged-nil am.ddcore cv (app_invalid n am.ddcore) (app_requires n am.ddcore) in
    (λ h. (vf (f h).0, jf (f h).1), λ m. g (vg m.0, jg m.1))

apps_judged-nil :
    (cv : Option Semver) (apps : List (String × Option App))
    → ((apps_judged cv apps).1 ≡ []) ↔ All (IsAppMet cv) apps
unfolding apps_judged
apps_judged-nil cv [] = (λ _. tt, λ _. refl)
apps_judged-nil cv ((n, am) ∷ apps) =
    let (f, g) = joined-nil (app_judged cv n am) (apps_judged cv apps) in
    let (af, ag) = app_judged-nil cv n am in
    let (rf, rg) = apps_judged-nil cv apps in
    (λ h. (af (f h).0, rf (f h).1), λ m. g (ag m.0, rg m.1))

-- The check reports no problem exactly if the site's range and every app's range is empty or
-- parses and, where the binary's version is a release, allows it, and every version that an app
-- declares parses.
pub check_core_compat-nil :
    (apps : List (String × Option App)) (site binary : Text)
    → ((check_core_compat apps site binary).1 ≡ [])
      ↔ IsMet site (parse_core_version binary) × All (IsAppMet (parse_core_version binary)) apps
unfolding check_core_compat
check_core_compat-nil apps site binary =
    let cv = parse_core_version binary in
    let (f, g) =
      joined-nil (judged site cv (site_invalid site) (site_requires site)) (apps_judged cv apps) in
    let (jf, jg) = judged-nil site cv (site_invalid site) (site_requires site) in
    let (af, ag) = apps_judged-nil cv apps in
    (λ h. (jf (f h).0, af (f h).1), λ m. g (jg m.0, ag m.1))

-- the binary's version of a thing is not below the one recorded, where both can be compared
abbrev pub IsNotOlder : Option Semver → Option Semver → Type 0
IsNotOlder (some have) (some was) = cmp have was ≢ less
IsNotOlder _ _ = Unit

is_less-nil : (c : Cmp) (o : Older) → ((if is_less c then o ∷ [] else []) ≡ []) ↔ (c ≢ less)
is_less-nil less o = (λ e. absurd (cc e), λ k. absurd (k refl))
is_less-nil same o = (λ _ e. cc, λ _. refl)
is_less-nil more o = (λ _ e. cc, λ _. refl)

older_of-nil :
    (a b : Option Semver) (f : Semver → Semver → Older) → (older_of a b f ≡ []) ↔ IsNotOlder a b
older_of-nil none none f = (λ _. tt, λ _. refl)
older_of-nil none (some was) f = (λ _. tt, λ _. refl)
older_of-nil (some have) none f = (λ _. tt, λ _. refl)
older_of-nil (some have) (some was) f = is_less-nil (cmp have was) (f have was)

older_apps-nil :
    (apps sv : List (String × Text))
    → (older_apps apps sv ≡ [])
      ↔ All
          (λ r.
            IsNotOlder
              (first_of (parse_version (version_in apps r.0)))
              (first_of (parse_version r.1)))
          sv
unfolding older_apps
older_apps-nil apps [] = (λ _. tt, λ _. refl)
older_apps-nil apps ((n, was) ∷ sv) =
    let have = first_of (parse_version (version_in apps n)) in
    let (f, g) = older_of-nil have (first_of (parse_version was)) (app n) in
    let (rf, rg) = older_apps-nil apps sv in
    (
      λ h.
          let (a, b) =
            append-nil (older_of have (first_of (parse_version was)) (app n)) (older_apps apps sv)
              h in
          (f a, rf b),
      λ m.
          nil-append (older_of have (first_of (parse_version was)) (app n)) (older_apps apps sv)
            (g m.0) (rg m.1),
    )

-- Nothing is older than the site exactly if the binary's core version and its version of every app
-- that the ledger names are not below the recorded ones, wherever both of a pair parse.
pub older_than_site-nil :
    (sv : SiteVersion) (binary : Text) (apps : List (String × Text))
    → (older_than_site (some sv) binary apps ≡ [])
      ↔ IsNotOlder (parse_core_version binary) (parse_core_version sv.core)
        × All
            (λ r.
              IsNotOlder
                (first_of (parse_version (version_in apps r.0)))
                (first_of (parse_version r.1)))
            sv.apps
unfolding older_than_site
older_than_site-nil sv binary apps =
    let (f, g) = older_of-nil (parse_core_version binary) (parse_core_version sv.core) core in
    let (rf, rg) = older_apps-nil apps sv.apps in
    (
      λ h.
          let (a, b) =
            append-nil (older_of (parse_core_version binary) (parse_core_version sv.core) core)
              (older_apps apps sv.apps) h in
          (f a, rf b),
      λ m.
          nil-append (older_of (parse_core_version binary) (parse_core_version sv.core) core)
            (older_apps apps sv.apps) (g m.0) (rg m.1),
    )
