-- ===== src/Perm/Filters/Reading.antt =====
-- The steps of HasPermission and of permissionFilters of internal/engine/perm.go as Boolean tests:
-- whether a role, a share or a share past the scopes reads a document.
use ddcore.Common.{
  ℕ, ◌≡◌, refl, ap, ◌⊎◌, String, Bool, true, false, not, ◌&&◌, ◌||◌, Option, none, some, List,
  if◌then◌else◌, Bool-cases, inl, inr, arith,
}
use ddcore.Cerr.{Result, ok}
use ddcore.Perm.{override_grants, shared_names, role_grant, DocType, DocShare, grants}
use ddcore.Perm.Scopes.{and_also}
use ddcore.Perm.Filters.Scoped.{and_also-ok}
use ddcore.Perm.Scopes.{or_else}
use ddcore.Perm.Access.{Ctx}
use ddcore.Perm.Filters.{role_filters, grant_filters, Filters}
use ddcore.Perm.Filters.Shared.{reads_scoped, reads_lifted}
use ddcore.Perm.Filters.Opened.{mine}

either_way : (g v : Bool) → g ≡ ((g && not v) || (g && v))
either_way g v = ground arith

both_ways : (a b : Bool) → (a && b) ≡ (b && a)
both_ways a b = ground arith

pub role_filters-ok :
    (fold : ℕ → ℕ) (c : Ctx) (d : DocType) {held : Result (List String)}
    {queried scoped : Result Filters} {given : Result (List DocShare)} (roles : List String)
    (query strict : Filters) (shares : List DocShare)
    → held ≡ ok roles
    → queried ≡ ok query
    → scoped ≡ ok strict
    → given ≡ ok shares
    → role_filters fold c d held queried scoped given
      ≡ ok (
          grant_filters c
            (role_grant fold d roles "read")
            query
            strict
            (shared_names fold shares d.name))
role_filters-ok fold c d roles query strict shares h q s g = rw (h, q, s, g) refl

pub all_allow :
    {granted asked scoped : Result Bool} (a q s : Bool)
    → granted ≡ ok a
    → asked ≡ ok q
    → scoped ≡ ok s
    → and_also granted (and_also (ok true) (and_also asked scoped)) ≡ ok (a && (q && s))
all_allow a q s g k z = rw (g, k, z, and_also-ok q s) (and_also-ok a (q && s))

pub share_read :
    (o : Option DocShare)
    → (elim o [ none ↦ ok false | some s ↦ ok (grants s "read") ])
      ≡ ok (reads_scoped o || reads_lifted o)
share_read none = refl
share_read (some s) = ap ok (either_way (grants s "read") s.override_scope)

pub either :
    (role own scoped lifted : Bool)
    → (if role && own then ok true else if true then ok (scoped || lifted) else ok false)
      ≡ ok ((role && own) || scoped || lifted)
either true true scoped lifted = refl
either true false scoped lifted = refl
either false own scoped lifted = refl

pub lift_read :
    (strict unscoped : Bool) (o : Option DocShare)
    → or_else (ok strict) (ok (if unscoped then false else override_grants o "read"))
      ≡ ok (strict || (not unscoped && reads_lifted o))
lift_read true unscoped o = refl
lift_read false true o = refl
lift_read false false none = refl
lift_read false false (some s) = ap ok (both_ways s.override_scope (grants s "read"))

abbrev pub read_test : Bool → Bool → Bool → Option DocShare → Bool → Bool → Bool
read_test role mine query o unscoped strict =
    ((role && mine) || reads_scoped o || reads_lifted o)
    && (query && (strict || (not unscoped && reads_lifted o)))

abbrev pub list_test : Bool → Bool → Bool → Option DocShare → Bool → Bool
list_test role mine query o strict =
    (role && (mine && (query && strict)))
    || ((reads_scoped o && (query && strict)) || (reads_lifted o && query))

lift_test :
    (role mine query unscoped strict : Bool)
    → (unscoped ≡ false) ⊎ (strict ≡ true)
    → ((((role && mine) || false) || true) && (query && (strict || (not unscoped && true))))
      ≡ ((role && (mine && (query && strict))) || ((false && (query && strict)) || (true && query)))
lift_test role mine query unscoped strict (inl e) = rw e (ground arith)
lift_test role mine query unscoped strict (inr e) = rw e (ground arith)

pub read_test-list_test :
    (role mine query : Bool) (o : Option DocShare) (unscoped strict : Bool)
    → (unscoped ≡ false) ⊎ (strict ≡ true)
    → read_test role mine query o unscoped strict ≡ list_test role mine query o strict
read_test-list_test role mine query none unscoped strict h = ground arith
read_test-list_test role mine query (some s) unscoped strict h =
    elim (Bool-cases (grants s "read")) [
      | inl g ↦ elim (Bool-cases s.override_scope) [
        | inl v ↦ rw (g, v) (lift_test role mine query unscoped strict h)
        | inr v ↦ rw (g, v) (ground arith)
      ]
      | inr g ↦ rw g (ground arith)
    ]
