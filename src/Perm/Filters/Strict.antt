-- ===== src/Perm/Filters/Strict.antt =====
-- The scopes of the user's rules as filters, strictScopeFilters, and as the check of a document,
-- checkUserPermissions, of internal/engine/perm.go.
use ddcore.Common.{
  ℕ, ◌≡◌, refl, sym, ap, ◌∙◌, ◌⊎◌, String, Bool, true, false, List, [], ◌∷◌, if◌then◌else◌, str_eq,
  All, Bool-cases, inl, inr,
}
use ddcore.Cerr.{Result, ok, err}
use ddcore.Perm.{DocType, contains, is_unscoped_only}
use ddcore.Perm.Rules.{AllGrouped, AllGrouped-group_from}
use ddcore.Perm.Scopes.{
  Doc, UserPerm, Site, applies_to, applicable_scopes, refused_to_scoped_user,
  check_user_permissions, check_user_permissions_for,
}
use ddcore.Perm.Access.{Ctx, elevated}
use ddcore.Perm.Filters.{
  binding_filters, Tables, Filters, all, rows_of, filters_pass, together, strict_scope_filters,
}
use ddcore.Perm.Filters.Scoped.{Walks, Settled}
use ddcore.Perm.Filters.Tabled.{
  AreNamed, AreTables, AreSettled, check_doc-passes, tables_of, table_filters-tables_of,
}

abbrev IsSaid : String → String → Type 0
IsSaid allow v = str_eq v "" ≡ false

no_empty_value : (vs : List String) → All (λ v. str_eq v "" ≡ false) vs → contains vs "" ≡ false
no_empty_value [] h = refl
no_empty_value (v ∷ vs) h = rw (h.0, no_empty_value vs h.1) refl

no_empty_group :
    (groups : List (String × List String))
    → AllGrouped IsSaid groups
    → All (λ g. contains g.1 "" ≡ false) groups
no_empty_group [] h = tt
no_empty_group ((allow, allowed) ∷ groups) h =
    (no_empty_value allowed h.0, no_empty_group groups h.1)

IsSaid-rules :
    (fold : ℕ → ℕ) (applicable_for : String) (perms : List UserPerm)
    → All (λ p. str_eq p.for_value "" ≡ false) perms
    → All (λ p. applies_to fold applicable_for p ≡ true → IsSaid p.allow p.for_value) perms
IsSaid-rules fold a [] h = tt
IsSaid-rules fold a (p ∷ perms) h = ((λ _. h.0), IsSaid-rules fold a perms h.1)

scopes_said :
    (fold : ℕ → ℕ) (perms : List UserPerm) (applicable_for : String)
    → All (λ p. str_eq p.for_value "" ≡ false) perms
    → All (λ g. contains g.1 "" ≡ false) (applicable_scopes fold perms applicable_for)
unfolding applicable_scopes
scopes_said fold perms a h =
    no_empty_group (applicable_scopes fold perms a)
      (AllGrouped-group_from IsSaid fold a perms [] (IsSaid-rules fold a perms h) tt)

abbrev answer : Result Bool → Bool
answer (err e) = false
answer (ok b) = b

unscoped_user :
    (doctype : String) (p : UserPerm) (perms : List UserPerm)
    → refused_to_scoped_user (ok (p ∷ perms)) doctype ≡ ok false
    → is_unscoped_only doctype ≡ false
unfolding refused_to_scoped_user
unscoped_user doctype p perms r = elim (Bool-cases (is_unscoped_only doctype)) [
  | inr t ↦ t
  | inl t ↦ t ∙ ap answer (sym (ap (λ x. if x then ok true else ok false) t) ∙ r)
]

-- the read of a document: a role row or a share, the controller, and the scopes or a share
module _ (site : Site) (tables : Tables) (w : Walks site tables) (child_of : String → DocType)
    (d : DocType) (dc : Doc) where
  -- the scopes as filters, and what they come to on the document
  abbrev pub Strict : Ctx → Type 0
  Strict c =
      (fs : Filters) × (strict_scope_filters site c d d.name ≡ ok fs)
      × (check_user_permissions site false c.perms d dc ≡ ok (filters_pass tables fs dc))
      × ((is_unscoped_only d.name ≡ false) ⊎ (filters_pass tables fs dc ≡ true))

  pub Strict-filters :
      (c : Ctx) (perms : List UserPerm)
      → elevated c ≡ false
      → d.is_child ≡ false
      → c.perms ≡ ok perms
      → refused_to_scoped_user c.perms d.name ≡ ok false
      → All (λ p. str_eq p.for_value "" ≡ false) perms
      → AreTables site child_of d.fields
      → AreNamed d.fields
      → Settled site tables d dc
      → AreSettled site tables child_of d.fields (rows_of dc)
      → Strict c
  unfolding strict_scope_filters check_user_permissions check_user_permissions_for filters_pass
  Strict-filters c [] n b e r v t u s a = (all, rw (n, e) refl, rw (r, e) refl, inr refl)
  Strict-filters c (p ∷ perms) n b e r v t u s a =
      let groups = applicable_scopes site.fold (p ∷ perms) d.name in
      let said = scopes_said site.fold (p ∷ perms) d.name v in
      let unscoped =
        unscoped_user d.name p perms (ap (λ x. refused_to_scoped_user x d.name) (sym e) ∙ r) in
      (
        together (binding_filters site d groups) (tables_of site tables w child_of groups d.fields),
        rw (n, e, unscoped, b, table_filters-tables_of site tables w child_of groups d.fields t)
            refl,
        rw (r, e) (check_doc-passes site tables w child_of groups d said t u dc s a),
        inl unscoped,
      )
