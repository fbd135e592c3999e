-- ===== src/Perm/Filters/Opened.antt =====
-- What the groups of permissionFilters, of internal/engine/perm.go, come to on a document.
use ddcore.Common.{
  ap₂, eq_iff, ◌≡◌, refl, sym, ap, ◌∙◌, String, Bool, true, false, not, ◌&&◌, ◌||◌, some, List, [],
  ◌∷◌, str_eq, Bool-cases, inl, inr, arith,
}
use ddcore.Perm.{contains}
use ddcore.Perm.Scopes.{Doc}
use ddcore.Perm.Access.{owned, Ctx}
use ddcore.Perm.Filters.{
  share_groups, any_of, also, no_group, shared_group, str, by_role, Groups, grant_filters,
  column_passes, some_group_passes, Tables, Filters, all, filters_pass, together,
}
use ddcore.Perm.Filters.Scoped.{filters_pass-together}
use ddcore.Perm.Filters.Tabled.{and_true, str_eq_comm}

or_false : (a : Bool) → (a || false) ≡ a
or_false a = ground arith

module _ (tables : Tables) (dc : Doc) where
  eq_comm : (a b : String) → str_eq a b ≡ str_eq b a
  eq_comm a b = elim (Bool-cases (str_eq a b)) [
    | inl t ↦
        ap (λ z. str_eq z b) ((eq_iff a b).0 t) ∙ sym (ap (λ z. str_eq b z) ((eq_iff a b).0 t))
    | inr t ↦ t ∙ sym (str_eq_comm a b t)
  ]

  abbrev pub mine : Ctx → Bool → Bool
  mine c owner_only = not owner_only || owned c (some dc)

  pub by_role-mine :
      (c : Ctx) (owner_only : Bool) (query strict : Filters)
      → filters_pass tables (by_role c owner_only query strict) dc
        ≡ (mine c owner_only && (filters_pass tables query dc && filters_pass tables strict dc))
  unfolding filters_pass column_passes
  by_role-mine c true query strict =
      rw (filters_pass-together tables query strict dc, eq_comm c.user (str dc "owner"))
        (ap (λ z. z && (filters_pass tables query dc && filters_pass tables strict dc))
          (or_false (str_eq (str dc "owner") c.user)))
  by_role-mine c false query strict = filters_pass-together tables query strict dc

  shared_group-contains :
      (ids : List String) (bounds : Filters) (groups : Groups)
      → some_group_passes tables (shared_group ids bounds groups) dc ≡ (
          (contains ids (str dc "id") && filters_pass tables bounds dc)
          || some_group_passes tables groups dc)
  unfolding filters_pass column_passes
  shared_group-contains [] bounds groups = refl
  shared_group-contains (x ∷ ids) bounds groups = refl

  shares_pass :
      (query strict : Filters) (scoped override : List String)
      → some_group_passes tables
          (shared_group scoped (together query strict) (shared_group override query no_group))
          dc
        ≡ ((contains scoped (str dc "id")
              && (filters_pass tables query dc && filters_pass tables strict dc))
            || (contains override (str dc "id") && filters_pass tables query dc))
  unfolding filters_pass
  shares_pass query strict scoped override =
      rw
        (
          shared_group-contains scoped (together query strict)
              (shared_group override query no_group),
          shared_group-contains override query no_group,
          filters_pass-together tables query strict dc,
        )
        (ap
          (λ z.
            (contains scoped (str dc "id")
              && (filters_pass tables query dc && filters_pass tables strict dc))
            || z)
          (or_false (contains override (str dc "id") && filters_pass tables query dc)))

  grants_both :
      (c : Ctx) (owner_only : Bool) (query strict : Filters) (scoped override : List String)
      → filters_pass tables
          (also (any_of (share_groups c (true, owner_only) query strict (scoped, override))) all)
          dc
        ≡ ((mine c owner_only && (filters_pass tables query dc && filters_pass tables strict dc))
            || ((contains scoped (str dc "id")
                  && (filters_pass tables query dc && filters_pass tables strict dc))
                || (contains override (str dc "id") && filters_pass tables query dc)))
  unfolding filters_pass
  grants_both c owner_only query strict scoped override =
      and_true (
        filters_pass tables (by_role c owner_only query strict) dc
        || some_group_passes tables
            (shared_group scoped (together query strict) (shared_group override query no_group)) dc)
      ∙ ap₂ (λ a b. a || b) (by_role-mine c owner_only query strict)
          (shares_pass query strict scoped override)

  pub grant_filters-test :
      (c : Ctx) (role owner_only : Bool) (query strict : Filters) (scoped override : List String)
      → filters_pass tables (grant_filters c (role, owner_only) query strict (scoped, override)) dc
        ≡ ((role
              && (mine c owner_only
                  && (filters_pass tables query dc && filters_pass tables strict dc)))
            || ((contains scoped (str dc "id")
                  && (filters_pass tables query dc && filters_pass tables strict dc))
                || (contains override (str dc "id") && filters_pass tables query dc)))
  unfolding filters_pass
  grant_filters-test c false owner_only query strict scoped override =
      and_true (
        some_group_passes tables
          (shared_group scoped (together query strict) (shared_group override query no_group)) dc)
      ∙ shares_pass query strict scoped override
  grant_filters-test c true owner_only query strict [] [] =
      by_role-mine c owner_only query strict
      ∙ sym (
          or_false
            (mine c owner_only && (filters_pass tables query dc && filters_pass tables strict dc)))
  grant_filters-test c true owner_only query strict [] (x ∷ override) =
      grants_both c owner_only query strict [] (x ∷ override)
  grant_filters-test c true owner_only query strict (x ∷ scoped) override =
      grants_both c owner_only query strict (x ∷ scoped) override
