-- ===== src/Perm/Filters/Scoped.antt =====
-- The scopes that a document is read by, checkUserPermissionsFor, beside the filters that its list
-- is bounded by, bindingFilters and strictScopeFilters, of internal/engine/perm.go.
use ddcore.Common.{
  arith, ◌≡◌, refl, sym, ap, ◌∙◌, subst, String, Bool, true, false, ◌&&◌, ◌||◌, List, [], ◌∷◌,
  if◌then◌else◌, str_eq, any, All, Bool-cases, inl, inr, eq_iff,
}
use ddcore.Text.{equal_fold}
use ddcore.Cerr.{Result, ok}
use ddcore.Perm.{DocType, contains}
use ddcore.Perm.Scopes.{
  Doc, str, Site, ScopeBinding, and_also, or_else, scope_bindings, within_scope, binding_holds,
  bindings_hold, scopes_hold,
}
use ddcore.Perm.Filters.{
  also, binding_condition, Filters, compares, Tables, column_passes, filter_passes, filters_pass,
  together, all, also, Filters, filters_of, binding_filters,
}

-- The walk up of a hierarchy answers for every id of it, and comes by an allowed value just where
-- the walk down from the allowed values comes by the id.
pub record Walks (site : Site) (tables : Tables) : Type 0 where
  pub meets :
      (allow v : String) (allowed : List String)
      → str_eq v "" ≡ false
      → (above : List String) × (site.ancestors allow v ≡ ok above)
        × (tables.under allow allowed v ≡ (contains allowed v || any (contains allowed) above))
  pub misses : (allow : String) (allowed : List String) → tables.under allow allowed "" ≡ false

-- a value is one of the allowed ones, or below one
abbrev pub reaches : Site → Tables → String → List String → String → Bool
reaches site tables allow allowed v =
    if site.tree_of allow then tables.under allow allowed v else contains allowed v

-- A document as the tables hold it: it has an id, a DocType that it names in a field is spelled as
-- it is declared, and what is above its parent is above it.
pub record Settled (site : Site) (tables : Tables) (d : DocType) (dc : Doc) : Type 0 where
  pub named : str_eq (str dc "id") "" ≡ false
  pub spelled :
      (allow : String)
      → All
          (λ b.
            (str_eq b.selector "" ≡ false
              → equal_fold site.fold (str dc b.selector) allow ≡ str_eq (str dc b.selector) allow))
          (scope_bindings site.fold d allow)
  pub placed :
      d.is_tree ≡ true
      → (allow : String) (allowed : List String)
      → reaches site tables allow allowed (str dc d.tree_parent_field) ≡ true
      → reaches site tables allow allowed (str dc "id") ≡ true

or_else-implied : (a b : Bool) → (b ≡ true → a ≡ true) → or_else (ok a) (ok b) ≡ ok a
or_else-implied true b h = refl
or_else-implied false true h = ap ok (sym (h refl))
or_else-implied false false h = refl

pub filters_pass-together :
    (tables : Tables) (fs gs : Filters) (dc : Doc)
    → filters_pass tables (together fs gs) dc
      ≡ (filters_pass tables fs dc && filters_pass tables gs dc)
unfolding together filters_pass
filters_pass-together tables all gs dc = refl
filters_pass-together tables (also f fs) gs dc =
    ground (arith, filters_pass-together tables fs gs dc)

pub and_also-ok : (a b : Bool) → and_also (ok a) (ok b) ≡ ok (a && b)
and_also-ok true b = refl
and_also-ok false b = refl

module _ (site : Site) (tables : Tables) (w : Walks site tables) where
  reaches_none :
      (allow : String) (allowed : List String)
      → contains allowed "" ≡ false
      → reaches site tables allow allowed "" ≡ false
  reaches_none allow allowed n = elim (Bool-cases (site.tree_of allow)) [
    | inl t ↦ rw t (w.misses allow allowed)
    | inr t ↦ rw t n
  ]

  reaches_some :
      (allow v : String) (allowed : List String)
      → str_eq v "" ≡ false
      → within_scope site allow v allowed ≡ ok (reaches site tables allow allowed v)
  unfolding within_scope
  reaches_some allow v allowed n =
      let (above, e, m) = w.meets allow v allowed n in
      elim (Bool-cases (contains allowed v)) [
        | inl c ↦ elim (Bool-cases (site.tree_of allow)) [
          | inl t ↦ rw (n, t, m, c) refl
          | inr t ↦ rw (n, c, t) refl
        ]
        | inr c ↦ elim (Bool-cases (site.tree_of allow)) [
          | inl t ↦ rw (n, t, m, c, e) refl
          | inr t ↦ rw (n, c, t) refl
        ]
      ]

  pub within_scope-reaches :
      (allow v : String) (allowed : List String)
      → contains allowed "" ≡ false
      → within_scope site allow v allowed ≡ ok (reaches site tables allow allowed v)
  unfolding within_scope
  within_scope-reaches allow v allowed n = elim (Bool-cases (str_eq v "")) [
    | inl t ↦ rw t (
        ap ok (
          sym (
            ap (reaches site tables allow allowed) ((eq_iff v "").0 t)
            ∙ reaches_none allow allowed n)))
    | inr t ↦ reaches_some allow v allowed t
  ]

  compares-reaches :
      (allow : String) (allowed : List String) (b : ScopeBinding) (v : String)
      → compares tables (binding_condition site allow allowed b) v
        ≡ reaches site tables allow allowed v
  compares-reaches allow allowed b v = elim (Bool-cases (site.tree_of allow)) [
    | inl h ↦ rw h refl
    | inr h ↦ rw h refl
  ]

  module _ (d : DocType) (dc : Doc) (s : Settled site tables d dc) where
    abbrev bound_test : String → List String → String → Result Bool
    bound_test allow allowed field =
        if str_eq field "id" && str_eq (str dc field) ""
        then ok true
        else if str_eq field "id" && d.is_tree
        then or_else (within_scope site allow (str dc field) allowed)
            (within_scope site allow (str dc d.tree_parent_field) allowed)
        else within_scope site allow (str dc field) allowed

    id_test :
        (allow : String) (allowed : List String)
        → contains allowed "" ≡ false
        → bound_test allow allowed "id" ≡ ok (reaches site tables allow allowed (str dc "id"))
    id_test allow allowed n = elim (Bool-cases d.is_tree) [
      | inl t ↦
          rw
            (
              s.named,
              t,
              within_scope-reaches allow (str dc "id") allowed n,
              within_scope-reaches allow (str dc d.tree_parent_field) allowed n,
            )
            (or_else-implied (reaches site tables allow allowed (str dc "id"))
              (reaches site tables allow allowed (str dc d.tree_parent_field))
              (s.placed t allow allowed))
      | inr t ↦ rw (s.named, t, within_scope-reaches allow (str dc "id") allowed n) refl
    ]

    bound_test-reaches :
        (allow : String) (allowed : List String) (field : String)
        → contains allowed "" ≡ false
        → bound_test allow allowed field ≡ ok (reaches site tables allow allowed (str dc field))
    bound_test-reaches allow allowed field n = elim (Bool-cases (str_eq field "id")) [
      | inr i ↦ rw i (within_scope-reaches allow (str dc field) allowed n)
      | inl i ↦
          subst
            (λ z. bound_test allow allowed z ≡ ok (reaches site tables allow allowed (str dc z)))
            (sym ((eq_iff field "id").0 i)) (id_test allow allowed n)
    ]

    binding_holds-passes :
        (allow : String) (allowed : List String) (b : ScopeBinding)
        → contains allowed "" ≡ false
        → (str_eq b.selector "" ≡ false
            → equal_fold site.fold (str dc b.selector) allow ≡ str_eq (str dc b.selector) allow)
        → binding_holds site d dc allow allowed b
          ≡ ok (column_passes tables (binding_condition site allow allowed b) dc)
    unfolding binding_holds column_passes
    binding_holds-passes allow allowed b n e = elim (Bool-cases (str_eq b.selector "")) [
      | inl t ↦ rw t (
          bound_test-reaches allow allowed b.field n
          ∙ ap ok (sym (compares-reaches allow allowed b (str dc b.field))))
      | inr t ↦ elim (Bool-cases (str_eq (str dc b.selector) allow)) [
        | inl q ↦
            rw (t, e t, q)
              (bound_test-reaches allow allowed b.field n
                ∙ ap ok (sym (compares-reaches allow allowed b (str dc b.field))))
        | inr q ↦ rw (t, e t, q) refl
      ]
    ]

    bindings_hold-passes :
        (allow : String) (allowed : List String) (bs : List ScopeBinding)
        → contains allowed "" ≡ false
        → All
            (λ b.
              (str_eq b.selector "" ≡ false
                → equal_fold site.fold (str dc b.selector) allow
                  ≡ str_eq (str dc b.selector) allow))
            bs
        → bindings_hold site d dc allow allowed bs
          ≡ ok (filters_pass tables (filters_of site allow allowed bs) dc)
    unfolding bindings_hold filters_pass filter_passes
    bindings_hold-passes allow allowed [] n h = refl
    bindings_hold-passes allow allowed (b ∷ bs) n h =
        rw (binding_holds-passes allow allowed b n h.0, bindings_hold-passes allow allowed bs n h.1)
          (and_also-ok (column_passes tables (binding_condition site allow allowed b) dc)
            (filters_pass tables (filters_of site allow allowed bs) dc))

    -- every rule is about some value
    pub scopes_hold-passes :
        (groups : List (String × List String))
        → All (λ g. contains g.1 "" ≡ false) groups
        → scopes_hold site d dc groups ≡ ok (filters_pass tables (binding_filters site d groups) dc)
    unfolding scopes_hold filters_pass binding_filters
    scopes_hold-passes [] h = refl
    scopes_hold-passes ((allow, allowed) ∷ groups) h =
        let bs = scope_bindings site.fold d allow in
        let fs = filters_of site allow allowed bs in
        let gs = binding_filters site d groups in
        rw
          (
            bindings_hold-passes allow allowed bs h.0 (s.spelled allow),
            scopes_hold-passes groups h.1,
            filters_pass-together tables fs gs dc,
          )
          (and_also-ok (filters_pass tables fs dc) (filters_pass tables gs dc))
