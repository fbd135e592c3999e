-- ===== src/Perm/Filters/Tabled.antt =====
-- The rows of a document's Table fields, as checkUserPermissionsFor checks them one by one and as
-- the filters of strictScopeFilters, one for each Table field, bound them, of
-- internal/engine/perm.go.
use ddcore.Common.{
  ◌≡◌, refl, sym, ap, ◌∙◌, subst, String, Bool, true, false, ◌&&◌, List, [], ◌∷◌, if◌then◌else◌,
  str_eq, All, Bool-cases, inl, inr, eq_iff, eq_refl, arith, find,
}
use ddcore.Cerr.{ok}
use ddcore.Perm.{Field, DocType, is_table, field_of, contains}
use ddcore.Perm.Scopes.{
  Doc, doc, Rows, no_rows, row, Site, and_also, on_table, on_doctype, check_doc, check_rows,
}
use ddcore.Perm.Filters.{
  Tables, Filters, all, also, every_row, rows_of, filters_pass, together, binding_filters,
  with_rows, table_filters,
}
use ddcore.Perm.Filters.Scoped.{
  Walks, Settled, and_also-ok, filters_pass-together, scopes_hold-passes,
}

-- no rows of its own
abbrev pub IsLeaf : Doc → Type 0
IsLeaf (doc fields no_rows) = Unit
IsLeaf (doc fields (row f r rows)) = ⊥

-- the fields of a DocType have different names
abbrev pub AreNamed : List Field → Type 0
AreNamed [] = Unit
AreNamed (t ∷ ts) = All (λ u. str_eq u.fieldname t.fieldname ≡ false) ts × AreNamed ts

-- a DocType whose Table fields hold known DocTypes
abbrev pub AreTables : Site → (String → DocType) → List Field → Type 0
AreTables site child_of fields =
    All (λ t. is_table t ≡ true → site.doctype t.options ≡ ok (child_of t.options)) fields

abbrev pub AreSettled : Site → Tables → (String → DocType) → List Field → Rows → Type 0
AreSettled site tables child_of fields no_rows = Unit
AreSettled site tables child_of fields (row f r rows) =
    All (λ t. str_eq t.fieldname f ≡ true → Settled site tables (child_of t.options) r) fields
    × IsLeaf r
    × AreSettled site tables child_of fields rows

pub str_eq_comm : (a b : String) → str_eq a b ≡ false → str_eq b a ≡ false
str_eq_comm a b h = elim (Bool-cases (str_eq b a)) [
  | inl t ↦ t ∙ (sym (subst (λ z. str_eq z b ≡ true) ((eq_iff b a).0 t) (eq_refl b)) ∙ h)
  | inr t ↦ t
]

and_also-true : (a : Bool) → and_also (ok a) (ok true) ≡ ok a
and_also-true true = refl
and_also-true false = refl

pub and_true : (a : Bool) → (a && true) ≡ a
and_true a = ground arith

-- the tests of a row and of those below it, each split by field
swap_tests : (a b c e : Bool) → ((a && b) && (c && e)) ≡ (a && c && (b && e))
swap_tests a b c e = ground arith

every_row_whole : (f : String) (rows : Rows) → every_row (λ r. true) f rows ≡ true
every_row_whole f no_rows = refl
every_row_whole f (row g r rows) = ground (arith, every_row_whole f rows)

module _ (site : Site) (tables : Tables) (w : Walks site tables) (child_of : String → DocType)
    (groups : List (String × List String)) where
  abbrev pub row_filters : Field → Filters
  row_filters t = binding_filters site (child_of t.options) groups

  abbrev pub tables_of : List Field → Filters
  tables_of [] = all
  tables_of (t ∷ fields) =
      let rest = tables_of fields in
      if is_table t then with_rows t (child_of t.options) (row_filters t) rest else rest

  pub table_filters-tables_of :
      (fields : List Field)
      → AreTables site child_of fields
      → table_filters site groups fields ≡ ok (tables_of fields)
  unfolding table_filters
  table_filters-tables_of [] h = refl
  table_filters-tables_of (t ∷ fields) h = elim (Bool-cases (is_table t)) [
    | inl e ↦ rw (e, h.0 e, table_filters-tables_of fields h.1) refl
    | inr e ↦ rw (e, table_filters-tables_of fields h.1) refl
  ]

  filters_pass-with_rows :
      (t : Field) (child : DocType) (fs rest : Filters) (dc : Doc)
      → filters_pass tables (with_rows t child fs rest) dc ≡ (
          every_row (filters_pass tables fs) t.fieldname (rows_of dc)
          && filters_pass tables rest dc)
  unfolding filters_pass
  filters_pass-with_rows t child all rest dc = rw (every_row_whole t.fieldname (rows_of dc)) refl
  filters_pass-with_rows t child (also f fs) rest dc = refl

  -- what one row meets, of the fields
  abbrev row_here : List Field → String → Doc → Bool
  row_here [] f r = true
  row_here (t ∷ fields) f r =
      (if is_table t
        then (if str_eq f t.fieldname then filters_pass tables (row_filters t) r else true)
        else true)
      && row_here fields f r

  row_here_none :
      (fields : List Field) (f : String) (r : Doc)
      → All (λ u. str_eq u.fieldname f ≡ false) fields
      → row_here fields f r ≡ true
  row_here_none [] f r h = refl
  row_here_none (t ∷ fields) f r h = elim (Bool-cases (is_table t)) [
    | inl e ↦ rw (e, str_eq_comm t.fieldname f h.0, row_here_none fields f r h.1) refl
    | inr e ↦ rw (e, row_here_none fields f r h.1) refl
  ]

  tables_of-row :
      (fields : List Field) (k : String → String) (f : String) (r : Doc) (rows : Rows)
      → filters_pass tables (tables_of fields) (doc k (row f r rows))
        ≡ (row_here fields f r && filters_pass tables (tables_of fields) (doc k rows))
  unfolding filters_pass
  tables_of-row [] k f r rows = refl
  tables_of-row (t ∷ fields) k f r rows = elim (Bool-cases (is_table t)) [
    | inl e ↦
        rw
          (
            e,
            filters_pass-with_rows t (child_of t.options) (row_filters t) (tables_of fields)
                (doc k (row f r rows)),
            filters_pass-with_rows t (child_of t.options) (row_filters t) (tables_of fields)
                (doc k rows),
            tables_of-row fields k f r rows,
          )
          (swap_tests (if str_eq f t.fieldname then filters_pass tables (row_filters t) r else true)
            (every_row (filters_pass tables (row_filters t)) t.fieldname rows) (row_here fields f r)
            (filters_pass tables (tables_of fields) (doc k rows)))
    | inr e ↦ rw (e, tables_of-row fields k f r rows) refl
  ]

  leaf_passes :
      (child : DocType) (r : Doc)
      → All (λ g. contains g.1 "" ≡ false) groups
      → Settled site tables child r
      → IsLeaf r
      → check_doc site groups child r
        ≡ ok (filters_pass tables (binding_filters site child groups) r)
  unfolding check_doc
  leaf_passes child (doc k no_rows) n s l =
      rw (scopes_hold-passes site tables w child (doc k no_rows) s groups n)
        (and_also-true (filters_pass tables (binding_filters site child groups) (doc k no_rows)))
  leaf_passes child (doc k (row f x rows)) n s l = absurd l

  row_passes :
      (fields : List Field) (f : String) (r : Doc)
      → All (λ g. contains g.1 "" ≡ false) groups
      → AreTables site child_of fields
      → AreNamed fields
      → All (λ t. str_eq t.fieldname f ≡ true → Settled site tables (child_of t.options) r) fields
      → IsLeaf r
      → on_table
          (find (λ t. str_eq t.fieldname f) fields)
          (λ t. on_doctype (site.doctype t.options) (λ child. check_doc site groups child r))
        ≡ ok (row_here fields f r)
  row_passes [] f r n h u s l = refl
  row_passes (t ∷ fields) f r n h u s l = elim (Bool-cases (str_eq t.fieldname f)) [
    | inr e ↦ elim (Bool-cases (is_table t)) [
      | inl i ↦ rw (e, i, str_eq_comm t.fieldname f e, row_passes fields f r n h.1 u.1 s.1 l) refl
      | inr i ↦ rw (e, i, row_passes fields f r n h.1 u.1 s.1 l) refl
    ]
    | inl e ↦
        let same = (eq_iff t.fieldname f).0 e in
        let here = subst (λ z. str_eq z t.fieldname ≡ true) same (eq_refl t.fieldname) in
        let none_else =
          row_here_none fields f r
            (subst (λ z. All (λ v. str_eq v.fieldname z ≡ false) fields) same u.0) in
        elim (Bool-cases (is_table t)) [
          | inl i ↦
              rw (e, i, here, none_else)
                (ap (λ x. on_doctype x (λ child. check_doc site groups child r)) (h.0 i)
                  ∙ leaf_passes (child_of t.options) r n (s.0 e) l
                  ∙ ap ok (sym (and_true (filters_pass tables (row_filters t) r))))
          | inr i ↦ rw (e, i, none_else) refl
        ]
  ]

  row_here-every :
      (fields : List Field) (k : String → String)
      → filters_pass tables (tables_of fields) (doc k no_rows) ≡ true
  unfolding filters_pass
  row_here-every [] k = refl
  row_here-every (t ∷ fields) k = elim (Bool-cases (is_table t)) [
    | inl e ↦
        rw
          (
            e,
            filters_pass-with_rows t (child_of t.options) (row_filters t) (tables_of fields)
                (doc k no_rows),
            row_here-every fields k,
          )
          refl
    | inr e ↦ rw (e, row_here-every fields k) refl
  ]

  module _ (d : DocType) (n : All (λ g. contains g.1 "" ≡ false) groups)
      (h : AreTables site child_of d.fields) (u : AreNamed d.fields) where
    check_rows-passes :
        (k : String → String) (rows : Rows)
        → AreSettled site tables child_of d.fields rows
        → check_rows site groups d rows ≡ ok (filters_pass tables (tables_of d.fields) (doc k rows))
    unfolding check_doc field_of
    check_rows-passes k no_rows s = ap ok (sym (row_here-every d.fields k))
    check_rows-passes k (row f r rows) s =
        rw
          (
            row_passes d.fields f r n h u s.0 s.1,
            check_rows-passes k rows s.2,
            tables_of-row d.fields k f r rows,
          )
          (and_also-ok (row_here d.fields f r)
            (filters_pass tables (tables_of d.fields) (doc k rows)))

    -- the scopes of a document and of its rows are the filters of its DocType and of its tables
    pub check_doc-passes :
        (dc : Doc)
        → Settled site tables d dc
        → AreSettled site tables child_of d.fields (rows_of dc)
        → check_doc site groups d dc
          ≡ ok (
              filters_pass tables
                (together (binding_filters site d groups) (tables_of d.fields))
                dc)
    unfolding check_doc
    check_doc-passes (doc k rows) s t =
        rw
          (
            scopes_hold-passes site tables w d (doc k rows) s groups n,
            check_rows-passes k rows t,
            filters_pass-together tables (binding_filters site d groups) (tables_of d.fields)
                (doc k rows),
          )
          (and_also-ok (filters_pass tables (binding_filters site d groups) (doc k rows))
            (filters_pass tables (tables_of d.fields) (doc k rows)))
