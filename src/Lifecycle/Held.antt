-- ===== src/Lifecycle/Held.antt =====
-- What checkSetOnlyOnce and checkAllowOnSubmit, of internal/engine/doc.go, hold a document to once
-- they find nothing.
use ddcore.Common.{
  ◌≡◌, refl, sym, ◌∙◌, subst, String, Bool, true, false, Option, none, some, inl, inr, str_eq,
  Bool-cases, if◌then◌else◌, List, [], ◌∷◌, All, any,
}
use ddcore.Cerr.{Error, ok}
use ddcore.Lifecycle.{Document, Meta, MetaField, Row, Services}
use ddcore.Lifecycle.Checks.{
  check_set_only_once, check_set_once, set_once_fields, tables_set_once, table_set_once,
  rows_set_once, row_set_once, stored_row, first_of, is_changed, is_free, field_differs,
  locked_fields, is_table_field,
}

module _ (sv : Services) where
  -- a value that is set stays, in a field that is set once
  abbrev pub StaysSet : (String → String) → (String → String) → MetaField → Type 0
  StaysSet old new f =
      f.set_only_once ≡ true → str_eq (sv.cast f old) "" ≡ false → is_changed sv f old new ≡ false

  -- so it does in a row that was there
  abbrev pub RowStaysSet : List MetaField → List Row → Row → Type 0
  RowStaysSet fields stored r =
      (prev : Row)
      → stored_row r.id stored ≡ some prev
      → str_eq r.id "" ≡ false
      → All (StaysSet prev.str r.str) fields

  abbrev pub RowsStaySet : Document → Document → MetaField → Type 0
  RowsStaySet before doc f =
      is_table_field f ≡ true
      → (child : Meta) → sv.doctype f.options ≡ ok child
      → All (RowStaysSet child.fields (before.rows f.fieldname)) (doc.rows f.fieldname)

  pub record IsKept (d : Meta) (before doc : Document) : Type 0 where
    pub fields : All (StaysSet before.str doc.str) d.fields
    pub rows : All (RowsStaySet before doc) d.fields

  first_none : (a b : Option Error) → first_of a b ≡ none → (a ≡ none) × (b ≡ none)
  first_none none b h = (refl, h)
  first_none (some e) b h = absurd (cc h)

  if_true : (b : Bool) (x y : Option Error) → b ≡ true → (if b then x else y) ≡ none → x ≡ none
  if_true b x y e h = rw e at h

  if_false : (b : Bool) (x y : Option Error) → b ≡ false → (if b then x else y) ≡ none → y ≡ none
  if_false b x y e h = rw e at h

  set_once_none :
      (f : MetaField) (old new : String → String)
      → check_set_once sv f old new ≡ none
      → str_eq (sv.cast f old) "" ≡ false
      → is_changed sv f old new ≡ false
  unfolding check_set_once
  set_once_none f old new h n = elim (Bool-cases (is_changed sv f old new)) [
    | inl e ↦ absurd (cc (rw (n, e) at h))
    | inr e ↦ e
  ]

  fields_none :
      (fields : List MetaField) (old new : String → String)
      → set_once_fields sv fields old new ≡ none
      → All (StaysSet old new) fields
  unfolding set_once_fields
  fields_none [] old new h = tt
  fields_none (f ∷ fields) old new h =
      let m = check_set_once sv f old new in
      let k = set_once_fields sv fields old new in
      elim (Bool-cases f.set_only_once) [
        | inl e ↦
            let (a, b) = first_none m k (if_true f.set_only_once (first_of m k) k e h) in
            ((λ _. set_once_none f old new a), fields_none fields old new b)
        | inr e ↦ (
          (λ t. absurd (cc (sym t ∙ e))),
          fields_none fields old new (if_false f.set_only_once (first_of m k) k e h),
        )
      ]

  row_none :
      (fields : List MetaField) (prev r : Row)
      → str_eq r.id "" ≡ false
      → row_set_once sv fields (some prev) r ≡ none
      → set_once_fields sv fields prev.str r.str ≡ none
  row_none fields prev r n h = rw n at h

  rows_none :
      (fields : List MetaField) (stored rows : List Row)
      → rows_set_once sv fields stored rows ≡ none
      → All (RowStaysSet fields stored) rows
  rows_none fields stored [] h = tt
  rows_none fields stored (r ∷ rows) h =
      let (a, b) = first_none _ _ h in
      (
        (λ prev e n.
            fields_none fields prev.str r.str
              (row_none fields prev r n (subst (λ x. row_set_once sv fields x r ≡ none) e a))),
        rows_none fields stored rows b,
      )

  -- no field of the child is set once
  unheld :
      (fields : List MetaField) (old new : String → String)
      → any (λ f. f.set_only_once) fields ≡ false
      → All (StaysSet old new) fields
  unheld [] old new h = tt
  unheld (f ∷ fields) old new h = elim (Bool-cases f.set_only_once) [
    | inl e ↦ absurd (cc (rw e at h))
    | inr e ↦ ((λ t. absurd (cc (sym t ∙ e))), unheld fields old new (rw e at h))
  ]

  unheld_rows :
      (fields : List MetaField) (stored rows : List Row)
      → any (λ f. f.set_only_once) fields ≡ false
      → All (RowStaysSet fields stored) rows
  unheld_rows fields stored [] h = tt
  unheld_rows fields stored (r ∷ rows) h =
      ((λ prev e n. unheld fields prev.str r.str h), unheld_rows fields stored rows h)

  table_none :
      (child : Meta) (stored rows : List Row)
      → table_set_once sv (ok child) stored rows ≡ none
      → All (RowStaysSet child.fields stored) rows
  table_none child stored rows h = elim (Bool-cases (any (λ f. f.set_only_once) child.fields)) [
    | inl e ↦ rows_none child.fields stored rows (rw e at h)
    | inr e ↦ unheld_rows child.fields stored rows e
  ]

  tables_none :
      (fields : List MetaField) (before doc : Document)
      → tables_set_once sv fields before doc ≡ none
      → All (RowsStaySet before doc) fields
  unfolding tables_set_once
  tables_none [] before doc h = tt
  tables_none (f ∷ fields) before doc h = elim (Bool-cases (is_table_field f)) [
    | inl e ↦
        let (a, b) = first_none _ _ (rw e at h) in
        (
          (λ _ child k. table_none child (before.rows f.fieldname) (doc.rows f.fieldname) (
              subst
                (λ x. table_set_once sv x (before.rows f.fieldname) (doc.rows f.fieldname) ≡ none) k
                a)),
          tables_none fields before doc b,
        )
    | inr e ↦ ((λ t. absurd (cc (sym t ∙ e))), tables_none fields before doc (rw e at h))
  ]

  pub check_set_only_once-IsKept :
      (d : Meta) (before doc : Document)
      → check_set_only_once sv d before doc ≡ none
      → IsKept d before doc
  unfolding check_set_only_once
  check_set_only_once-IsKept d before doc h =
      let (a, b) = first_none _ _ h in
      record {
        fields = fields_none d.fields before.str doc.str a;
        rows = tables_none d.fields before doc b;
      }

  -- a field that is not free is as it was
  abbrev pub StaysLocked : List String → Document → Document → MetaField → Type 0
  StaysLocked exempt before doc f = is_free exempt f ≡ false → field_differs sv before doc f ≡ false

  pub locked_none :
      (exempt : List String) (before doc : Document) (fields : List MetaField)
      → locked_fields sv exempt before doc fields ≡ none
      → All (StaysLocked exempt before doc) fields
  locked_none exempt before doc [] h = tt
  locked_none exempt before doc (f ∷ fields) h = elim (Bool-cases (is_free exempt f)) [
    | inl e ↦ ((λ t. absurd (cc (sym e ∙ t))), locked_none exempt before doc fields (rw e at h))
    | inr e ↦ elim (Bool-cases (field_differs sv before doc f)) [
      | inl g ↦ absurd (cc (rw (e, g) at h))
      | inr g ↦ ((λ _. g), locked_none exempt before doc fields (rw (e, g) at h))
    ]
  ]
