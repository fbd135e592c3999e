-- ===== src/Lifecycle/Checks.antt =====
-- The checks that Save runs on a document beside the stored one: the docstatus it asks for,
-- sameTime, checkAllowOnSubmit and checkSetOnlyOnce of internal/engine/doc.go.
use ddcore.Common.{
  ℕ, ◌/◌, String, Bool, true, false, not, ◌&&◌, ◌||◌, Option, none, some, List, [], ◌∷◌, map,
  if◌then◌else◌, str_eq, is_some, any, ◌==◌,
}
use ddcore.Cerr.{Error, Result, ok, err, validation, with_title_key}
use ddcore.Workflow.{Workflow, State, get_state}
use ddcore.Lifecycle.{
  layout_field, table_field, value_field, MetaField, Meta, Row, Stamp, no_stamp, at, Document,
  Session, Services,
}

-- what a save is
pub data Action : Type 0 where
  plain_save submit cancel update_after_submit : Action

unfoldable pub status_action : (ℕ → String) → Meta → String → Bool → ℕ → ℕ → Result Action
status_action sprint d id in_transition old new =
    if old == 0 && new == 1
    then ok submit
    else if (old == 1 || in_transition && old == 0) && new == 2
    then ok cancel
    else if old == 1 && new == 1
    then ok update_after_submit
    else if old == 2
    then err (validation "{0} {1} is cancelled and cannot be changed" (d.label ∷ id ∷ []))
    else if old == 0 && new == 0
    then ok plain_save
    else err (validation "Invalid docstatus transition ({0} → {1})" (sprint old ∷ sprint new ∷ []))

abbrev pub is_plain : Action → Bool
is_plain plain_save = true
is_plain _ = false

abbrev pub is_after_submit : Action → Bool
is_after_submit update_after_submit = true
is_after_submit _ = false

-- the right that the save takes
abbrev pub ptype_of : Action → String
ptype_of submit = "submit"
ptype_of cancel = "cancel"
ptype_of _ = "write"

abbrev pub millisecond : ℕ
millisecond = 1000

unfoldable pub same_time : Stamp → Stamp → Bool
same_time no_stamp no_stamp = true
same_time (at a) (at b) = a / millisecond == b / millisecond
same_time _ _ = false

-- the document was changed since it was opened
unfoldable pub is_stale : Stamp → Stamp → Bool
is_stale no_stamp stored = false
is_stale m no_stamp = false
is_stale m stored = not (same_time m stored)

abbrev pub governed : String × Workflow → Document → Document → Option Error
governed (name, wf) before doc =
    if not (str_eq (doc.str wf.state_field) (before.str wf.state_field))
    then some (
        validation
          "Cannot manually modify workflow state field '{0}'. Use workflow actions to transition."
          (wf.state_field ∷ []))
    else if not (before.docstatus == doc.docstatus)
    then some (
        validation "Direct submit or cancel is disabled for documents governed by workflow '{0}'"
          (name ∷ []))
    else none

-- a document under a workflow moves by its actions only
unfoldable pub workflow_refusal :
    Bool → Option (String × Workflow) → Document → Document → Option Error
workflow_refusal true wf before doc = none
workflow_refusal false none before doc = none
workflow_refusal false (some wf) before doc = governed wf before doc

-- the fields that a transition may write on a submitted document
abbrev pub state_exempt : Option State → List String
state_exempt none = []
state_exempt (some st) = map (λ u. u.0) st.update_fields

abbrev pub workflow_exempt : Option (String × Workflow) → Document → List String
workflow_exempt none doc = []
workflow_exempt (some (name, wf)) doc =
    wf.state_field ∷ state_exempt (get_state (doc.str wf.state_field) wf.states)

abbrev pub exempt_fields : Services → Session → Meta → Document → List String
exempt_fields sv c d doc =
    if c.in_workflow_transition then workflow_exempt (sv.workflow_for d.name) doc else []

-- a value other than the stored one
abbrev pub is_changed : Services → MetaField → (String → String) → (String → String) → Bool
is_changed sv f old new =
    not (str_eq (sv.cast f new) (sv.cast f old)) && not (sv.same_moment f new old)

abbrev pub is_free : List String → MetaField → Bool
is_free exempt f =
    str_eq f.fieldname ""
    || (elim f.kind [ layout_field ↦ true | _ ↦ false ])
    || f.allow_on_submit
    || any (λ k. str_eq k f.fieldname) exempt

abbrev pub field_differs : Services → Document → Document → MetaField → Bool
field_differs sv before doc f = elim f.kind [
  | table_field ↦ not (sv.same_rows f.fieldname before doc)
  | layout_field ↦ is_changed sv f before.str doc.str
  | value_field ↦ is_changed sv f before.str doc.str
]

abbrev pub locked_fields :
    Services → List String → Document → Document → List MetaField → Option Error
locked_fields sv exempt before doc [] = none
locked_fields sv exempt before doc (f ∷ fields) =
    let rest = locked_fields sv exempt before doc fields in
    if is_free exempt f
    then rest
    else if field_differs sv before doc f
    then some (
        with_title_key (validation "{0} cannot be changed after submission" (f.label ∷ []))
          "Submitted document")
    else rest

unfoldable pub check_allow_on_submit :
    Services → Session → Meta → Document → Document → Option Error
check_allow_on_submit sv c d before doc =
    locked_fields sv (exempt_fields sv c d doc) before doc d.fields

unfoldable pub check_set_once :
    Services → MetaField → (String → String) → (String → String) → Option Error
check_set_once sv f stored v =
    if str_eq (sv.cast f stored) ""
    then none
    else if is_changed sv f stored v
    then some (validation "{0} cannot be changed once set" (f.label ∷ []))
    else none

abbrev pub first_of : Option Error → Option Error → Option Error
first_of (some e) next = some e
first_of none next = next

unfoldable pub set_once_fields :
    Services → List MetaField → (String → String) → (String → String) → Option Error
set_once_fields sv [] stored v = none
set_once_fields sv (f ∷ fields) stored v =
    let rest = set_once_fields sv fields stored v in
    if f.set_only_once then first_of (check_set_once sv f stored v) rest else rest

-- stored[id], the last row that has the id
abbrev pub stored_row : String → List Row → Option Row
stored_row id [] = none
stored_row id (r ∷ rows) =
    let rest = stored_row id rows in
    if is_some rest then rest else if str_eq r.id id then some r else none

abbrev pub row_set_once : Services → List MetaField → Option Row → Row → Option Error
row_set_once sv fields none r = none
row_set_once sv fields (some prev) r =
    if str_eq r.id "" then none else set_once_fields sv fields prev.str r.str

abbrev pub rows_set_once : Services → List MetaField → List Row → List Row → Option Error
rows_set_once sv fields stored [] = none
rows_set_once sv fields stored (r ∷ rows) =
    first_of (row_set_once sv fields (stored_row r.id stored) r)
      (rows_set_once sv fields stored rows)

abbrev pub table_set_once : Services → Result Meta → List Row → List Row → Option Error
table_set_once sv (err e) stored rows = none
table_set_once sv (ok child) stored rows =
    if any (λ f. f.set_only_once) child.fields
    then rows_set_once sv child.fields stored rows
    else none

abbrev pub is_table_field : MetaField → Bool
is_table_field f = elim f.kind [ table_field ↦ true | _ ↦ false ]

unfoldable pub tables_set_once : Services → List MetaField → Document → Document → Option Error
tables_set_once sv [] before doc = none
tables_set_once sv (f ∷ fields) before doc =
    let rest = tables_set_once sv fields before doc in
    if is_table_field f
    then first_of
        (table_set_once sv (sv.doctype f.options) (before.rows f.fieldname) (doc.rows f.fieldname))
        rest
    else rest

unfoldable pub check_set_only_once : Services → Meta → Document → Document → Option Error
check_set_only_once sv d before doc =
    first_of (set_once_fields sv d.fields before.str doc.str)
      (tables_set_once sv d.fields before doc)
