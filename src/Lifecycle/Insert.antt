-- ===== src/Lifecycle/Insert.antt =====
-- Insert of internal/engine/doc.go in the order of its guards, Save's choice between the two, and
-- Submit and Cancel.
use ddcore.Common.{
  String, Bool, true, false, not, ◌&&◌, ◌||◌, Option, none, some, [], ◌∷◌, if◌then◌else◌, str_eq,
  ◌==◌,
}
use ddcore.Cerr.{Error, ok, err, validation, permission}
use ddcore.Workflow.{Workflow, State, get_state}
use ddcore.Lifecycle.{
  Meta, at, Document, Run, ◌>>=◌, return, lift, refuse, unless, ask, Session, SaveOpts, Services,
}
use ddcore.Lifecycle.Save.{
  write_guard, is_server, no_permission, field_permissions_apply, validate, put, save_existing,
}

-- the initial state where the document names none
abbrev pub with_state : Workflow → Document → Document
with_state wf doc =
    if str_eq (doc.str wf.state_field) ""
    then record doc { str = λ k. if str_eq k wf.state_field then wf.initial_state else doc.str k }
    else doc

abbrev pub state_refusal : Bool → Meta → Workflow → Document → Option Error
state_refusal in_transition d wf doc =
    if not (str_eq (doc.str wf.state_field) "")
      && not (str_eq (doc.str wf.state_field) wf.initial_state)
      && not in_transition
    then some (
        validation "New {0} must start in initial workflow state '{1}'"
          (d.name ∷ wf.initial_state ∷ []))
    else none

abbrev pub status_refusal : Bool → Meta → Workflow → Option State → Document → Option Error
status_refusal in_transition d wf none doc = none
status_refusal in_transition d wf (some st) doc =
    if not (doc.docstatus == st.docstatus) && not in_transition
    then some (
        validation "New {0} must start with the docstatus of initial workflow state '{1}'"
          (d.name ∷ wf.initial_state ∷ []))
    else none

unfoldable pub start_workflow : Bool → Option (String × Workflow) → Meta → Document → Run Document
start_workflow in_transition none d doc = return doc
start_workflow in_transition (some (name, wf)) d doc = do
  _ ← refuse (state_refusal in_transition d wf doc)
  _ ←
      refuse (
        status_refusal in_transition d wf (get_state wf.initial_state wf.states)
          (with_state wf doc))
  return (with_state wf doc)

module _ (sv : Services) (c : Session) where
  abbrev pub no_create : Meta → Error
  no_create d =
      if d.is_single
      then no_permission sv c "write" d "singleton"
      else permission "No permission to create {0}" (d.label ∷ [])

  abbrev pub create_ptype : Meta → String
  create_ptype d = if d.is_single then "write" else "create"

  -- a docstatus of 1 takes the right to submit; any other than 0 is refused
  abbrev pub submit_right : SaveOpts → Meta → Document → Run (Unit {0})
  submit_right opts d doc =
      let asked =
        ask (sv.permitted d "submit" doc)
          (permission "No permission to submit {0}" (d.label ∷ [])) in
      if doc.docstatus == 1 && d.submittable
      then (if is_server sv c opts then return tt else asked)
      else refuse (unless (doc.docstatus == 0) (validation "Invalid docstatus for an insert" []))

  abbrev pub create_right : SaveOpts → Meta → Document → Run (Unit {0})
  create_right opts d doc =
      let asked = ask (sv.permitted d (create_ptype d) doc) (no_create d) in
      if is_server sv c opts then return tt else asked

  unfoldable pub open_insert : Meta → Document → SaveOpts → Run Document
  open_insert d doc opts = do
    _ ← refuse (unless (not d.is_child) (validation "{0} is a child table" (d.name ∷ [])))
    _ ← refuse (sv.space_refusal d true (is_server sv c opts))
    _ ← refuse (
        unless (not (str_eq d.name "Audit Event"))
          (permission "Audit Event records are immutable and cannot be created directly" []))
    _ ← refuse (
        unless
          (not d.is_single
            || str_eq (sv.clean d doc none).id ""
            || str_eq (sv.clean d doc none).id "singleton")
          (validation "Invalid Single identity for {0}" (d.name ∷ [])))
    _ ← create_right opts d (sv.clean d doc none)
    _ ← submit_right opts d (sv.clean d doc none)
    start_workflow c.in_workflow_transition (sv.workflow_for d.name) d (sv.clean d doc none)

  abbrev pub with_field_base : Meta → Document → Run Document
  with_field_base d doc = do base ← lift (sv.field_base d doc); lift (sv.field_writes d base doc)

  abbrev pub born : Document → Document
  born doc = record doc {
    is_local = true;
    owner = c.user;
    creation = sv.sprint c.now;
    modified = at c.now;
    modified_by = c.user;
    docstatus = if doc.docstatus == 1 then 1 else 0;
  }

  abbrev pub if_submitted : String → Meta → Document → Run Document
  if_submitted event d doc =
      let submitted = sv.hook event d doc none in
      if doc.docstatus == 1 then submitted else return doc

  abbrev pub user_scope : Meta → Document → Run (Unit {0})
  user_scope d doc =
      let asked = ask (sv.user_permissions d doc) (no_create d) in
      if c.ignore_permissions then return tt else asked

  unfoldable pub prepare_insert : Meta → Document → SaveOpts → Run Document
  prepare_insert d doc opts = do
    fielded ←
        (let based = with_field_base d doc in
          if field_permissions_apply sv c d opts then based else return doc)
    _ ← refuse (sv.lock_tree d)
    hooked ← sv.hook "beforeInsert" d (born fielded) none
    named ← sv.set_id d hooked
    valid ← validate sv c d named none opts
    saved ← sv.hook "beforeSave" d valid none
    _ ← (λ s. refuse (sv.check_tree d saved none opts s) s)
    last ← if_submitted "beforeSubmit" d saved
    _ ← user_scope d last
    return last

  -- writeInsert
  unfoldable pub write_insert : Meta → Document → Run (Unit {0})
  write_insert d doc s = elim (sv.row_refusal d doc s) [
    | some e ↦ err e
    | none ↦ ok (tt, put sv c d doc s)
  ]

  unfoldable pub finish_insert : Meta → Document → Run Document
  finish_insert d doc = do
    _ ← write_insert d doc
    _ ← sv.write_rest d doc
    inserted ← sv.hook "afterInsert" d (record doc { is_local = false }) none
    updated ← sv.hook "onUpdate" d inserted none
    submitted ← if_submitted "onSubmit" d updated
    sv.announced d submitted.id none "insert"

  unfoldable pub insert : Document → SaveOpts → Run Document
  insert doc opts = do
    d ← lift (sv.doctype doc.doctype)
    _ ← write_guard sv c d
    opened ← open_insert d doc opts
    ready ← prepare_insert d opened opts
    finish_insert d ready

  unfoldable pub save : Document → SaveOpts → Run Document
  save doc opts =
      let inserted = insert doc opts in
      if doc.is_local || str_eq doc.id "" then inserted else do
        d ← lift (sv.doctype doc.doctype)
        _ ← write_guard sv c d
        save_existing sv c d doc opts

  abbrev pub plain_opts : SaveOpts
  plain_opts = record { ignore_permissions = false; ignore_version = false }

  unfoldable pub submit_document : Document → Run Document
  submit_document doc = save (record doc { docstatus = 1 }) plain_opts

  unfoldable pub cancel_document : Document → SaveOpts → Run Document
  cancel_document doc opts = do
    _ ←
        refuse
          (unless (doc.docstatus == 1) (validation "Only submitted documents can be cancelled" []))
    save (record doc { docstatus = 2 }) opts
