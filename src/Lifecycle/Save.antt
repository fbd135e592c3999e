-- ===== src/Lifecycle/Save.antt =====
-- Insert and Save of internal/engine/doc.go, in the order of their guards, and Submit and Cancel.
use ddcore.Common.{
  String, Bool, true, false, not, ◌&&◌, ◌||◌, Option, none, some, [], ◌∷◌, if◌then◌else◌, str_eq,
  ◌==◌,
}
use ddcore.Cerr.{Error, ok, err, validation, permission, timestamp, not_found}
use ddcore.Lifecycle.{
  Meta, Stamp, at, Document, Db, Run, ◌>>=◌, return, lift, refuse, unless, ask, Session, SaveOpts,
  Services,
}
use ddcore.Lifecycle.Checks.{
  Action, plain_save, submit, cancel, update_after_submit, status_action, is_plain, is_after_submit,
  ptype_of, is_stale, workflow_refusal, check_allow_on_submit, check_set_only_once,
}

unfoldable pub refuse_tool : Meta → Option Error
refuse_tool d =
    if d.tool then some (validation "{0} is a tool: nothing is saved" (d.label ∷ [])) else none

module _ (sv : Services) (c : Session) where
  unfoldable pub write_guard : Meta → Run (Unit {0})
  write_guard d = do
    _ ← refuse (sv.check_writable d.name)
    _ ← refuse (sv.refuse_virtual d)
    refuse (refuse_tool d)

  abbrev pub is_server : SaveOpts → Bool
  is_server opts = opts.ignore_permissions || c.ignore_permissions

  abbrev pub no_permission : String → Meta → String → Error
  no_permission ptype d id = permission "No permission ({0}) on {1} {2}" (ptype ∷ d.label ∷ id ∷ [])

  -- getDocForUpdate
  unfoldable pub get_doc_for_update : Meta → String → Run Document
  get_doc_for_update d id s = elim (s d.name id) [
    | none ↦ err (not_found "{0} {1} not found" (d.label ∷ id ∷ []))
    | some doc ↦ ok (doc, s)
  ]

  abbrev pub field_permissions_apply : Meta → SaveOpts → Bool
  field_permissions_apply d opts =
      not opts.ignore_permissions
      && not c.ignore_permissions
      && not c.in_workflow_transition
      && not (str_eq c.user "Admin")
      && sv.has_restricted_fields d

  unfoldable pub validate : Meta → Document → Option Document → SaveOpts → Run Document
  validate d doc before opts = do
    v ← sv.hook "beforeValidate" d doc before
    w ← sv.checked d v before
    x ← sv.hook "validate" d w before
    sv.validated d x opts

  -- a right on the document as it is, unless the write ignores permissions
  abbrev pub right_on : SaveOpts → Meta → String → Document → Run (Unit {0})
  right_on opts d ptype doc =
      let asked = ask (sv.permitted d ptype doc) (no_permission ptype d doc.id) in
      if opts.ignore_permissions || c.ignore_permissions || c.in_workflow_transition
      then return tt
      else asked

  abbrev pub scope_on : Meta → String → Document → Run (Unit {0})
  scope_on d ptype doc =
      let asked = ask (sv.in_scope d ptype doc) (no_permission ptype d doc.id) in
      if c.ignore_permissions then return tt else asked

  -- what the guards let through: the stored document, the one to write and what the save is
  pub record Opened : Type 0 where
    pub before : Document
    pub doc : Document
    pub action : Action

  unfoldable pub open_save : Meta → Document → SaveOpts → Run Opened
  open_save d doc opts = do
    _ ← refuse (sv.space_refusal d true (is_server opts))
    _ ← refuse (
        unless (not (str_eq d.name "Audit Event"))
          (permission "Audit Event records are immutable and cannot be modified" []))
    _ ← refuse (sv.lock_tree d)
    before ← get_doc_for_update d doc.id
    action ← lift (
        status_action sv.sprint d doc.id c.in_workflow_transition before.docstatus
          (sv.clean d doc (some before)).docstatus)
    _ ← refuse (
        unless (is_plain action || d.submittable)
          (validation "{0} is not submittable" (d.label ∷ [])))
    _ ← refuse (
        workflow_refusal c.in_workflow_transition (sv.workflow_for d.name) before
          (sv.clean d doc (some before)))
    _ ← right_on opts d (ptype_of action) before
    _ ← scope_on d (ptype_of action) before
    _ ← refuse (
        unless (not (is_stale (sv.clean d doc (some before)).modified before.modified)) (
          timestamp
            "The document was changed by someone else after you opened it. Reload and try again."
            []))
    return (record { before = before; doc = sv.clean d doc (some before); action = action })

  abbrev pub stamped : Document → Document → Document
  stamped before doc = record doc {
    owner = before.owner;
    creation = before.creation;
    modified = at c.now;
    modified_by = c.user;
  }

  abbrev pub after_submit_check : Meta → Action → Document → Document → Option Error
  after_submit_check d action before doc =
      let checked = check_allow_on_submit sv c d before doc in
      if is_after_submit action then checked else none

  abbrev pub last_hook : Meta → Action → Document → Document → Run Document
  last_hook d submit before doc = sv.hook "beforeSubmit" d doc (some before)
  last_hook d cancel before doc = sv.hook "beforeCancel" d doc (some before)
  last_hook d plain_save before doc = return doc
  last_hook d update_after_submit before doc = return doc

  -- the document after the hooks and the checks, as it will be written
  unfoldable pub prepare_save : Meta → Opened → SaveOpts → Run Document
  prepare_save d o opts = do
    doc ←
        (if field_permissions_apply d opts
          then lift (sv.field_writes d o.before (stamped o.before o.doc))
          else return (stamped o.before o.doc))
    _ ← refuse (after_submit_check d o.action o.before doc)
    _ ← refuse (check_set_only_once sv d o.before doc)
    valid ← validate d doc (some o.before) opts
    saved ← sv.hook "beforeSave" d valid (some o.before)
    _ ← refuse (after_submit_check d o.action o.before saved)
    _ ← refuse (check_set_only_once sv d o.before saved)
    last ← last_hook d o.action o.before saved
    _ ← (λ s. refuse (sv.check_tree d last (some o.before) opts s) s)
    _ ← scope_on d (ptype_of o.action) last
    return last

  abbrev pub put : Meta → Document → Db → Db
  put d doc s name id = if str_eq name d.name && str_eq id doc.id then some doc else s name id

  -- modified IS NOT DISTINCT FROM $n
  abbrev pub is_same_stamp : Stamp → Stamp → Bool
  is_same_stamp (at a) (at b) = a == b
  is_same_stamp (at a) _ = false
  is_same_stamp _ (at b) = false
  is_same_stamp _ _ = true

  abbrev pub is_current : Option Document → Stamp → Bool
  is_current none m = false
  is_current (some row) m = is_same_stamp row.modified m

  -- writeUpdate, a compare and swap on `modified`
  unfoldable pub write_update : Meta → Document → Stamp → Run (Unit {0})
  write_update d doc prev s =
      if is_current (s d.name doc.id) prev
      then ok (tt, put d doc s)
      else err (
          timestamp "{0} {1} was changed by someone else. Reload and try again."
            (d.label ∷ doc.id ∷ []))

  abbrev pub version : Meta → SaveOpts → Document → Document → Run (Unit {0})
  version d opts before doc s =
      ok (
        tt,
        if d.track_changes && not opts.ignore_version then sv.save_version d before doc s else s,
      )

  abbrev pub after_hooks : Meta → Action → Document → Document → Run Document
  after_hooks d submit before doc = do
    updated ← sv.hook "onUpdate" d doc (some before)
    sv.hook "onSubmit" d updated (some before)
  after_hooks d cancel before doc = sv.hook "onCancel" d doc (some before)
  after_hooks d update_after_submit before doc = sv.hook "onUpdateAfterSubmit" d doc (some before)
  after_hooks d plain_save before doc = sv.hook "onUpdate" d doc (some before)

  abbrev pub action_name : Action → String
  action_name plain_save = "save"
  action_name submit = "submit"
  action_name cancel = "cancel"
  action_name update_after_submit = "update_after_submit"

  -- the writes, and what follows them
  unfoldable pub finish_save : Meta → Opened → SaveOpts → Document → Run Document
  finish_save d o opts doc = do
    _ ← write_update d doc o.before.modified
    _ ← sv.write_rest d doc
    _ ← version d opts o.before doc
    done ← after_hooks d o.action o.before doc
    sv.announced d done.id (some o.before) (action_name o.action)

  unfoldable pub save_existing : Meta → Document → SaveOpts → Run Document
  save_existing d doc opts = do
    o ← open_save d doc opts
    ready ← prepare_save d o opts
    finish_save d o opts ready
