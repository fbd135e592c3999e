-- ===== src/Lifecycle/Tests.antt =====
-- An invoice that is inserted, changed, submitted and changed again.
use ddcore.Common.{
  ◌≡◌, ◌≢◌, refl, String, true, false, Option, none, some, [], ◌∷◌, str_eq, if◌then◌else◌, arith,
  ◌&&◌,
}
use ddcore.Cerr.{Result, ok, err}
use ddcore.Workflow.{Workflow}
use ddcore.Lifecycle.{
  value_field, MetaField, Meta, Row, at, Document, Db, Run, Session, SaveOpts, Services,
}
use ddcore.Lifecycle.Checks.{millisecond}
use ddcore.Lifecycle.Save.{save_existing, put}
use ddcore.Lifecycle.Admitted.{save_existing_stale}

abbrev number_field : MetaField
number_field = record {
  fieldname = "number";
  label = "Number";
  kind = value_field;
  options = "";
  allow_on_submit = false;
  set_only_once = true;
}

abbrev note_field : MetaField
note_field = record number_field {
  fieldname = "note";
  label = "Note";
  allow_on_submit = true;
  set_only_once = false;
}

abbrev invoice : Meta
invoice = record {
  name = "Invoice";
  label = "Invoice";
  is_child = false;
  is_single = false;
  tool = false;
  submittable = true;
  track_changes = false;
  fields = number_field ∷ note_field ∷ [];
}

abbrev approval : Workflow
approval = record { state_field = "state"; initial_state = "Open"; states = []; transitions = [] }

-- hooks that leave the document as it is
abbrev quiet : String → Meta → Document → Option Document → Run Document
quiet event d doc before s = ok (doc, s)

abbrev services : Services
services = record {
  doctype = λ _. ok invoice;
  workflow_for = λ _. none;
  check_writable = λ _. none;
  refuse_virtual = λ _. none;
  space_refusal = λ _ _ _. none;
  lock_tree = λ _. none;
  clean = λ _ doc _. doc;
  permitted = λ _ _ _ _. ok true;
  in_scope = λ _ _ _ _. ok true;
  user_permissions = λ _ _ _. ok true;
  has_restricted_fields = λ _. false;
  field_base = λ _ doc. ok doc;
  field_writes = λ _ _ doc. ok doc;
  cast = λ f v. v f.fieldname;
  same_moment = λ _ _ _. false;
  same_rows = λ _ _ _. true;
  hook = quiet;
  checked = λ _ doc _ s. ok (doc, s);
  validated = λ _ doc _ s. ok (doc, s);
  check_tree = λ _ _ _ _ _. none;
  set_id = λ _ doc s. ok (record doc { id = "I1" }, s);
  row_refusal = λ _ _ _. none;
  write_rest = λ _ _ s. ok (tt, s);
  save_version = λ _ _ _ s. s;
  announced = λ d id _ _ s. elim (s d.name id) [
    | none ↦ err (ddcore.Cerr.not_found "" [])
    | some doc ↦ ok (doc, s)
  ];
  sprint = λ _. "n";
}

-- with the workflow in force
abbrev governed : Services
governed = record services { workflow_for = λ _. some ("Approval", approval) }

abbrev ana : Session
ana = record {
  user = "ana";
  ignore_permissions = false;
  in_workflow_transition = false;
  now = 9_000_000;
}

abbrev opts : SaveOpts
opts = record { ignore_permissions = false; ignore_version = false }

abbrev first : Document
first = record {
  doctype = "Invoice";
  id = "I1";
  docstatus = 0;
  modified = at 5_000_000;
  owner = "ana";
  creation = "";
  modified_by = "ana";
  is_local = false;
  str = λ k. if str_eq k "number" then "7" else "";
  rows = λ _. [];
}

abbrev noted : Document
noted = record first {
  str = λ k. if str_eq k "number" then "7" else if str_eq k "note" then "late" else "";
}

abbrev holding : Document → Db
holding doc name id = if str_eq name "Invoice" && str_eq id "I1" then some doc else none

abbrev written_as : Document → Document
written_as doc = record doc { modified = at 9_000_000; modified_by = "ana" }

abbrev saved : Document → Document → Document × Db
saved before doc = (written_as doc, put services ana invoice (written_as doc) (holding before))

abbrev submitted : Document
submitted = record first { docstatus = 1 }

abbrev noted_later : Document
noted_later = record noted { docstatus = 1 }

-- beforeSubmit runs after the last check: a number that was set is written anew
abbrev renumbers : String → Meta → Document → Option Document → Run Document
renumbers event d doc before s =
    ok (if str_eq event "beforeSubmit" then record doc { str = λ _. "8" } else doc, s)

abbrev stored_number : Result (Document × Db) → String
stored_number (err e) = ""
stored_number (ok (doc, s)) = doc.str "number"

renumbered :
    stored_number (
      save_existing
        (record services { hook = renumbers })
        ana
        invoice
        submitted
        opts
        (holding first))
    ≡ "8"
unfolding save_existing ddcore.Lifecycle.then_run ddcore.Lifecycle.Save.open_save
    ddcore.Lifecycle.refuse ddcore.Lifecycle.Save.get_doc_for_update ddcore.Lifecycle.lift
    ddcore.Lifecycle.Checks.status_action ddcore.Lifecycle.Checks.workflow_refusal
    ddcore.Lifecycle.ask ddcore.Lifecycle.Checks.is_stale ddcore.Lifecycle.Checks.same_time
    ddcore.Lifecycle.return ddcore.Lifecycle.Save.prepare_save
    ddcore.Lifecycle.Checks.check_set_only_once ddcore.Lifecycle.Checks.set_once_fields
    ddcore.Lifecycle.Checks.check_set_once ddcore.Lifecycle.Checks.tables_set_once
    ddcore.Lifecycle.Checks.check_allow_on_submit ddcore.Lifecycle.Save.finish_save
    ddcore.Lifecycle.Save.validate ddcore.Lifecycle.Save.write_update
renumbered = refl

abbrev opened_before : Document
opened_before = record noted { modified = at 4_000_000 }

save_existing_stale_example :
    save_existing services ana invoice opened_before opts (holding first) ≢ ok (saved first noted)
save_existing_stale_example =
    save_existing_stale services ana invoice opened_before opts (holding first) (saved first noted)
      first 5_000_000 4_000_000 refl refl refl (omega arith)

abbrev fresh : Document
fresh = record first { is_local = true }

abbrev inserted : Document
inserted = record first {
  modified = at 9_000_000;
  creation = "n";
  str = λ k. if str_eq k "state" then "Open" else first.str k;
}

abbrev no_documents : Db
no_documents _ _ = none

abbrev inserted_row : Document
inserted_row = record inserted { is_local = true }
