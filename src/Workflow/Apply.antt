-- ===== src/Workflow/Apply.antt =====
-- ApplyWorkflow of internal/engine/workflow.go, and WithSavepoint and BestEffort of
-- internal/engine/engine.go. A comment is given trimmed. The savepoint statements succeed: the
-- model leaves out that taking or releasing one can fail.
use ddcore.Common.{
  ℕ, String, Bool, true, false, not, ◌&&◌, Option, none, some, List, [], ◌∷◌, if◌then◌else◌, str_eq,
  find, ltb, length,
}
use ddcore.Text.{codes}
use ddcore.Cerr.{Error, Result, ok, err, validation, permission}
use ddcore.Workflow.{
  Doc, set_field, Transition, Workflow, get_state, Caller, current_state, role_allows,
  is_self_approval,
}

-- the transition that a write is part of
pub record WorkflowAction : Type 0 where
  pub action : String
  pub from : String
  pub to : String
  pub comment : Option String
  pub doctype : String
  pub id : String

-- workflowActionOn: the action, for the document that it is about
unfoldable pub workflow_action_on : Option WorkflowAction → String → String → Option WorkflowAction
workflow_action_on none doctype id = none
workflow_action_on (some a) doctype id =
    if str_eq a.doctype doctype && str_eq a.id id then some a else none

-- What the handler calls, over the states S of the database: a statement that fails may have
-- written something, so it answers with the state it leaves. `audit_denied` writes outside the
-- transaction and never fails the caller. `number` prints an int as an argument of a message.
pub record Services (S : Type 0) : Type 0 where
  pub get_for_update : String → String → S → Result Doc
  pub condition : ℕ → Doc → Result Bool
  pub audit_denied : WorkflowAction → S → S
  pub save : WorkflowAction → Doc → S → S × Result Doc
  pub audit : WorkflowAction → S → S × Option Error
  pub add_timeline_comment : WorkflowAction → S → S × Option Error
  pub translate : String → String
  pub number : ℕ → String

abbrev pub max_workflow_comment : ℕ
max_workflow_comment = 2000

module _ {S A : Type 0} where
  -- WithSavepoint: an error rolls the state back to where it was
  unfoldable pub with_savepoint : S → S × Result A → S × Result A
  with_savepoint s (s', ok a) = (s', ok a)
  with_savepoint s (s', err e) = (s, err e)

module _ {S : Type 0} where
  -- BestEffort: a failure is rolled back and forgotten
  unfoldable pub best_effort : S → S × Option Error → S
  best_effort s (s', none) = s'
  best_effort s (s', some e) = s

-- the transition that the action names in the state, the first of them
unfoldable pub matched : String → String → List Transition → Option Transition
matched state action trs = find (λ tr. str_eq tr.state state && str_eq tr.action action) trs

abbrev pub write_fields : List (String × String) → Doc → Doc
write_fields [] doc = doc
write_fields ((k, v) ∷ kvs) doc = write_fields kvs (set_field k v doc)

-- step 7: the document as it is saved
unfoldable pub moved : Workflow → Transition → Doc → Doc
moved wf tr doc =
    let at_next = set_field wf.state_field tr.next_state doc in
    elim (get_state tr.next_state wf.states) [
      | none ↦ at_next
      | some st ↦ record (write_fields st.update_fields at_next) { docstatus = st.docstatus }
    ]

abbrev pub blank : Option String → Bool
blank none = true
blank (some c) = false

abbrev pub given : String → Option String
given comment = if str_eq comment "" then none else some comment

module _ {S : Type 0} (svc : Services S) where
  -- step 8: the timeline comment, a side effect where there is no reason to keep
  abbrev pub timeline : Doc → S × Option Error → S × Result Doc
  timeline saved (s, none) = (s, ok saved)
  timeline saved (s, some e) = (s, err e)

  abbrev pub after_audit : WorkflowAction → Doc → S × Option Error → S × Result Doc
  after_audit wa saved (s, some e) = (s, err e)
  after_audit wa saved (s, none) =
      if blank wa.comment
      then (best_effort s (svc.add_timeline_comment wa s), ok saved)
      else timeline saved (svc.add_timeline_comment wa s)

  abbrev pub after_save : WorkflowAction → S × Result Doc → S × Result Doc
  after_save wa (s, err e) = (s, err e)
  after_save wa (s, ok saved) = after_audit wa saved (svc.audit wa s)

  unfoldable pub write : WorkflowAction → Doc → S → S × Result Doc
  write wa doc s = after_save wa (svc.save wa doc s)

  -- with a comment the whole is one savepoint
  unfoldable pub committed : WorkflowAction → Doc → S → S × Result Doc
  unfolding write with_savepoint
  committed wa doc s =
      if blank wa.comment then write wa doc s else with_savepoint s (write wa doc s)

  -- steps 3 to 5: `none` where the transition may run, or the refusal and the state it leaves
  abbrev pub answer_refusal : Result Bool → WorkflowAction → S → Option (S × Error)
  answer_refusal (err e) wa s = some (s, e)
  answer_refusal (ok true) wa s = none
  answer_refusal (ok false) wa s =
      some (
        svc.audit_denied wa s,
        validation "Condition for action '{0}' was not met" (wa.action ∷ []),
      )

  abbrev pub condition_refusal : WorkflowAction → Transition → Doc → S → Option (S × Error)
  condition_refusal wa tr doc s =
      let asked = answer_refusal (svc.condition tr.index doc) wa s in
      if tr.has_condition then asked else none

  unfoldable pub refusal : Caller → WorkflowAction → Transition → Doc → S → Option (S × Error)
  refusal c wa tr doc s =
      let rest = condition_refusal wa tr doc s in
      if not (role_allows c tr)
      then some (
        svc.audit_denied wa s,
        permission "No permission to execute action '{0}' on {1} {2}"
            (wa.action ∷ wa.doctype ∷ wa.id ∷ []),
      )
      else if is_self_approval c tr doc
      then some (
        svc.audit_denied wa s,
        permission "Self-approval is not allowed for action '{0}' on {1} {2}"
            (wa.action ∷ wa.doctype ∷ wa.id ∷ []),
      )
      else rest

  -- step 6
  unfoldable pub comment_refusal : String → Transition → String → Option Error
  comment_refusal action tr comment =
      let n = length (codes comment) in
      if tr.require_comment && str_eq comment ""
      then some (validation "Action '{0}' requires a comment" (svc.translate action ∷ []))
      else if ltb max_workflow_comment n
      then some (
          validation "The comment is too long: {0} characters, at most {1}"
            (svc.number n ∷ svc.number max_workflow_comment ∷ []))
      else none

  -- the action as the refusals record it, without its comment, and as the writes do
  abbrev pub action_of :
      String → String → String → Transition → String → Option String → WorkflowAction
  action_of doctype id action tr from comment = record {
    action = action;
    from = from;
    to = tr.next_state;
    comment = comment;
    doctype = doctype;
    id = id;
  }

  abbrev pub commented : Option Error → (S → S × Result Doc) → S → S × Result Doc
  commented (some e) run s = (s, err e)
  commented none run s = run s

  abbrev pub permitted : Option (S × Error) → (S → S × Result Doc) → S → S × Result Doc
  permitted (some (s', e)) run s = (s', err e)
  permitted none run s = run s

  unfoldable pub run_transition :
      Caller → Workflow → String → String → String → Transition → Doc → String → S → S × Result Doc
  run_transition c wf doctype id action tr doc comment s =
      let from = current_state wf doc in
      permitted (refusal c (action_of doctype id action tr from none) tr doc s)
        (commented (comment_refusal action tr comment)
          (committed (action_of doctype id action tr from (given comment)) (moved wf tr doc)))
        s

  abbrev pub found :
      Option Transition
      → Caller
      → Workflow
      → String
      → String
      → String
      → String
      → Doc
      → S
      → S × Result Doc
  found none c wf doctype id action comment doc s = (
    s,
    err (
        validation "Action '{0}' is not valid for {1} {2} in state '{3}'"
          (action ∷ doctype ∷ id ∷ current_state wf doc ∷ [])),
  )
  found (some tr) c wf doctype id action comment doc s =
      run_transition c wf doctype id action tr doc comment s

  abbrev pub locked :
      Result Doc → Caller → Workflow → String → String → String → String → S → S × Result Doc
  locked (err e) c wf doctype id action comment s = (s, err e)
  locked (ok doc) c wf doctype id action comment s =
      found (matched (current_state wf doc) action wf.transitions) c wf doctype id action comment
        doc s

  unfoldable pub apply_workflow :
      Caller → Option Workflow → String → String → String → String → S → S × Result Doc
  apply_workflow c none doctype id action comment s =
      (s, err (validation "No workflow configured for {0}" (doctype ∷ [])))
  apply_workflow c (some wf) doctype id action comment s =
      locked (svc.get_for_update doctype id s) c wf doctype id action comment s
