-- ===== src/Workflow/Complete.antt =====
-- AvailableWorkflowActions against ApplyWorkflow, of internal/engine/workflow.go.
use ddcore.Common.{
  ◌≡◌, refl, ap, ◌∙◌, String, Bool, true, false, not, ◌&&◌, Option, none, some, if◌then◌else◌,
  str_eq, &&-true,
}
use ddcore.Cerr.{Result, ok, err}
use ddcore.Workflow.{
  Doc, Transition, Workflow, Caller, current_state, role_allows, is_self_approval, condition_met,
  is_available,
}
use ddcore.Workflow.Apply.{
  Services, WorkflowAction, matched, refusal, answer_refusal, condition_refusal, run_transition,
  found, locked, apply_workflow, permitted, action_of, commented, comment_refusal, committed, given,
  moved,
}

guards-pass :
    {A : Type 0} (a b : Bool) (x y : A) (r : Option A)
    → a ≡ true
    → not b ≡ true
    → r ≡ none
    → (if not a then some x else if b then some y else r) ≡ none
guards-pass true false x y r h k e = e
guards-pass true true x y r h k e = absurd (cc k)
guards-pass false b x y r h k e = absurd (cc h)

answer-pass :
    {S : Type 0} (svc : Services S) (b : Bool) (o : Result Bool) (wa : WorkflowAction) (s : S)
    → (if b then elim o [ ok x ↦ x | err e ↦ false ] else true) ≡ true
    → (if b then answer_refusal svc o wa s else none) ≡ none
answer-pass svc false o wa s h = refl
answer-pass svc true (ok true) wa s h = refl
answer-pass svc true (ok false) wa s h = absurd (cc h)
answer-pass svc true (err e) wa s h = absurd (cc h)

module _ {S : Type 0} (svc : Services S) (c : Caller) (wf : Workflow)
    (doctype id action comment : String) where
  available-unrefused :
      (doc : Doc) (tr : Transition) (wa : WorkflowAction) (s : S)
      → is_available svc.condition c wf doc tr ≡ true
      → refusal svc c wa tr doc s ≡ none
  unfolding is_available refusal
  available-unrefused doc tr wa s h =
      let here = str_eq tr.state (current_state wf doc) in
      let (h1, co) =
        &&-true (here && role_allows c tr && not (is_self_approval c tr doc))
          (condition_met svc.condition tr doc) h in
      let (h2, sa) = &&-true (here && role_allows c tr) (not (is_self_approval c tr doc)) h1 in
      let (st, r) = &&-true here (role_allows c tr) h2 in
      guards-pass (role_allows c tr) (is_self_approval c tr doc) _ _
        (condition_refusal svc wa tr doc s) r sa
        (answer-pass svc tr.has_condition (svc.condition tr.index doc) wa s co)

  -- If the transition that an action names in the document's state is one that is offered for the
  -- document, and the comment is there where one is required and not too long, ApplyWorkflow
  -- refuses nothing: it is the write of the document in its next state.
  pub offered-committed :
      (doc : Doc) (tr : Transition) (s : S)
      → svc.get_for_update doctype id s ≡ ok doc
      → matched (current_state wf doc) action wf.transitions ≡ some tr
      → is_available svc.condition c wf doc tr ≡ true
      → comment_refusal svc action tr comment ≡ none
      → apply_workflow svc c (some wf) doctype id action comment s
        ≡ committed svc
            (action_of svc doctype id action tr (current_state wf doc) (given comment))
            (moved wf tr doc)
            s
  unfolding apply_workflow run_transition
  offered-committed doc tr s g m a k =
      let from = current_state wf doc in
      let u = available-unrefused doc tr (action_of svc doctype id action tr from none) s a in
      ap (λ o. locked svc o c wf doctype id action comment s) g
      ∙ (ap (λ o. found svc o c wf doctype id action comment doc s) m
          ∙ (ap
                (λ o.
                  permitted svc o
                    (commented svc (comment_refusal svc action tr comment) (
                      committed svc (action_of svc doctype id action tr from (given comment))
                        (moved wf tr doc)))
                    s)
                u
              ∙ ap
                  (λ o.
                    commented svc o
                      (committed svc (action_of svc doctype id action tr from (given comment))
                        (moved wf tr doc))
                      s)
                  k))
