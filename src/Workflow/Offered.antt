-- ===== src/Workflow/Offered.antt =====
-- ApplyWorkflow against AvailableWorkflowActions, of internal/engine/workflow.go.
use ddcore.Common.{
  ℕ, ◌≡◌, refl, sym, ap, subst, String, Bool, true, false, not, ◌&&◌, Option, none, some, List, [],
  ◌∷◌, if◌then◌else◌, str_eq, eq_iff, find-Has, Has, Bool-cases, inl, inr, &&-true,
}
use ddcore.Cerr.{Error, Result, ok, err}
use ddcore.Workflow.{
  Doc, Transition, Workflow, Caller, current_state, role_allows, is_self_approval, condition_met,
  is_available, offer, offers, available_workflow_actions,
}
use ddcore.Workflow.Apply.{
  Services, WorkflowAction, matched, condition_refusal, answer_refusal, refusal, run_transition,
  found, locked, apply_workflow, permitted, action_of, commented, comment_refusal, committed, given,
  moved,
}

guards-none :
    {A : Type 0} (a b : Bool) (x y : A) (r : Option A)
    → (if not a then some x else if b then some y else r) ≡ none
    → (a ≡ true) × (b ≡ false) × (r ≡ none)
guards-none false b x y r h = absurd (cc h)
guards-none true true x y r h = absurd (cc h)
guards-none true false x y r h = (refl, refl, h)

answered-none :
    {S : Type 0} (svc : Services S) (b : Bool) (o : Result Bool) (wa : WorkflowAction) (s : S)
    → (if b then answer_refusal svc o wa s else none) ≡ none
    → (if b then elim o [ ok x ↦ x | err e ↦ false ] else true) ≡ true
answered-none svc false o wa s h = refl
answered-none svc true (ok true) wa s h = refl
answered-none svc true (ok false) wa s h = absurd (cc h)
answered-none svc true (err e) wa s h = absurd (cc h)

refusal-none :
    {S : Type 0} (svc : Services S) (c : Caller) (wa : WorkflowAction) (tr : Transition) (doc : Doc)
    (s : S)
    → refusal svc c wa tr doc s ≡ none
    → (role_allows c tr ≡ true)
      × (is_self_approval c tr doc ≡ false)
      × (condition_met svc.condition tr doc ≡ true)
unfolding refusal
refusal-none svc c wa tr doc s h =
    let (r, sa, co) =
      guards-none (role_allows c tr) (is_self_approval c tr doc) _ _
        (condition_refusal svc wa tr doc s) h in
    (r, sa, answered-none svc tr.has_condition (svc.condition tr.index doc) wa s co)

Has-offers :
    (condition : ℕ → Doc → Result Bool) (c : Caller) (wf : Workflow) (doc : Doc)
    (trs : List Transition) (wanted : Transition)
    → Has wanted trs
    → is_available condition c wf doc wanted ≡ true
    → Has (offer wanted) (offers condition c wf doc trs)
unfolding offers
Has-offers condition c wf doc [] wanted m a = absurd m
Has-offers condition c wf doc (t ∷ trs) wanted m a = elim m [
  | inl e ↦ rw (subst (λ x. is_available condition c wf doc x ≡ true) (sym e) a) (inl (ap offer e))
  | inr k ↦ elim (Bool-cases (is_available condition c wf doc t)) [
    | inl y ↦ rw y (inr (Has-offers condition c wf doc trs wanted k a))
    | inr n ↦ rw n (Has-offers condition c wf doc trs wanted k a)
  ]
]

module _ {S : Type 0} (svc : Services S) (c : Caller) (wf : Workflow)
    (doctype id action comment : String) where
  -- what an action that went through shows of the transition it found
  IsOffered : Doc → Type 0
  IsOffered doc =
      (tr : Transition) × (tr.action ≡ action)
      × Has (offer tr) (available_workflow_actions svc.condition c (some wf) (some doc))

  permitted-ok :
      (r : Option (S × Error)) (run : S → S × Result Doc) (s s' : S) (saved : Doc)
      → permitted svc r run s ≡ (s', ok saved)
      → r ≡ none
  permitted-ok none run s s' saved h = refl
  permitted-ok (some (t, e)) run s s' saved h = absurd (cc h)

  found-ok :
      (doc : Doc) (o : Option Transition) (s s' : S) (saved : Doc)
      → o ≡ matched (current_state wf doc) action wf.transitions
      → found svc o c wf doctype id action comment doc s ≡ (s', ok saved)
      → IsOffered doc
  unfolding IsOffered matched run_transition is_available available_workflow_actions
  found-ok doc none s s' saved o h = absurd (cc h)
  found-ok doc (some tr) s s' saved o h =
      let (m, q) =
        find-Has (λ t. str_eq t.state (current_state wf doc) && str_eq t.action action)
          wf.transitions tr (sym o) in
      let (st, act) =
        &&-true (str_eq tr.state (current_state wf doc)) (str_eq tr.action action) q in
      let none_refused =
        permitted-ok
          (refusal svc c (action_of svc doctype id action tr (current_state wf doc) none) tr doc s)
          (commented svc (comment_refusal svc action tr comment) (
            committed svc
              (action_of svc doctype id action tr (current_state wf doc) (given comment))
              (moved wf tr doc)))
          s s' saved h in
      let (r, sa, co) =
        refusal-none svc c (action_of svc doctype id action tr (current_state wf doc) none) tr doc s
          none_refused in
      (
        tr,
        (eq_iff tr.action action).0 act,
        Has-offers svc.condition c wf doc wf.transitions tr m (rw (st, r, sa, co) refl),
      )

  locked-ok :
      (o : Result Doc) (s s' : S) (saved : Doc)
      → locked svc o c wf doctype id action comment s ≡ (s', ok saved)
      → (doc : Doc) × (o ≡ ok doc) × IsOffered doc
  locked-ok (err e) s s' saved h = absurd (cc h)
  locked-ok (ok doc) s s' saved h = (
    doc,
    refl,
    found-ok doc (matched (current_state wf doc) action wf.transitions) s s' saved refl h,
  )

  -- If applying an action on a DocType with a workflow succeeds, the document as it was read and locked offers that action to
  -- the user: AvailableWorkflowActions lists a transition with this action for it.
  pub applied-Has :
      (s s' : S) (saved : Doc)
      → apply_workflow svc c (some wf) doctype id action comment s ≡ (s', ok saved)
      → (doc : Doc) × (svc.get_for_update doctype id s ≡ ok doc)
        × ((tr : Transition) × (tr.action ≡ action)
            × Has (offer tr) (available_workflow_actions svc.condition c (some wf) (some doc)))
  unfolding apply_workflow IsOffered
  applied-Has s s' saved h = locked-ok (svc.get_for_update doctype id s) s s' saved h
