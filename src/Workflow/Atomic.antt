-- ===== src/Workflow/Atomic.antt =====
-- The savepoint of a transition with a comment, in ApplyWorkflow of internal/engine/workflow.go.
use ddcore.Common.{
  ◌≡◌, refl, sym, ap, subst, String, Bool, true, false, not, Option, none, some, if◌then◌else◌,
  str_eq, inl, inr, ◌⊎◌,
}
use ddcore.Cerr.{Error, Result, ok, err}
use ddcore.Workflow.{
  Doc, Transition, Workflow, Caller, current_state, role_allows, is_self_approval,
}
use ddcore.Workflow.Apply.{
  Services, WorkflowAction, matched, refusal, condition_refusal, answer_refusal, blank,
  run_transition, found, locked, apply_workflow, permitted, action_of, commented, comment_refusal,
  committed, given, moved, with_savepoint, write,
}

module _ {S : Type 0} (svc : Services S) where
  -- the state that a refused or failed call may leave
  abbrev pub IsUnchanged : S → S → Type 0
  IsUnchanged s s' = (s' ≡ s) ⊎ ((wa : WorkflowAction) × (s' ≡ svc.audit_denied wa s))

  savepoint-err :
      (s s' : S) (o : S × Result Doc) (e : Error) → with_savepoint s o ≡ (s', err e) → s' ≡ s
  unfolding with_savepoint
  savepoint-err s s' (t, ok d) e h = absurd (cc h)
  savepoint-err s s' (t, err d) e h = cc

  committed-err :
      (wa : WorkflowAction) (doc : Doc) (s s' : S) (e : Error)
      → blank wa.comment ≡ false
      → committed svc wa doc s ≡ (s', err e)
      → s' ≡ s
  unfolding committed
  committed-err wa doc s s' e k h = savepoint-err s s' (write svc wa doc s) e (rw k at h)

  guards-some :
      {A : Type 0} (a b : Bool) (x y z : A) (r : Option A)
      → (if not a then some x else if b then some y else r) ≡ some z
      → (z ≡ x) ⊎ (z ≡ y) ⊎ (r ≡ some z)
  guards-some false b x y z r h = inl (cc h)
  guards-some true true x y z r h = inr (inl (cc h))
  guards-some true false x y z r h = inr (inr h)

  answered-some :
      (b : Bool) (o : Result Bool) (wa : WorkflowAction) (s s' : S) (e : Error)
      → (if b then answer_refusal svc o wa s else none) ≡ some (s', e)
      → IsUnchanged s s'
  answered-some false o wa s s' e h = absurd (cc h)
  answered-some true (ok true) wa s s' e h = absurd (cc h)
  answered-some true (ok false) wa s s' e h = inr (wa, cc h)
  answered-some true (err f) wa s s' e h = inl (cc h)

  refusal-IsUnchanged :
      (c : Caller) (wa : WorkflowAction) (tr : Transition) (doc : Doc) (s s' : S) (e : Error)
      → refusal svc c wa tr doc s ≡ some (s', e)
      → IsUnchanged s s'
  unfolding refusal
  refusal-IsUnchanged c wa tr doc s s' e h =
      elim (guards-some (role_allows c tr) (is_self_approval c tr doc) _ _ (s', e)
        (condition_refusal svc wa tr doc s) h) [
          | inl k ↦ inr (wa, ap (λ p. p.0) k)
          | inr (inl k) ↦ inr (wa, ap (λ p. p.0) k)
          | inr (inr k) ↦ answered-some tr.has_condition (svc.condition tr.index doc) wa s s' e k
        ]

  permitted-IsUnchanged :
      (r : Option (S × Error)) (run : S → S × Result Doc) (s s' : S) (e : Error)
      → ((t : S) (f : Error) → r ≡ some (t, f) → IsUnchanged s t)
      → (run s ≡ (s', err e) → IsUnchanged s s')
      → permitted svc r run s ≡ (s', err e)
      → IsUnchanged s s'
  permitted-IsUnchanged none run s s' e g k h = k h
  permitted-IsUnchanged (some (t, f)) run s s' e g k h =
      subst (λ x. IsUnchanged s x) (ap (λ p. p.0) h) (g t f refl)

  commented-IsUnchanged :
      (r : Option Error) (run : S → S × Result Doc) (s s' : S) (e : Error)
      → (run s ≡ (s', err e) → s' ≡ s)
      → commented svc r run s ≡ (s', err e)
      → IsUnchanged s s'
  commented-IsUnchanged none run s s' e k h = inl (k h)
  commented-IsUnchanged (some f) run s s' e k h = inl (sym (ap (λ p. p.0) h))

  module _ (c : Caller) (wf : Workflow) (doctype id action comment : String) where
    given-blank : str_eq comment "" ≡ false → blank (given comment) ≡ false
    given-blank k = rw k refl

    found-IsUnchanged :
        (doc : Doc) (o : Option Transition) (s s' : S) (e : Error)
        → str_eq comment "" ≡ false
        → found svc o c wf doctype id action comment doc s ≡ (s', err e)
        → IsUnchanged s s'
    unfolding run_transition
    found-IsUnchanged doc none s s' e k h = inl (sym (ap (λ p. p.0) h))
    found-IsUnchanged doc (some tr) s s' e k h =
        let from = current_state wf doc in
        let wa = action_of svc doctype id action tr from (given comment) in
        permitted-IsUnchanged
          (refusal svc c (action_of svc doctype id action tr from none) tr doc s)
          (commented svc (comment_refusal svc action tr comment)
            (committed svc wa (moved wf tr doc)))
          s s' e (refusal-IsUnchanged c (action_of svc doctype id action tr from none) tr doc s)
          (commented-IsUnchanged (comment_refusal svc action tr comment)
            (committed svc wa (moved wf tr doc)) s s' e
            (committed-err wa (moved wf tr doc) s s' e (given-blank k)))
          h

    locked-IsUnchanged :
        (o : Result Doc) (s s' : S) (e : Error)
        → str_eq comment "" ≡ false
        → locked svc o c wf doctype id action comment s ≡ (s', err e)
        → IsUnchanged s s'
    locked-IsUnchanged (err f) s s' e k h = inl (sym (ap (λ p. p.0) h))
    locked-IsUnchanged (ok doc) s s' e k h =
        found-IsUnchanged doc (matched (current_state wf doc) action wf.transitions) s s' e k h

    -- On a DocType with a workflow, an action with a comment that is not empty and that fails, whatever failed and after whichever write, leaves the
    -- database as it was, or with the audit row of a refusal as the one change.
    pub failed-IsUnchanged :
        (s s' : S) (e : Error)
        → str_eq comment "" ≡ false
        → apply_workflow svc c (some wf) doctype id action comment s ≡ (s', err e)
        → IsUnchanged s s'
    unfolding apply_workflow
    failed-IsUnchanged s s' e k h = locked-IsUnchanged (svc.get_for_update doctype id s) s s' e k h
