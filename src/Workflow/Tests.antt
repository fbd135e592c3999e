-- ===== src/Workflow/Tests.antt =====
-- A small approval workflow, over a database that counts its writes, and the theorems at it.
use ddcore.Common.{
  ℕ, suc, ◌+◌, ◌≡◌, refl, true, false, Option, none, some, [], ◌∷◌, str_eq, Has, if◌then◌else◌,
}
use ddcore.Cerr.{Error, Result, ok, err, internal}
use ddcore.Workflow.{
  is_available, Doc, Transition, Workflow, State, Caller, offer, available_workflow_actions,
}
use ddcore.Workflow.Apply.{
  moved, given, action_of, committed, matched, comment_refusal, Services, WorkflowAction,
  apply_workflow,
}
use ddcore.Workflow.Offered.{applied-Has}
use ddcore.Workflow.Complete.{offered-committed}
use ddcore.Workflow.Atomic.{IsUnchanged, failed-IsUnchanged}

abbrev approve : Transition
approve = record {
  index = 0;
  state = "Draft";
  action = "Approve";
  next_state = "Approved";
  allowed = "Manager" ∷ [];
  allow_self_approval = false;
  has_condition = true;
  require_comment = false;
}

abbrev approval : Workflow
approval = record {
  state_field = "state";
  initial_state = "Draft";
  states =
      record {
        name = "Approved";
        docstatus = 1;
        allow_edit = "";
        update_fields = ("paid", "0") ∷ [];
      }
      ∷ [];
  transitions = approve ∷ [];
}

abbrev draft : Doc
draft = record { docstatus = 0; str = λ k. if str_eq k "owner" then "ana" else "" }

abbrev manager : Caller
manager = record { user = "bia"; ignore_permissions = false; roles = "All" ∷ "Manager" ∷ [] }

-- `audits`: whether the audit row can be written
abbrev counting : Option Error → Services ℕ
counting audits = record {
  get_for_update = λ _ _ _. ok draft;
  condition = λ _ _. ok true;
  audit_denied = λ _ s. s + 100;
  save = λ _ doc s. (suc s, ok doc);
  audit = λ _ s. (suc s, audits);
  add_timeline_comment = λ _ s. (suc s, none);
  translate = λ t. t;
  number = λ _. "";
}

abbrev approved : Doc
approved = record {
  docstatus = 1;
  str = λ k. if str_eq k "paid" then "0" else if str_eq k "state" then "Approved" else draft.str k;
}

applies :
    apply_workflow (counting none) manager (some approval) "Order" "o1" "Approve" "fine" 0
    ≡ (3, ok approved)
unfolding apply_workflow ddcore.Workflow.Apply.matched ddcore.Workflow.Apply.run_transition
    ddcore.Workflow.Apply.refusal ddcore.Workflow.role_allows ddcore.Workflow.is_self_approval
    ddcore.Workflow.Apply.comment_refusal ddcore.Workflow.Apply.committed
    ddcore.Workflow.Apply.moved ddcore.Workflow.get_state
applies = refl

applied-Has_example :
    (doc : Doc) × (◌≡◌ {A = Result Doc} (ok draft) (ok doc))
    × ((tr : Transition) × (tr.action ≡ "Approve")
        × Has
            (offer tr)
            (available_workflow_actions (λ _ _. ok true) manager (some approval) (some doc)))
applied-Has_example =
    applied-Has (counting none) manager approval "Order" "o1" "Approve" "fine" 0 3 approved applies

audit_fails :
    apply_workflow
      (counting (some (internal "full" [])))
      manager
      (some approval)
      "Order"
      "o1"
      "Approve"
      "fine"
      0
    ≡ (0, err (internal "full" []))
unfolding apply_workflow ddcore.Workflow.Apply.matched ddcore.Workflow.Apply.run_transition
    ddcore.Workflow.Apply.refusal ddcore.Workflow.role_allows ddcore.Workflow.is_self_approval
    ddcore.Workflow.Apply.comment_refusal ddcore.Workflow.Apply.committed
audit_fails = refl

failed-IsUnchanged_example : IsUnchanged (counting (some (internal "full" []))) 0 0
failed-IsUnchanged_example =
    failed-IsUnchanged (counting (some (internal "full" []))) manager approval "Order" "o1"
      "Approve" "fine" 0 0 (internal "full" []) refl audit_fails

is_offered : is_available (λ _ _. ok true) manager approval draft approve ≡ true
unfolding is_available ddcore.Workflow.role_allows ddcore.Workflow.is_self_approval
is_offered = refl

fine_comment : comment_refusal (counting none) "Approve" approve "fine" ≡ none
unfolding comment_refusal
fine_comment = refl

is_matched : matched "Draft" "Approve" approval.transitions ≡ some approve
unfolding matched
is_matched = refl

offered-committed_example :
    apply_workflow (counting none) manager (some approval) "Order" "o1" "Approve" "fine" 0
    ≡ committed
        (counting none)
        (action_of (counting none) "Order" "o1" "Approve" approve "Draft" (given "fine"))
        (moved approval approve draft)
        0
offered-committed_example =
    offered-committed (counting none) manager approval "Order" "o1" "Approve" "fine" draft approve 0
      refl is_matched is_offered fine_comment
