-- ===== src/Workflow.antt =====
-- Workflows: internal/engine/workflow.go, and the state lookup of internal/js/workflows.go. The
-- model stands inside a transaction (ApplyWorkflow opens one if there is none). A document's
-- fields are read as Doc.Str prints them; the docstatus is a number beside them. The database,
-- the runtime that evaluates conditions, and Save are a record of services; that the
-- runtime itself cannot be had is left out.
pub mod Apply
pub mod Offered
pub mod Atomic
pub mod Complete
mod Tests
use ddcore.Common.{
  ℕ, String, Bool, true, false, not, ◌&&◌, ◌||◌, Option, none, some, List, [], ◌∷◌, if◌then◌else◌,
  str_eq, any, find,
}
use ddcore.Cerr.{Error, Result, ok, err}

pub record Doc : Type 0 where
  pub docstatus : ℕ
  pub str : String → String

abbrev pub set_field : String → String → Doc → Doc
set_field k v doc = record doc { str = λ key. if str_eq key k then v else doc.str key }

pub record Transition : Type 0 where
  pub index : ℕ
  pub state : String
  pub action : String
  pub next_state : String
  pub allowed : List String
  pub allow_self_approval : Bool
  pub has_condition : Bool
  pub require_comment : Bool

-- `update_fields`: the pairs of a map, without one for docstatus, which the code writes after them
pub record State : Type 0 where
  pub name : String
  pub docstatus : ℕ
  pub allow_edit : String
  pub update_fields : List (String × String)

pub record Workflow : Type 0 where
  pub state_field : String
  pub initial_state : String
  pub states : List State
  pub transitions : List Transition

-- GetState
unfoldable pub get_state : String → List State → Option State
get_state name states = find (λ s. str_eq s.name name) states

pub record Caller : Type 0 where
  pub user : String
  pub ignore_permissions : Bool
  pub roles : List String

-- HasRole
unfoldable pub has_role : List String → String → Bool
has_role roles role = any (λ r. str_eq r role) roles

abbrev pub current_state : Workflow → Doc → String
current_state wf doc = let s = doc.str wf.state_field in if str_eq s "" then wf.initial_state else s

unfoldable pub role_allows : Caller → Transition → Bool
unfolding has_role
role_allows c tr =
    str_eq c.user "Admin" || c.ignore_permissions || any (has_role c.roles) tr.allowed

unfoldable pub is_self_approval : Caller → Transition → Doc → Bool
is_self_approval c tr doc =
    not tr.allow_self_approval && str_eq (doc.str "owner") c.user && not (str_eq c.user "Admin")

pub record AvailableAction : Type 0 where
  pub action : String
  pub next_state : String
  pub require_comment : Bool

-- `condition`: the runtime's answer for a transition's index, or its failure
abbrev pub condition_met : (ℕ → Doc → Result Bool) → Transition → Doc → Bool
condition_met condition tr doc =
    if tr.has_condition then elim (condition tr.index doc) [ ok b ↦ b | err e ↦ false ] else true

unfoldable pub is_available : (ℕ → Doc → Result Bool) → Caller → Workflow → Doc → Transition → Bool
is_available condition c wf doc tr =
    str_eq tr.state (current_state wf doc)
    && role_allows c tr
    && not (is_self_approval c tr doc)
    && condition_met condition tr doc

abbrev pub offer : Transition → AvailableAction
offer tr = record {
  action = tr.action;
  next_state = tr.next_state;
  require_comment = tr.require_comment;
}

unfoldable pub offers :
    (ℕ → Doc → Result Bool) → Caller → Workflow → Doc → List Transition → List AvailableAction
offers condition c wf doc [] = []
offers condition c wf doc (tr ∷ trs) =
    let rest = offers condition c wf doc trs in
    if is_available condition c wf doc tr then offer tr ∷ rest else rest

-- `none`: no workflow, or no document
unfoldable pub available_workflow_actions :
    (ℕ → Doc → Result Bool) → Caller → Option Workflow → Option Doc → List AvailableAction
available_workflow_actions condition c none doc = []
available_workflow_actions condition c (some wf) none = []
available_workflow_actions condition c (some wf) (some doc) =
    offers condition c wf doc wf.transitions
