-- ===== src/Lifecycle/Started.antt =====
-- What Insert, of internal/engine/doc.go, has checked once a new document is stored.
use ddcore.Common.{ℕ, ◌≡◌, refl, Bool, true, none, some, inl, inr, ◌⊎◌, str_eq, Bool-cases}
use ddcore.Cerr.{ok}
use ddcore.Workflow.{Workflow, State, get_state}
use ddcore.Lifecycle.{Document, Meta, Db, Session, SaveOpts, Services}
use ddcore.Lifecycle.Save.{is_server}
use ddcore.Lifecycle.Insert.{create_ptype, with_state}

-- the document is in the state that the workflow starts in
pub record IsStarted (wf : Workflow) (doc : Document) : Type 0 where
  pub state : doc.str wf.state_field ≡ wf.initial_state
  pub status :
      (st : State) → get_state wf.initial_state wf.states ≡ some st → doc.docstatus ≡ st.docstatus

with_state_status : (wf : Workflow) (doc : Document) → (with_state wf doc).docstatus ≡ doc.docstatus
with_state_status wf doc = elim (Bool-cases (str_eq (doc.str wf.state_field) "")) [
  | inl e ↦ rw e refl
  | inr e ↦ rw e refl
]

-- a draft, or a submitted document of a DocType that can be
abbrev pub StartsAs : Bool → ℕ → Type 0
StartsAs submittable status = (status ≡ 0) ⊎ ((status ≡ 1) × (submittable ≡ true))

module _ (sv : Services) (c : Session) (d : Meta) (doc : Document) (opts : SaveOpts) where
  -- the document as Insert reads it
  abbrev pub given : Document
  given = sv.clean d doc none

  pub record IsAllowed (s : Db) : Type 0 where
    pub starts : StartsAs d.submittable given.docstatus
    pub created :
        (is_server sv c opts ≡ true) ⊎ (sv.permitted d (create_ptype sv c d) given s ≡ ok true)
    pub submitted :
        (is_server sv c opts ≡ true)
        ⊎ (given.docstatus ≡ 0)
        ⊎ (sv.permitted d "submit" given s ≡ ok true)
