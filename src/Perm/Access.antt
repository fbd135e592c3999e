-- ===== src/Perm/Access.antt =====
-- HasPermission, grantedBy and childPermission of internal/engine/perm.go.
use ddcore.Common.{
  ℕ, String, Bool, true, false, not, ◌&&◌, ◌||◌, Option, none, some, List, [], ◌∷◌, if◌then◌else◌,
  str_eq, ◌==◌,
}
use ddcore.Text.{equal_fold}
use ddcore.Cerr.{Result, ok, err}
use ddcore.Workflow.{Workflow, State, get_state, has_role}
use ddcore.Perm.{
  Field, DocType, field_of, is_table, contains, DocShare, grants, shareable, share_on,
  shared_with_doctype, role_grant,
}
use ddcore.Perm.Fields.{FieldAccess, can_read}
use ddcore.Perm.Scopes.{
  Doc, str, UserPerm, Site, and_also, or_else, unless_refused, refused_to_scoped_user,
  check_user_permissions, check_user_permissions_for, scope_allows, overridden,
}

-- What the user brings. `portal`: portalAllows, in portal mode; `controller`: the answer of the
-- DocType's hasPermission hook in the JS runtime.
pub record Ctx : Type 0 where
  pub user : String
  pub ignore_permissions : Bool
  pub in_workflow_transition : Bool
  pub roles : Result (List String)
  pub shares : Result (List DocShare)
  pub perms : Result (List UserPerm)
  pub portal : Option (String → String → Option Doc → Result Bool)
  pub workflow_for : String → Option Workflow
  pub controller : String → Option Doc → String → String → Result String

abbrev pub elevated : Ctx → Bool
elevated c = str_eq c.user "Admin" || c.ignore_permissions

abbrev pub owned : Ctx → Option Doc → Bool
owned c none = true
owned c (some dc) = str_eq (str dc "owner") c.user

-- a share in place of a role row
abbrev pub shared : (ℕ → ℕ) → Result (List DocShare) → DocType → String → Option Doc → Result Bool
shared fold (err e) d ptype dc = err e
shared fold (ok shares) d ptype none = ok (shared_with_doctype fold shares d.name ptype)
shared fold (ok shares) d ptype (some dc) = elim (share_on fold shares d.name (str dc "id")) [
  | none ↦ ok false
  | some s ↦ ok (grants s ptype)
]

abbrev pub by_roles :
    (ℕ → ℕ) → Ctx → Result (List String) → DocType → String → Option Doc → Result Bool
by_roles fold c (err e) d ptype dc = err e
by_roles fold c (ok roles) d ptype dc =
    let (allowed, owner_only) = role_grant fold d roles ptype in
    let stand_in = shared fold c.shares d ptype dc in
    if allowed && (not owner_only || owned c dc)
    then ok true
    else if shareable ptype
    then stand_in
    else ok false

unfoldable pub granted_by : (ℕ → ℕ) → Ctx → DocType → String → Option Doc → Result Bool
granted_by fold c d ptype dc = elim c.portal [
  | some portal_allows ↦ portal_allows d.name ptype dc
  | none ↦ by_roles fold c c.roles d ptype dc
]

-- workflowStateAllowsEdit; roles that cannot be read are no roles
abbrev pub state_allows_edit : Result (List String) → State → Bool
state_allows_edit (err e) st = str_eq st.allow_edit ""
state_allows_edit (ok roles) st = str_eq st.allow_edit "" || has_role roles st.allow_edit

abbrev pub workflow_edits : Ctx → Option Workflow → Doc → Bool
workflow_edits c none dc = true
workflow_edits c (some wf) dc =
    let s = str dc wf.state_field in
    elim (get_state (if str_eq s "" then wf.initial_state else s) wf.states) [
      | none ↦ true
      | some st ↦ state_allows_edit c.roles st
    ]

unfoldable pub workflow_allows : Ctx → String → String → Option Doc → Bool
workflow_allows c doctype ptype none = true
workflow_allows c doctype ptype (some dc) =
    if str_eq ptype "write" && not c.in_workflow_transition
    then workflow_edits c (c.workflow_for doctype) dc
    else true

abbrev pub controller_answer : Result String → Result Bool
controller_answer (err e) = err e
controller_answer (ok r) = ok (not (str_eq r "false"))

unfoldable pub controller_allows : Ctx → DocType → String → Option Doc → Result Bool
controller_allows c d ptype dc =
    let asked = controller_answer (c.controller d.name dc ptype c.user) in
    if d.has_controller then asked else ok true

abbrev pub scope_admits : Site → Ctx → DocType → String → Option Doc → Result Bool
scope_admits site c d ptype none = ok true
scope_admits site c d ptype (some dc) = scope_allows site (elevated c) c.perms c.shares d dc ptype

-- HasPermission on a DocType that is not a child, of a user who is not elevated
unfoldable pub own_permission : Site → Ctx → DocType → String → Option Doc → Result Bool
own_permission site c d ptype dc = and_also (granted_by site.fold c d ptype dc) (
    and_also (ok (workflow_allows c d.name ptype dc))
      (and_also (controller_allows c d ptype dc) (scope_admits site c d ptype dc)))

-- HasPermission on a DocType that is known and not a child
unfoldable pub parent_permission : Site → Ctx → DocType → String → Option Doc → Result Bool
parent_permission site c d ptype dc =
    if elevated c
    then ok true
    else unless_refused (refused_to_scoped_user c.perms d.name) (own_permission site c d ptype dc)

-- The rows of the tables as childPermission reads them: of a document without its rows, and with
-- them; a read that finds nothing is `ok none`. `parents_allowing` tells whether some DocType
-- that embeds the child gives the right; `access` is FieldAccess.
pub record Reads : Type 0 where
  pub get_row : String → String → Result (Option Doc)
  pub get_with_rows : String → String → Result (Option Doc)
  pub docstatus : Doc → ℕ
  pub parents_allowing : String → String → Result Bool
  pub access : DocType → FieldAccess

-- the right on the parent that a right on its row follows
unfoldable pub parent_ptype : String → Option String
parent_ptype ptype =
    if contains ("read" ∷ "report" ∷ "export" ∷ []) ptype
    then some "read"
    else if contains ("write" ∷ "create" ∷ "delete" ∷ []) ptype
    then some "write"
    else none

-- a submitted parent takes writes in the fields that allow them, a cancelled one none
unfoldable pub status_admits : String → ℕ → Field → Bool
status_admits ptype status f =
    not (str_eq ptype "write") || (not (status == 2) && (not (status == 1) || f.allow_on_submit))

-- a row read on its own passes the scopes that its list is filtered by
abbrev pub row_scopes : Site → Ctx → DocType → Doc → DocType → String → Result Bool
row_scopes site c d dc parent pn =
    and_also (check_user_permissions site (elevated c) c.perms d dc) (
      or_else (check_user_permissions_for site c.perms d dc parent.name)
        (overridden site.fold c.shares parent.name pn "read"))

abbrev pub on_parent_doc :
    Site
    → Ctx
    → Reads
    → DocType
    → Doc
    → DocType
    → Field
    → String
    → String
    → Result (Option Doc)
    → Result Bool
on_parent_doc site c reads d dc parent f pn ptype (err e) = err e
on_parent_doc site c reads d dc parent f pn ptype (ok none) = ok false
on_parent_doc site c reads d dc parent f pn ptype (ok (some pdoc)) =
    let passed = parent_permission site c parent ptype (some pdoc) in
    let scoped = and_also passed (row_scopes site c d dc parent pn) in
    if status_admits ptype (reads.docstatus pdoc) f
    then (if str_eq ptype "read" then scoped else passed)
    else ok false

-- the parent's row, with its own rows where the user has rules to check them by
abbrev pub parent_doc : Reads → Result (List UserPerm) → String → String → Result (Option Doc)
parent_doc reads (err e) parent pn = elim (reads.get_row parent pn) [
  | err f ↦ err f
  | ok none ↦ ok none
  | ok (some x) ↦ err e
]
parent_doc reads (ok []) parent pn = reads.get_row parent pn
parent_doc reads (ok (p ∷ perms)) parent pn = reads.get_with_rows parent pn

abbrev pub field_embeds : (ℕ → ℕ) → Option Field → String → Bool
field_embeds fold none child = false
field_embeds fold (some f) child = is_table f && equal_fold fold f.options child

abbrev pub on_field :
    Site → Ctx → Reads → DocType → Doc → DocType → Option Field → String → String → Result Bool
on_field site c reads d dc parent none pn ptype = ok false
on_field site c reads d dc parent (some f) pn ptype =
    let found =
      on_parent_doc site c reads d dc parent f pn ptype (parent_doc reads c.perms parent.name pn) in
    if not (field_embeds site.fold (some f) d.name)
    then ok false
    else if str_eq ptype "read" && not (can_read (reads.access parent) (some f))
    then ok false
    else found

abbrev pub on_parent : Site → Ctx → Reads → DocType → Doc → Result DocType → String → Result Bool
on_parent site c reads d dc (err e) ptype = ok false
on_parent site c reads d dc (ok parent) ptype =
    let found =
      on_field site c reads d dc parent (field_of parent (str dc "parentfield")) (str dc "parent")
        ptype in
    if parent.is_child then ok false else found

abbrev pub is_placed : Doc → Bool
is_placed dc =
    not (str_eq (str dc "parenttype") "")
    && not (str_eq (str dc "parent") "")
    && not (str_eq (str dc "parentfield") "")

abbrev pub read_row : Site → Ctx → Reads → DocType → String → Result (Option Doc) → Result Bool
read_row site c reads d ptype (err e) = err e
read_row site c reads d ptype (ok none) = ok false
read_row site c reads d ptype (ok (some dc)) =
    let found = on_parent site c reads d dc (site.doctype (str dc "parenttype")) ptype in
    if is_placed dc then found else ok false

abbrev pub placed_permission : Site → Ctx → Reads → DocType → String → Option Doc → Result Bool
placed_permission site c reads d ptype none = reads.parents_allowing d.name ptype
placed_permission site c reads d ptype (some dc) =
    let found = on_parent site c reads d dc (site.doctype (str dc "parenttype")) ptype in
    let looked_up = read_row site c reads d ptype (reads.get_row d.name (str dc "id")) in
    let listed = reads.parents_allowing d.name ptype in
    if is_placed dc then found else if str_eq (str dc "id") "" then listed else looked_up

unfoldable pub child_permission : Site → Ctx → Reads → DocType → String → Option Doc → Result Bool
child_permission site c reads d ptype dc = elim (parent_ptype ptype) [
  | none ↦ ok false
  | some pp ↦ placed_permission site c reads d pp dc
]

abbrev pub on_known : Site → Ctx → Reads → Result DocType → String → Option Doc → Result Bool
on_known site c reads (err e) ptype dc = err e
on_known site c reads (ok d) ptype dc =
    let of_child = child_permission site c reads d ptype dc in
    let own = own_permission site c d ptype dc in if d.is_child then of_child else own

unfoldable pub has_permission : Site → Ctx → Reads → String → String → Option Doc → Result Bool
has_permission site c reads doctype ptype dc =
    let asked =
      unless_refused (refused_to_scoped_user c.perms doctype)
        (on_known site c reads (site.doctype doctype) ptype dc) in
    if elevated c then ok true else asked
