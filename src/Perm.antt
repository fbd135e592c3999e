-- ===== src/Perm.antt =====
-- Who may do what: internal/engine/perm.go, internal/engine/share.go, internal/engine/fieldperm.go
-- and Perm.Has of internal/meta/meta.go. A query's failure is an error value; caches are left
-- out, since they only repeat what a query answered.
pub mod Fields
pub mod Scopes
pub mod Access
pub mod Roles
pub mod Bounds
pub mod Rules
pub mod Filters
mod Tests
use ddcore.Common.{
  ℕ, String, Bool, true, false, not, ◌&&◌, ◌||◌, Option, none, some, List, [], ◌∷◌, ◌++◌,
  if◌then◌else◌, str_eq, any, find, ◌==◌,
}
use ddcore.Text.{equal_fold}
use ddcore.Cerr.{Error, Result, ok, err}

pub record Perm : Type 0 where
  pub role : String
  pub read : Bool
  pub write : Bool
  pub create : Bool
  pub delete : Bool
  pub submit : Bool
  pub cancel : Bool
  pub amend : Bool
  pub report : Bool
  pub export : Bool
  pub import : Bool
  pub share : Bool
  pub if_owner : Bool
  pub permlevel : ℕ

unfoldable pub perm_has : Perm → String → Bool
perm_has p ptype =
    if str_eq ptype "read"
    then p.read
    else if str_eq ptype "write"
    then p.write
    else if str_eq ptype "create"
    then p.create
    else if str_eq ptype "delete"
    then p.delete
    else if str_eq ptype "submit"
    then p.submit
    else if str_eq ptype "cancel"
    then p.cancel
    else if str_eq ptype "amend"
    then p.amend
    else if str_eq ptype "report"
    then p.report
    else if str_eq ptype "export"
    then p.export
    else if str_eq ptype "import"
    then p.import
    else if str_eq ptype "share"
    then p.share
    else false

-- a field; its fieldtype as the code tells them apart here
pub data Kind : Type 0 where
  link dynamic_link table other : Kind

pub record Field : Type 0 where
  pub fieldname : String
  pub kind : Kind
  pub options : String
  pub permlevel : ℕ
  pub allow_on_submit : Bool

pub record DocType : Type 0 where
  pub name : String
  pub is_child : Bool
  pub is_tree : Bool
  pub tree_parent_field : String
  pub has_controller : Bool
  pub fields : List Field
  pub permissions : List Perm

-- d.Field(name)
unfoldable pub field_of : DocType → String → Option Field
field_of d name = find (λ f. str_eq f.fieldname name) d.fields

abbrev pub is_table : Field → Bool
is_table f = elim f.kind [ table ↦ true | _ ↦ false ]

abbrev pub contains : List String → String → Bool
contains xs s = any (λ x. str_eq x s) xs

unfoldable pub contains_fold : (ℕ → ℕ) → List String → String → Bool
contains_fold fold xs s = any (λ x. equal_fold fold x s) xs

-- a row of Tab Has Role, in the space of a tenant ("" where there is one space)
unfoldable pub roles_of :
    (user current tenant : String)
    → Bool
    → (String → Result String)
    → (String → String → Result (List String))
    → Result (List String)
roles_of user current tenant tenancy tenant_of_user role_rows =
    if str_eq user "Admin"
    then ok ("Admin" ∷ "System Manager" ∷ "All" ∷ [])
    else if str_eq user "" || str_eq user "Guest"
    then ok ("Guest" ∷ [])
    else if tenancy
    then elim (tenant_of_user user) [
      | err e ↦ err e
      | ok own ↦
          if not (str_eq tenant "") && not (str_eq user current) && not (str_eq own tenant)
          then ok ("All" ∷ [])
          else elim (role_rows own user) [ err e ↦ err e | ok rows ↦ ok ("All" ∷ rows) ]
    ]
    else elim (role_rows tenant user) [ err e ↦ err e | ok rows ↦ ok ("All" ∷ rows) ]

-- the row speaks for one of the roles and gives the right on the document
abbrev pub gives : (ℕ → ℕ) → List String → String → Perm → Bool
gives fold roles ptype p = p.permlevel == 0 && contains_fold fold roles p.role && perm_has p ptype

abbrev pub grant_from : (ℕ → ℕ) → List String → String → Bool × Bool → List Perm → Bool × Bool
grant_from fold roles ptype (allowed, owner_only) [] = (allowed, owner_only)
grant_from fold roles ptype (allowed, owner_only) (p ∷ ps) =
    grant_from fold roles ptype
      (if gives fold roles ptype p then (true, owner_only && p.if_owner) else (allowed, owner_only))
      ps

-- roleGrant: allowed, and owner only
unfoldable pub role_grant : (ℕ → ℕ) → DocType → List String → String → Bool × Bool
role_grant fold d roles ptype = grant_from fold roles ptype (false, true) d.permissions

pub record DocShare : Type 0 where
  pub doctype : String
  pub doc_id : String
  pub read : Bool
  pub write : Bool
  pub share : Bool
  pub override_scope : Bool

unfoldable pub grants : DocShare → String → Bool
grants s ptype =
    if str_eq ptype "read"
    then s.read || s.write || s.share
    else if str_eq ptype "write"
    then s.write
    else if str_eq ptype "share"
    then s.share
    else false

unfoldable pub shareable : String → Bool
shareable ptype = str_eq ptype "read" || str_eq ptype "write" || str_eq ptype "share"

-- shareOn, of the user's shares
unfoldable pub share_on : (ℕ → ℕ) → List DocShare → String → String → Option DocShare
share_on fold shares doctype name =
    if str_eq name ""
    then none
    else find (λ s. str_eq s.doc_id name && equal_fold fold s.doctype doctype) shares

unfoldable pub shared_with_doctype : (ℕ → ℕ) → List DocShare → String → String → Bool
shared_with_doctype fold shares doctype ptype =
    any (λ s. equal_fold fold s.doctype doctype && grants s ptype) shares

-- sharedNames: the ids still bound by scopes, and those that override them
unfoldable pub shared_names : (ℕ → ℕ) → List DocShare → String → List String × List String
shared_names fold [] doctype = ([], [])
shared_names fold (s ∷ shares) doctype =
    let (scoped, override) = shared_names fold shares doctype in
    if not (equal_fold fold s.doctype doctype) || not (grants s "read")
    then (scoped, override)
    else if s.override_scope
    then (scoped, s.doc_id ∷ override)
    else (s.doc_id ∷ scoped, override)

abbrev unscoped_only_doctypes : List String
unscoped_only_doctypes = "Webhook" ∷ "Webhook Delivery" ∷ "User Permission" ∷ "Document Share" ∷ []

unfoldable pub is_unscoped_only : String → Bool
is_unscoped_only doctype = contains unscoped_only_doctypes doctype

-- scopeOverridden
abbrev pub override_grants : Option DocShare → String → Bool
override_grants none ptype = false
override_grants (some s) ptype = s.override_scope && grants s ptype

unfoldable pub scope_overridden : (ℕ → ℕ) → List DocShare → String → String → String → Bool
scope_overridden fold shares doctype name ptype =
    if not (shareable ptype) || is_unscoped_only doctype
    then false
    else override_grants (share_on fold shares doctype name) ptype
