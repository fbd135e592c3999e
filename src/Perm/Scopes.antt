-- ===== src/Perm/Scopes.antt =====
-- User Permission scopes: applicableScopes, scopeBindings, withinScope, checkUserPermissionsFor
-- and checkUserPermissions of internal/engine/perm.go, scopeAllows of internal/engine/share.go.
-- A document holds the rows of its Table fields, which are listed in the order of those fields.
use ddcore.Common.{
  ℕ, String, Bool, true, false, not, ◌&&◌, ◌||◌, Option, none, some, List, [], ◌∷◌, ◌++◌,
  if◌then◌else◌, str_eq, any, is_some,
}
use ddcore.Text.{equal_fold}
use ddcore.Cerr.{Result, ok, err}
use ddcore.Perm.{
  link, dynamic_link, table, other, Field, DocType, field_of, is_table, contains, DocShare,
  scope_overridden, is_unscoped_only,
}

mutual
  pub data Doc : Type 0 where
    doc : (String → String) → Rows → Doc

  pub data Rows : Type 0 where
    no_rows : Rows
    row : String → Doc → Rows → Rows

-- Doc.Str
abbrev pub str : Doc → String → String
str (doc fields rows) k = fields k

pub record UserPerm : Type 0 where
  pub allow : String
  pub for_value : String
  pub applicable_for : String

-- The metadata and the tree walk that the checks ask. `tree_of`: whether the DocType a rule
-- restricts is a tree; `ancestors`: treeAncestorsInclusive.
pub record Site : Type 0 where
  pub fold : ℕ → ℕ
  pub doctype : String → Result DocType
  pub tree_of : String → Bool
  pub ancestors : String → String → Result (List String)

-- the next answer, if this one is yes
abbrev pub and_also : Result Bool → Result Bool → Result Bool
and_also (err e) next = err e
and_also (ok false) next = ok false
and_also (ok true) next = next

-- the next answer, if this one is no
abbrev pub or_else : Result Bool → Result Bool → Result Bool
or_else (err e) next = err e
or_else (ok true) next = ok true
or_else (ok false) next = next

abbrev pub applies_to : (ℕ → ℕ) → String → UserPerm → Bool
applies_to fold applicable_for p =
    str_eq p.applicable_for "" || equal_fold fold p.applicable_for applicable_for

-- grouped[allow] = append(grouped[allow], value)
abbrev pub group_add : String → String → List (String × List String) → List (String × List String)
group_add allow value [] = (allow, value ∷ []) ∷ []
group_add allow value ((a, values) ∷ groups) =
    let rest = group_add allow value groups in
    if str_eq a allow then (a, values ++ (value ∷ [])) ∷ groups else (a, values) ∷ rest

abbrev pub group_from :
    (ℕ → ℕ) → String → List (String × List String) → List UserPerm → List (String × List String)
group_from fold applicable_for groups [] = groups
group_from fold applicable_for groups (p ∷ perms) =
    group_from fold applicable_for
      (if applies_to fold applicable_for p then group_add p.allow p.for_value groups else groups)
      perms

unfoldable pub applicable_scopes : (ℕ → ℕ) → List UserPerm → String → List (String × List String)
applicable_scopes fold perms applicable_for = group_from fold applicable_for [] perms

-- `selector`: an empty text where the field is bound whatever it is linked to
pub record ScopeBinding : Type 0 where
  pub field : String
  pub selector : String

abbrev pub field_bindings : (ℕ → ℕ) → DocType → String → Field → List ScopeBinding
field_bindings fold d allow f = elim f.kind [
  | link ↦
      if equal_fold fold f.options allow
      then record { field = f.fieldname; selector = "" } ∷ []
      else []
  | dynamic_link ↦
      if is_some (field_of d f.options)
      then record { field = f.fieldname; selector = f.options } ∷ []
      else []
  | table ↦ []
  | other ↦ []
]

abbrev pub all_bindings : (ℕ → ℕ) → DocType → String → List Field → List ScopeBinding
all_bindings fold d allow [] = []
all_bindings fold d allow (f ∷ fs) = field_bindings fold d allow f ++ all_bindings fold d allow fs

unfoldable pub scope_bindings : (ℕ → ℕ) → DocType → String → List ScopeBinding
scope_bindings fold d allow =
    if equal_fold fold d.name allow
    then record { field = "id"; selector = "" } ∷ []
    else all_bindings fold d allow d.fields

abbrev pub any_contained : List String → Result (List String) → Result Bool
any_contained allowed (err e) = err e
any_contained allowed (ok above) = ok (any (contains allowed) above)

unfoldable pub within_scope : Site → String → String → List String → Result Bool
within_scope site allow value allowed =
    let above = any_contained allowed (site.ancestors allow value) in
    if str_eq value ""
    then ok false
    else if contains allowed value
    then ok true
    else if not (site.tree_of allow)
    then ok false
    else above

-- one bound field of the document
unfoldable pub binding_holds :
    Site → DocType → Doc → String → List String → ScopeBinding → Result Bool
binding_holds site d dc allow allowed b =
    let of_id =
      or_else (within_scope site allow (str dc b.field) allowed)
        (within_scope site allow (str dc d.tree_parent_field) allowed) in
    let of_field = within_scope site allow (str dc b.field) allowed in
    if not (str_eq b.selector "") && not (equal_fold site.fold (str dc b.selector) allow)
    then ok true
    else if str_eq b.field "id" && str_eq (str dc b.field) ""
    then ok true
    else if str_eq b.field "id" && d.is_tree
    then of_id
    else of_field

unfoldable pub bindings_hold :
    Site → DocType → Doc → String → List String → List ScopeBinding → Result Bool
bindings_hold site d dc allow allowed [] = ok true
bindings_hold site d dc allow allowed (b ∷ bs) =
    and_also (binding_holds site d dc allow allowed b) (bindings_hold site d dc allow allowed bs)

unfoldable pub scopes_hold : Site → DocType → Doc → List (String × List String) → Result Bool
scopes_hold site d dc [] = ok true
scopes_hold site d dc ((allow, allowed) ∷ groups) =
    and_also (bindings_hold site d dc allow allowed (scope_bindings site.fold d allow))
      (scopes_hold site d dc groups)

abbrev pub on_doctype : Result DocType → (DocType → Result Bool) → Result Bool
on_doctype (err e) f = err e
on_doctype (ok d) f = f d

abbrev pub on_table : Option Field → (Field → Result Bool) → Result Bool
on_table none f = ok true
on_table (some t) f = if is_table t then f t else ok true

unfoldable mutual
  -- checkUserPermissionsFor, of a user who has rules
  pub check_doc : Site → List (String × List String) → DocType → Doc → Result Bool
  check_doc site groups d (doc fields rows) =
      and_also (scopes_hold site d (doc fields rows) groups) (check_rows site groups d rows)

  pub check_rows : Site → List (String × List String) → DocType → Rows → Result Bool
  check_rows site groups d no_rows = ok true
  check_rows site groups d (row f r rows) =
      and_also
        (on_table (field_of d f)
          (λ t. on_doctype (site.doctype t.options) (λ child. check_doc site groups child r)))
        (check_rows site groups d rows)

abbrev pub with_rules : List UserPerm → Result Bool → Result Bool
with_rules [] checked = ok true
with_rules (p ∷ perms) checked = checked

unfoldable pub check_user_permissions_for :
    Site → Result (List UserPerm) → DocType → Doc → String → Result Bool
check_user_permissions_for site (err e) d dc applicable_for = err e
check_user_permissions_for site (ok perms) d dc applicable_for =
    with_rules perms (check_doc site (applicable_scopes site.fold perms applicable_for) d dc)

-- refusedToScopedUser
abbrev pub has_rules : Result (List UserPerm) → Result Bool
has_rules (err e) = err e
has_rules (ok []) = ok false
has_rules (ok (p ∷ perms)) = ok true

unfoldable pub refused_to_scoped_user : Result (List UserPerm) → String → Result Bool
refused_to_scoped_user perms doctype =
    if is_unscoped_only doctype then has_rules perms else ok false

abbrev pub unless_refused : Result Bool → Result Bool → Result Bool
unless_refused (err e) next = err e
unless_refused (ok true) next = ok false
unless_refused (ok false) next = next

-- checkUserPermissions; `elevated` for Admin and contexts that ignore permissions
unfoldable pub check_user_permissions :
    Site → Bool → Result (List UserPerm) → DocType → Doc → Result Bool
check_user_permissions site true perms d dc = ok true
check_user_permissions site false perms d dc =
    unless_refused (refused_to_scoped_user perms d.name)
      (check_user_permissions_for site perms d dc d.name)

abbrev pub overridden : (ℕ → ℕ) → Result (List DocShare) → String → String → String → Result Bool
overridden fold (err e) doctype name ptype = err e
overridden fold (ok shares) doctype name ptype =
    ok (scope_overridden fold shares doctype name ptype)

unfoldable pub scope_allows :
    Site
    → Bool
    → Result (List UserPerm)
    → Result (List DocShare)
    → DocType
    → Doc
    → String
    → Result Bool
scope_allows site elevated perms shares d dc ptype =
    or_else (check_user_permissions site elevated perms d dc)
      (overridden site.fold shares d.name (str dc "id") ptype)
