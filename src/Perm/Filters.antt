-- ===== src/Perm/Filters.antt =====
-- The filters that a list is bounded by: db.Filter of internal/db/query.go with the meaning that
-- filterSQL, rowsSQL and parentSQL of internal/engine/query.go give it, and permissionFilters and
-- the functions it calls of internal/engine/perm.go. A column that is NULL reads as an empty text.
pub mod Scoped
pub mod Tabled
pub mod Children
pub mod Shared
pub mod Strict
pub mod Opened
pub mod Reading
pub mod Refines
mod Tests
use ddcore.Common.{
  ℕ, String, Bool, true, false, ◌&&◌, ◌||◌, Option, none, some, List, [], ◌∷◌, if◌then◌else◌,
  str_eq,
}
use ddcore.Cerr.{Result, ok, err, ◌>>=◌}
use ddcore.Perm.{
  Field, DocType, is_table, contains, DocShare, role_grant, shared_names, is_unscoped_only,
}
use ddcore.Perm.Scopes.{
  Doc, doc, Rows, no_rows, row, str, UserPerm, Site, ScopeBinding, applicable_scopes,
  scope_bindings,
}
use ddcore.Perm.Access.{Ctx, elevated}

-- the operators that the framework's own conditions use
pub data Op : Type 0 where
  is_equal is_in is_under : Op

-- A condition on a column. `tree`: the DocType whose hierarchy the operator walks; `if_field`:
-- an empty text where the condition holds for every row.
pub record Condition : Type 0 where
  pub field : String
  pub op : Op
  pub value : List String
  pub tree : String
  pub if_field : String
  pub if_value : String

mutual
  pub data Filter : Type 0 where
    on_column : Condition → Filter
    any_of : Groups → Filter
    on_parent_row : String → Filters → Filter
    on_rows : String → String → Filters → Filter

  pub data Filters : Type 0 where
    all : Filters
    also : Filter → Filters → Filters

  pub data Groups : Type 0 where
    no_group : Groups
    group : Filters → Groups → Groups

-- What the statement is run on. `under`: treeSet, whether an id is in the hierarchy of a DocType
-- below one of the values or is one of them; `parent_row`: the document of a DocType.
pub record Tables : Type 0 where
  pub under : String → List String → String → Bool
  pub parent_row : String → String → Option Doc

abbrev pub compares : Tables → Condition → String → Bool
compares tables k v = elim k.op [
  | is_equal ↦ contains k.value v
  | is_in ↦ contains k.value v
  | is_under ↦ tables.under k.tree k.value v
]

unfoldable pub column_passes : Tables → Condition → Doc → Bool
column_passes tables k dc =
    if str_eq k.if_field "" || str_eq (str dc k.if_field) k.if_value
    then compares tables k (str dc k.field)
    else true

-- every row of the Table field
abbrev pub every_row : (Doc → Bool) → String → Rows → Bool
every_row q f no_rows = true
every_row q f (row g r rows) = (if str_eq g f then q r else true) && every_row q f rows

abbrev pub rows_of : Doc → Rows
rows_of (doc fields rows) = rows

abbrev pub parent_passes : (Doc → Bool) → Option Doc → Bool
parent_passes q none = false
parent_passes q (some parent) = q parent

unfoldable mutual
  pub filter_passes : Tables → Filter → Doc → Bool
  filter_passes tables (on_column k) dc = column_passes tables k dc
  filter_passes tables (any_of groups) dc = some_group_passes tables groups dc
  filter_passes tables (on_parent_row d all) dc = str_eq (str dc "parenttype") d
  filter_passes tables (on_parent_row d (also f fs)) dc =
      str_eq (str dc "parenttype") d
      && parent_passes (λ p. filter_passes tables f p && filters_pass tables fs p)
          (tables.parent_row d (str dc "parent"))
  filter_passes tables (on_rows f d fs) dc =
      every_row (λ r. filters_pass tables fs r) f (rows_of dc)

  pub filters_pass : Tables → Filters → Doc → Bool
  filters_pass tables all dc = true
  filters_pass tables (also f fs) dc = filter_passes tables f dc && filters_pass tables fs dc

  pub some_group_passes : Tables → Groups → Doc → Bool
  some_group_passes tables no_group dc = false
  some_group_passes tables (group fs groups) dc =
      filters_pass tables fs dc || some_group_passes tables groups dc

-- append(fs, gs...)
unfoldable pub together : Filters → Filters → Filters
together all gs = gs
together (also f fs) gs = also f (together fs gs)

-- Filter{Field: field, Op: op, Value: value}
abbrev pub plain : String → Op → List String → Filter
plain field op value =
    on_column
      (record { field = field; op = op; value = value; tree = ""; if_field = ""; if_value = "" })

abbrev pub binding_condition : Site → String → List String → ScopeBinding → Condition
binding_condition site allow allowed b = record {
  field = b.field;
  op = if site.tree_of allow then is_under else is_in;
  value = allowed;
  tree = allow;
  if_field = b.selector;
  if_value = if str_eq b.selector "" then "" else allow;
}

abbrev pub filters_of : Site → String → List String → List ScopeBinding → Filters
filters_of site allow allowed [] = all
filters_of site allow allowed (b ∷ bs) =
    also (on_column (binding_condition site allow allowed b)) (filters_of site allow allowed bs)

unfoldable pub binding_filters : Site → DocType → List (String × List String) → Filters
binding_filters site d [] = all
binding_filters site d ((allow, allowed) ∷ scopes) =
    together (filters_of site allow allowed (scope_bindings site.fold d allow))
      (binding_filters site d scopes)

-- one Table field's filter, before those of the fields that follow
abbrev pub with_rows : Field → DocType → Filters → Filters → Filters
with_rows tf child all rest = rest
with_rows tf child (also f fs) rest = also (on_rows tf.fieldname child.name (also f fs)) rest

abbrev pub table_step :
    Site → List (String × List String) → Field → Result DocType → Result Filters → Result Filters
table_step site scopes tf (err e) rest = err e
table_step site scopes tf (ok child) (err e) = err e
table_step site scopes tf (ok child) (ok rest) =
    ok (with_rows tf child (binding_filters site child scopes) rest)

unfoldable pub table_filters : Site → List (String × List String) → List Field → Result Filters
table_filters site scopes [] = ok all
table_filters site scopes (tf ∷ fields) =
    let rest = table_filters site scopes fields in
    if is_table tf then table_step site scopes tf (site.doctype tf.options) rest else rest

abbrev pub after : Filters → Result Filters → Result Filters
after fs (err e) = err e
after fs (ok gs) = ok (together fs gs)

abbrev pub ruled_filters : Site → DocType → List (String × List String) → Result Filters
ruled_filters site d scopes =
    let own = binding_filters site d scopes in
    let tables = table_filters site scopes d.fields in
    if is_unscoped_only d.name
    then ok (also (plain "id" is_in []) all)
    else if d.is_child
    then ok own
    else after own tables

abbrev pub user_filters : Site → Result (List UserPerm) → DocType → String → Result Filters
user_filters site (err e) d applicable_for = err e
user_filters site (ok []) d applicable_for = ok all
user_filters site (ok (p ∷ perms)) d applicable_for =
    ruled_filters site d (applicable_scopes site.fold (p ∷ perms) applicable_for)

unfoldable pub strict_scope_filters : Site → Ctx → DocType → String → Result Filters
strict_scope_filters site c d applicable_for =
    if elevated c then ok all else user_filters site c.perms d applicable_for

abbrev pub lifted : String → Filters → List String → Filters
lifted key strict [] = strict
lifted key strict (x ∷ override) =
    also (any_of (group strict (group (also (plain key is_in (x ∷ override)) all) no_group))) all

abbrev pub lifted_by : (ℕ → ℕ) → Filters → Result (List DocShare) → String → String → Result Filters
lifted_by fold strict (err e) doctype key = err e
lifted_by fold strict (ok shares) doctype key =
    ok (lifted key strict (shared_names fold shares doctype).1)

unfoldable pub lifted_by_shares :
    (ℕ → ℕ) → Result (List DocShare) → Filters → String → String → Result Filters
lifted_by_shares fold shares all doctype key = ok all
lifted_by_shares fold shares (also f fs) doctype key = lifted_by fold (also f fs) shares doctype key

abbrev pub lift_own : Site → Ctx → DocType → Result Filters → Result Filters
lift_own site c d (err e) = err e
lift_own site c d (ok strict) =
    if d.is_child then ok strict else lifted_by_shares site.fold c.shares strict d.name "id"

unfoldable pub scope_filters : Site → Ctx → DocType → Result Filters
scope_filters site c d = lift_own site c d (strict_scope_filters site c d d.name)

-- What the user's own code brings to a list. `query`: permissionQuery of the DocType's controller
-- in the JS runtime, read by ParseFilters; `portal`: portalFilters.
pub record Hooks : Type 0 where
  pub query : String → String → Result Filters
  pub portal : DocType → Result Filters

unfoldable pub permission_query_filters : Ctx → Hooks → DocType → Result Filters
permission_query_filters c hooks d = if d.has_controller then hooks.query d.name c.user else ok all

abbrev pub by_role : Ctx → Bool → Filters → Filters → Filters
by_role c owner_only query strict =
    if owner_only
    then also (plain "owner" is_equal (c.user ∷ [])) (together query strict)
    else together query strict

abbrev pub shared_group : List String → Filters → Groups → Groups
shared_group [] bounds groups = groups
shared_group (x ∷ ids) bounds groups = group (also (plain "id" is_in (x ∷ ids)) bounds) groups

-- the groups of a list with shares, or that no role row opens
abbrev pub share_groups : Ctx → Bool × Bool → Filters → Filters → List String × List String → Groups
share_groups c (role_read, owner_only) query strict (scoped, override) =
    let shares =
      shared_group scoped (together query strict) (shared_group override query no_group) in
    if role_read then group (by_role c owner_only query strict) shares else shares

abbrev pub is_nil : List String → Bool
is_nil [] = true
is_nil (x ∷ xs) = false

abbrev pub grant_filters :
    Ctx → Bool × Bool → Filters → Filters → List String × List String → Filters
grant_filters c (role_read, owner_only) query strict (scoped, override) =
    if role_read && is_nil scoped && is_nil override
    then by_role c owner_only query strict
    else also (any_of (share_groups c (role_read, owner_only) query strict (scoped, override))) all

-- a portal page is the only grant: no role rows, no shares
abbrev pub page_filters : Result Filters → Result Filters → Result Filters → Result Filters
page_filters pages queried scoped = do
  own ← pages
  query ← queried
  strict ← scoped
  ok (together (together own query) strict)

abbrev pub role_filters :
    (ℕ → ℕ)
    → Ctx
    → DocType
    → Result (List String)
    → Result Filters
    → Result Filters
    → Result (List DocShare)
    → Result Filters
role_filters fold c d held queried scoped given = do
  roles ← held
  query ← queried
  strict ← scoped
  shares ← given
  ok (
      grant_filters c (role_grant fold d roles "read") query strict
        (shared_names fold shares d.name))

abbrev pub by_portal : {A : Type 0} → Option A → Result Filters → Result Filters → Result Filters
by_portal none of_page of_role = of_role
by_portal (some allows) of_page of_role = of_page

-- permissionFilters on a DocType that is not a child, of a user who is not elevated
unfoldable pub own_filters : Site → Ctx → Hooks → DocType → Result Filters
own_filters site c hooks d =
    let queried = permission_query_filters c hooks d in
    let scoped = strict_scope_filters site c d d.name in
    by_portal c.portal (page_filters (hooks.portal d) queried scoped)
      (role_filters site.fold c d c.roles queried scoped c.shares)
