-- ===== src/Perm/Tests.antt =====
-- A seller bound to one territory, and the theorems at what he may see.
use ddcore.Common.{
  ℕ, ◌≡◌, refl, true, false, not, ◌&&◌, none, some, List, [], ◌∷◌, str_eq, any, if◌then◌else◌,
  arith,
}
use ddcore.Cerr.{ok}
use ddcore.Perm.{Perm, Field, link, DocType, DocShare, gives, role_grant}
use ddcore.Perm.Fields.{level0_field_access, can_read_level, field_access}
use ddcore.Perm.Scopes.{applicable_scopes, Doc, doc, Rows, no_rows, UserPerm, Site}
use ddcore.Perm.Access.{Ctx, Reads, has_permission}
use ddcore.Perm.Roles.{role_grant-any, opens, field_access-opens}
use ddcore.Perm.Rules.{AllGrouped, IsRule, applicable_scopes-IsRule}
use ddcore.Perm.Bounds.{IsWithin, has_permission-IsWithin}

abbrev fold : ℕ → ℕ
fold c = c

abbrev seller_reads : Perm
seller_reads = record {
  role = "Seller";
  read = true;
  write = false;
  create = false;
  delete = false;
  submit = false;
  cancel = false;
  amend = false;
  report = false;
  export = false;
  import = false;
  share = false;
  if_owner = false;
  permlevel = 0;
}

abbrev seller_reads_prices : Perm
seller_reads_prices = record seller_reads { permlevel = 2 }

abbrev order : DocType
order = record {
  name = "Order";
  is_child = false;
  is_tree = false;
  tree_parent_field = "";
  has_controller = false;
  fields =
      record {
        fieldname = "territory";
        kind = link;
        options = "Territory";
        permlevel = 0;
        allow_on_submit = false;
      }
      ∷ [];
  permissions = seller_reads ∷ seller_reads_prices ∷ [];
}

abbrev site : Site
site = record {
  fold = fold;
  doctype = λ _. ok order;
  tree_of = λ _. true;
  ancestors = λ _ v. ok (v ∷ "Brazil" ∷ []);
}

abbrev rules : List UserPerm
rules = record { allow = "Territory"; for_value = "Brazil"; applicable_for = "" } ∷ []

abbrev seller : Ctx
seller = record {
  user = "ana";
  ignore_permissions = false;
  in_workflow_transition = false;
  roles = ok ("All" ∷ "Seller" ∷ []);
  shares = ok [];
  perms = ok rules;
  portal = none;
  workflow_for = λ _. none;
  controller = λ _ _ _ _. ok "";
}

abbrev reads : Reads
reads = record {
  get_row = λ _ _. ok none;
  get_with_rows = λ _ _. ok none;
  docstatus = λ _. 0;
  parents_allowing = λ _ _. ok false;
  access = λ _. level0_field_access;
}

abbrev sale : Doc
sale = doc (λ k. if str_eq k "territory" then "Ceara" else "x") no_rows

may_read : has_permission site seller reads "Order" "read" (some sale) ≡ ok true
unfolding has_permission ddcore.Perm.Scopes.refused_to_scoped_user ddcore.Perm.is_unscoped_only
    ddcore.Perm.Access.own_permission ddcore.Perm.Access.granted_by role_grant
    ddcore.Perm.contains_fold ddcore.Perm.perm_has ddcore.Perm.Access.workflow_allows
    ddcore.Perm.Access.controller_allows ddcore.Perm.Scopes.scope_allows
    ddcore.Perm.Scopes.check_user_permissions ddcore.Perm.Scopes.check_user_permissions_for
    ddcore.Perm.Scopes.check_doc ddcore.Perm.Scopes.scopes_hold ddcore.Perm.Scopes.applicable_scopes
    ddcore.Perm.Scopes.bindings_hold ddcore.Perm.Scopes.scope_bindings
    ddcore.Perm.Scopes.binding_holds ddcore.Perm.Scopes.within_scope ddcore.Perm.field_of
    ddcore.Perm.grants ddcore.Perm.scope_overridden ddcore.Perm.share_on ddcore.Perm.shareable
    ddcore.Perm.shared_with_doctype
may_read = refl

may_not_write : has_permission site seller reads "Order" "write" (some sale) ≡ ok false
unfolding has_permission ddcore.Perm.Scopes.refused_to_scoped_user ddcore.Perm.is_unscoped_only
    ddcore.Perm.Access.own_permission ddcore.Perm.Access.granted_by role_grant
    ddcore.Perm.contains_fold ddcore.Perm.perm_has ddcore.Perm.shareable ddcore.Perm.share_on
may_not_write = refl

has_permission-IsWithin_example : IsWithin site seller reads rules [] order "read" sale
has_permission-IsWithin_example =
    has_permission-IsWithin site seller reads rules [] order "Order" "read" sale refl refl refl refl
      refl may_read

role_grant-any_example : role_grant fold order ("Seller" ∷ []) "read" ≡ (
  any (gives fold ("Seller" ∷ []) "read") order.permissions,
  not (any (λ p. gives fold ("Seller" ∷ []) "read" p && not p.if_owner) order.permissions),
)
role_grant-any_example = role_grant-any fold ("Seller" ∷ []) "read" order

field_access-opens_example :
    can_read_level (field_access fold false (some ("Seller" ∷ [])) (λ _. []) (some order)) 2
    ≡ any (opens fold ("Seller" ∷ []) 2) order.permissions
field_access-opens_example =
    field_access-opens fold ("Seller" ∷ []) (λ _. []) order 2 refl (omega arith)

applicable_scopes-IsRule_example :
    AllGrouped (IsRule fold rules "Order") (applicable_scopes fold rules "Order")
applicable_scopes-IsRule_example = applicable_scopes-IsRule fold rules "Order"
