-- ===== src/Perm/Filters/Tests.antt =====
-- A seller's orders: what the list of them holds, at a document of his territory and at one of
-- another's.
use ddcore.Common.{
  Bool, sym, ℕ, ◌≡◌, refl, String, true, false, none, some, List, [], ◌∷◌, str_eq, if◌then◌else◌,
  ◌||◌, any, Bool-cases, inl, inr,
}
use mathlib.Core.Bool.{true≢false}
use ddcore.Cerr.{Result, ok, ◌>>=◌}
use ddcore.Text.{equal_fold}
use ddcore.Perm.{Perm, Field, link, table, DocType, DocShare, contains}
use ddcore.Perm.Fields.{level0_field_access}
use ddcore.Perm.Scopes.{Doc, doc, Rows, no_rows, row, UserPerm, Site, scope_bindings, str}
use ddcore.Perm.Access.{Ctx, Reads, has_permission}
use ddcore.Perm.Filters.{Tables, Filters, all, Hooks, filters_pass}
use ddcore.Perm.Filters.Scoped.{Walks, Settled}
use ddcore.Perm.Filters.Children.{permission_filters}
use ddcore.Perm.Filters.Refines.{has_permission-permission_filters}

abbrev fold : ℕ → ℕ
fold c = c

abbrev text_field : String → Field
text_field name = record {
  fieldname = name;
  kind = link;
  options = "Territory";
  permlevel = 0;
  allow_on_submit = false;
}

abbrev own_orders : Perm
own_orders = record {
  role = "Seller";
  read = true;
  write = false;
  create = false;
  delete = false;
  submit = false;
  cancel = false;
  amend = false;
  report = false;
  export = false;
  import = false;
  share = false;
  if_owner = true;
  permlevel = 0;
}

abbrev item : DocType
item = record {
  name = "Item";
  is_child = true;
  is_tree = false;
  tree_parent_field = "";
  has_controller = false;
  fields = text_field "origin" ∷ [];
  permissions = [];
}

abbrev order : DocType
order = record {
  name = "Order";
  is_child = false;
  is_tree = false;
  tree_parent_field = "";
  has_controller = false;
  fields =
      text_field "territory" ∷ record (text_field "items") { kind = table; options = "Item" } ∷ [];
  permissions = own_orders ∷ [];
}

-- Ceara is below Brazil
abbrev above : String → List String
above v = if str_eq v "Ceara" then "Brazil" ∷ [] else []

abbrev site : Site
site = record {
  fold = fold;
  doctype = λ name. ok (if str_eq name "Item" then item else order);
  tree_of = λ _. true;
  ancestors = λ _ v. ok (above v);
}

abbrev tables : Tables
tables = record {
  under = λ _ allowed v.
      if str_eq v "" then false else contains allowed v || any (contains allowed) (above v);
  parent_row = λ _ _. none;
}

walks : Walks site tables
walks = record { meets = λ allow v allowed n. (above v, refl, rw n refl); misses = λ _ _. refl }

abbrev sale_rows : Rows
sale_rows = row "items" (doc (λ k. if str_eq k "origin" then "Brazil" else "i1") no_rows) no_rows

abbrev sale : Doc
sale =
    doc (λ k. if str_eq k "territory" then "Ceara" else if str_eq k "owner" then "ana" else "o1")
      sale_rows

abbrev seller : Ctx
seller = record {
  user = "ana";
  ignore_permissions = false;
  in_workflow_transition = false;
  roles = ok ("All" ∷ "Seller" ∷ []);
  shares = ok [];
  perms = ok (record { allow = "Territory"; for_value = "Brazil"; applicable_for = "" } ∷ []);
  portal = none;
  workflow_for = λ _. none;
  controller = λ _ _ _ _. ok "";
}

abbrev reads : Reads
reads = record {
  get_row = λ _ _. ok none;
  get_with_rows = λ _ _. ok none;
  docstatus = λ _. 0;
  parents_allowing = λ _ _. ok false;
  access = λ _. level0_field_access;
}

abbrev hooks : Hooks
hooks = record { query = λ _ _. ok all; portal = λ _. ok all }

order-Settled : Settled site tables order sale
unfolding scope_bindings ddcore.Perm.field_of
order-Settled = record {
  named = refl;
  spelled = λ allow. elim (Bool-cases (equal_fold fold "Order" allow)) [
    | inl t ↦ rw t ((λ x. absurd (true≢false x)), tt)
    | inr t ↦ elim (Bool-cases (equal_fold fold "Territory" allow)) [
      | inl u ↦ rw (t, u) ((λ x. absurd (true≢false x)), tt)
      | inr u ↦ rw (t, u) tt
    ]
  ];
  placed = λ e. absurd (true≢false (sym e));
}

item-Settled : (dc : Doc) → str_eq (str dc "id") "" ≡ false → Settled site tables item dc
unfolding scope_bindings ddcore.Perm.field_of
item-Settled dc n = record {
  named = n;
  spelled = λ allow. elim (Bool-cases (equal_fold fold "Item" allow)) [
    | inl t ↦ rw t ((λ x. absurd (true≢false x)), tt)
    | inr t ↦ elim (Bool-cases (equal_fold fold "Territory" allow)) [
      | inl u ↦ rw (t, u) ((λ x. absurd (true≢false x)), tt)
      | inr u ↦ rw (t, u) tt
    ]
  ];
  placed = λ e. absurd (true≢false (sym e));
}

has_permission-permission_filters_example :
    (fs : Filters) × (permission_filters site seller reads hooks
        (order ∷ item ∷ [])
        (λ _. false)
        order
      ≡ ok fs)
    × (has_permission site seller reads "Order" "read" (some sale)
        ≡ ok (filters_pass tables fs sale))
unfolding ddcore.Perm.Scopes.refused_to_scoped_user ddcore.Perm.is_unscoped_only
    ddcore.Perm.Filters.permission_query_filters ddcore.Perm.Access.controller_allows filters_pass
has_permission-permission_filters_example =
    has_permission-permission_filters site tables walks
      (λ o. if str_eq o "Item" then item else order) order sale seller reads hooks
      (order ∷ item ∷ []) (λ _. false) ("All" ∷ "Seller" ∷ []) []
      (record { allow = "Territory"; for_value = "Brazil"; applicable_for = "" } ∷ []) all refl refl
      refl refl refl refl refl refl (refl, tt)
      ((λ x. absurd (true≢false (sym x))), ((λ _. refl), tt)) ((refl, tt), (tt, tt)) order-Settled
      (
        (
          (λ x. absurd (true≢false (sym x))),
          (
            (λ _.
                item-Settled (doc (λ k. if str_eq k "origin" then "Brazil" else "i1") no_rows)
                  refl),
            tt,
          ),
        ),
        tt,
        tt,
      )
      tt refl refl

abbrev listed : Doc → Result Bool
listed dc = do
  fs ← permission_filters site seller reads hooks (order ∷ item ∷ []) (λ _. false) order
  ok (filters_pass tables fs dc)

sale-listed : listed sale ≡ ok true
unfolding permission_filters ddcore.Perm.Filters.own_filters
    ddcore.Perm.Filters.permission_query_filters ddcore.Perm.Filters.strict_scope_filters
    ddcore.Perm.is_unscoped_only ddcore.Perm.Filters.table_filters filters_pass
    ddcore.Perm.role_grant ddcore.Perm.contains_fold ddcore.Perm.perm_has ddcore.Perm.shared_names
    ddcore.Perm.Filters.column_passes ddcore.Perm.Filters.together
    ddcore.Perm.Filters.binding_filters ddcore.Perm.Scopes.applicable_scopes scope_bindings
sale-listed = refl

-- a row from elsewhere
stray_unlisted :
    listed (
      doc
        (λ k. if str_eq k "owner" then "ana" else "Ceara")
        (row "items" (doc (λ _. "Chile") no_rows) no_rows))
    ≡ ok false
unfolding permission_filters ddcore.Perm.Filters.own_filters
    ddcore.Perm.Filters.permission_query_filters ddcore.Perm.Filters.strict_scope_filters
    ddcore.Perm.is_unscoped_only ddcore.Perm.Filters.table_filters filters_pass
    ddcore.Perm.role_grant ddcore.Perm.contains_fold ddcore.Perm.perm_has ddcore.Perm.shared_names
    ddcore.Perm.Filters.column_passes ddcore.Perm.Filters.together
    ddcore.Perm.Filters.binding_filters ddcore.Perm.Scopes.applicable_scopes scope_bindings
stray_unlisted = refl

-- someone else's order
other_unlisted : listed (doc (λ _. "Ceara") no_rows) ≡ ok false
unfolding permission_filters ddcore.Perm.Filters.own_filters
    ddcore.Perm.Filters.permission_query_filters ddcore.Perm.Filters.strict_scope_filters
    ddcore.Perm.is_unscoped_only ddcore.Perm.Filters.table_filters filters_pass
    ddcore.Perm.role_grant ddcore.Perm.contains_fold ddcore.Perm.perm_has ddcore.Perm.shared_names
    ddcore.Perm.Filters.column_passes
other_unlisted = refl
