-- ===== src/Perm/Filters/Children.antt =====
-- The list of a child DocType, bounded through the DocTypes that embed it: ParentsOf,
-- readIsOwnerOnly, parentsAllowing, childListFilters and permissionFilters of
-- internal/engine/perm.go.
use ddcore.Common.{
  ℕ, String, Bool, true, false, not, ◌&&◌, some, none, List, [], ◌∷◌, ◌++◌, if◌then◌else◌, str_eq,
  any,
}
use ddcore.Text.{equal_fold}
use ddcore.Cerr.{Result, ok, err, ◌>>=◌}
use ddcore.Perm.{Field, DocType, is_table, role_grant}
use ddcore.Perm.Fields.{can_read}
use ddcore.Perm.Scopes.{Site}
use ddcore.Perm.Access.{Ctx, Reads, elevated, has_permission}
use ddcore.Perm.Filters.{
  Filters, Groups, all, also, any_of, on_parent_row, no_group, group, plain, is_in, Hooks,
  strict_scope_filters, lifted_by_shares, own_filters,
}

abbrev pub table_pairs : (ℕ → ℕ) → String → DocType → List Field → List (DocType × Field)
table_pairs fold child d [] = []
table_pairs fold child d (tf ∷ fields) =
    let rest = table_pairs fold child d fields in
    if is_table tf && equal_fold fold tf.options child then (d, tf) ∷ rest else rest

-- over the DocTypes of the registry, in the order in which it hands them out
unfoldable pub parents_of : (ℕ → ℕ) → List DocType → String → List (DocType × Field)
parents_of fold [] child = []
parents_of fold (d ∷ doctypes) child =
    let rest = parents_of fold doctypes child in
    if d.is_child then rest else table_pairs fold child d d.fields ++ rest

abbrev pub owner_only_of : (ℕ → ℕ) → DocType → Result (List String) → Bool
owner_only_of fold d (err e) = true
owner_only_of fold d (ok roles) = (role_grant fold d roles "read").1

unfoldable pub read_is_owner_only : Site → Ctx → DocType → Bool
read_is_owner_only site c d = owner_only_of site.fold d c.roles

abbrev pub is_among : DocType → List DocType → Bool
is_among d out = any (λ x. str_eq x.name d.name) out

unfoldable pub parents_allowing :
    Site
    → Ctx
    → Reads
    → String
    → Bool
    → List DocType
    → List (DocType × Field)
    → Result (List DocType)
parents_allowing site c reads ptype first_only out [] = ok out
parents_allowing site c reads ptype first_only out ((pd, tf) ∷ pairs) =
    let skip = parents_allowing site c reads ptype first_only out pairs in
    let take = parents_allowing site c reads ptype first_only (out ++ (pd ∷ [])) pairs in
    if read_is_owner_only site c pd
    then skip
    else has_permission site c reads pd.name ptype none >>= λ b.
        if b && not (is_among pd out)
        then (if first_only then ok (out ++ (pd ∷ [])) else take)
        else skip

-- the Table fields of a parent that hold the child and that the user reads
abbrev pub readable_tables : Reads → DocType → List (DocType × Field) → List String
readable_tables reads pd [] = []
readable_tables reads pd ((p, tf) ∷ pairs) =
    let rest = readable_tables reads pd pairs in
    if str_eq p.name pd.name && can_read (reads.access pd) (some tf)
    then tf.fieldname ∷ rest
    else rest

abbrev pub parent_group : Site → Ctx → Hooks → DocType → DocType → List String → Result Filters
parent_group site c hooks d pd fields = do
  pf ← own_filters site c hooks pd
  rows ← strict_scope_filters site c d pd.name
  bounds ← lifted_by_shares site.fold c.shares rows pd.name "parent"
  ok (also (on_parent_row pd.name pf) (also (plain "parentfield" is_in fields) bounds))

abbrev pub with_group : List String → Result Filters → Result Groups → Result Groups
with_group [] g rest = rest
with_group (f ∷ fields) g rest = do fs ← g; gs ← rest; ok (group fs gs)

-- `refused`: spaceRefusal, of a DocType that the user's space does not hold
unfoldable pub parent_groups :
    Site
    → Ctx
    → Reads
    → Hooks
    → (DocType → Bool)
    → DocType
    → List (DocType × Field)
    → List DocType
    → Result Groups
parent_groups site c reads hooks refused d pairs [] = ok no_group
parent_groups site c reads hooks refused d pairs (pd ∷ parents) =
    let rest = parent_groups site c reads hooks refused d pairs parents in
    let fields = readable_tables reads pd pairs in
    if refused pd then rest else with_group fields (parent_group site c hooks d pd fields) rest

unfoldable pub child_list_filters :
    Site → Ctx → Reads → Hooks → List DocType → (DocType → Bool) → DocType → Result Filters
child_list_filters site c reads hooks doctypes refused d = do
  parents ← parents_allowing site c reads "read" false [] (parents_of site.fold doctypes d.name)
  groups ← parent_groups site c reads hooks refused d (parents_of site.fold doctypes d.name) parents
  own ← strict_scope_filters site c d d.name
  ok (also (any_of groups) own)

unfoldable pub permission_filters :
    Site → Ctx → Reads → Hooks → List DocType → (DocType → Bool) → DocType → Result Filters
permission_filters site c reads hooks doctypes refused d =
    let of_child = child_list_filters site c reads hooks doctypes refused d in
    let own = own_filters site c hooks d in
    if elevated c then ok all else if d.is_child then of_child else own
