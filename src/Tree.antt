-- ===== src/Tree.antt =====
-- Hierarchies: truthy, treeAncestorsInclusive, treeHasChildren, checkTree and checkTreeDelete of
-- internal/engine/tree.go, over the rows of one tree DocType's table. Each id stands in one row.
-- The queries succeed: the model leaves out that the database can fail.
pub mod Walk
pub mod Acyclic
pub mod Cycle
pub mod Groups
mod Tests
use ddcore.Common.{
  ℕ, zero, suc, ◌+◌, String, Bool, true, false, not, ◌&&◌, ◌||◌, Option, none, some, List, [], ◌∷◌,
  ◌++◌, if◌then◌else◌, str_eq, any, find, select, update_where, length,
}
use ddcore.Text.{equal_fold}
use ddcore.Cerr.{Error, Result, ok, err, validation, link_exists, with_title_key}

-- A Check as it arrives; `number`: whether the number is other than zero.
pub data Check : Type 0 where
  absent : Check
  bool : Bool → Check
  text : String → Check
  number : Bool → Check

unfoldable pub truthy : (ℕ → ℕ) → Check → Bool
truthy fold absent = false
truthy fold (bool b) = b
truthy fold (text s) = str_eq s "1" || equal_fold fold s "true"
truthy fold (number b) = b

pub record Node : Type 0 where
  pub id : String
  pub parent : String
  pub is_group : Bool

unfoldable pub row_of : List Node → String → Option Node
row_of rows x = find (λ n. str_eq n.id x) rows

-- the parent that a row names, if the document is there and names one
abbrev pub named_parent : Option Node → Option String
named_parent none = none
named_parent (some n) = if str_eq n.parent "" then none else some n.parent

unfoldable pub parent_of : List Node → String → Option String
parent_of rows x = named_parent (row_of rows x)

abbrev pub walk_on : Option String → (String → List String) → List String
walk_on none above = []
walk_on (some p) above = above p

-- The recursive query: an id that the result holds is not visited again. `fuel` bounds the visits;
-- one more than the rows is enough, since every id but the last is a row's.
unfoldable pub walk : ℕ → List Node → List String → String → List String
walk zero rows seen x = []
walk (suc fuel) rows seen x =
    let above = walk_on (parent_of rows x) (walk fuel rows (x ∷ seen)) in
    if any (λ y. str_eq y x) seen then [] else x ∷ above

unfoldable pub tree_ancestors_inclusive : List Node → String → List String
tree_ancestors_inclusive rows id =
    let above = walk (length rows + 1) rows [] id in if str_eq id "" then [] else above

unfoldable pub tree_has_children : List Node → String → Bool
tree_has_children rows id = not (str_eq id "") && any (λ n. str_eq n.parent id) rows

abbrev pub parent_changed : Option Node → String → Bool
parent_changed none parent = true
parent_changed (some before) parent = not (str_eq before.parent parent)

-- the parent must be there, unless links are ignored, and a group
abbrev pub group_refusal : Option Node → Bool → String → String → Option Error
group_refusal none ignore_links label parent =
    if ignore_links then none else some (validation "{0} {1} does not exist" (label ∷ parent ∷ []))
group_refusal (some p) ignore_links label parent =
    if p.is_group
    then none
    else some (validation "{0} {1} is not a group and cannot have children" (label ∷ parent ∷ []))

abbrev pub cycle_refusal : Option Node → List String → String → String → String → Option Error
cycle_refusal none above label id parent = none
cycle_refusal (some before) above label id parent =
    if any (λ a. str_eq a id) above
    then some (
        validation "{0} {1} cannot be moved under its own descendant {2}"
          (label ∷ id ∷ parent ∷ []))
    else none

abbrev pub first_error : Option Error → Option Error → Option Error
first_error none e = e
first_error (some e) f = some e

unfoldable pub parent_refusal : List Node → Bool → String → Node → Option Node → Option Error
parent_refusal rows ignore_links label n before =
    let placed =
      first_error (group_refusal (row_of rows n.parent) ignore_links label n.parent)
        (cycle_refusal before (tree_ancestors_inclusive rows n.parent) label n.id n.parent) in
    if not (str_eq n.parent "") && parent_changed before n.parent
    then (if str_eq n.parent n.id
        then some (validation "{0} {1} cannot be its own parent" (label ∷ n.id ∷ []))
        else placed)
    else none

unfoldable pub leaf_refusal : List Node → String → Node → Option Node → Option Error
leaf_refusal rows label n none = none
leaf_refusal rows label n (some before) =
    if before.is_group && not n.is_group && tree_has_children rows n.id
    then some (validation "{0} {1} has child nodes and must stay a group" (label ∷ n.id ∷ []))
    else none

-- whether the read caches of the subtree are dropped
abbrev pub moved : Option Node → Node → Bool
moved none n = false
moved (some before) n = not (str_eq before.parent n.parent)

abbrev pub verdict : Option Error → Bool → Result Bool
verdict (some e) b = err e
verdict none b = ok b

-- checkTree on a tree DocType; `before` is none on an insert
unfoldable pub check_tree : List Node → Bool → String → Node → Option Node → Result Bool
check_tree rows ignore_links label n before =
    verdict
      (first_error (parent_refusal rows ignore_links label n before)
        (leaf_refusal rows label n before))
      (moved before n)

unfoldable pub check_tree_delete : List Node → String → String → Option Error
check_tree_delete rows label id =
    if tree_has_children rows id
    then some (
        with_title_key
          (link_exists "{0} {1} has child nodes; delete or move them first" (label ∷ id ∷ []))
          "Cannot delete")
    else none

-- the writes that the checks guard
unfoldable pub insert_node : Node → List Node → List Node
insert_node n rows = rows ++ (n ∷ [])

unfoldable pub save_node : Node → List Node → List Node
save_node n rows = update_where (λ m. str_eq m.id n.id) (λ _. n) rows

unfoldable pub delete_node : String → List Node → List Node
delete_node id rows = select (λ m. not (str_eq m.id id)) rows
