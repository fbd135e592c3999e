-- ===== src/Tree/Tests.antt =====
-- A hierarchy of three, the moves that checkTree refuses and lets through, and the theorems.
use ddcore.Common.{
  sym, ap, ◌∙◌, ℕ, ◌<◌, ◌≡◌, ◌↔◌, refl, true, false, Option, none, some, List, [], ◌∷◌, String,
  str_eq, any, arith, if◌then◌else◌, inl, inr, Bool-cases, eq_iff, subst,
}
use ddcore.Cerr.{ok, err, validation}
use ddcore.Tree.{
  insert_node, Node, row_of, parent_of, tree_ancestors_inclusive, check_tree, check_tree_delete,
  save_node,
}
use ddcore.Tree.Walk.{IsRanked, Below, ancestors-Below}
use ddcore.Tree.Groups.{IsGrouped, check_tree-IsGrouped}
use ddcore.Tree.Cycle.{inserted-cycle}
use ddcore.Tree.Acyclic.{IsAcyclic, check_tree-IsAcyclic}

abbrev world : Node
world = record { id = "World"; parent = ""; is_group = true }

abbrev brazil : Node
brazil = record { id = "Brazil"; parent = "World"; is_group = true }

abbrev rows : List Node
rows = world ∷ brazil ∷ []

-- the world cannot be moved under Brazil
refuses :
    check_tree rows false "Territory" (record world { parent = "Brazil" }) (some world)
    ≡ err (
        validation "{0} {1} cannot be moved under its own descendant {2}"
          ("Territory" ∷ "World" ∷ "Brazil" ∷ []))
unfolding check_tree ddcore.Tree.parent_refusal row_of tree_ancestors_inclusive ddcore.Tree.walk
    parent_of
refuses = refl

lets_through :
    check_tree rows false "Territory" (record brazil { parent = "" }) (some brazil) ≡ ok true
unfolding check_tree ddcore.Tree.parent_refusal ddcore.Tree.leaf_refusal
lets_through = refl

abbrev rank : String → ℕ
rank x = if str_eq x "World" then 0 else 1

ranked : IsRanked rows rank
unfolding IsRanked parent_of row_of
ranked x q e = elim (Bool-cases (str_eq "World" x)) [
  | inl t ↦ (let z : ◌≡◌ {A = Option String} none (some q) = rw t at e in absurd (cc z))
  | inr t ↦ elim (Bool-cases (str_eq "Brazil" x)) [
    | inl u ↦
        let z : some "World" ≡ some q = rw (t, u) at e in
        let q_world : "World" ≡ q = cc z in
        subst (λ y. rank q < rank y) ((eq_iff "Brazil" x).0 u)
          (subst (λ y. rank y < rank "Brazil") q_world (omega arith))
    | inr u ↦ (let z : ◌≡◌ {A = Option String} none (some q) = rw (t, u) at e in absurd (cc z))
  ]
]

ancestors-Below_example :
    (any (λ a. str_eq a "World") (tree_ancestors_inclusive rows "Brazil") ≡ true)
    ↔ Below rows "Brazil" "World"
ancestors-Below_example = ancestors-Below rows rank "Brazil" "World" ranked refl

check_tree-IsAcyclic_example : IsAcyclic (save_node (record brazil { parent = "" }) rows)
unfolding row_of
check_tree-IsAcyclic_example =
    check_tree-IsAcyclic rows false "Territory" (record brazil { parent = "" }) brazil true
      (rank, ranked) refl lets_through

abbrev north : Node
north = record { id = "North"; parent = "South"; is_group = true }

abbrev south : Node
south = record { id = "South"; parent = "North"; is_group = true }

inserted-cycle_example :
    (check_tree rows true "Territory" north none ≡ ok false)
    × (check_tree (insert_node north rows) true "Territory" south none ≡ ok false)
    × (IsAcyclic (insert_node south (insert_node north rows)) → ⊥)
unfolding row_of
inserted-cycle_example =
    inserted-cycle rows "Territory" north south refl refl refl refl refl refl refl refl

world_named : str_eq "" "" ≡ false → ⊥
world_named h = cc h

world_row : (p : Node) → row_of rows "World" ≡ some p → p.is_group ≡ true
unfolding row_of
world_row p h = (let e : world ≡ p = cc h in subst (λ y. y.is_group ≡ true) e refl)

grouped : IsGrouped rows
unfolding IsGrouped
grouped m p (inl e) h r = absurd (world_named (subst (λ y. str_eq y.parent "" ≡ false) (sym e) h))
grouped m p (inr (inl e)) h r = world_row p (ap (λ y. row_of rows y.parent) e ∙ r)
grouped m p (inr (inr e)) h r = absurd e

check_tree-IsGrouped_example : IsGrouped (save_node (record brazil { parent = "" }) rows)
unfolding row_of
check_tree-IsGrouped_example =
    check_tree-IsGrouped rows false "Territory" (record brazil { parent = "" }) brazil true grouped
      refl refl lets_through
