-- ===== src/Tree/Cycle.antt =====
-- Inserts whose links are checked later, as internal/engine/import.go makes them.
use ddcore.Common.{
  ◌≡◌, refl, sym, ap, subst, ◌∙◌, String, true, false, Option, none, some, List, [], ◌∷◌, ◌++◌,
  str_eq, eq_iff, eq_refl, Bool-cases, inl, inr, arith, if◌then◌else◌,
}
use ddcore.Cerr.{ok}
use ddcore.Tree.{
  group_refusal, parent_refusal, leaf_refusal, Node, row_of, parent_of, named_parent, check_tree,
  insert_node,
}
use ddcore.Tree.Walk.{IsRanked}
use ddcore.Tree.Acyclic.{IsAcyclic}

row_of-append :
    (rows ys : List Node) (x : String) → row_of rows x ≡ none → row_of (rows ++ ys) x ≡ row_of ys x
unfolding row_of
row_of-append [] ys x h = refl
row_of-append (m ∷ rows) ys x h = elim (Bool-cases (str_eq m.id x)) [
  | inl t ↦ (let z : ◌≡◌ {A = Option Node} (some m) none = rw t at h in absurd (cc z))
  | inr t ↦ rw t (row_of-append rows ys x (rw t at h))
]

row_of-one : (n : Node) → row_of (n ∷ []) n.id ≡ some n
unfolding row_of
row_of-one n = rw (eq_refl n.id) refl

row_of-first : (a b : Node) → row_of (a ∷ b ∷ []) a.id ≡ some a
unfolding row_of
row_of-first a b = rw (eq_refl a.id) refl

row_of-second : (a b : Node) → str_eq a.id b.id ≡ false → row_of (a ∷ b ∷ []) b.id ≡ some b
unfolding row_of
row_of-second a b h = rw (h, eq_refl b.id) refl

two_inserted :
    (rows : List Node) (a b : Node) → insert_node b (insert_node a rows) ≡ rows ++ (a ∷ b ∷ [])
unfolding insert_node
two_inserted [] a b = refl
two_inserted (m ∷ rows) a b = ap (λ r. m ∷ r) (two_inserted rows a b)

named_by :
    (n : Node) (p : String) → n.parent ≡ p → str_eq p "" ≡ false → named_parent (some n) ≡ some p
named_by n p e h = subst (λ z. (if str_eq z "" then none else some z) ≡ some p) (sym e) (rw h refl)

-- an insert passes if the parent is not there, or there and a group
free_insert :
    (rows : List Node) (label : String) (n : Node) (o : Option Node)
    → row_of rows n.parent ≡ o
    → group_refusal o true label n.parent ≡ none
    → str_eq n.parent n.id ≡ false
    → check_tree rows true label n none ≡ ok false
unfolding check_tree parent_refusal leaf_refusal
free_insert rows label n o h g k = elim (Bool-cases (str_eq n.parent "")) [
  | inl t ↦ rw t refl
  | inr t ↦ rw (t, k, h, g) refl
]

true-false : true ≡ false → ⊥
true-false h = cc h

str_eq-apart : (x y : String) → str_eq x y ≡ false → str_eq y x ≡ false
str_eq-apart x y h = elim (Bool-cases (str_eq y x)) [
  | inl t ↦
      absurd (true-false (sym (eq_refl x) ∙ (ap (λ z. str_eq x z) (sym ((eq_iff y x).0 t)) ∙ h)))
  | inr t ↦ t
]

group-passes :
    (n : Node) (label p : String) → n.is_group ≡ true → group_refusal (some n) true label p ≡ none
group-passes n label p h = rw h refl

module _ (rows : List Node) (label : String) (a b : Node) (no_a : row_of rows a.id ≡ none)
    (no_b : row_of rows b.id ≡ none) (apart : str_eq a.id b.id ≡ false)
    (a_named : str_eq a.id "" ≡ false) (b_named : str_eq b.id "" ≡ false) (a_b : a.parent ≡ b.id)
    (b_a : b.parent ≡ a.id) where
  first-ok : check_tree rows true label a none ≡ ok false
  first-ok =
      free_insert rows label a none (ap (λ z. row_of rows z) a_b ∙ no_b) refl
        (subst (λ z. str_eq z a.id ≡ false) (sym a_b) (str_eq-apart a.id b.id apart))

  second-ok : a.is_group ≡ true → check_tree (insert_node a rows) true label b none ≡ ok false
  unfolding insert_node
  second-ok g =
      free_insert (insert_node a rows) label b (some a)
        (ap (λ z. row_of (rows ++ (a ∷ [])) z) b_a
          ∙ (row_of-append rows (a ∷ []) a.id no_a ∙ row_of-one a))
        (group-passes a label b.parent g) (subst (λ z. str_eq z b.id ≡ false) (sym b_a) apart)

  -- If links are not checked at the insert, two new documents of a tree, each the other's parent,
  -- the first of them a group, both pass checkTree, and they leave a cycle in the hierarchy.
  pub inserted-cycle :
      a.is_group ≡ true
      → (check_tree rows true label a none ≡ ok false)
        × (check_tree (insert_node a rows) true label b none ≡ ok false)
        × (IsAcyclic (insert_node b (insert_node a rows)) → ⊥)
  unfolding IsRanked parent_of
  inserted-cycle g = (
    first-ok,
    second-ok g,
    λ (rank, r).
        let rows' = insert_node b (insert_node a rows) in
        let at_a =
          ap (λ z. row_of z a.id) (two_inserted rows a b)
          ∙ (row_of-append rows (a ∷ b ∷ []) a.id no_a ∙ row_of-first a b) in
        let at_b =
          ap (λ z. row_of z b.id) (two_inserted rows a b)
          ∙ (row_of-append rows (a ∷ b ∷ []) b.id no_b ∙ row_of-second a b apart) in
        omega (
          arith,
          r a.id b.id (ap named_parent at_a ∙ named_by a b.id a_b b_named),
          r b.id a.id (ap named_parent at_b ∙ named_by b a.id b_a a_named),
        ),
  )
