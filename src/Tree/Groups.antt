-- ===== src/Tree/Groups.antt =====
-- Groups and the saves that checkTree of internal/engine/tree.go lets through.
use ddcore.Common.{
  find-Has, eq_refl, eq_iff, ◌≡◌, refl, sym, ap, subst, ◌∙◌, String, Bool, true, false, ◌||◌, none,
  some, List, [], ◌∷◌, if◌then◌else◌, str_eq, any, Has, Bool-cases, inl, inr, ◌⊎◌, arith,
}
use ddcore.Tree.{
  moved, first_error, ok, check_tree, Node, row_of, parent_refusal, leaf_refusal, group_refusal,
  cycle_refusal, save_node, tree_has_children, tree_ancestors_inclusive,
}
use ddcore.Tree.Acyclic.{verdict-ok, row_of-save_same, row_of-save_other, first_error-none}

-- a parent that is there is a group
unfoldable pub IsGrouped : List Node → Type 0
IsGrouped rows =
    (m p : Node)
    → Has m rows
    → str_eq m.parent "" ≡ false
    → row_of rows m.parent ≡ some p
    → p.is_group ≡ true

-- the rows after a save: the document, and the others
Has-save :
    (n m : Node) (rows : List Node)
    → Has m (save_node n rows)
    → (n ≡ m) ⊎ Has m rows × (str_eq m.id n.id ≡ false)
unfolding save_node
Has-save n m [] h = absurd h
Has-save n m (x ∷ rows) h = elim (Bool-cases (str_eq x.id n.id)) [
  | inl t ↦ elim (subst (λ b. ((if b then n else x) ≡ m) ⊎ Has m (save_node n rows)) t h) [
    | inl e ↦ inl e
    | inr k ↦ (elim (Has-save n m rows k) [ inl e ↦ inl e | inr (u, v) ↦ inr (inr u, v) ])
  ]
  | inr t ↦ elim (subst (λ b. ((if b then n else x) ≡ m) ⊎ Has m (save_node n rows)) t h) [
    | inl e ↦ inr (inl e, subst (λ y. str_eq y.id n.id ≡ false) e t)
    | inr k ↦ (elim (Has-save n m rows k) [ inl e ↦ inl e | inr (u, v) ↦ inr (inr u, v) ])
  ]
]

or-right : (a b : Bool) → b ≡ true → (a || b) ≡ true
or-right a b h = ground arith

child_any :
    (rows : List Node) (m : Node) (id : String)
    → Has m rows
    → str_eq m.parent id ≡ true
    → any (λ x. str_eq x.parent id) rows ≡ true
child_any [] m id h e = absurd h
child_any (x ∷ rows) m id h e = elim h [
  | inl k ↦ rw (subst (λ y. str_eq y.parent id ≡ true) (sym k) e) refl
  | inr k ↦
      or-right (str_eq x.parent id) (any (λ y. str_eq y.parent id) rows) (child_any rows m id k e)
]

-- the refusal of a leaf with children, read backwards
stays_group :
    (rows : List Node) (label : String) (n before : Node)
    → leaf_refusal rows label n (some before) ≡ none
    → before.is_group ≡ true
    → tree_has_children rows n.id ≡ true
    → n.is_group ≡ true
unfolding leaf_refusal
stays_group rows label n before h g c = elim (Bool-cases n.is_group) [
  | inl t ↦ t
  | inr t ↦ (let z = rw (g, t, c) at h in absurd (cc z))
]

group-is :
    (ignore_links : Bool) (label parent : String) (p : Node)
    → group_refusal (some p) ignore_links label parent ≡ none
    → p.is_group ≡ true
group-is ignore_links label parent p h = elim (Bool-cases p.is_group) [
  | inl t ↦ t
  | inr t ↦ (let z = rw t at h in absurd (cc z))
]

-- a new parent that is there is a group, and not the document itself
new_parent-group :
    (rows : List Node) (ignore_links : Bool) (label : String) (n before p : Node)
    → parent_refusal rows ignore_links label n (some before) ≡ none
    → str_eq n.parent "" ≡ false
    → str_eq before.parent n.parent ≡ false
    → (str_eq n.parent n.id ≡ false) × (row_of rows n.parent ≡ some p → p.is_group ≡ true)
unfolding parent_refusal
new_parent-group rows ignore_links label n before p h e c =
    elim (Bool-cases (str_eq n.parent n.id)) [
      | inl u ↦ (let z = rw (e, c, u) at h in absurd (cc z))
      | inr u ↦
          let z =
            first_error-none rows ignore_links label n before
              (group_refusal (row_of rows n.parent) ignore_links label n.parent)
              (cycle_refusal (some before) (tree_ancestors_inclusive rows n.parent) label n.id
                n.parent)
              (rw (e, c, u) at h) in
          (
            u,
            λ r.
                group-is ignore_links label n.parent p
                  (ap (λ o. group_refusal o ignore_links label n.parent) (sym r) ∙ z.0),
          )
    ]

clash : true ≡ false → ⊥
clash h = cc h

some-same : {x y : Node} → some x ≡ some y → x ≡ y
some-same h = cc h

apart_swap : (x y : String) → str_eq x y ≡ false → str_eq y x ≡ false
apart_swap x y h = elim (Bool-cases (str_eq y x)) [
  | inl t ↦ absurd (clash (sym (eq_refl x) ∙ (ap (λ z. str_eq x z) (sym ((eq_iff y x).0 t)) ∙ h)))
  | inr t ↦ t
]

module _ (rows : List Node) (ignore_links : Bool) (label : String) (n before : Node)
    (grouped : IsGrouped rows) (there : row_of rows n.id ≡ some before)
    (named : str_eq n.id "" ≡ false)
    (parent_ok : parent_refusal rows ignore_links label n (some before) ≡ none)
    (leaf_ok : leaf_refusal rows label n (some before) ≡ none) where
  before-Has : Has before rows
  unfolding row_of
  before-Has = (find-Has (λ x. str_eq x.id n.id) rows before there).0

  -- the document is a group, if it has a child
  group_of_child : (m : Node) → Has m rows → str_eq m.parent n.id ≡ true → n.is_group ≡ true
  unfolding IsGrouped tree_has_children
  group_of_child m k e =
      let m_n = (eq_iff m.parent n.id).0 e in
      stays_group rows label n before leaf_ok
        (grouped m before k (subst (λ z. str_eq z "" ≡ false) (sym m_n) named)
          (ap (λ z. row_of rows z) m_n ∙ there))
        (rw (named, child_any rows m n.id k e) refl)

  -- the parent found after the save, if it is the document
  parent_self :
      (q : String) (p : Node) → str_eq q n.id ≡ true → row_of (save_node n rows) q ≡ some p → n ≡ p
  parent_self q p e r = some-same (
      sym (row_of-save_same n before rows there)
      ∙ (ap (λ z. row_of (save_node n rows) z) (sym ((eq_iff q n.id).0 e)) ∙ r))

  parent_other :
      (q : String) (p : Node)
      → str_eq q n.id ≡ false
      → row_of (save_node n rows) q ≡ some p
      → row_of rows q ≡ some p
  parent_other q p e r = sym (row_of-save_other n rows q (apart_swap q n.id e)) ∙ r

  own_parent :
      (p : Node)
      → str_eq n.parent "" ≡ false
      → row_of (save_node n rows) n.parent ≡ some p
      → p.is_group ≡ true
  unfolding IsGrouped
  own_parent p e r = elim (Bool-cases (str_eq before.parent n.parent)) [
    | inr c ↦
        let (apart, group) = new_parent-group rows ignore_links label n before p parent_ok e c in
        group (parent_other n.parent p apart r)
    | inl c ↦
        let b_n = (eq_iff before.parent n.parent).0 c in
        elim (Bool-cases (str_eq n.parent n.id)) [
          | inl u ↦
              subst (λ y. y.is_group ≡ true) (parent_self n.parent p u r)
                (group_of_child before before-Has (subst (λ z. str_eq z n.id ≡ true) (sym b_n) u))
          | inr u ↦
              grouped before p before-Has (subst (λ z. str_eq z "" ≡ false) (sym b_n) e)
                (ap (λ z. row_of rows z) b_n ∙ parent_other n.parent p u r)
        ]
  ]

  IsGrouped-save : IsGrouped (save_node n rows)
  unfolding IsGrouped
  IsGrouped-save m p k e r = elim (Has-save n m rows k) [
    | inl n_m ↦
        own_parent p (subst (λ y. str_eq y.parent "" ≡ false) (sym n_m) e)
          (subst (λ y. row_of (save_node n rows) y.parent ≡ some p) (sym n_m) r)
    | inr (h, ne) ↦ elim (Bool-cases (str_eq m.parent n.id)) [
      | inl u ↦ subst (λ y. y.is_group ≡ true) (parent_self m.parent p u r) (group_of_child m h u)
      | inr u ↦ grouped m p h e (parent_other m.parent p u r)
    ]
  ]

-- If checkTree lets through the save of a document that is there, in a hierarchy where every
-- parent that is there is a group, this holds after the save too, with or without links ignored.
pub check_tree-IsGrouped :
    (rows : List Node) (ignore_links : Bool) (label : String) (n before : Node) (b : Bool)
    → IsGrouped rows
    → row_of rows n.id ≡ some before
    → str_eq n.id "" ≡ false
    → check_tree rows ignore_links label n (some before) ≡ ok b
    → IsGrouped (save_node n rows)
unfolding check_tree
check_tree-IsGrouped rows ignore_links label n before b g h e k =
    let passed =
      verdict-ok rows ignore_links label n before
        (first_error (parent_refusal rows ignore_links label n (some before))
          (leaf_refusal rows label n (some before)))
        (moved (some before) n) b k in
    let (p, l) =
      first_error-none rows ignore_links label n before
        (parent_refusal rows ignore_links label n (some before))
        (leaf_refusal rows label n (some before)) passed in
    IsGrouped-save rows ignore_links label n before g h e p l
