-- ===== src/Tree/Acyclic.antt =====
-- Cycles and the saves that checkTree of internal/engine/tree.go lets through.
use ddcore.Common.{
  ℕ, ◌+◌, ◌<◌, ◌≡◌, inl, inr, refl, sym, ap, subst, ◌∙◌, String, Bool, true, false, Option, none,
  some, List, [], ◌∷◌, if◌then◌else◌, str_eq, eq_iff, eq_refl, any, length, Bool-cases, arith,
}
use ddcore.Cerr.{Error, ok}
use ddcore.Tree.{
  Node, row_of, parent_of, named_parent, walk, tree_ancestors_inclusive, first_error, verdict,
  group_refusal, parent_refusal, leaf_refusal, moved, check_tree, save_node,
}
use ddcore.Tree.Walk.{Below, here, up, IsRanked, walk_complete, walk_sound, Below-rank, room_start}

-- no document lies below itself: the ids can be ranked so that every parent ranks below its children
abbrev pub IsAcyclic : List Node → Type 0
IsAcyclic rows = (rank : String → ℕ) × IsRanked rows rank

pub row_of-save_same :
    (n before : Node) (rows : List Node)
    → row_of rows n.id ≡ some before
    → row_of (save_node n rows) n.id ≡ some n
unfolding row_of save_node
row_of-save_same n before [] h = absurd (cc h)
row_of-save_same n before (m ∷ rows) h = elim (Bool-cases (str_eq m.id n.id)) [
  | inl t ↦ rw (t, eq_refl n.id) refl
  | inr t ↦ rw t (rw t (row_of-save_same n before rows (rw t at h)))
]

pub row_of-save_other :
    (n : Node) (rows : List Node) (x : String)
    → str_eq n.id x ≡ false
    → row_of (save_node n rows) x ≡ row_of rows x
unfolding row_of save_node
row_of-save_other n [] x h = refl
row_of-save_other n (m ∷ rows) x h = elim (Bool-cases (str_eq m.id n.id)) [
  | inl t ↦
      let m_x : str_eq m.id x ≡ false =
        subst (λ z. str_eq z x ≡ false) (sym ((eq_iff m.id n.id).0 t)) h in
      rw (t, h, m_x, row_of-save_other n rows x h) refl
  | inr t ↦ rw (t, row_of-save_other n rows x h) refl
]

named_parent-some :
    (n : Node) (q : String)
    → named_parent (some n) ≡ some q
    → (str_eq n.parent "" ≡ false) × (q ≡ n.parent)
named_parent-some n q h = elim (Bool-cases (str_eq n.parent "")) [
  | inl t ↦ (let z : ◌≡◌ {A = Option String} none (some q) = rw t at h in absurd (cc z))
  | inr t ↦ (let z : some n.parent ≡ some q = rw t at h in (t, sym (cc z)))
]

module _ (rows : List Node) (rank : String → ℕ) (r : IsRanked rows rank) (n : Node) where
  -- whether x lies in the subtree of n
  abbrev in_subtree : String → Bool
  in_subtree x = any (λ a. str_eq a n.id) (walk (length rows + 1) rows [] x)

  in_subtree-Below : (x : String) → in_subtree x ≡ true → Below rows x n.id
  in_subtree-Below x h = walk_sound rows (length rows + 1) [] x n.id h

  Below-in_subtree : (x : String) → Below rows x n.id → in_subtree x ≡ true
  Below-in_subtree x b =
      walk_complete rows rank r (length rows + 1) [] x n.id (omega (arith, room_start rows)) tt b

  -- the subtree of n, lifted above the new parent
  lifted : String → ℕ
  lifted x = if in_subtree x then rank x + (rank n.parent + 1) else rank x

  lifted-less :
      (a b : Bool) (u v w : ℕ)
      → u < v
      → (a ≡ true → b ≡ true)
      → (if a then u + (w + 1) else u) < (if b then v + (w + 1) else v)
  lifted-less false false u v w l h = l
  lifted-less false true u v w l h = omega (arith, l)
  lifted-less true true u v w l h = omega (arith, l)
  lifted-less true false u v w l h = absurd (cc (h refl))

  other-lifted : (x q : String) → parent_of rows x ≡ some q → lifted q < lifted x
  unfolding lifted IsRanked
  other-lifted x q e =
      lifted-less (in_subtree q) (in_subtree x) (rank q) (rank x) (rank n.parent) (r x q e)
        (λ h. Below-in_subtree x (up e (in_subtree-Below q h)))

  self-lifted : in_subtree n.parent ≡ false → lifted n.parent < lifted n.id
  unfolding lifted
  self-lifted h = rw (h, Below-in_subtree n.id here) (omega arith)

  IsRanked-save :
      (before : Node)
      → row_of rows n.id ≡ some before
      → (str_eq n.parent "" ≡ false → in_subtree n.parent ≡ false)
      → IsRanked (save_node n rows) lifted
  unfolding IsRanked parent_of
  IsRanked-save before h k x q e = elim (Bool-cases (str_eq n.id x)) [
    | inl t ↦
        let (p, q_p) = named_parent-some n q (
          sym (ap named_parent (row_of-save_same n before rows h))
          ∙ (ap (λ z. named_parent (row_of (save_node n rows) z)) ((eq_iff n.id x).0 t) ∙ e)) in
        subst (λ z. lifted q < lifted z) ((eq_iff n.id x).0 t)
          (subst (λ z. lifted z < lifted n.id) (sym q_p) (self-lifted (k p)))
    | inr t ↦ other-lifted x q (sym (ap named_parent (row_of-save_other n rows x t)) ∙ e)
  ]

  -- the parent that the node had is not below it
  old_parent-outside : (q : String) → parent_of rows n.id ≡ some q → in_subtree q ≡ false
  unfolding IsRanked
  old_parent-outside q e = elim (Bool-cases (in_subtree q)) [
    | inl t ↦
        absurd (omega (arith, r n.id q e, Below-rank rows rank q n.id r (in_subtree-Below q t)))
    | inr t ↦ t
  ]

  same-parent :
      (before : Node)
      → row_of rows n.id ≡ some before
      → str_eq before.parent n.parent ≡ true
      → str_eq n.parent "" ≡ false
      → in_subtree n.parent ≡ false
  unfolding parent_of
  same-parent before h s p =
      let eq = (eq_iff before.parent n.parent).0 s in
      old_parent-outside n.parent (
        ap named_parent h
        ∙ subst (λ z. (if str_eq z "" then none else some z) ≡ some n.parent) (sym eq) (rw p refl))

some-none : {A : Type 0} {a : A} → some a ≡ none → ⊥
some-none h = cc h

module _ (rows : List Node) (ignore_links : Bool) (label : String) (n before : Node) where
  pub verdict-ok : (e : Option Error) (b c : Bool) → verdict e b ≡ ok c → e ≡ none
  verdict-ok none b c h = refl
  verdict-ok (some e) b c h = absurd (cc h)

  pub first_error-none : (e f : Option Error) → first_error e f ≡ none → (e ≡ none) × (f ≡ none)
  first_error-none none f h = (refl, h)
  first_error-none (some e) f h = absurd (cc h)

  -- a parent that changed does not lie below the document
  new_parent-outside :
      str_eq n.parent "" ≡ false
      → str_eq before.parent n.parent ≡ false
      → parent_refusal rows ignore_links label n (some before) ≡ none
      → any (λ a. str_eq a n.id) (tree_ancestors_inclusive rows n.parent) ≡ false
  unfolding parent_refusal
  new_parent-outside p s h =
      elim (Bool-cases (any (λ a. str_eq a n.id) (tree_ancestors_inclusive rows n.parent))) [
        | inr t ↦ t
        | inl t ↦ elim (Bool-cases (str_eq n.parent n.id)) [
          | inl u ↦ (let z = rw (p, s, u) at h in absurd (cc z))
          | inr u ↦
              (let z = rw (p, s, u, t) at h in
                absurd (
                  some-none
                    (first_error-none
                      (group_refusal (row_of rows n.parent) ignore_links label n.parent) _ z).1))
        ]
      ]

-- If checkTree lets through the save of a document that is there, in a hierarchy without cycles,
-- the hierarchy has no cycle after the save either, with or without links ignored.
pub check_tree-IsAcyclic :
    (rows : List Node) (ignore_links : Bool) (label : String) (n before : Node) (b : Bool)
    → IsAcyclic rows
    → row_of rows n.id ≡ some before
    → check_tree rows ignore_links label n (some before) ≡ ok b
    → IsAcyclic (save_node n rows)
unfolding check_tree tree_ancestors_inclusive
check_tree-IsAcyclic rows ignore_links label n before b (rank, r) h k =
    let passed =
      verdict-ok rows ignore_links label n before
        (first_error (parent_refusal rows ignore_links label n (some before))
          (leaf_refusal rows label n (some before)))
        (moved (some before) n) b k in
    let no_refusal =
      (first_error-none rows ignore_links label n before
        (parent_refusal rows ignore_links label n (some before))
        (leaf_refusal rows label n (some before)) passed).0 in
    (
      lifted rows rank r n,
      IsRanked-save rows rank r n before h (λ p. elim (Bool-cases (str_eq before.parent n.parent)) [
        | inl t ↦ same-parent rows rank r n before h t p
        | inr t ↦
            (let out = new_parent-outside rows ignore_links label n before p t no_refusal in
              rw p at out)
      ]),
    )
