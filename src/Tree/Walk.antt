-- ===== src/Tree/Walk.antt =====
-- The recursive query of treeAncestorsInclusive, internal/engine/tree.go.
use ddcore.Common.{
  ℕ, zero, suc, ◌+◌, ◌≤◌, ◌<◌, ◌≡◌, ◌↔◌, inl, inr, refl, sym, ap, subst, String, Bool, true, false,
  not, ◌||◌, Option, none, some, List, [], ◌∷◌, if◌then◌else◌, str_eq, eq_iff, eq_refl, any, select,
  length, All, Bool-cases, Option-cases, arith,
}
use ddcore.Tree.{Node, row_of, parent_of, walk, tree_ancestors_inclusive}

-- x is n or lies below it
pub data Below (rows : List Node) : String → String → Type 0 where
  here : {x : String} → Below rows x x
  up : {x q n : String} → parent_of rows x ≡ some q → Below rows q n → Below rows x n

-- every parent has a smaller rank than its children
unfoldable pub IsRanked : List Node → (String → ℕ) → Type 0
IsRanked rows rank = (x q : String) → parent_of rows x ≡ some q → rank q < rank x

abbrev pub unseen : List String → Node → Bool
unseen seen n = not (any (λ y. str_eq y n.id) seen)

-- how many rows the walk has not visited
abbrev pub room : List Node → List String → ℕ
room rows seen = length (select (unseen seen) rows)

length-if :
    (a b : Bool) (n : Node) (xs ys : List Node)
    → length xs ≤ length ys
    → length (if not (a || b) then n ∷ xs else xs) ≤ length (if not b then n ∷ ys else ys)
length-if true true n xs ys h = h
length-if true false n xs ys h = omega (arith, h)
length-if false true n xs ys h = h
length-if false false n xs ys h = omega (arith, h)

length-if_less :
    (a b : Bool) (n : Node) (xs ys : List Node)
    → length xs < length ys
    → length (if not (a || b) then n ∷ xs else xs) < length (if not b then n ∷ ys else ys)
length-if_less true true n xs ys h = h
length-if_less true false n xs ys h = omega (arith, h)
length-if_less false true n xs ys h = h
length-if_less false false n xs ys h = omega (arith, h)

length-taken :
    (a b : Bool) (n : Node) (xs ys : List Node)
    → a ≡ true
    → b ≡ false
    → length xs ≤ length ys
    → length (if not (a || b) then n ∷ xs else xs) < length (if not b then n ∷ ys else ys)
length-taken a b n xs ys h k l = rw (h, k) (omega (arith, l))

room-le :
    (rows : List Node) (seen : List String) (x : String) → room rows (x ∷ seen) ≤ room rows seen
room-le [] seen x = omega arith
room-le (n ∷ rows) seen x =
    length-if (str_eq x n.id) (any (λ y. str_eq y n.id) seen) n (select (unseen (x ∷ seen)) rows)
      (select (unseen seen) rows) (room-le rows seen x)

-- visiting a row takes room
room-less :
    (rows : List Node) (seen : List String) (x : String) (n : Node)
    → row_of rows x ≡ some n
    → any (λ y. str_eq y x) seen ≡ false
    → room rows (x ∷ seen) < room rows seen
unfolding row_of
room-less [] seen x n h k = absurd (cc h)
room-less (m ∷ rows) seen x n h k = elim (Bool-cases (str_eq m.id x)) [
  | inl t ↦
      let m_x = (eq_iff m.id x).0 t in
      length-taken (str_eq x m.id) (any (λ y. str_eq y m.id) seen) m
        (select (unseen (x ∷ seen)) rows) (select (unseen seen) rows)
        (subst (λ z. str_eq x z ≡ true) (sym m_x) (eq_refl x))
        (subst (λ z. any (λ y. str_eq y z) seen ≡ false) (sym m_x) k) (room-le rows seen x)
  | inr t ↦
      length-if_less (str_eq x m.id) (any (λ y. str_eq y m.id) seen) m
        (select (unseen (x ∷ seen)) rows) (select (unseen seen) rows)
        (room-less rows seen x n (rw t at h) k)
]

fresh :
    (rank : String → ℕ) (seen : List String) (x : String)
    → All (λ y. rank x < rank y) seen
    → any (λ y. str_eq y x) seen ≡ false
fresh rank [] x h = refl
fresh rank (y ∷ seen) x h = elim (Bool-cases (str_eq y x)) [
  | inl t ↦ absurd (omega (arith, h.0, ap rank ((eq_iff y x).0 t)))
  | inr t ↦ rw t (fresh rank seen x h.1)
]

parent_of-none :
    (rows : List Node) (x q : String) → row_of rows x ≡ none → parent_of rows x ≡ some q → ⊥
unfolding parent_of
parent_of-none rows x q e h = let z : ◌≡◌ {A = Option String} none (some q) = rw e at h in cc z

row_of_parent :
    (rows : List Node) (x q : String)
    → parent_of rows x ≡ some q
    → (n : Node) × (row_of rows x ≡ some n)
unfolding parent_of
row_of_parent rows x q h = elim (Option-cases (row_of rows x)) [
  | inl e ↦ absurd (parent_of-none rows x q e h)
  | inr (n, e) ↦ (n, e)
]

All-below :
    (rank : String → ℕ) (seen : List String) (x q : String)
    → rank q < rank x
    → All (λ y. rank x < rank y) seen
    → All (λ y. rank q < rank y) seen
All-below rank [] x q l h = tt
All-below rank (y ∷ seen) x q l h = (omega arith, All-below rank seen x q l h.1)

or-true : (b : Bool) → (b || true) ≡ true
or-true b = ground arith

pub walk_complete :
    (rows : List Node) (rank : String → ℕ)
    → IsRanked rows rank
    → (fuel : ℕ) (seen : List String) (x n : String) → room rows seen < fuel
    → All (λ y. rank x < rank y) seen
    → Below rows x n
    → any (λ a. str_eq a n) (walk fuel rows seen x) ≡ true
unfolding walk IsRanked
walk_complete rows rank r zero seen x n h a b = absurd (omega arith)
walk_complete rows rank r (suc fuel) seen x n h a here = rw (fresh rank seen x a, eq_refl x) refl
walk_complete rows rank r (suc fuel) seen x n h a (up {q = q} e b) =
    let (m, k) = row_of_parent rows x q e in
    let less = room-less rows seen x m k (fresh rank seen x a) in
    let rest =
      walk_complete rows rank r fuel (x ∷ seen) q n (omega arith)
        (r x q e, All-below rank seen x q (r x q e) a) b in
    rw (fresh rank seen x a, e, rest) (or-true (str_eq x n))

pub walk_sound :
    (rows : List Node) (fuel : ℕ) (seen : List String) (x n : String)
    → any (λ a. str_eq a n) (walk fuel rows seen x) ≡ true
    → Below rows x n
unfolding walk
walk_sound rows zero seen x n h = absurd (cc h)
walk_sound rows (suc fuel) seen x n h = elim (Bool-cases (any (λ y. str_eq y x) seen)) [
  | inl t ↦ (let z : false ≡ true = rw t at h in absurd (cc z))
  | inr t ↦ elim (Bool-cases (str_eq x n)) [
    | inl k ↦ subst (λ z. Below rows x z) ((eq_iff x n).0 k) here
    | inr k ↦ elim (Option-cases (parent_of rows x)) [
      | inl e ↦ (let z : false ≡ true = rw (t, k, e) at h in absurd (cc z))
      | inr (q, e) ↦ up e (walk_sound rows fuel (x ∷ seen) q n (rw (t, k, e) at h))
    ]
  ]
]

pub room_start : (rows : List Node) → room rows [] ≤ length rows
room_start [] = omega arith
room_start (n ∷ rows) = omega (arith, room_start rows)

-- In a hierarchy without cycles, the ids that the query lists for an id that is not empty are that
-- id and exactly the ids above it.
pub ancestors-Below :
    (rows : List Node) (rank : String → ℕ) (x n : String)
    → IsRanked rows rank
    → str_eq x "" ≡ false
    → (any (λ a. str_eq a n) (tree_ancestors_inclusive rows x) ≡ true) ↔ Below rows x n
unfolding tree_ancestors_inclusive
ancestors-Below rows rank x n r e = (
  λ h. walk_sound rows (length rows + 1) [] x n (rw e at h),
  λ b.
      rw
        (
          e,
          walk_complete rows rank r (length rows + 1) [] x n (omega (arith, room_start rows)) tt b,
        )
        refl,
)

-- rank falls along the way up
pub Below-rank :
    (rows : List Node) (rank : String → ℕ) (x n : String)
    → IsRanked rows rank
    → Below rows x n
    → rank n ≤ rank x
unfolding IsRanked
Below-rank rows rank x n r here = omega arith
Below-rank rows rank x n r (up {q = q} e b) = omega (arith, r x q e, Below-rank rows rank q n r b)
