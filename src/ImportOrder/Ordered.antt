-- ===== src/ImportOrder/Ordered.antt =====
-- The rounds of ImportOrder, internal/engine/import_order.go, on links without a cycle.
use ddcore.Common.{
  ℕ, zero, suc, ◌+◌, ◌≤◌, ◌<◌, ◌≡◌, refl, sym, ap, subst, ◌∙◌, String, Bool, true, false, not, some,
  List, [], ◌∷◌, ◌++◌, str_eq, eq_iff, select, length, Bool-cases, inl, inr, arith, ltb, ltb→lt,
  ◌==◌, &&-true,
}
use ddcore.Perm.{contains}
use ddcore.ImportOrder.{waiting, is_ready, fewest_from, or_fewest, round, rounds, index_of}
use ddcore.ImportOrder.Distinct.{
  length_distinct, NoDup, clash, or-split, or-right, first, not-there, and-both, contains-select,
  contains-append,
}
use ddcore.ImportOrder.Placed.{IsWaiting, waiting_one}
use ddcore.ImportOrder.Earlier.{index_of-some}
use ddcore.ImportOrder.Index.{none-some, index_of-less, index_of-front, index_of-back, in_index}

suc-zero : (n : ℕ) → (suc n == 0) ≡ true → ⊥
suc-zero n h = ground arith

-- nothing waits: everything is placed
waiting-none :
    (placed ds : List String) (t : String)
    → (waiting placed ds == 0) ≡ true
    → contains ds t ≡ true
    → contains placed t ≡ true
waiting-none placed [] t h m = absurd (clash m refl)
waiting-none placed (d ∷ ds) t h m = elim (Bool-cases (contains placed d)) [
  | inr k ↦ absurd (suc-zero (length (select (λ x. not (contains placed x)) ds)) (rw k at h))
  | inl k ↦ elim (or-split (str_eq d t) (contains ds t) m) [
    | inl e ↦ subst (λ z. contains placed z ≡ true) ((eq_iff d t).0 e) k
    | inr e ↦ waiting-none placed ds t (rw k at h) e
  ]
]

-- something waits
waiting-some :
    (placed ds : List String)
    → (waiting placed ds == 0) ≡ false
    → (t : String) × (contains ds t ≡ true) × (contains placed t ≡ false)
waiting-some placed [] h = absurd (clash refl h)
waiting-some placed (d ∷ ds) h = elim (Bool-cases (contains placed d)) [
  | inr k ↦ (d, first d ds, k)
  | inl k ↦
      (let (t, m, w) = waiting-some placed ds (rw k at h) in
        (t, or-right (str_eq d t) (contains ds t) m, w))
]

or_fewest-same :
    (best : String) (r : List String) (n : String) → contains r n ≡ true → or_fewest best r ≡ r
or_fewest-same best [] n h = absurd (clash h refl)
or_fewest-same best (x ∷ r) n h = refl

ltb-false : (a b : ℕ) → ltb a b ≡ false → b ≤ a
ltb-false a b h = ground arith

module _ (deps : String → List String) (names : List String) (rank : String → ℕ)
    (inside : (n t : String) → contains (deps n) t ≡ true → contains names t ≡ true)
    (falls : (n t : String) → contains (deps n) t ≡ true → rank t < rank n) where
  unfoldable pub Before : List String → String → String → Type 0
  Before order t n =
      (i : ℕ) × (j : ℕ) × (index_of order t ≡ some i) × (index_of order n ≡ some j) × (i < j)

  unfoldable pub IsOrdered : List String → Type 0
  IsOrdered order =
      (n t : String) → contains order n ≡ true → contains (deps n) t ≡ true → Before order t n

  -- of the waiting names, one of the least rank is ready
  some_ready :
      (placed : List String) (fuel : ℕ) (n : String)
      → rank n < fuel
      → IsWaiting deps names placed n
      → (m : String) × (contains names m ≡ true) × (is_ready deps placed m ≡ true)
  some_ready placed zero n h w = absurd (omega arith)
  some_ready placed (suc fuel) n h w = elim (Bool-cases (waiting placed (deps n) == 0)) [
    | inl k ↦
        (n, w.0, and-both (not (contains placed n)) (waiting placed (deps n) == 0) (ap not w.1) k)
    | inr k ↦
        let (t, m, u) = waiting-some placed (deps n) k in
        some_ready placed fuel t (omega (arith, h, falls n t m)) (inside n t m, u)
  ]

  -- a round places ready names only
  round-ready :
      (placed : List String) (n : String)
      → IsWaiting deps names placed n
      → round deps names placed ≡ select (is_ready deps placed) names
  round-ready placed n w =
      let (m, h, k) = some_ready placed (suc (rank n)) n (omega arith) w in
      or_fewest-same (fewest_from deps placed "" 0 names) (select (is_ready deps placed) names) m (
        contains-select (is_ready deps placed) names m
        ∙ and-both (contains names m) (is_ready deps placed m) h k)

  not-true : (b : Bool) → not b ≡ true → b ≡ false
  not-true b h = ground arith

  IsOrdered-append :
      (order : List String)
      → IsOrdered order
      → IsOrdered (order ++ select (is_ready deps order) names)
  unfolding IsOrdered Before
  IsOrdered-append order g n t m d =
      let r = select (is_ready deps order) names in
      let fresh : (z : String) → contains order z ≡ true → contains r z ≡ false = λ z k.
        not-there (contains r z) (λ u.
          let (a, b) =
            &&-true (contains names z) (is_ready deps order z)
              (sym (contains-select (is_ready deps order) names z) ∙ u) in
          clash k (
            not-true (contains order z)
              (&&-true (not (contains order z)) (waiting order (deps z) == 0) b).0)) in
      elim (Bool-cases (contains r n)) [
        | inl u ↦
            let (a, b) =
              &&-true (contains names n) (is_ready deps order n)
                (sym (contains-select (is_ready deps order) names n) ∙ u) in
            let placed =
              waiting-none order (deps n) t
                (&&-true (not (contains order n)) (waiting order (deps n) == 0) b).1 d in
            let (i, e) = index_of-some order t placed in
            let (j, f) = index_of-some r n u in
            (
              i,
              length order + j,
              index_of-front order r t (fresh t placed) ∙ e,
              index_of-back order r n j f,
              omega (arith, index_of-less order t i e),
            )
        | inr u ↦
            elim (or-split (contains order n) (contains r n)
              (sym (contains-append order r n) ∙ m)) [
                | inr k ↦ absurd (clash k u)
                | inl k ↦
                    let (i, j, e, f, l) = g n t k d in
                    (
                      i,
                      j,
                      index_of-front order r t (fresh t (in_index order t i e)) ∙ e,
                      index_of-front order r n u ∙ f,
                      l,
                    )
              ]
      ]

  pub rounds-IsOrdered :
      (fuel : ℕ) (order result : List String)
      → NoDup names
      → IsOrdered order
      → rounds fuel deps names order ≡ some result
      → IsOrdered result
  unfolding rounds
  rounds-IsOrdered zero order result d g h = absurd (none-some h)
  rounds-IsOrdered (suc fuel) order result d g h =
      elim (Bool-cases (ltb (length order) (length names))) [
        | inr t ↦
            (let z : some order ≡ some result = rw t at h in subst (λ o. IsOrdered o) (cc z) g)
        | inl t ↦ elim (waiting_one deps names order names) [
          | inr s ↦ absurd (
              omega
                (arith, ltb→lt (length order) (length names) t, length_distinct names order d s))
          | inl (n, e, w) ↦
              rounds-IsOrdered fuel (order ++ round deps names order) result d
                (subst (λ x. IsOrdered (order ++ x)) (sym (round-ready order n (e, w)))
                  (IsOrdered-append order g))
                (rw t at h)
        ]
      ]
