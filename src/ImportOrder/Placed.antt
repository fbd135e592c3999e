-- ===== src/ImportOrder/Placed.antt =====
-- The rounds of ImportOrder, internal/engine/import_order.go.
use ddcore.Common.{
  ℕ, zero, suc, ◌+◌, ◌≤◌, ◌<◌, ◌≡◌, refl, sym, subst, ◌∙◌, String, Bool, true, false, not, ◌||◌,
  some, List, [], ◌∷◌, ◌++◌, str_eq, eq_iff, select, length, length-append, Bool-cases, inl, inr,
  arith, ◌⊎◌, ltb, ltb→lt, ◌==◌, &&-true,
}
use ddcore.Perm.{contains}
use ddcore.ImportOrder.{waiting, is_ready, fewest_from, or_fewest, round, rounds}
use ddcore.ImportOrder.Distinct.{
  or-right, or-split, first, NoDup, Sub, clash, contains-select, contains-append, NoDup-select,
  NoDup-append, length_distinct, distinct-all,
}

not-true : (b : Bool) → not b ≡ true → b ≡ false
not-true b h = ground arith

ltb-false : (a b : ℕ) → ltb a b ≡ false → b ≤ a
ltb-false a b h = ground arith

module _ (deps : String → List String) (names : List String) where
  -- a name that is waiting to be placed
  abbrev pub IsWaiting : List String → String → Type 0
  IsWaiting placed n = (contains names n ≡ true) × (contains placed n ≡ false)

  module _ (placed : List String) where
    fewest_from-best :
        (best : String) (k : ℕ) (ns : List String)
        → Sub ns names
        → IsWaiting placed best
        → IsWaiting placed (fewest_from deps placed best k ns)
    unfolding fewest_from
    fewest_from-best best k [] h w = w
    fewest_from-best best k (n ∷ ns) h w =
        let sub : Sub ns names = λ s e. h s (or-right (str_eq n s) (contains ns s) e) in
        elim (Bool-cases (contains placed n)) [
          | inl t ↦ rw t (fewest_from-best best k ns sub w)
          | inr t ↦ rw t (elim (Bool-cases (str_eq best "" || ltb (waiting placed (deps n)) k)) [
            | inl u ↦
                rw u (fewest_from-best n (waiting placed (deps n)) ns sub (h n (first n ns), t))
            | inr u ↦ rw u (fewest_from-best best k ns sub w)
          ])
        ]

    fewest_from-IsWaiting :
        (k : ℕ) (ns : List String)
        → Sub ns names
        → (n : String) → contains ns n ≡ true
        → contains placed n ≡ false
        → IsWaiting placed (fewest_from deps placed "" k ns)
    unfolding fewest_from
    fewest_from-IsWaiting k [] h n m w = absurd (clash m refl)
    fewest_from-IsWaiting k (x ∷ ns) h n m w =
        let sub : Sub ns names = λ s e. h s (or-right (str_eq x s) (contains ns s) e) in
        elim (Bool-cases (contains placed x)) [
          | inl t ↦ rw t (elim (or-split (str_eq x n) (contains ns n) m) [
            | inl e ↦ absurd (clash (subst (λ z. contains placed z ≡ true) ((eq_iff x n).0 e) t) w)
            | inr e ↦ fewest_from-IsWaiting k ns sub n e w
          ])
          | inr t ↦ rw t (fewest_from-best x (waiting placed (deps x)) ns sub (h x (first x ns), t))
        ]

    -- some name waits, if fewer are placed than there are
    pub waiting_one :
        (ns : List String)
        → ((n : String) × (contains ns n ≡ true) × (contains placed n ≡ false)) ⊎ Sub ns placed
    waiting_one [] = inr (λ s e. absurd (clash e refl))
    waiting_one (n ∷ ns) = elim (Bool-cases (contains placed n)) [
      | inr t ↦ inl (n, first n ns, t)
      | inl t ↦ elim (waiting_one ns) [
        | inl (m, e, w) ↦ inl (m, or-right (str_eq n m) (contains ns m) e, w)
        | inr s ↦ inr (λ z e. elim (or-split (str_eq n z) (contains ns z) e) [
          | inl k ↦ subst (λ y. contains placed y ≡ true) ((eq_iff n z).0 k) t
          | inr k ↦ s z k
        ])
      ]
    ]

    -- what a round places: waiting names, once each, and at least one
    abbrev IsRound : List String → Type 0
    IsRound r = NoDup r × ((s : String) → contains r s ≡ true → IsWaiting placed s) × (1 ≤ length r)

    one_waits :
        (best s : String)
        → IsWaiting placed best
        → contains (best ∷ []) s ≡ true
        → IsWaiting placed s
    one_waits best s w e = elim (or-split (str_eq best s) false e) [
      | inl t ↦ subst (λ z. IsWaiting placed z) ((eq_iff best s).0 t) w
      | inr t ↦ absurd (clash t refl)
    ]

    or_fewest-IsRound :
        (best : String) (r : List String)
        → IsWaiting placed best
        → NoDup r
        → ((s : String) → contains r s ≡ true → IsWaiting placed s)
        → IsRound (or_fewest best r)
    or_fewest-IsRound best [] w d h = ((refl, tt), λ s e. one_waits best s w e, omega arith)
    or_fewest-IsRound best (x ∷ r) w d h = (d, h, omega arith)

    round-IsRound : NoDup names → length placed < length names → IsRound (round deps names placed)
    round-IsRound d l = elim (waiting_one names) [
      | inr s ↦ absurd (omega (arith, l, length_distinct names placed d s))
      | inl (n, e, w) ↦
          or_fewest-IsRound (fewest_from deps placed "" 0 names)
            (select (is_ready deps placed) names) (fewest_from-IsWaiting 0 names (λ s m. m) n e w)
            (NoDup-select (is_ready deps placed) names d)
            (λ s m.
              let (i, j) =
                &&-true (contains names s) (is_ready deps placed s)
                  (sym (contains-select (is_ready deps placed) names s) ∙ m) in
              (
                i,
                not-true (contains placed s)
                    (&&-true (not (contains placed s)) (waiting placed (deps s) == 0) j).0,
              ))
    ]

  -- The rounds end with an order that holds every name, and each of them once.
  pub rounds_total :
      (fuel : ℕ) (order : List String)
      → NoDup names
      → NoDup order
      → Sub order names
      → length names < fuel + length order
      → (result : List String) × (rounds fuel deps names order ≡ some result)
        × NoDup result
        × Sub result names
        × Sub names result
  unfolding rounds
  rounds_total zero order d e s l = absurd (omega (arith, l, length_distinct order names e s))
  rounds_total (suc fuel) order d e s l = elim (Bool-cases (ltb (length order) (length names))) [
    | inr t ↦ (
      order,
      rw t refl,
      e,
      s,
      distinct-all order names e s (ltb-false (length order) (length names) t),
    )
    | inl t ↦
        let (rd, waits, rl) = round-IsRound order d (ltb→lt (length order) (length names) t) in
        let r = round deps names order in
        let (res, eq, nd, s1, s2) =
          rounds_total fuel (order ++ r) d (NoDup-append order r e rd (λ z m. (waits z m).1))
            (λ z m.
              elim (or-split (contains order z) (contains r z)
                (sym (contains-append order r z) ∙ m)) [ inl k ↦ s z k | inr k ↦ (waits z k).0 ])
            (omega (arith, l, rl, length-append order r)) in
        (res, rw t eq, nd, s1, s2)
  ]
