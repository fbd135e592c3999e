-- ===== src/ImportOrder/Topological.antt =====
-- ImportOrder of internal/engine/import_order.go on links without a cycle.
use ddcore.Common.{
  ℕ, suc, ◌<◌, ◌≡◌, refl, sym, subst, ◌∙◌, String, Bool, true, false, not, ◌&&◌, ◌||◌, some, List,
  [], ◌∷◌, str_eq, eq_iff, eq_refl, length, Bool-cases, inl, inr, arith, ltb, Has,
}
use ddcore.Perm.{Kind, link, dynamic_link, table, other, contains}
use ddcore.ImportOrder.{
  Field, Lookup, sort_strings, deps_of, targets, fields_in, position, is_deferred, links_in,
  import_order, stages_of, all_known,
}
use ddcore.ImportOrder.Distinct.{
  length-sort_strings, NoDup, Sub, clash, or-split, or-right, contains-sort_strings,
  NoDup-sort_strings,
}
use ddcore.ImportOrder.Placed.{rounds_total}
use ddcore.ImportOrder.Earlier.{all_known-Sub}
use ddcore.ImportOrder.Ordered.{Before, IsOrdered, rounds-IsOrdered}

or-left : (a b : Bool) → a ≡ true → (a || b) ≡ true
or-left a b h = rw h refl

already-there : (l k c : Bool) → l ≡ true → k ≡ false → (l && not k && not c) ≡ false → c ≡ true
already-there l k c h e f = ground arith

first-of : (l k c : Bool) → (l && not k && not c) ≡ true → l ≡ true
first-of l k c h = ground arith

link_contains : (k : Kind) (c : Bool) → elim k [ link ↦ c | _ ↦ false ] ≡ true → c ≡ true
link_contains link c h = h
link_contains dynamic_link c h = absurd (clash h refl)
link_contains table c h = absurd (clash h refl)
link_contains other c h = absurd (clash h refl)

-- the dependencies of a DocType are the other DocTypes of the set that its links go to
targets-contains :
    (doctypes : List String) (n : String) (fs : List Field) (f : Field)
    → Has f fs
    → links_in doctypes f ≡ true
    → str_eq f.options n ≡ false
    → contains (targets doctypes n fs) f.options ≡ true
unfolding targets
targets-contains doctypes n [] f m l k = absurd m
targets-contains doctypes n (x ∷ fs) f m l k =
    elim (Bool-cases (
      links_in doctypes x
      && not (str_eq x.options n)
      && not (contains (targets doctypes n fs) x.options))) [
        | inl t ↦ rw t (elim m [
          | inl e ↦
              or-left (str_eq x.options f.options) (contains (targets doctypes n fs) f.options)
                (subst (λ y. str_eq x.options y.options ≡ true) e (eq_refl x.options))
          | inr h ↦
              or-right (str_eq x.options f.options) (contains (targets doctypes n fs) f.options)
                (targets-contains doctypes n fs f h l k)
        ])
        | inr t ↦ rw t (elim m [
          | inl e ↦
              subst (λ y. contains (targets doctypes n fs) y.options ≡ true) e
                (already-there (links_in doctypes x) (str_eq x.options n)
                  (contains (targets doctypes n fs) x.options)
                  (subst (λ y. links_in doctypes y ≡ true) (sym e) l)
                  (subst (λ y. str_eq y.options n ≡ false) (sym e) k) t)
          | inr h ↦ targets-contains doctypes n fs f h l k
        ])
      ]

targets-Sub :
    (doctypes : List String) (n : String) (fs : List Field) (t : String)
    → contains (targets doctypes n fs) t ≡ true
    → contains doctypes t ≡ true
unfolding targets
targets-Sub doctypes n [] t m = absurd (clash m refl)
targets-Sub doctypes n (x ∷ fs) t m =
    elim (Bool-cases (
      links_in doctypes x
      && not (str_eq x.options n)
      && not (contains (targets doctypes n fs) x.options))) [
        | inl c ↦
            elim (or-split (str_eq x.options t) (contains (targets doctypes n fs) t) (rw c at m)) [
              | inl e ↦
                  subst (λ z. contains doctypes z ≡ true) ((eq_iff x.options t).0 e)
                    (link_contains x.kind (contains doctypes x.options) (
                      first-of (links_in doctypes x) (str_eq x.options n)
                        (contains (targets doctypes n fs) x.options) c))
              | inr e ↦ targets-Sub doctypes n fs t e
            ]
        | inr c ↦ targets-Sub doctypes n fs t (rw c at m)
      ]

less-ltb : (a b : ℕ) → a < b → ltb b a ≡ false
less-ltb a b h = ground arith

module _ (doctypes : List String) (lookup : Lookup) (rank : String → ℕ)
    (falls : (n t : String) → contains (deps_of doctypes lookup n) t ≡ true → rank t < rank n) where
  abbrev deps : String → List String
  deps n = deps_of doctypes lookup n

  inside : (n t : String) → contains (deps n) t ≡ true → contains (sort_strings doctypes) t ≡ true
  inside n t m = contains-sort_strings doctypes t ∙ targets-Sub doctypes n (fields_in lookup n) t m

  -- a link to another DocType, in an order that has the targets first
  undeferred :
      (order : List String) (n : String) (f : Field)
      → IsOrdered deps (sort_strings doctypes) rank inside falls order
      → contains order n ≡ true
      → Has f (fields_in lookup n)
      → f.kind ≡ link
      → str_eq f.options n ≡ false
      → is_deferred doctypes order n f ≡ false
  unfolding IsOrdered Before is_deferred position
  undeferred order n f g m h k a = elim (Bool-cases (contains doctypes f.options)) [
    | inr c ↦ rw (k, c) refl
    | inl c ↦
        let (i, j, e, u, l) =
          g n f.options m
            (targets-contains doctypes n (fields_in lookup n) f h (rw (k, c) refl) a) in
        rw (k, c, a, e, u) (less-ltb i j l)
  ]

  -- If the DocTypes, distinct and known, can be ranked so that each ranks above the others that its
  -- links go to, ImportOrder answers with an order of them all in which the check of no Link to
  -- another DocType is deferred.
  pub import_order-undeferred :
      NoDup doctypes
      → all_known lookup doctypes ≡ true
      → (order : List String) × (import_order doctypes lookup
          ≡ some (stages_of doctypes lookup order order))
        × Sub doctypes order
        × ((n : String) (f : Field)
            → contains order n ≡ true
            → Has f (fields_in lookup n)
            → f.kind ≡ link
            → str_eq f.options n ≡ false
            → is_deferred doctypes order n f ≡ false)
  unfolding import_order IsOrdered
  import_order-undeferred d k =
      let names = sort_strings doctypes in
      let (order, e, nd, s1, s2) =
        rounds_total deps names (suc (length doctypes)) [] (NoDup-sort_strings doctypes d) tt
          (λ s m. absurd (clash m refl)) (omega (arith, length-sort_strings doctypes)) in
      let sub : Sub order doctypes = λ s m. sym (contains-sort_strings doctypes s) ∙ s1 s m in
      let ordered =
        rounds-IsOrdered deps names rank inside falls (suc (length doctypes)) [] order
          (NoDup-sort_strings doctypes d) (λ n t m c. absurd (clash m refl)) e in
      (
        order,
        rw (k, e, all_known-Sub lookup doctypes order k sub) refl,
        (λ s m. s2 s (contains-sort_strings doctypes s ∙ m)),
        λ n f m h q a. undeferred order n f ordered m h q a,
      )
