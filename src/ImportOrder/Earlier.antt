-- ===== src/ImportOrder/Earlier.antt =====
-- The stages of ImportOrder, internal/engine/import_order.go, and the links that they check.
use ddcore.Common.{
  ℕ, suc, ◌≤◌, ◌<◌, ◌≡◌, refl, sym, ap, subst, ◌∙◌, String, Bool, true, false, ◌&&◌, ◌||◌, Option,
  none, some, List, [], ◌∷◌, str_eq, eq_iff, eq_refl, length, Bool-cases, Option-cases, inl, inr,
  arith, if◌then◌else◌, ◌⊎◌, ltb, ltb→lt, coalesce, is_some, &&-true,
}
use ddcore.Perm.{Kind, link, dynamic_link, table, other, contains}
use ddcore.ImportOrder.{
  Field, Lookup, sort_strings, deps_of, index_of, position, is_deferred, stages_of, all_known,
  import_order, links_in,
}
use ddcore.ImportOrder.Distinct.{
  and-both, or-right, first, NoDup, Sub, clash, or-split, contains-sort_strings, NoDup-sort_strings,
  length-sort_strings,
}
use ddcore.ImportOrder.Placed.{rounds_total}

some-none : {A : Type 0} {a : A} → some a ≡ none → ⊥
some-none h = cc h

-- a name in the list has an index, and no other name has it
pub index_of-some :
    (order : List String) (t : String)
    → contains order t ≡ true
    → (i : ℕ) × (index_of order t ≡ some i)
unfolding index_of
index_of-some [] t h = absurd (clash h refl)
index_of-some (x ∷ xs) t h = elim (Option-cases (index_of xs t)) [
  | inr (i, e) ↦ (suc i, rw e refl)
  | inl e ↦ elim (or-split (str_eq x t) (contains xs t) h) [
    | inl k ↦ (0, rw (e, k) refl)
    | inr k ↦ (let (i, f) = index_of-some xs t k in absurd (some-none (sym f ∙ e)))
  ]
]

abbrev step : Option ℕ → Bool → Option ℕ
step o b = elim o [ none ↦ if b then some 0 else none | some i ↦ some (suc i) ]

-- two names with one index: both have it behind the first name, or both are the first name
step-same :
    (o p : Option ℕ) (a b : Bool) (i : ℕ)
    → step o a ≡ some i
    → step p b ≡ some i
    → ((j : ℕ) × (o ≡ some j) × (p ≡ some j)) ⊎ (a ≡ true) × (b ≡ true)
step-same (some j) (some k) a b i h e =
    let same : some (suc j) ≡ some (suc k) = h ∙ sym e in
    let eq : suc j ≡ suc k = cc same in inl (j, refl, ap some (omega (arith, eq)))
step-same (some j) none a true i h e =
    (let z : some (suc j) ≡ some 0 = h ∙ sym e in
      let w : suc j ≡ 0 = cc z in absurd (omega (arith, w)))
step-same (some j) none a false i h e = absurd (some-none (sym e))
step-same none (some k) true b i h e =
    (let z : some (suc k) ≡ some 0 = e ∙ sym h in
      let w : suc k ≡ 0 = cc z in absurd (omega (arith, w)))
step-same none (some k) false b i h e = absurd (some-none (sym h))
step-same none none true true i h e = inr (refl, refl)
step-same none none true false i h e = absurd (some-none (sym e))
step-same none none false b i h e = absurd (some-none (sym h))

index_of-same :
    (order : List String) (t n : String) (i : ℕ)
    → index_of order t ≡ some i
    → index_of order n ≡ some i
    → t ≡ n
unfolding index_of
index_of-same [] t n i h e = absurd (some-none (sym h))
index_of-same (x ∷ xs) t n i h e =
    elim (step-same (index_of xs t) (index_of xs n) (str_eq x t) (str_eq x n) i h e) [
      | inl (j, u, v) ↦ index_of-same xs t n j u v
      | inr (u, v) ↦ sym ((eq_iff x t).0 u) ∙ (eq_iff x n).0 v
    ]

ltb-false : (a b : ℕ) → ltb a b ≡ false → b ≤ a
ltb-false a b h = ground arith

le-less : (a b : ℕ) → a ≤ b → (a ≡ b → ⊥) → a < b
le-less a b h k = elim (Bool-cases (ltb a b)) [
  | inl t ↦ ltb→lt a b t
  | inr t ↦ absurd (k (omega (arith, h, ltb-false a b t)))
]

-- of two names in the order, one that is not after the other and is not the other is before it
position-less :
    (order : List String) (t n : String)
    → contains order t ≡ true
    → contains order n ≡ true
    → str_eq t n ≡ false
    → ltb (position order n) (position order t) ≡ false
    → position order t < position order n
unfolding position
position-less order t n ht hn k l =
    let (i, e) = index_of-some order t ht in
    let (j, f) = index_of-some order n hn in
    le-less (coalesce (index_of order t) 0) (coalesce (index_of order n) 0)
      (ltb-false (coalesce (index_of order n) 0) (coalesce (index_of order t) 0) l)
      (λ same.
        let i_j : i ≡ j = sym (ap (λ o. coalesce o 0) e) ∙ (same ∙ ap (λ o. coalesce o 0) f) in
        clash
          (subst (λ z. str_eq t z ≡ true) (index_of-same order t n i e (f ∙ ap some (sym i_j)))
            (eq_refl t))
          k)

known :
    (lookup : Lookup) (doctypes : List String) (n : String)
    → all_known lookup doctypes ≡ true
    → contains doctypes n ≡ true
    → is_some (lookup n) ≡ true
known lookup [] n h m = absurd (clash m refl)
known lookup (x ∷ xs) n h m =
    let (a, b) = &&-true (is_some (lookup x)) (all_known lookup xs) h in
    elim (or-split (str_eq x n) (contains xs n) m) [
      | inl e ↦ subst (λ z. is_some (lookup z) ≡ true) ((eq_iff x n).0 e) a
      | inr e ↦ known lookup xs n b e
    ]

pub all_known-Sub :
    (lookup : Lookup) (doctypes order : List String)
    → all_known lookup doctypes ≡ true
    → Sub order doctypes
    → all_known lookup order ≡ true
all_known-Sub lookup doctypes [] h s = refl
all_known-Sub lookup doctypes (n ∷ order) h s =
    and-both (is_some (lookup n)) (all_known lookup order)
      (known lookup doctypes n h (s n (first n order)))
      (all_known-Sub lookup doctypes order h
        (λ z k. s z (or-right (str_eq n z) (contains order z) k)))

-- a Link of n that is not deferred, into the set that is loaded
abbrev pub IsChecked : List String → List String → String → Field → Type 0
IsChecked doctypes order n f =
    (links_in doctypes f ≡ true) × (is_deferred doctypes order n f ≡ false)

link_parts :
    (c s l : Bool) → c ≡ true → (c && (s || l)) ≡ false → (c ≡ true) × (s ≡ false) × (l ≡ false)
link_parts c s l h k = ground arith

checked_kind :
    (k : Kind) (c s l : Bool)
    → elim k [ link ↦ c | _ ↦ false ] ≡ true
    → elim k [ dynamic_link ↦ true | link ↦ c && (s || l) | table ↦ false | other ↦ false ] ≡ false
    → (c ≡ true) × (s ≡ false) × (l ≡ false)
checked_kind link c s l h e = link_parts c s l h e
checked_kind dynamic_link c s l h e = absurd (clash h refl)
checked_kind table c s l h e = absurd (clash h refl)
checked_kind other c s l h e = absurd (clash h refl)

checked_parts :
    (doctypes order : List String) (n : String) (f : Field)
    → IsChecked doctypes order n f
    → (contains doctypes f.options ≡ true)
      × (str_eq f.options n ≡ false)
      × (ltb (position order n) (position order f.options) ≡ false)
unfolding is_deferred
checked_parts doctypes order n f h =
    checked_kind f.kind (contains doctypes f.options) (str_eq f.options n)
      (ltb (position order n) (position order f.options)) h.0 h.1

-- For distinct DocTypes that can all be looked up, ImportOrder answers: its stages are the
-- DocTypes, each once, and where a Link of a stage goes to a DocType that is loaded and its check
-- is not deferred, that DocType's stage is an earlier one.
pub import_order-Sorted :
    (doctypes : List String) (lookup : Lookup)
    → NoDup doctypes
    → all_known lookup doctypes ≡ true
    → (order : List String) × (import_order doctypes lookup
        ≡ some (stages_of doctypes lookup order order))
      × NoDup order
      × Sub order doctypes
      × Sub doctypes order
      × ((n : String) (f : Field)
          → contains order n ≡ true
          → IsChecked doctypes order n f
          → position order f.options < position order n)
unfolding import_order
import_order-Sorted doctypes lookup d k =
    let names = sort_strings doctypes in
    let (order, e, nd, s1, s2) =
      rounds_total (deps_of doctypes lookup) names (suc (length doctypes)) []
        (NoDup-sort_strings doctypes d) tt (λ s m. absurd (clash m refl))
        (omega (arith, length-sort_strings doctypes)) in
    let sub : Sub order doctypes = λ s m. sym (contains-sort_strings doctypes s) ∙ s1 s m in
    let all : Sub doctypes order = λ s m. s2 s (contains-sort_strings doctypes s ∙ m) in
    (
      order,
      rw (k, e, all_known-Sub lookup doctypes order k sub) refl,
      nd,
      sub,
      all,
      λ n f m c.
          let (a, b, l) = checked_parts doctypes order n f c in
          position-less order f.options n (all f.options a) m b l,
    )
