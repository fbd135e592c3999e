-- ===== src/ImportOrder/Distinct.antt =====
-- Lists of distinct names, for internal/engine/import_order.go.
use ddcore.Common.{
  suc, ◌≤◌, ◌<◌, ◌≡◌, refl, sym, ap, subst, ◌∙◌, String, Bool, true, false, not, ◌&&◌, ◌||◌, List,
  [], ◌∷◌, ◌++◌, str_eq, eq_iff, eq_refl, select, length, Bool-cases, inl, inr, arith, ◌⊎◌,
}
use ddcore.Perm.{contains}
use ddcore.ImportOrder.{insert_sorted, sort_strings, str_le}

abbrev pub NoDup : List String → Type 0
NoDup [] = Unit
NoDup (x ∷ xs) = (contains xs x ≡ false) × NoDup xs

-- every name of the first list is in the second
abbrev pub Sub : List String → List String → Type 0
Sub xs ys = (s : String) → contains xs s ≡ true → contains ys s ≡ true

true-false : true ≡ false → ⊥
true-false h = cc h

pub clash : {b : Bool} → b ≡ true → b ≡ false → ⊥
clash h k = true-false (sym h ∙ k)

pub or-split : (a b : Bool) → (a || b) ≡ true → (a ≡ true) ⊎ (b ≡ true)
or-split a b h = ground arith

and-false : (b : Bool) → (b && false) ≡ false
and-false b = ground arith

or_assoc : (a b c : Bool) → (a || (b || c)) ≡ ((a || b) || c)
or_assoc a b c = ground arith

or_swap : (a b c : Bool) → (a || (b || c)) ≡ (b || (a || c))
or_swap a b c = ground arith

pub or-right : (a b : Bool) → b ≡ true → (a || b) ≡ true
or-right a b h = ground arith

pub and-both : (a b : Bool) → a ≡ true → b ≡ true → (a && b) ≡ true
and-both a b h k = rw (h, k) refl

pub contains-select :
    (p : String → Bool) (xs : List String) (s : String)
    → contains (select p xs) s ≡ (contains xs s && p s)
contains-select p [] s = refl
contains-select p (x ∷ xs) s = elim (Bool-cases (str_eq x s)) [
  | inl t ↦
      let x_s = (eq_iff x s).0 t in
      elim (Bool-cases (p x)) [
        | inl u ↦ rw (u, t, subst (λ z. p z ≡ true) x_s u) refl
        | inr u ↦
            rw (u, t, contains-select p xs s, subst (λ z. p z ≡ false) x_s u)
              (and-false (contains xs s))
      ]
  | inr t ↦ elim (Bool-cases (p x)) [
    | inl u ↦ rw (u, t, contains-select p xs s) refl
    | inr u ↦ rw (u, t, contains-select p xs s) refl
  ]
]

pub contains-append :
    (xs ys : List String) (s : String) → contains (xs ++ ys) s ≡ (contains xs s || contains ys s)
contains-append [] ys s = refl
contains-append (x ∷ xs) ys s =
    rw (contains-append xs ys s) (or_assoc (str_eq x s) (contains xs s) (contains ys s))

pub contains-insert_sorted :
    (x : String) (ys : List String) (s : String)
    → contains (insert_sorted x ys) s ≡ (str_eq x s || contains ys s)
unfolding insert_sorted
contains-insert_sorted x [] s = refl
contains-insert_sorted x (y ∷ ys) s = elim (Bool-cases (str_le x y)) [
  | inl t ↦ rw t refl
  | inr t ↦
      rw (t, contains-insert_sorted x ys s) (or_swap (str_eq y s) (str_eq x s) (contains ys s))
]

pub contains-sort_strings :
    (xs : List String) (s : String) → contains (sort_strings xs) s ≡ contains xs s
unfolding sort_strings
contains-sort_strings [] s = refl
contains-sort_strings (x ∷ xs) s =
    contains-insert_sorted x (sort_strings xs) s
    ∙ ap (λ b. str_eq x s || b) (contains-sort_strings xs s)

apart_swap : (x y : String) → str_eq x y ≡ false → str_eq y x ≡ false
apart_swap x y h = elim (Bool-cases (str_eq y x)) [
  | inl t ↦ absurd (clash (subst (λ z. str_eq x z ≡ true) (sym ((eq_iff y x).0 t)) (eq_refl x)) h)
  | inr t ↦ t
]

or-false : (a b : Bool) → (a || b) ≡ false → (a ≡ false) × (b ≡ false)
or-false a b h = ground arith

both-false : (a b : Bool) → a ≡ false → b ≡ false → (a || b) ≡ false
both-false a b h k = ground arith

NoDup-insert_sorted :
    (x : String) (ys : List String) → contains ys x ≡ false → NoDup ys → NoDup (insert_sorted x ys)
unfolding insert_sorted
NoDup-insert_sorted x [] h d = (refl, tt)
NoDup-insert_sorted x (y ∷ ys) h d = elim (Bool-cases (str_le x y)) [
  | inl t ↦ rw t (h, d)
  | inr t ↦
      let (y_x, rest) = or-false (str_eq y x) (contains ys x) h in
      rw t (
        contains-insert_sorted x ys y
            ∙ both-false (str_eq x y) (contains ys y) (apart_swap y x y_x) d.0,
        NoDup-insert_sorted x ys rest d.1,
      )
]

pub NoDup-sort_strings : (xs : List String) → NoDup xs → NoDup (sort_strings xs)
unfolding sort_strings
NoDup-sort_strings [] d = tt
NoDup-sort_strings (x ∷ xs) d =
    NoDup-insert_sorted x (sort_strings xs) (contains-sort_strings xs x ∙ d.0)
      (NoDup-sort_strings xs d.1)

pub length-insert_sorted :
    (x : String) (ys : List String) → length (insert_sorted x ys) ≡ suc (length ys)
unfolding insert_sorted
length-insert_sorted x [] = refl
length-insert_sorted x (y ∷ ys) = elim (Bool-cases (str_le x y)) [
  | inl t ↦ rw t refl
  | inr t ↦ rw t (ap suc (length-insert_sorted x ys))
]

pub length-sort_strings : (xs : List String) → length (sort_strings xs) ≡ length xs
unfolding sort_strings
length-sort_strings [] = refl
length-sort_strings (x ∷ xs) =
    length-insert_sorted x (sort_strings xs) ∙ ap suc (length-sort_strings xs)

pub NoDup-select : (p : String → Bool) (xs : List String) → NoDup xs → NoDup (select p xs)
NoDup-select p [] d = tt
NoDup-select p (x ∷ xs) d = elim (Bool-cases (p x)) [
  | inl t ↦ rw t (contains-select p xs x ∙ ap (λ b. b && p x) d.0, NoDup-select p xs d.1)
  | inr t ↦ rw t (NoDup-select p xs d.1)
]

pub first : (x : String) (xs : List String) → contains (x ∷ xs) x ≡ true
first x xs = rw (eq_refl x) refl

eq_refl-or : (x : String) (b : Bool) → (str_eq x x || b) ≡ true
eq_refl-or x b = rw (eq_refl x) refl

pub not-there : (b : Bool) → (b ≡ true → ⊥) → b ≡ false
not-there true h = absurd (h refl)
not-there false h = refl

pub NoDup-append :
    (xs ys : List String)
    → NoDup xs
    → NoDup ys
    → ((s : String) → contains ys s ≡ true → contains xs s ≡ false)
    → NoDup (xs ++ ys)
NoDup-append [] ys d e h = e
NoDup-append (x ∷ xs) ys d e h = (
  contains-append xs ys x
      ∙ both-false (contains xs x) (contains ys x) d.0
          (not-there (contains ys x) (λ k. clash (eq_refl-or x (contains xs x)) (h x k))),
  NoDup-append xs ys d.1 e (λ s k. (or-false (str_eq x s) (contains xs s) (h s k)).1),
)

without : String → List String → List String
without x ys = select (λ z. not (str_eq z x)) ys

length-select : (p : String → Bool) (ys : List String) → length (select p ys) ≤ length ys
length-select p [] = omega arith
length-select p (y ∷ ys) = elim (Bool-cases (p y)) [
  | inl t ↦ rw t (omega (arith, length-select p ys))
  | inr t ↦ rw t (omega (arith, length-select p ys))
]

length-without :
    (x : String) (ys : List String) → contains ys x ≡ true → length (without x ys) < length ys
unfolding without
length-without x [] h = absurd (cc h)
length-without x (y ∷ ys) h = elim (Bool-cases (str_eq y x)) [
  | inl t ↦ rw t (omega (arith, length-select (λ z. not (str_eq z x)) ys))
  | inr t ↦ rw t (omega (arith, length-without x ys (rw t at h)))
]

Sub-without :
    (x : String) (xs ys : List String)
    → contains xs x ≡ false
    → Sub (x ∷ xs) ys
    → Sub xs (without x ys)
unfolding without
Sub-without x xs ys d h s k =
    contains-select (λ z. not (str_eq z x)) ys s
    ∙ and-both (contains ys s) (not (str_eq s x)) (h s (or-right (str_eq x s) (contains xs s) k)) (
        ap not (
          not-there (str_eq s x)
            (λ t. clash (subst (λ z. contains xs z ≡ true) ((eq_iff s x).0 t) k) d)))

-- distinct names of a list are not more than the list
pub length_distinct : (xs ys : List String) → NoDup xs → Sub xs ys → length xs ≤ length ys
length_distinct [] ys d h = omega arith
length_distinct (x ∷ xs) ys d h = omega (
  arith,
  length_distinct xs (without x ys) d.1 (λ s k. Sub-without x xs ys d.0 h s k),
  length-without x ys (h x (eq_refl-or x (contains xs x))),
)

-- distinct names of a list that are as many as the list are all of it
pub distinct-all : (xs ys : List String) → NoDup xs → Sub xs ys → length ys ≤ length xs → Sub ys xs
distinct-all xs ys d h l s k = elim (Bool-cases (contains xs s)) [
  | inl t ↦ t
  | inr t ↦ absurd (
      omega (
        arith,
        l,
        length_distinct (s ∷ xs) ys (t, d)
            λ z u. elim (or-split (str_eq s z) (contains xs z) u) [
              | inl e ↦ subst (λ y. contains ys y ≡ true) ((eq_iff s z).0 e) k
              | inr e ↦ h z e
            ],
      ))
]
