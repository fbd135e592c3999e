-- ===== src/Throttle/Window.antt =====
-- How many attempts a window counts, as time passes and rows come and go: CheckThrottle,
-- RecordAttempt and ClearAttempts of internal/engine/throttle.go.
use ddcore.Common.{
  some, ℕ, ◌≤◌, ◌<◌, ◌≡◌, refl, Bool, true, false, List, [], ◌∷◌, length, select, Has, Bool-cases,
  Option-cases, min, some, ◌⊎◌, ◌∙◌, inl, inr, arith,
}
use mathlib.Core.Path.{subst, sym}
use ddcore.Text.{Text}
use ddcore.Throttle.{earlier, oldest, Attempt, is_counted}

module _ {A : Type 0} where
  pub length-select_mono :
      (p q : A → Bool)
      → ((x : A) → p x ≡ true → q x ≡ true)
      → (xs : List A) → length (select p xs) ≤ length (select q xs)
  length-select_mono p q h [] = omega arith
  length-select_mono p q h (x ∷ xs) = elim (Bool-cases (p x)) [
    | inl e ↦ rw (e, h x e) (omega (arith, length-select_mono p q h xs))
    | inr e ↦ elim (Bool-cases (q x)) [
      | inl f ↦ rw (e, f) (omega (arith, length-select_mono p q h xs))
      | inr f ↦ rw (e, f) (length-select_mono p q h xs)
    ]
  ]

  -- some row passes the second test and not the first
  pub length-select_less :
      (p q : A → Bool)
      → ((x : A) → p x ≡ true → q x ≡ true)
      → (xs : List A) (y : A) → Has y xs
      → p y ≡ false
      → q y ≡ true
      → length (select p xs) < length (select q xs)
  length-select_less p q h [] y w e f = absurd w
  length-select_less p q h (x ∷ xs) y (inl s) e f =
      rw (subst (λ z. p z ≡ false) (sym s) e, subst (λ z. q z ≡ true) (sym s) f)
        (omega (arith, length-select_mono p q h xs))
  length-select_less p q h (x ∷ xs) y (inr w) e f = elim (Bool-cases (p x)) [
    | inl i ↦ rw (i, h x i) (omega (arith, length-select_less p q h xs y w e f))
    | inr i ↦ elim (Bool-cases (q x)) [
      | inl j ↦ rw (i, j) (omega (arith, length-select_less p q h xs y w e f))
      | inr j ↦ rw (i, j) (length-select_less p q h xs y w e f)
    ]
  ]

  pub length-select_twice :
      (p q : A → Bool) (xs : List A) → length (select p (select q xs)) ≤ length (select p xs)
  length-select_twice p q [] = omega arith
  length-select_twice p q (x ∷ xs) = elim (Bool-cases (q x)) [
    | inl j ↦ elim (Bool-cases (p x)) [
      | inl i ↦ rw (j, i) (omega (arith, length-select_twice p q xs))
      | inr i ↦ rw (j, i) (length-select_twice p q xs)
    ]
    | inr j ↦ elim (Bool-cases (p x)) [
      | inl i ↦ rw (j, i) (omega (arith, length-select_twice p q xs))
      | inr i ↦ rw (j, i) (length-select_twice p q xs)
    ]
  ]

pub is_counted_earlier :
    (key : Text) (window : ℕ) {now later : ℕ}
    → now ≤ later
    → (a : Attempt) → is_counted key window later a ≡ true
    → is_counted key window now a ≡ true
is_counted_earlier key window {now} {later} h a e = ground arith

pub Has-select :
    {A : Type 0} (p : A → Bool) (xs : List A) (y : A)
    → Has y (select p xs)
    → Has y xs × (p y ≡ true)
Has-select p [] y h = absurd h
Has-select p (x ∷ xs) y h = elim (Bool-cases (p x)) [
  | inl e ↦ elim (rw e at h) [
    | inl s ↦ (inl s, subst (λ z. p z ≡ true) s e)
    | inr w ↦ let (m, q) = Has-select p xs y w in (inr m, q)
  ]
  | inr e ↦ let (m, q) = Has-select p xs y (rw e at h) in (inr m, q)
]

some_inj : {a b : ℕ} → some a ≡ some b → a ≡ b
some_inj h = cc h

min_cases : (a b : ℕ) → (min a b ≡ a) ⊎ (min a b ≡ b)
min_cases a b = ground arith

-- the least time is that of a row
pub oldest-Has :
    (rows : List Attempt) (t : ℕ)
    → oldest rows ≡ some t
    → (a : Attempt) × Has a rows × (a.created ≡ t)
unfolding oldest
oldest-Has [] t h = absurd (cc h)
oldest-Has (a ∷ rows) t h = elim (Option-cases (oldest rows)) [
  | inl e ↦ (a, inl refl, some_inj (rw e at h))
  | inr (u, e) ↦ elim (min_cases a.created u) [
    | inl m ↦ (a, inl refl, sym m ∙ some_inj (rw e at h))
    | inr m ↦ let (b, w, q) = oldest-Has rows u e in (b, inr w, q ∙ (sym m ∙ some_inj (rw e at h)))
  ]
]

pub oldest-some : (rows : List Attempt) → 0 < length rows → (t : ℕ) × (oldest rows ≡ some t)
unfolding oldest
oldest-some [] h = absurd (omega arith)
oldest-some (a ∷ rows) h = (earlier a.created (oldest rows), refl)
