-- ===== src/ImportOrder/Index.antt =====
-- Where names stand in a list that another is appended to, for internal/engine/import_order.go.
use ddcore.Common.{
  ℕ, suc, ◌+◌, ◌<◌, ◌≡◌, refl, sym, ap, ◌∙◌, String, true, false, Option, none, some, List, [], ◌∷◌,
  ◌++◌, str_eq, length, Bool-cases, Option-cases, inl, inr, arith,
}
use ddcore.Perm.{contains}
use ddcore.ImportOrder.{index_of}
use ddcore.ImportOrder.Distinct.{clash}

pub none-some : {A : Type 0} {a : A} → none ≡ some a → ⊥
none-some h = cc h

-- an index is below the length
pub index_of-less : (xs : List String) (t : String) (i : ℕ) → index_of xs t ≡ some i → i < length xs
unfolding index_of
index_of-less [] t i h = absurd (none-some h)
index_of-less (x ∷ xs) t i h = elim (Option-cases (index_of xs t)) [
  | inr (j, e) ↦
      (let z : some (suc j) ≡ some i = rw e at h in
        let w : suc j ≡ i = cc z in omega (arith, w, index_of-less xs t j e))
  | inl e ↦ elim (Bool-cases (str_eq x t)) [
    | inl k ↦ (let z : some 0 ≡ some i = rw (e, k) at h in let w : 0 ≡ i = cc z in omega (arith, w))
    | inr k ↦ (let z : ◌≡◌ {A = Option ℕ} none (some i) = rw (e, k) at h in absurd (none-some z))
  ]
]

index_of-none : (xs : List String) (t : String) → contains xs t ≡ false → index_of xs t ≡ none
unfolding index_of
index_of-none [] t h = refl
index_of-none (x ∷ xs) t h = elim (Bool-cases (str_eq x t)) [
  | inl k ↦ absurd (clash (rw k refl) h)
  | inr k ↦ rw (index_of-none xs t (rw k at h), k) refl
]

-- what is appended behind a name leaves its index
pub index_of-front :
    (xs r : List String) (t : String) → contains r t ≡ false → index_of (xs ++ r) t ≡ index_of xs t
unfolding index_of
index_of-front [] r t h = index_of-none r t h
index_of-front (x ∷ xs) r t h = rw (index_of-front xs r t h) refl

pub index_of-back :
    (xs r : List String) (t : String) (i : ℕ)
    → index_of r t ≡ some i
    → index_of (xs ++ r) t ≡ some (length xs + i)
unfolding index_of
index_of-back [] r t i h = h ∙ ap some (omega arith)
index_of-back (x ∷ xs) r t i h = rw (index_of-back xs r t i h) (ap some (omega arith))

pub in_index :
    (xs : List String) (t : String) (i : ℕ) → index_of xs t ≡ some i → contains xs t ≡ true
in_index xs t i h = elim (Bool-cases (contains xs t)) [
  | inl k ↦ k
  | inr k ↦ absurd (none-some (sym (index_of-none xs t k) ∙ h))
]
