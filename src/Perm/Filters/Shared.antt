-- ===== src/Perm/Filters/Shared.antt =====
-- The ids of sharedNames beside the share that shareOn finds, of internal/engine/share.go.
use ddcore.Common.{
  ℕ, ◌≡◌, refl, String, Bool, true, false, not, ◌&&◌, Option, none, some, List, [], ◌∷◌, str_eq,
  find, All, Bool-cases, inl, inr, arith, &&-true,
}
use ddcore.Text.{equal_fold}
use ddcore.Perm.{DocShare, grants, shared_names, contains}

abbrev pub is_on : (ℕ → ℕ) → String → String → DocShare → Bool
is_on fold doctype name s = str_eq s.doc_id name && equal_fold fold s.doctype doctype

-- at most one of the shares is on the document
abbrev pub IsOnly : (ℕ → ℕ) → String → String → List DocShare → Type 0
IsOnly fold doctype name [] = Unit
IsOnly fold doctype name (s ∷ shares) =
    (is_on fold doctype name s ≡ true → All (λ u. is_on fold doctype name u ≡ false) shares)
    × IsOnly fold doctype name shares

-- the share lets the user read within the scopes, and past them
abbrev pub reads_scoped : Option DocShare → Bool
reads_scoped none = false
reads_scoped (some s) = grants s "read" && not s.override_scope

abbrev pub reads_lifted : Option DocShare → Bool
reads_lifted none = false
reads_lifted (some s) = grants s "read" && s.override_scope

module _ (fold : ℕ → ℕ) (doctype name : String) where
  off_names :
      (shares : List DocShare)
      → All (λ u. is_on fold doctype name u ≡ false) shares
      → (contains (shared_names fold shares doctype).0 name ≡ false)
        × (contains (shared_names fold shares doctype).1 name ≡ false)
  unfolding shared_names
  off_names [] h = (refl, refl)
  off_names (s ∷ shares) h = ground (arith, off_names shares h.1)

  off_id :
      (s : DocShare)
      → is_on fold doctype name s ≡ false
      → equal_fold fold s.doctype doctype ≡ true
      → str_eq s.doc_id name ≡ false
  off_id s t f = ground arith

  pub contains-shared_names :
      (shares : List DocShare)
      → IsOnly fold doctype name shares
      → (contains (shared_names fold shares doctype).0 name
          ≡ reads_scoped (find (is_on fold doctype name) shares))
        × (contains (shared_names fold shares doctype).1 name
            ≡ reads_lifted (find (is_on fold doctype name) shares))
  unfolding shared_names
  contains-shared_names [] h = (refl, refl)
  contains-shared_names (s ∷ shares) h = elim (Bool-cases (is_on fold doctype name s)) [
    | inl t ↦
        let (i, f) = &&-true (str_eq s.doc_id name) (equal_fold fold s.doctype doctype) t in
        let o = off_names shares (h.0 t) in
        elim (Bool-cases (grants s "read")) [
          | inl g ↦ elim (Bool-cases s.override_scope) [
            | inl v ↦ rw (t, f, g, v, i, o.0) (refl, refl)
            | inr v ↦ rw (t, f, g, v, i, o.1) (refl, refl)
          ]
          | inr g ↦ rw (t, f, g, o.0, o.1) (refl, refl)
        ]
    | inr t ↦
        let e = contains-shared_names shares h.1 in
        elim (Bool-cases (equal_fold fold s.doctype doctype)) [
          | inl f ↦ elim (Bool-cases (grants s "read")) [
            | inl g ↦ elim (Bool-cases s.override_scope) [
              | inl v ↦ rw (t, f, g, v, off_id s t f) (e.0, e.1)
              | inr v ↦ rw (t, f, g, v, off_id s t f) (e.0, e.1)
            ]
            | inr g ↦ rw (t, f, g, e.0, e.1) (refl, refl)
          ]
          | inr f ↦ rw (t, f, e.0, e.1) (refl, refl)
        ]
  ]
