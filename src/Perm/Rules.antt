-- ===== src/Perm/Rules.antt =====
-- applicableScopes of internal/engine/perm.go against the User Permission rules that it groups.
use ddcore.Common.{
  ℕ, ◌≡◌, refl, sym, subst, String, true, List, [], ◌∷◌, str_eq, eq_iff, All, All-append, Has,
  Bool-cases, inl, inr,
}
use ddcore.Perm.Scopes.{UserPerm, applies_to, group_add, group_from, applicable_scopes}

pub All-of : {A : Type 0} (Q : A → Type 0) (xs : List A) → ((x : A) → Has x xs → Q x) → All Q xs
All-of Q [] f = tt
All-of Q (x ∷ xs) f = (f x (inl refl), All-of Q xs (λ y h. f y (inr h)))

module _ (P : String → String → Type 0) where
  -- every value of a group is one that P allows for the group's DocType
  abbrev pub AllGrouped : List (String × List String) → Type 0
  AllGrouped groups = All (λ g. All (λ v. P g.0 v) g.1) groups

  AllGrouped-group_add :
      (allow value : String) (groups : List (String × List String))
      → P allow value
      → AllGrouped groups
      → AllGrouped (group_add allow value groups)
  AllGrouped-group_add allow value [] p h = ((p, tt), tt)
  AllGrouped-group_add allow value ((a, vs) ∷ groups) p h = elim (Bool-cases (str_eq a allow)) [
    | inl t ↦ rw t (
      All-append (P a) vs (value ∷ []) h.0
          (subst (λ z. P z value) (sym ((eq_iff a allow).0 t)) p, tt),
      h.1,
    )
    | inr t ↦ rw t (h.0, AllGrouped-group_add allow value groups p h.1)
  ]

  pub AllGrouped-group_from :
      (fold : ℕ → ℕ) (applicable_for : String) (perms : List UserPerm)
      (groups : List (String × List String))
      → All (λ p. applies_to fold applicable_for p ≡ true → P p.allow p.for_value) perms
      → AllGrouped groups
      → AllGrouped (group_from fold applicable_for groups perms)
  AllGrouped-group_from fold applicable_for [] groups a h = h
  AllGrouped-group_from fold applicable_for (p ∷ perms) groups a h =
      elim (Bool-cases (applies_to fold applicable_for p)) [
        | inl t ↦ rw t (
            AllGrouped-group_from fold applicable_for perms (group_add p.allow p.for_value groups)
              a.1 (AllGrouped-group_add p.allow p.for_value groups (a.0 t) h))
        | inr t ↦ rw t (AllGrouped-group_from fold applicable_for perms groups a.1 h)
      ]

-- a rule of the list that applies and allows the value of the DocType
abbrev pub IsRule : (ℕ → ℕ) → List UserPerm → String → String → String → Type 0
IsRule fold perms applicable_for allow value =
    (p : UserPerm) × Has p perms
    × (applies_to fold applicable_for p ≡ true)
    × (p.allow ≡ allow)
    × (p.for_value ≡ value)

-- Every value that the scopes of a DocType allow is the value of one of the user's rules, which
-- applies there and is over the DocType that the scope restricts.
pub applicable_scopes-IsRule :
    (fold : ℕ → ℕ) (perms : List UserPerm) (applicable_for : String)
    → AllGrouped (IsRule fold perms applicable_for) (applicable_scopes fold perms applicable_for)
unfolding applicable_scopes
applicable_scopes-IsRule fold perms applicable_for =
    AllGrouped-group_from (IsRule fold perms applicable_for) fold applicable_for perms []
      (All-of
        (λ p.
          applies_to fold applicable_for p ≡ true
          → IsRule fold perms applicable_for p.allow p.for_value)
        perms (λ p h t. (p, h, t, refl, refl)))
      tt
