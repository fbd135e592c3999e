-- ===== src/Compat/Ranges.antt =====
-- The operators of a range of internal/engine/compat.go, with npm's ^ and ~, and its lower bound.
use ddcore.Common.{
  ℕ, ◌≤◌, ◌<◌, ◌≡◌, ◌≢◌, ◌↔◌, inl, inr, true, ◌&&◌, arith, List, [], ◌∷◌, if◌then◌else◌, Bool-cases,
  of_if, &&-true, subst,
}
use ddcore.Compat.Versions.{Semver, less, cmp}
use ddcore.Compat.Constraints.{
  is_more, Op, Constraint, holds, allows, tilde_upper, constraints, tilde, lower_from, lower_bound,
  zero_version, is_lower,
}
use ddcore.Compat.Order.{Before, cmp-less, cmp_of_Before}

-- npm's ^: not below v, with the leftmost part of v that is not zero kept. Of a version that is
-- all zeros the parts that were written are kept.
abbrev pub IsCaret : Semver → ℕ → Semver → Type 0
IsCaret v parts w =
    (Before w v → ⊥)
    × ((0 < v.major → w.major ≡ v.major)
        × (v.major ≡ 0 → 0 < v.minor → (w.major ≡ 0) × (w.minor ≡ v.minor))
        × (v.major ≡ 0 → v.minor ≡ 0 → 0 < v.patch → w ≡ v)
        × (v.major ≡ 0
            → v.minor ≡ 0
            → v.patch ≡ 0
            → (w.major ≡ 0) × (2 ≤ parts → w.minor ≡ 0) × (parts ≡ 3 → w.patch ≡ 0)))

abbrev pub IsTilde : Semver → ℕ → Semver → Type 0
IsTilde v parts w = (Before w v → ⊥) × (w.major ≡ v.major) × (2 ≤ parts → w.minor ≡ v.minor)

-- With at least one part of v written, ~v allows exactly the versions not below v with its major and, if a minor was written, its minor.
allows-tilde :
    (v w : Semver) (parts : ℕ)
    → 1 ≤ parts
    → (allows (constraints tilde v parts) w ≡ true) ↔ IsTilde v parts w
unfolding allows constraints tilde_upper cmp
allows-tilde v w parts h = (λ e. ground arith, λ c. ground arith)

less-holds : (o : Op) → is_lower o ≡ true → holds o less ≡ true → ⊥
less-holds o h k = ground arith

lower-holds :
    (c : Constraint) (w : Semver)
    → holds c.op (cmp w c.v) ≡ true
    → is_lower c.op ≡ true
    → Before w c.v
    → ⊥
lower-holds c w h k b =
    less-holds c.op k (subst (λ x. holds c.op x ≡ true) (cmp_of_Before w c.v b) h)

-- a lower bound read so far, against what the rest of the range allows
lower_from-allows :
    (lo w : Semver) (r : List Constraint)
    → allows r w ≡ true
    → (Before w lo → ⊥)
    → Before w (lower_from lo r)
    → ⊥
unfolding allows lower_from
lower_from-allows lo w [] a b = b
lower_from-allows lo w (c ∷ r) a b = elim (Bool-cases (holds c.op (cmp w c.v))) [
  | inl t ↦
      lower_from-allows (if is_lower c.op && is_more (cmp c.v lo) then c.v else lo) w r (rw t at a)
        (of_if (λ v. Before w v → ⊥) (is_lower c.op && is_more (cmp c.v lo)) c.v lo
          (λ e. lower-holds c w t (&&-true (is_lower c.op) (is_more (cmp c.v lo)) e).0) (λ _. b))
  | inr f ↦ cc
]

-- A version that a range allows is not below the range's lower bound.
pub allows-lower_bound :
    (r : List Constraint) (w : Semver) → allows r w ≡ true → cmp w (lower_bound r) ≢ less
unfolding lower_bound
allows-lower_bound r w a e =
    lower_from-allows zero_version w r a (λ h. ground arith) (cmp-less w (lower_bound r) e)
