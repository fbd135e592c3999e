-- ===== src/Perm/Roles.antt =====
-- Role rows of internal/engine/perm.go and field levels of internal/engine/fieldperm.go.
use ddcore.Common.{
  ap, some, ◌<◌, ltb, ℕ, ◌≡◌, inl, inr, refl, ◌∙◌, String, Bool, true, false, not, ◌&&◌, ◌||◌, List,
  [], ◌∷◌, any, ◌==◌, Bool-cases, arith,
}
use ddcore.Perm.{Perm, DocType, contains_fold, gives, grant_from, role_grant}
use ddcore.Perm.Fields.{
  level0_field_access, add_row, field_access, add_rows, FieldAccess, level_bit, has_level,
  can_read_level, intersect,
}

given-pair :
    (a o i x y : Bool)
    → (◌≡◌ {A = Bool × Bool}
        (true || x, (o && i) && not y)
        (a || (true || x), o && not (true && not i || y)))
given-pair a o i x y = ground arith

module _ (fold : ℕ → ℕ) (roles : List String) (ptype : String) where
  grant_from-any :
      (a o : Bool) (ps : List Perm)
      → grant_from fold roles ptype (a, o) ps ≡ (
        a || any (gives fold roles ptype) ps,
        o && not (any (λ p. gives fold roles ptype p && not p.if_owner) ps),
      )
  grant_from-any a o [] = ground arith
  grant_from-any a o (p ∷ ps) = elim (Bool-cases (gives fold roles ptype p)) [
    | inl t ↦ rw t (
        grant_from-any true (o && p.if_owner) ps
        ∙ given-pair a o p.if_owner (any (gives fold roles ptype) ps)
            (any (λ q. gives fold roles ptype q && not q.if_owner) ps))
    | inr t ↦ rw t (grant_from-any a o ps)
  ]

  -- A DocType's rows give a right exactly if some row of level 0 for one of the roles gives it, and
  -- the right is bound to the user's own documents exactly if every such row is.
  pub role_grant-any :
      (d : DocType)
      → role_grant fold d roles ptype ≡ (
        any (gives fold roles ptype) d.permissions,
        not (any (λ p. gives fold roles ptype p && not p.if_owner) d.permissions),
      )
  unfolding role_grant
  role_grant-any d = grant_from-any false true d.permissions

meet_bits : (x y z : Bool) → ((x && y) && z) ≡ ((x && z) && (y && z))
meet_bits x y z = ground arith

meet_levels : (z p q : Bool) → (false || z || (p && q)) ≡ ((false || z || p) && (false || z || q))
meet_levels z p q = ground arith

&&-unit : (x : Bool) → x ≡ (x && true)
&&-unit x = ground arith

read_meet :
    (p q : Bool) (a b : FieldAccess) (l : ℕ)
    → a.all ≡ p
    → b.all ≡ q
    → can_read_level (intersect a b) l ≡ (can_read_level a l && can_read_level b l)
unfolding can_read_level intersect
read_meet true q a b l h k = rw h refl
read_meet false true a b l h k = rw (h, k) (&&-unit (false || l == 0 || has_level a.read l))
read_meet false false a b l h k =
    rw (h, k, meet_bits (a.read l) (b.read l) (level_bit l l))
      (meet_levels (l == 0) (has_level a.read l) (has_level b.read l))

-- An intersection of two field accesses reads exactly the levels that both read.
can_read_level-intersect :
    (a b : FieldAccess) (l : ℕ)
    → can_read_level (intersect a b) l ≡ (can_read_level a l && can_read_level b l)
can_read_level-intersect a b l = read_meet a.all b.all a b l refl refl

or-false : (x : Bool) → x ≡ (x || false)
or-false x = ground arith

or_assoc : (x y z : Bool) → ((x || y) || z) ≡ (x || (y || z))
or_assoc x y z = ground arith

or-zero : (l : ℕ) (x : Bool) → 0 < l → (l == 0 || false || x) ≡ x
or-zero l x h = ground arith

closed_row :
    (x : Bool) (pl l : ℕ) (c r : Bool)
    → 0 < l
    → (pl == 0 || not c) ≡ true
    → x ≡ (x || c && r && (pl == l && ltb l 32))
closed_row x pl l c r h t = ground arith

shut_row : (x c b : Bool) → x ≡ (x || c && false && b)
shut_row x c b = ground arith

open_row :
    (all old : Bool) (pl l : ℕ) (c : Bool)
    → 0 < l
    → (pl == 0 || not c) ≡ false
    → (all || l == 0 || (old || level_bit pl l) && level_bit l l)
      ≡ ((all || l == 0 || old && level_bit l l) || c && true && (pl == l && ltb l 32))
unfolding level_bit
open_row all old pl l c h t = ground arith

module _ (fold : ℕ → ℕ) (roles : List String) where
  -- the row speaks for one of the roles, at this level, with a right to read or write
  abbrev pub opens : ℕ → Perm → Bool
  opens l p =
      contains_fold fold roles p.role && (p.read || p.write) && (p.permlevel == l && ltb l 32)

  add_row-opens :
      (a : FieldAccess) (p : Perm) (l : ℕ)
      → 0 < l
      → can_read_level (add_row fold roles a p) l ≡ (can_read_level a l || opens l p)
  unfolding can_read_level level_bit
  add_row-opens a p l h =
      elim (Bool-cases (p.permlevel == 0 || not (contains_fold fold roles p.role))) [
        | inl t ↦ rw t (
            closed_row (can_read_level a l) p.permlevel l (contains_fold fold roles p.role)
              (p.read || p.write) h t)
        | inr t ↦ rw t (elim (Bool-cases (p.read || p.write)) [
          | inl u ↦
              rw u (open_row a.all (a.read l) p.permlevel l (contains_fold fold roles p.role) h t)
          | inr u ↦ rw u (
              shut_row (can_read_level a l) (contains_fold fold roles p.role)
                (p.permlevel == l && ltb l 32))
        ])
      ]

  add_row-all : (a : FieldAccess) (p : Perm) → (add_row fold roles a p).all ≡ a.all
  add_row-all a p = ground arith

  add_rows-opens :
      (a : FieldAccess) (ps : List Perm) (l : ℕ)
      → 0 < l
      → can_read_level (add_rows fold roles a ps) l ≡ (can_read_level a l || any (opens l) ps)
  unfolding add_rows
  add_rows-opens a [] l h = or-false (can_read_level a l)
  add_rows-opens a (p ∷ ps) l h =
      add_rows-opens (add_row fold roles a p) ps l h
      ∙ (ap (λ x. x || any (opens l) ps) (add_row-opens a p l h)
          ∙ or_assoc (can_read_level a l) (opens l p) (any (opens l) ps))

  -- On a DocType that is not a child, a user who is not elevated reads a field of a level above 0
  -- exactly if the level is below 32 and some permission row of that level for one of his roles lets
  -- read or write.
  pub field_access-opens :
      (parents_of : String → List DocType) (d : DocType) (l : ℕ)
      → d.is_child ≡ false
      → 0 < l
      → can_read_level (field_access fold false (some roles) parents_of (some d)) l
        ≡ any (opens l) d.permissions
  unfolding field_access can_read_level
  field_access-opens parents_of d l c h = rw c (
      add_rows-opens level0_field_access d.permissions l h
      ∙ or-zero l (any (opens l) d.permissions) h)
