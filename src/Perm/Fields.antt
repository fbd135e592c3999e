-- ===== src/Perm/Fields.antt =====
-- Field levels: internal/engine/fieldperm.go. A uint32 of levels is the Boolean of each bit.
use ddcore.Common.{
  ℕ, zero, suc, String, Bool, true, false, not, ◌&&◌, ◌||◌, Option, none, some, List, [], ◌∷◌,
  if◌then◌else◌, ◌==◌, ltb,
}
use ddcore.Perm.{Perm, Field, DocType, contains_fold}

abbrev pub Bits : Type 0
Bits = ℕ → Bool

pub record FieldAccess : Type 0 where
  pub all : Bool
  pub read : Bits
  pub write : Bits

abbrev pub no_bits : Bits
no_bits _ = false

-- 1 << level of a uint32, nothing for level 0
unfoldable pub level_bit : ℕ → Bits
level_bit level i = ltb 0 level && (i == level) && ltb i 32

abbrev pub full_field_access : FieldAccess
full_field_access = record { all = true; read = no_bits; write = no_bits }

abbrev pub level0_field_access : FieldAccess
level0_field_access = record { all = false; read = no_bits; write = no_bits }

-- a & levelBit(level) != 0: only the level's own bit can stand
abbrev pub has_level : Bits → ℕ → Bool
has_level bits level = bits level && level_bit level level

unfoldable pub can_read_level : FieldAccess → ℕ → Bool
can_read_level a level = a.all || level == 0 || has_level a.read level

unfoldable pub can_write_level : FieldAccess → ℕ → Bool
can_write_level a level = a.all || level == 0 || has_level a.write level

-- CanRead and CanWrite, of a field or a standard column
unfoldable pub can_read : FieldAccess → Option Field → Bool
can_read a none = true
can_read a (some f) = can_read_level a f.permlevel

unfoldable pub can_write : FieldAccess → Option Field → Bool
can_write a none = true
can_write a (some f) = can_write_level a f.permlevel

abbrev pub max_permlevel : ℕ
max_permlevel = 9

-- Levels, from level l on, `room` of them
unfoldable pub levels_from : (ℕ → Bool) → ℕ → ℕ → List ℕ
levels_from can l zero = []
levels_from can l (suc room) =
    let rest = levels_from can (suc l) room in if can l then l ∷ rest else rest

unfoldable pub levels : FieldAccess → List ℕ × List ℕ
unfolding levels_from
levels a = (
  0 ∷ levels_from (can_read_level a) 1 max_permlevel,
  0 ∷ levels_from (can_write_level a) 1 max_permlevel,
)

unfoldable pub intersect : FieldAccess → FieldAccess → FieldAccess
intersect a b = if a.all then b else if b.all then a else record {
  all = false;
  read = λ i. a.read i && b.read i;
  write = λ i. a.write i && b.write i;
}

abbrev pub with_level : Bits → ℕ → Bits
with_level bits level i = bits i || level_bit level i

-- one permission row, added to what the rows before it gave
abbrev pub add_row : (ℕ → ℕ) → List String → FieldAccess → Perm → FieldAccess
add_row fold roles a p =
    if p.permlevel == 0 || not (contains_fold fold roles p.role) then a else record {
      all = a.all;
      read = if p.read || p.write then with_level a.read p.permlevel else a.read;
      write = if p.write then with_level a.write p.permlevel else a.write;
    }

unfoldable pub add_rows : (ℕ → ℕ) → List String → FieldAccess → List Perm → FieldAccess
add_rows fold roles a [] = a
add_rows fold roles a (p ∷ ps) = add_rows fold roles (add_row fold roles a p) ps

-- a DocType that is not a child; `none`: the roles could not be read
abbrev pub own_access : (ℕ → ℕ) → Option (List String) → DocType → FieldAccess
own_access fold none d = level0_field_access
own_access fold (some roles) d = add_rows fold roles level0_field_access d.permissions

abbrev pub meet : (ℕ → ℕ) → Option (List String) → FieldAccess → List DocType → FieldAccess
meet fold roles a [] = a
meet fold roles a (d ∷ ds) = meet fold roles (intersect a (own_access fold roles d)) ds

abbrev pub child_access : (ℕ → ℕ) → Option (List String) → List DocType → FieldAccess
child_access fold roles [] = level0_field_access
child_access fold roles (d ∷ ds) = meet fold roles full_field_access (d ∷ ds)

-- FieldAccess: `elevated` for Admin and contexts that ignore permissions; the parents that embed a
-- child are never children themselves
unfoldable pub field_access :
    (ℕ → ℕ) → Bool → Option (List String) → (String → List DocType) → Option DocType → FieldAccess
field_access fold true roles parents_of d = full_field_access
field_access fold false roles parents_of none = level0_field_access
field_access fold false roles parents_of (some d) =
    if d.is_child then child_access fold roles (parents_of d.name) else own_access fold roles d
