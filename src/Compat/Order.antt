-- ===== src/Compat/Order.antt =====
-- The order of versions that cmp of internal/engine/compat.go computes.
use ddcore.Common.{◌<◌, ◌≡◌, ◌⊎◌, arith}
use ddcore.Compat.Versions.{Semver, less, same, more, cmp}

-- the order by parts
abbrev pub Before : Semver → Semver → Type 0
Before v o =
    (v.major < o.major)
    ⊎ (v.major ≡ o.major) × (v.minor < o.minor)
    ⊎ (v.major ≡ o.major) × (v.minor ≡ o.minor) × (v.patch < o.patch)

pub cmp-less : (v o : Semver) → cmp v o ≡ less → Before v o
unfolding cmp
cmp-less v o h = ground arith

pub cmp_of_Before : (v o : Semver) → Before v o → cmp v o ≡ less
unfolding cmp
cmp_of_Before v o h = ground arith

pub cmp-same : (v o : Semver) → cmp v o ≡ same → v ≡ o
unfolding cmp
cmp-same v o h = ground arith

pub cmp_refl : (v : Semver) → cmp v v ≡ same
unfolding cmp
cmp_refl v = ground arith

pub cmp-more : (v o : Semver) → cmp v o ≡ more → Before o v
unfolding cmp
cmp-more v o h = ground arith

pub cmp_of_after : (v o : Semver) → Before o v → cmp v o ≡ more
unfolding cmp
cmp_of_after v o h = ground arith
