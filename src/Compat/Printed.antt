-- ===== src/Compat/Printed.antt =====
-- String and parseVersion of internal/engine/compat.go, one after the other.
use ddcore.Common.{
  arith, false, ◌==◌, ◌∙◌, ◌≤◌, some, ℕ, suc, ◌≡◌, refl, ap, true, [], ◌∷◌, ◌++◌, All,
}
use ddcore.Text.{atoi, decimal, max_int, Text, is_digit, span}
use ddcore.Text.Decimal.{atoi-decimal, decimal-All, decimal-nonempty, span_whole, span-run}
use ddcore.Compat.Versions.{
  numbers_of, Semver, numbers, print_semver, parse_version, drop_v, cons_run, run_then, runs,
}

-- a text of digits that is not empty
abbrev IsRun : Text → Type 0
IsRun t = All (λ c. is_digit c ≡ true) t × (t ≡ [] → ⊥)

runs-dot :
    (room : ℕ) (run rest : Text)
    → IsRun run
    → runs (suc room) (run ++ (b'.' ∷ rest)) ≡ cons_run run (runs room rest)
unfolding runs span
runs-dot room [] rest h = absurd (h.1 refl)
runs-dot room (d ∷ run) rest h =
    ap (λ p. run_then p.0 p.1 (runs room)) (span-run is_digit (d ∷ run) (b'.' ∷ rest) h.0 refl)

runs-last : (room : ℕ) (run : Text) → IsRun run → runs (suc room) run ≡ some (run ∷ [])
unfolding runs span
runs-last room [] h = absurd (h.1 refl)
runs-last room (d ∷ run) h =
    ap (λ p. run_then p.0 p.1 (runs room)) (span_whole is_digit (d ∷ run) h.0)

digit-v : (c : ℕ) → is_digit c ≡ true → (c == b'v') ≡ false
digit-v c h = ground arith

drop_v-run : (run rest : Text) → IsRun run → drop_v (run ++ rest) ≡ run ++ rest
drop_v-run [] rest h = absurd (h.1 refl)
drop_v-run (d ∷ run) rest h = rw (digit-v d h.0.0) refl

decimal-IsRun : (n : ℕ) → IsRun (decimal n)
decimal-IsRun n = (decimal-All n, decimal-nonempty n)

-- the three numbers, where each reads
numbers-three :
    (a b c : Text) (x y z : ℕ)
    → atoi a ≡ some x
    → atoi b ≡ some y
    → atoi c ≡ some z
    → numbers (a ∷ b ∷ c ∷ []) ≡ some (record { major = x; minor = y; patch = z }, 3)
numbers-three a b c x y z h k l = rw (h, k, l) refl

-- A version whose parts fit an int is read back from what String prints of it, as three parts.
pub parse_version-print_semver :
    (v : Semver)
    → v.major ≤ max_int
    → v.minor ≤ max_int
    → v.patch ≤ max_int
    → parse_version (print_semver v) ≡ some (v, 3)
unfolding parse_version print_semver
parse_version-print_semver v h k l =
    let a = decimal v.major in
    let b = decimal v.minor in
    let c = decimal v.patch in
    ap (λ t. numbers_of (runs 3 t)) (drop_v-run a (b'.' ∷ (b ++ b'.' ∷ c)) (decimal-IsRun v.major))
    ∙ (ap numbers_of (
          runs-dot 2 a (b ++ b'.' ∷ c) (decimal-IsRun v.major)
          ∙ ap (cons_run a) (
              runs-dot 1 b c (decimal-IsRun v.minor)
              ∙ ap (cons_run b) (runs-last 0 c (decimal-IsRun v.patch))))
        ∙ numbers-three a b c v.major v.minor v.patch (atoi-decimal v.major h)
            (atoi-decimal v.minor k) (atoi-decimal v.patch l))
