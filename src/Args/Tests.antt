-- ===== src/Args/Tests.antt =====
-- Runs of reorder of cmd/ddcore/args.go.
use ddcore.Common.{
  ◌==◌, &&-true, ==→eq, Bool-cases, inl, inr, ◌≡◌, refl, Bool, true, false, Option, none, some, [],
  ◌∷◌, if◌then◌else◌,
}
use ddcore.Text.{Text, codes, text_eq}
use ddcore.Args.{ordered, reorder}
use ddcore.Args.Reordered.{reorder-parse}
use ddcore.Args.Parsing.{is_bad, parsed, parse, refused}

abbrev commit_flag : Text → Option Bool
commit_flag name = if text_eq name (codes "commit") then some true else none

last :
    reorder commit_flag (codes "1 + 2" ∷ codes "--commit" ∷ [])
    ≡ ordered (codes "-commit" ∷ []) (codes "1 + 2" ∷ [])
unfolding reorder
last = refl

-- what stands behind "--" is handed to Parse without it, and is then read as a flag
dashes : reorder commit_flag (codes "--" ∷ codes "-1 + 2" ∷ []) ≡ ordered [] (codes "-1 + 2" ∷ [])
unfolding reorder
dashes = refl

dashes_refused : parse false commit_flag none (codes "-1 + 2" ∷ []) ≡ refused
unfolding parse
dashes_refused = refl

commit_only : (name : Text) (b : Bool) → commit_flag name ≡ some b → is_bad name ≡ false
unfolding is_bad
commit_only [] b h = absurd (cc h)
commit_only (c ∷ name) b h = elim (Bool-cases (text_eq (c ∷ name) (codes "commit"))) [
  | inl e ↦ let first = (&&-true (c == 99) _ e).0 in rw (==→eq c 99 first) refl
  | inr e ↦ absurd (cc (rw e at h))
]

commit_stops : parse false commit_flag none (codes "1 + 2" ∷ []) ≡ parsed [] (codes "1 + 2" ∷ [])
unfolding parse
commit_stops = refl

reorder-parse_example :
    parse false commit_flag none (codes "-commit" ∷ codes "1 + 2" ∷ [])
    ≡ parse true commit_flag none (codes "1 + 2" ∷ codes "--commit" ∷ [])
reorder-parse_example =
    reorder-parse commit_flag (codes "1 + 2" ∷ codes "--commit" ∷ []) (codes "-commit" ∷ [])
      (codes "1 + 2" ∷ []) commit_only last commit_stops
