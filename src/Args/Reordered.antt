-- ===== src/Args/Reordered.antt =====
-- What Parse makes of the arguments that reorder of cmd/ddcore/args.go returns.
use mathlib.Core.List.{append_assoc}
use ddcore.Common.{
  ℕ, Bool, true, false, ◌≡◌, refl, sym, ap, ◌∙◌, subst, Option, none, some, List, [], ◌∷◌, ◌++◌,
  if◌then◌else◌, ◌==◌, ==→eq, Bool-cases, Option-cases, inl, inr, arith,
}
use ddcore.Text.{Text, codes, text_eq}
use ddcore.Args.{
  reorder, Ordered, ordered, shows_help, unknown_flag, needs_value, with_flags, with_pos, is_help,
  is_positional, trim_dash, split_value, reorder_loop,
}
use ddcore.Args.Parsing.{Parsed, parsed, with_set, with_left, is_bad, set_flag, parse}

-- a flag's name with its value
abbrev joined : Text → Option Text → Text
joined name none = name
joined name (some v) = name ++ (61 ∷ v)

joined-cons : (c : ℕ) (name : Text) (v : Option Text) → joined (c ∷ name) v ≡ c ∷ joined name v
joined-cons c name none = refl
joined-cons c name (some v) = refl

-- a text is the parts that it is split into
joined-split_value : (s : Text) → joined (split_value s).0 (split_value s).1 ≡ s
unfolding split_value
joined-split_value [] = refl
joined-split_value (c ∷ s) =
    let rest = joined-split_value s in
    elim (Bool-cases (c == 61)) [
      | inl e ↦ rw e (ap (λ d. d ∷ s) (sym (==→eq c 61 e)))
      | inr e ↦ rw e (joined-cons c (split_value s).0 (split_value s).1 ∙ ap (λ t. c ∷ t) rest)
    ]

is_bad-split : (s : Text) → is_bad (split_value s).0 ≡ false → is_bad s ≡ false
unfolding split_value is_bad
is_bad-split [] h = h
is_bad-split (c ∷ s) h = elim (Bool-cases (c == 61)) [
  | inl e ↦ absurd (cc (rw e at h))
  | inr e ↦ (rw e at h)
]

module _ (lookup : Text → Option Bool) where
  dashed :
      (mixed : Bool) (n : Text) (args : List Text)
      → is_bad n ≡ false
      → parse mixed lookup none ((45 ∷ n) ∷ args)
        ≡ set_flag
            (lookup (split_value n).0)
            (split_value n).0
            (split_value n).1
            (parse mixed lookup none args)
            (parse mixed lookup (some (split_value n).0) args)
  unfolding parse is_bad
  dashed mixed [] args h = absurd (cc h)
  dashed mixed (c ∷ s) args h =
      let no_dash : (c == 45) ≡ false = ground arith in
      let no_bad : (c == 61) ≡ false = ground arith in rw (no_dash, no_bad, no_dash) refl

  -- What reorder returns agrees with a parse past the arguments that are no flags: in front of
  -- arguments that Parse stops at, the flags set what that parse sets, and it leaves the others.
  abbrev Agrees : Parsed → Ordered → Type 0
  Agrees t (ordered flags pos) =
      (sets : List (Text × Text)) × (t ≡ parsed sets pos)
      × ((x : List Text)
          → parse false lookup none x ≡ parsed [] x
          → parse false lookup none (flags ++ x) ≡ parsed sets x)
  Agrees t _ = Unit

  pos-Agrees :
      (a : Text) (t : Parsed) (o : Ordered) → Agrees t o → Agrees (with_left a t) (with_pos a o)
  pos-Agrees a t (ordered flags pos) (sets, e, f) = (sets, ap (with_left a) e, f)
  pos-Agrees a t shows_help h = tt
  pos-Agrees a t (unknown_flag b) h = tt
  pos-Agrees a t (needs_value n) h = tt

  flags-Agrees :
      (name v : Text) (texts : List Text)
      → ((x : List Text)
          → parse false lookup none (texts ++ x) ≡ with_set name v (parse false lookup none x))
      → (t : Parsed) (o : Ordered) → Agrees t o
      → Agrees (with_set name v t) (with_flags texts o)
  flags-Agrees name v texts step t (ordered flags pos) (sets, e, f) = (
    (name, v) ∷ sets,
    ap (with_set name v) e,
    λ x p.
        ap (parse false lookup none) (append_assoc texts flags x)
        ∙ (step (flags ++ x) ∙ ap (with_set name v) (f x p)),
  )
  flags-Agrees name v texts step t shows_help h = tt
  flags-Agrees name v texts step t (unknown_flag b) h = tt
  flags-Agrees name v texts step t (needs_value n) h = tt

  help-Agrees :
      (t : Parsed) (b : Bool) (a : Text) → Agrees t (if b then shows_help else unknown_flag a)
  help-Agrees t true a = tt
  help-Agrees t false a = tt

  -- the flag whose value comes next is a declared one that takes a value
  abbrev IsPending : Option Text → Type 0
  IsPending none = Unit
  IsPending (some name) =
      (lookup name ≡ some false) × (is_bad name ≡ false) × (split_value name ≡ (name, none))

  value_step :
      (name a : Text) (x : List Text)
      → IsPending (some name)
      → parse false lookup none ((45 ∷ name) ∷ a ∷ x) ≡ with_set name a (parse false lookup none x)
  unfolding parse
  value_step name a x h = dashed false name (a ∷ x) h.1 ∙ rw (h.2, h.0) refl

  -- a flag with its value behind "=", one that needs none, or one whose value comes next
  flagged :
      (name : Text) (value : Option Text) (is_bool : Bool) (t tv : Parsed) (o ov : Ordered)
      → lookup name ≡ some is_bool
      → ((x : List Text)
          → parse false lookup none ((45 ∷ joined name value) ∷ x)
            ≡ set_flag
                (lookup name)
                name
                value
                (parse false lookup none x)
                (parse false lookup (some name) x))
      → Agrees t o
      → (is_bool ≡ false → value ≡ none → Agrees tv ov)
      → Agrees (set_flag (lookup name) name value t tv) (elim value [
        | some v ↦ with_flags ((45 ∷ name ++ (61 ∷ v)) ∷ []) o
        | none ↦ if is_bool then with_flags ((45 ∷ name) ∷ []) o else ov
      ])
  flagged name (some v) b t tv o ov known step h k =
      rw known
        (flags-Agrees name v ((45 ∷ name ++ (61 ∷ v)) ∷ []) (λ x. step x ∙ rw known refl) t o h)
  flagged name none true t tv o ov known step h k =
      rw known
        (flags-Agrees name (codes "true") ((45 ∷ name) ∷ []) (λ x. step x ∙ rw known refl) t o h)
  flagged name none false t tv o ov known step h k = rw known (k refl refl)

  module _ (declared : (name : Text) (b : Bool) → lookup name ≡ some b → is_bad name ≡ false) where
    reorder_loop-Agrees :
        (pending : Option Text) (args : List Text)
        → IsPending pending
        → Agrees (parse true lookup pending args) (reorder_loop lookup pending args)
    unfolding parse reorder_loop
    reorder_loop-Agrees none [] h = ([], refl, λ x p. p)
    reorder_loop-Agrees (some name) [] h = tt
    reorder_loop-Agrees (some name) (a ∷ args) h =
        flags-Agrees name a ((45 ∷ name) ∷ a ∷ []) (λ x. value_step name a x h)
          (parse true lookup none args) (reorder_loop lookup none args)
          (reorder_loop-Agrees none args tt)
    reorder_loop-Agrees none (a ∷ args) h =
        let body = trim_dash (trim_dash a) in
        let name = (split_value body).0 in
        let value = (split_value body).1 in
        let rest = reorder_loop-Agrees none args tt in
        let valued = reorder_loop-Agrees (some name) args in
        elim (Bool-cases (text_eq a (codes "--"))) [
          | inl e ↦ rw e ([], refl, λ x p. p)
          | inr e ↦ elim (Bool-cases (is_positional a)) [
            | inl g ↦
                rw (e, g)
                  (pos-Agrees a (parse true lookup none args) (reorder_loop lookup none args) rest)
            | inr g ↦ elim (Option-cases (lookup name)) [
              | inl n ↦ rw (e, g, n) (help-Agrees _ (is_help name) a)
              | inr (b, n) ↦
                  let good : is_bad body ≡ false = is_bad-split body (declared name b n) in
                  let whole : joined name value ≡ body = joined-split_value body in
                  let step : (x : List Text)
                      → parse false lookup none ((45 ∷ joined name value) ∷ x)
                        ≡ set_flag (lookup name) name value (parse false lookup none x)
                            (parse false lookup (some name) x) =
                    λ x.
                      subst
                        (λ t.
                          parse false lookup none ((45 ∷ t) ∷ x)
                          ≡ set_flag (lookup name) name value (parse false lookup none x)
                              (parse false lookup (some name) x))
                        (sym whole) (dashed false body x good) in
                  let all =
                    flagged name value b (parse true lookup none args)
                      (parse true lookup (some name) args) (reorder_loop lookup none args)
                      (reorder_loop lookup (some name) args) n step rest
                      (λ f v. valued (
                        n ∙ ap some f,
                        declared name b n,
                        ap split_value (subst (λ o. joined name o ≡ body) v whole)
                            ∙ ap (λ o. (name, o)) v,
                      )) in
                  rw (e, g, good, n) (rw n at all)
            ]
          ]
        ]

-- Where reorder succeeds and Parse stops at the arguments that are no flags, Parse makes of its
-- result what a parse that does not stop at them makes of the arguments as they were typed: the
-- same flags with the same values, in order, and the same arguments left. No declared flag has a
-- name that is empty or begins with a dash or "=".
pub reorder-parse :
    (lookup : Text → Option Bool) (args flags pos : List Text)
    → ((name : Text) (b : Bool) → lookup name ≡ some b → is_bad name ≡ false)
    → reorder lookup args ≡ ordered flags pos
    → parse false lookup none pos ≡ parsed [] pos
    → parse false lookup none (flags ++ pos) ≡ parse true lookup none args
unfolding reorder
reorder-parse lookup args flags pos declared e stops =
    let (sets, same, runs) : Agrees lookup (parse true lookup none args) (ordered flags pos) =
      subst (Agrees lookup (parse true lookup none args)) e
        (reorder_loop-Agrees lookup declared none args tt) in
    runs pos stops ∙ sym same
