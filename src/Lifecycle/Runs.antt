-- ===== src/Lifecycle/Runs.antt =====
-- What a call that succeeds went through: the steps of the calls of internal/engine/doc.go, each
-- with the answer that it gave.
use ddcore.Common.{
  ap, String, inr, inl, ◌⊎◌, Option-cases, if◌then◌else◌, ◌≡◌, refl, Bool, true, false, Option,
  none, some,
}
use ddcore.Lifecycle.Save.{get_doc_for_update}
use ddcore.Cerr.{Error, Result, ok, err}
use ddcore.Lifecycle.{
  Document, Meta, Session, Services, return, Db, Run, then_run, lift, refuse, unless, answered, ask,
}

ok_of_bind :
    {A B : Type 0} (r : Result (A × Db)) (f : A → Run B) (out : B × Db)
    → then_run r f ≡ ok out
    → (a : A) × (t : Db) × (r ≡ ok (a, t)) × (f a t ≡ ok out)
unfolding then_run
ok_of_bind (err e) f out h = absurd (cc h)
ok_of_bind (ok (a, t)) f out h = (a, t, refl, h)

-- the two halves of a sequence
pub halves :
    {A B : Type 0} (r : Result (A × Db)) (f : A → Run B) (out : B × Db)
    → then_run r f ≡ ok out
    → (a : A) × (t : Db) × (r ≡ ok (a, t)) × (f a t ≡ ok out)
halves r f out h = ok_of_bind r f out h

-- a check, and what follows it on the same tables
pub refused_not :
    {B : Type 0} (e : Option Error) (f : Unit {0} → Run B) (s : Db) (out : B × Db)
    → then_run (refuse e s) f ≡ ok out
    → (e ≡ none) × (f tt s ≡ ok out)
unfolding refuse then_run
refused_not none f s out h = (refl, h)
refused_not (some x) f s out h = absurd (cc h)

pub unless-none : (b : Bool) (e : Error) → unless b e ≡ none → b ≡ true
unless-none true e h = refl
unless-none false e h = absurd (cc h)

pub lifted_ok :
    {A B : Type 0} (r : Result A) (f : A → Run B) (s : Db) (out : B × Db)
    → then_run (lift r s) f ≡ ok out
    → (a : A) × (r ≡ ok a) × (f a s ≡ ok out)
unfolding lift then_run
lifted_ok (ok a) f s out h = (a, refl, h)
lifted_ok (err e) f s out h = absurd (cc h)

answered_yes :
    {B : Type 0} (r : Result Bool) (e : Error) (f : Unit {0} → Run B) (s : Db) (out : B × Db)
    → then_run (lift (answered r e) s) f ≡ ok out
    → (r ≡ ok true) × (f tt s ≡ ok out)
unfolding lift then_run
answered_yes (err g) e f s out h = absurd (cc h)
answered_yes (ok true) e f s out h = (refl, h)
answered_yes (ok false) e f s out h = absurd (cc h)

-- a question that is not put where the write ignores it
pub if_asked :
    {B : Type 0} (skip : Bool) (q : Db → Result Bool) (e : Error) (f : Unit {0} → Run B) (s : Db)
    (out : B × Db)
    → then_run ((if skip then return tt else ask q e) s) f ≡ ok out
    → ((skip ≡ true) ⊎ (q s ≡ ok true)) × (f tt s ≡ ok out)
unfolding return ask then_run
if_asked true q e f s out h = (inl refl, h)
if_asked false q e f s out h = let (y, k) = answered_yes (q s) e f s out h in (inr y, k)

pub found_doc :
    {B : Type 0} (sv : Services) (c : Session) (d : Meta) (id : String) (f : Document → Run B)
    (s : Db) (out : B × Db)
    → then_run (get_doc_for_update sv c d id s) f ≡ ok out
    → (before : Document) × (s d.name id ≡ some before) × (f before s ≡ ok out)
unfolding get_doc_for_update then_run
found_doc sv c d id f s out h = elim (Option-cases (s d.name id)) [
  | inl e ↦ absurd (cc (rw (then_run, e) at h))
  | inr (before, e) ↦ (before, e, rw (then_run, e) at h)
]

pub ok_inj : {A : Type 0} {x y : A} → Path (Result A) (ok x) (ok y) → x ≡ y
ok_inj h = cc h

pub returned : {A : Type 0} (a b : A) (s t : Db) → return a s ≡ ok (b, t) → (a ≡ b) × (s ≡ t)
unfolding return
returned a b s t h = (ap (λ x. x.0) (ok_inj h), ap (λ x. x.1) (ok_inj h))
