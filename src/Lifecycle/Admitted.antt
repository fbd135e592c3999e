-- ===== src/Lifecycle/Admitted.antt =====
-- The saves that Save, of internal/engine/doc.go, lets through: the docstatus before and after,
-- and the version that the document was opened at.
use ddcore.Common.{
  ℕ, ◌/◌, ◌≡◌, ◌≢◌, sym, ◌∙◌, subst, Bool, true, false, some, ◌⊎◌, ◌==◌, arith, ==→eq,
}
use ddcore.Cerr.{ok}
use ddcore.Lifecycle.{Document, Meta, Db, at, Session, SaveOpts, Services}
use ddcore.Lifecycle.Checks.{is_stale, same_time, millisecond}
use ddcore.Lifecycle.Save.{Opened, save_existing}
use ddcore.Lifecycle.Runs.{halves}
use ddcore.Lifecycle.Guards.{IsAdmitted, open_save-IsAdmitted, asked}

-- a draft stays one or is submitted, a submitted document stays one or is cancelled, and a
-- workflow may cancel a draft; only a submittable DocType leaves the draft
abbrev pub IsTransition : Bool → Bool → ℕ → ℕ → Type 0
IsTransition submittable in_transition old new =
    ((old ≡ 0) × (new ≡ 0))
    ⊎ ((submittable ≡ true)
        × (((old ≡ 0) × (new ≡ 1))
            ⊎ ((old ≡ 1) × (new ≡ 1))
            ⊎ ((old ≡ 1) × (new ≡ 2))
            ⊎ ((in_transition ≡ true) × (old ≡ 0) × (new ≡ 2))))

some_inj : {a b : Document} → some a ≡ some b → a ≡ b
some_inj h = cc h

fresh_same :
    (read stored : ℕ)
    → is_stale (at read) (at stored) ≡ false
    → (read / millisecond == stored / millisecond) ≡ true
unfolding is_stale same_time
fresh_same read stored h = ground arith

module _ (sv : Services) (c : Session) (d : Meta) (doc : Document) (opts : SaveOpts) where
  opened :
      (s : Db) (out : Document × Db)
      → save_existing sv c d doc opts s ≡ ok out
      → (o : Opened sv c) × IsAdmitted sv c d doc opts s o
  unfolding save_existing
  opened s out h =
      let (o, t, e, _) = halves _ _ _ h in (o, (open_save-IsAdmitted sv c d doc opts s t o e).0)

  -- No update is lost: once the stored document carries another time than the one the document was
  -- opened at, to the millisecond, no save of it goes through.
  pub save_existing_stale :
      (s : Db) (out : Document × Db) (before : Document) (stored read : ℕ)
      → s d.name doc.id ≡ some before
      → before.modified ≡ at stored
      → (asked sv c d doc opts before).modified ≡ at read
      → stored / millisecond ≢ read / millisecond
      → save_existing sv c d doc opts s ≢ ok out
  save_existing_stale s out before stored read e k r n h =
      let (o, m) = opened s out h in
      let same = some_inj (sym m.stored ∙ e) in
      let fresh =
        subst (λ b. is_stale (asked sv c d doc opts b).modified b.modified ≡ false) same m.fresh in
      n (
        sym (
          ==→eq (read / millisecond) (stored / millisecond) (
            fresh_same read stored (
              subst (λ m. is_stale (at read) m ≡ false) k
                (subst (λ m. is_stale m before.modified ≡ false) r fresh)))))
