-- ===== src/Lifecycle/Guards.antt =====
-- What Save, of internal/engine/doc.go, has checked once it lets a document through.
use ddcore.Common.{◌≡◌, refl, subst, Bool, true, false, not, ◌||◌, none, some, ◌⊎◌}
use ddcore.Cerr.{ok}
use ddcore.Lifecycle.{Document, Meta, Db, Session, SaveOpts, Services}
use ddcore.Lifecycle.Checks.{status_action, is_plain, ptype_of, is_stale, workflow_refusal}
use ddcore.Lifecycle.Save.{Opened, open_save}
use ddcore.Lifecycle.Runs.{returned, found_doc, if_asked, refused_not, unless-none, lifted_ok}

not-true : (b : Bool) → not b ≡ true → b ≡ false
not-true true h = cc h
not-true false h = refl

module _ (sv : Services) (c : Session) (d : Meta) (doc : Document) (opts : SaveOpts) where
  -- the document as Save reads it, beside the stored one
  abbrev pub asked : Document → Document
  asked before = sv.clean d doc (some before)

  pub record IsAdmitted (s : Db) (o : Opened sv c) : Type 0 where
    pub stored : s d.name doc.id ≡ some o.before
    pub read : o.doc ≡ asked o.before
    pub action :
        status_action sv.sprint d doc.id c.in_workflow_transition o.before.docstatus
          (asked o.before).docstatus
        ≡ ok o.action
    pub submittable : (is_plain o.action || d.submittable) ≡ true
    pub by_workflow :
        workflow_refusal c.in_workflow_transition (sv.workflow_for d.name) o.before (asked o.before)
        ≡ none
    pub permitted :
        ((opts.ignore_permissions || c.ignore_permissions || c.in_workflow_transition) ≡ true)
        ⊎ (sv.permitted d (ptype_of o.action) o.before s ≡ ok true)
    pub scoped :
        (c.ignore_permissions ≡ true) ⊎ (sv.in_scope d (ptype_of o.action) o.before s ≡ ok true)
    pub fresh : is_stale (asked o.before).modified o.before.modified ≡ false

  pub open_save-IsAdmitted :
      (s t : Db) (o : Opened sv c)
      → open_save sv c d doc opts s ≡ ok (o, t)
      → IsAdmitted s o × (s ≡ t)
  unfolding open_save
  open_save-IsAdmitted s t o h =
      let (_, h1) = refused_not _ _ _ _ h in
      let (_, h2) = refused_not _ _ _ _ h1 in
      let (_, h3) = refused_not _ _ _ _ h2 in
      let (before, st, h4) = found_doc sv c d doc.id _ s _ h3 in
      let (action, ac, h5) = lifted_ok _ _ _ _ h4 in
      let (su, h6) = refused_not _ _ _ _ h5 in
      let (wo, h7) = refused_not _ _ _ _ h6 in
      let (pe, h8) = if_asked _ _ _ _ _ _ h7 in
      let (sc, h9) = if_asked _ _ _ _ _ _ h8 in
      let (fr, h10) = refused_not _ _ _ _ h9 in
      let (same, t_same) = returned _ _ _ _ h10 in
      (
        subst (IsAdmitted s) same (record {
          stored = st;
          read = refl;
          action = ac;
          submittable = unless-none _ _ su;
          by_workflow = wo;
          permitted = pe;
          scoped = sc;
          fresh = not-true _ (unless-none _ _ fr);
        }),
        t_same,
      )
