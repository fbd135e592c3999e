-- ===== src/Perm/Bounds.antt =====
-- HasPermission of internal/engine/perm.go against the scopes and the shares of the user.
use ddcore.Common.{
  ℕ, ◌≡◌, ◌⊎◌, inl, inr, refl, sym, ◌∙◌, String, Bool, true, false, not, ◌&&◌, ◌||◌, Option, none,
  some, List, [], ◌∷◌, if◌then◌else◌, str_eq, eq_iff, All, Has, find-Has, Bool-cases, &&-true,
  Option-cases,
}
use ddcore.Text.{equal_fold}
use ddcore.Cerr.{Result, ok, err}
use ddcore.Perm.{DocType, DocShare, grants, share_on, shareable, scope_overridden, is_unscoped_only}
use ddcore.Perm.Scopes.{
  Doc, doc, str, UserPerm, Site, ScopeBinding, and_also, or_else, unless_refused, with_rules,
  applicable_scopes, scope_bindings, binding_holds, bindings_hold, scopes_hold, check_doc,
  check_rows, check_user_permissions_for, refused_to_scoped_user, check_user_permissions,
  overridden, scope_allows,
}
use ddcore.Perm.Access.{
  Ctx, Reads, elevated, granted_by, workflow_allows, controller_allows, scope_admits,
  own_permission, on_known, has_permission, child_permission,
}

and_also-yes : (a b : Result Bool) → and_also a b ≡ ok true → (a ≡ ok true) × (b ≡ ok true)
and_also-yes (err e) b h = absurd (cc h)
and_also-yes (ok false) b h = absurd (cc h)
and_also-yes (ok true) b h = (refl, h)

or_else-yes : (a b : Result Bool) → or_else a b ≡ ok true → (a ≡ ok true) ⊎ (b ≡ ok true)
or_else-yes (err e) b h = absurd (cc h)
or_else-yes (ok true) b h = inl h
or_else-yes (ok false) b h = inr h

unless_refused-yes :
    (a b : Result Bool) → unless_refused a b ≡ ok true → (a ≡ ok false) × (b ≡ ok true)
unless_refused-yes (err e) b h = absurd (cc h)
unless_refused-yes (ok true) b h = absurd (cc h)
unless_refused-yes (ok false) b h = (refl, h)

module _ (site : Site) (d : DocType) (dc : Doc) where
  -- every field of the document that a group of rules bounds holds a value that they allow
  abbrev pub InScope : List (String × List String) → Type 0
  InScope groups =
      All
        (λ g.
          All (λ b. binding_holds site d dc g.0 g.1 b ≡ ok true) (scope_bindings site.fold d g.0))
        groups

  bindings_hold-All :
      (allow : String) (allowed : List String) (bs : List ScopeBinding)
      → bindings_hold site d dc allow allowed bs ≡ ok true
      → All (λ b. binding_holds site d dc allow allowed b ≡ ok true) bs
  unfolding bindings_hold
  bindings_hold-All allow allowed [] h = tt
  bindings_hold-All allow allowed (b ∷ bs) h =
      let (x, y) =
        and_also-yes (binding_holds site d dc allow allowed b)
          (bindings_hold site d dc allow allowed bs) h in
      (x, bindings_hold-All allow allowed bs y)

  scopes_hold-InScope :
      (groups : List (String × List String))
      → scopes_hold site d dc groups ≡ ok true
      → InScope groups
  unfolding scopes_hold
  scopes_hold-InScope [] h = tt
  scopes_hold-InScope ((allow, allowed) ∷ groups) h =
      let (x, y) =
        and_also-yes (bindings_hold site d dc allow allowed (scope_bindings site.fold d allow))
          (scopes_hold site d dc groups) h in
      (
        bindings_hold-All allow allowed (scope_bindings site.fold d allow) x,
        scopes_hold-InScope groups y,
      )

check_doc-InScope :
    (site : Site) (groups : List (String × List String)) (d : DocType) (dc : Doc)
    → check_doc site groups d dc ≡ ok true
    → InScope site d dc groups
unfolding check_doc
check_doc-InScope site groups d (doc f rows) h =
    scopes_hold-InScope site d (doc f rows) groups
      (and_also-yes (scopes_hold site d (doc f rows) groups) (check_rows site groups d rows) h).0

with_rules-InScope :
    (site : Site) (perms : List UserPerm) (d : DocType) (dc : Doc)
    → with_rules perms (check_doc site (applicable_scopes site.fold perms d.name) d dc) ≡ ok true
    → InScope site d dc (applicable_scopes site.fold perms d.name)
unfolding applicable_scopes
with_rules-InScope site [] d dc h = tt
with_rules-InScope site (p ∷ perms) d dc h =
    check_doc-InScope site (applicable_scopes site.fold (p ∷ perms) d.name) d dc h

check-InScope :
    (site : Site) (perms : List UserPerm) (d : DocType) (dc : Doc)
    → check_user_permissions site false (ok perms) d dc ≡ ok true
    → InScope site d dc (applicable_scopes site.fold perms d.name)
unfolding check_user_permissions check_user_permissions_for
check-InScope site perms d dc h =
    with_rules-InScope site perms d dc
      (unless_refused-yes (refused_to_scoped_user (ok perms) d.name)
        (with_rules perms (check_doc site (applicable_scopes site.fold perms d.name) d dc)) h).1

-- a share of the document that lifts the scopes for a right
abbrev pub IsLifting : List DocShare → String → String → DocShare → Type 0
IsLifting shares name ptype s =
    Has s shares × (s.doc_id ≡ name) × (s.override_scope ≡ true) × (grants s ptype ≡ true)

share_on-Has :
    (fold : ℕ → ℕ) (shares : List DocShare) (doctype name : String) (s : DocShare)
    → share_on fold shares doctype name ≡ some s
    → Has s shares × (s.doc_id ≡ name) × (equal_fold fold s.doctype doctype ≡ true)
unfolding share_on
share_on-Has fold shares doctype name s h = elim (Bool-cases (str_eq name "")) [
  | inl t ↦ (let z : ◌≡◌ {A = Option DocShare} none (some s) = rw t at h in absurd (cc z))
  | inr t ↦
      let (m, q) =
        find-Has (λ s. str_eq s.doc_id name && equal_fold fold s.doctype doctype) shares s
          (rw t at h) in
      let (i, e) = &&-true (str_eq s.doc_id name) (equal_fold fold s.doctype doctype) q in
      (m, (eq_iff s.doc_id name).0 i, e)
]

overridden-IsLifting :
    (fold : ℕ → ℕ) (shares : List DocShare) (doctype name ptype : String)
    → scope_overridden fold shares doctype name ptype ≡ true
    → (s : DocShare) × IsLifting shares name ptype s × (equal_fold fold s.doctype doctype ≡ true)
unfolding scope_overridden
overridden-IsLifting fold shares doctype name ptype h =
    elim (Bool-cases (not (shareable ptype) || is_unscoped_only doctype)) [
      | inl t ↦ (let z : false ≡ true = rw t at h in absurd (cc z))
      | inr t ↦ elim (Option-cases (share_on fold shares doctype name)) [
        | inl e ↦ (let z : false ≡ true = rw (t, e) at h in absurd (cc z))
        | inr (s, e) ↦
            let (m, i, k) = share_on-Has fold shares doctype name s e in
            let (o, g) = &&-true s.override_scope (grants s ptype) (rw (t, e) at h) in
            (s, (m, i, o, g), k)
      ]
    ]

if-false : {A : Type 0} (b : Bool) (x y : A) → b ≡ false → (if b then x else y) ≡ y
if-false b x y h = rw h refl

module _ (site : Site) (c : Ctx) (reads : Reads) (perms : List UserPerm)
    (shares : List DocShare) where
  -- the bounds of a document that HasPermission grants a right on
  abbrev pub IsWithin : DocType → String → Doc → Type 0
  IsWithin d ptype dc =
      InScope site d dc (applicable_scopes site.fold perms d.name)
      ⊎ ((s : DocShare) × IsLifting shares (str dc "id") ptype s
          × (equal_fold site.fold s.doctype d.name ≡ true))

  ok-true : (b : Bool) → (◌≡◌ {A = Result Bool} (ok b) (ok true)) → b ≡ true
  ok-true true h = refl
  ok-true false h = absurd (cc h)

  scope_admits-IsWithin :
      (d : DocType) (ptype : String) (dc : Doc)
      → elevated c ≡ false
      → c.perms ≡ ok perms
      → c.shares ≡ ok shares
      → scope_admits site c d ptype (some dc) ≡ ok true
      → IsWithin d ptype dc
  unfolding scope_allows
  scope_admits-IsWithin d ptype dc e p s h =
      elim (or_else-yes (check_user_permissions site false (ok perms) d dc)
        (overridden site.fold (ok shares) d.name (str dc "id") ptype) (rw (e, p, s) at h)) [
          | inl k ↦ inl (check-InScope site perms d dc k)
          | inr k ↦ inr (
              overridden-IsLifting site.fold shares d.name (str dc "id") ptype
                (ok-true (scope_overridden site.fold shares d.name (str dc "id") ptype) k))
        ]

  -- If a user who is neither Admin nor elevated has a right on a document of a DocType that is not
  -- a child, then either every field of it that one of his applicable rules bounds holds a value
  -- that the rules allow, or a share of this document that overrides scopes grants him this right.
  pub has_permission-IsWithin :
      (d : DocType) (doctype ptype : String) (dc : Doc)
      → elevated c ≡ false
      → c.perms ≡ ok perms
      → c.shares ≡ ok shares
      → site.doctype doctype ≡ ok d
      → d.is_child ≡ false
      → has_permission site c reads doctype ptype (some dc) ≡ ok true
      → IsWithin d ptype dc
  unfolding has_permission own_permission
  has_permission-IsWithin d doctype ptype dc e p s k n h =
      let asked =
        unless_refused-yes (refused_to_scoped_user c.perms doctype)
          (on_known site c reads (site.doctype doctype) ptype (some dc)) (rw e at h) in
      let own : own_permission site c d ptype (some dc) ≡ ok true =
        sym (
          if-false d.is_child (child_permission site c reads d ptype (some dc))
            (own_permission site c d ptype (some dc)) n)
        ∙ (rw k at asked.1) in
      let (g, r1) =
        and_also-yes (granted_by site.fold c d ptype (some dc))
          (and_also (ok (workflow_allows c d.name ptype (some dc))) (
            and_also (controller_allows c d ptype (some dc))
              (scope_admits site c d ptype (some dc))))
          own in
      let (w, r2) =
        and_also-yes (ok (workflow_allows c d.name ptype (some dc)))
          (and_also (controller_allows c d ptype (some dc)) (scope_admits site c d ptype (some dc)))
          r1 in
      let (ca, sc) =
        and_also-yes (controller_allows c d ptype (some dc)) (scope_admits site c d ptype (some dc))
          r2 in
      scope_admits-IsWithin d ptype dc e p s sc
