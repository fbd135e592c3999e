-- ===== src/Perm/Filters/Refines.antt =====
-- What a list of documents holds, permissionFilters, beside what a document on its own is read by,
-- HasPermission, of internal/engine/perm.go.
use ddcore.Common.{
  find, ap₂, ◌≡◌, sym, ap, ◌∙◌, ◌⊎◌, String, Bool, true, false, not, ◌&&◌, ◌||◌, none, some, List,
  if◌then◌else◌, str_eq, All,
}
use ddcore.Cerr.{ok}
use ddcore.Perm.{
  shared_names, shareable, scope_overridden, share_on, role_grant, DocType, DocShare,
  is_unscoped_only,
}
use ddcore.Perm.Filters.Children.{permission_filters}
use ddcore.Perm.Filters.Children.{child_list_filters}
use ddcore.Perm.Access.{on_known, child_permission, workflow_allows}
use ddcore.Perm.Scopes.{unless_refused}
use ddcore.Perm.Scopes.{
  scope_allows, Doc, UserPerm, Site, refused_to_scoped_user, check_user_permissions,
}
use ddcore.Perm.Access.{
  workflow_allows, shared, own_permission, granted_by, has_permission, controller_allows, Reads,
  owned, Ctx, elevated,
}
use ddcore.Perm.Filters.{
  page_filters, role_filters, by_portal, own_filters, permission_query_filters, Hooks, str,
  grant_filters, Tables, Filters, all, rows_of, filters_pass, strict_scope_filters,
}
use ddcore.Perm.Filters.Scoped.{Walks, Settled}
use ddcore.Perm.Filters.Tabled.{AreNamed, AreTables, AreSettled}
use ddcore.Perm.Filters.Shared.{contains-shared_names, is_on, IsOnly, reads_scoped, reads_lifted}
use ddcore.Perm.Filters.Reading.{
  role_filters-ok, all_allow, share_read, either, lift_read, read_test-list_test,
}
use ddcore.Perm.Filters.Strict.{Strict-filters}
use ddcore.Perm.Filters.Opened.{mine, grant_filters-test}

module _ (site : Site) (tables : Tables) (w : Walks site tables) (child_of : String → DocType)
    (d : DocType) (dc : Doc) where
  shared_read :
      (shares : List DocShare)
      → str_eq (str dc "id") "" ≡ false
      → shared site.fold (ok shares) d "read" (some dc)
        ≡ ok (
            reads_scoped (find (is_on site.fold d.name (str dc "id")) shares)
            || reads_lifted (find (is_on site.fold d.name (str dc "id")) shares))
  unfolding share_on
  shared_read shares na =
      rw (shared, na) (share_read (find (is_on site.fold d.name (str dc "id")) shares))

  granted_read :
      (c : Ctx) (roles : List String) (shares : List DocShare)
      → c.portal ≡ none
      → c.roles ≡ ok roles
      → c.shares ≡ ok shares
      → str_eq (str dc "id") "" ≡ false
      → granted_by site.fold c d "read" (some dc)
        ≡ ok (
            ((role_grant site.fold d roles "read").0
              && mine tables dc c (role_grant site.fold d roles "read").1)
            || reads_scoped (find (is_on site.fold d.name (str dc "id")) shares)
            || reads_lifted (find (is_on site.fold d.name (str dc "id")) shares))
  unfolding granted_by share_on shareable
  granted_read c roles shares po ro sh na =
      rw (po, ro, sh, shared_read shares na)
        (either (role_grant site.fold d roles "read").0
          (not (role_grant site.fold d roles "read").1 || owned c (some dc))
          (reads_scoped (find (is_on site.fold d.name (str dc "id")) shares))
          (reads_lifted (find (is_on site.fold d.name (str dc "id")) shares)))

  scoped_read :
      (c : Ctx) (shares : List DocShare) (strict : Bool)
      → elevated c ≡ false
      → c.shares ≡ ok shares
      → str_eq (str dc "id") "" ≡ false
      → check_user_permissions site false c.perms d dc ≡ ok strict
      → scope_allows site (elevated c) c.perms c.shares d dc "read"
        ≡ ok (
            strict
            || (not (is_unscoped_only d.name)
                && reads_lifted (find (is_on site.fold d.name (str dc "id")) shares)))
  unfolding scope_allows scope_overridden share_on shareable
  scoped_read c shares strict el sh na k =
      rw (el, sh, k, na)
        (lift_read strict (is_unscoped_only d.name)
          (find (is_on site.fold d.name (str dc "id")) shares))

  own_permission-test :
      (c : Ctx) (roles : List String) (shares : List DocShare) (query strict : Filters)
      → elevated c ≡ false
      → c.portal ≡ none
      → c.roles ≡ ok roles
      → c.shares ≡ ok shares
      → str_eq (str dc "id") "" ≡ false
      → IsOnly site.fold d.name (str dc "id") shares
      → check_user_permissions site false c.perms d dc ≡ ok (filters_pass tables strict dc)
      → (is_unscoped_only d.name ≡ false) ⊎ (filters_pass tables strict dc ≡ true)
      → controller_allows c d "read" (some dc) ≡ ok (filters_pass tables query dc)
      → own_permission site c d "read" (some dc)
        ≡ ok (
            filters_pass tables
              (grant_filters c
                (role_grant site.fold d roles "read")
                query
                strict
                (shared_names site.fold shares d.name))
              dc)
  unfolding own_permission workflow_allows
  own_permission-test c roles shares query strict el po ro sh na on k z co =
      let g = role_grant site.fold d roles "read" in
      let names = shared_names site.fold shares d.name in
      let o = find (is_on site.fold d.name (str dc "id")) shares in
      let both = contains-shared_names site.fold d.name (str dc "id") shares on in
      let q = filters_pass tables query dc in
      let s = filters_pass tables strict dc in
      all_allow (((g.0 && mine tables dc c g.1) || reads_scoped o) || reads_lifted o) q
        (s || (not (is_unscoped_only d.name) && reads_lifted o))
        (granted_read c roles shares po ro sh na) co (scoped_read c shares s el sh na k)
      ∙ ap ok (
          read_test-list_test g.0 (mine tables dc c g.1) q o (is_unscoped_only d.name) s z
          ∙ ap₂
              (λ x y. (g.0 && (mine tables dc c g.1 && (q && s))) || ((x && (q && s)) || (y && q)))
              (sym both.0) (sym both.1)
          ∙ sym (grant_filters-test tables dc c g.0 g.1 query strict names.0 names.1))

  -- A document that is not a child row is in the list of its DocType, as permissionFilters bounds
  -- it, just where HasPermission lets the user read it. The user is neither Admin nor in portal
  -- mode, every query of the two answers, no rule of his allows an empty value, and a DocType that
  -- only users without rules see is left out. The Table fields hold known DocTypes, the fields have
  -- different names, and the document and its rows are stored: with ids, with the DocTypes that
  -- they name spelled as declared, under the parents that the hierarchy has, and with at most one
  -- share of the user's on the document. The controller's two answers agree on it.
  pub has_permission-permission_filters :
      (c : Ctx) (reads : Reads) (hooks : Hooks) (doctypes : List DocType) (refused : DocType → Bool)
      (roles : List String) (shares : List DocShare) (perms : List UserPerm) (query : Filters)
      → elevated c ≡ false
      → d.is_child ≡ false
      → c.portal ≡ none
      → c.roles ≡ ok roles
      → c.shares ≡ ok shares
      → c.perms ≡ ok perms
      → site.doctype d.name ≡ ok d
      → refused_to_scoped_user c.perms d.name ≡ ok false
      → All (λ p. str_eq p.for_value "" ≡ false) perms
      → AreTables site child_of d.fields
      → AreNamed d.fields
      → Settled site tables d dc
      → AreSettled site tables child_of d.fields (rows_of dc)
      → IsOnly site.fold d.name (str dc "id") shares
      → permission_query_filters c hooks d ≡ ok query
      → controller_allows c d "read" (some dc) ≡ ok (filters_pass tables query dc)
      → (fs : Filters) × (permission_filters site c reads hooks doctypes refused d ≡ ok fs)
        × (has_permission site c reads d.name "read" (some dc) ≡ ok (filters_pass tables fs dc))
  unfolding has_permission permission_filters own_filters
  has_permission-permission_filters c reads hooks doctypes refused roles shares perms query el ch po
        ro sh pe kn re va ta na se ar on qu co =
      let (strict, f, k, z) =
        Strict-filters site tables w child_of d dc c perms el ch pe re va ta na se ar in
      let own = own_permission site c d "read" (some dc) in
      let known = on_known site c reads (site.doctype d.name) "read" (some dc) in
      (
        grant_filters c (role_grant site.fold d roles "read") query strict
            (shared_names site.fold shares d.name),
        ap
              (λ x.
                if x
                then ok all
                else if d.is_child
                then child_list_filters site c reads hooks doctypes refused d
                else own_filters site c hooks d)
              el
            ∙ ap
                (λ x.
                  if x
                  then child_list_filters site c reads hooks doctypes refused d
                  else own_filters site c hooks d)
                ch
            ∙ ap
                (λ x.
                  by_portal x
                    (page_filters (hooks.portal d) (permission_query_filters c hooks d)
                      (strict_scope_filters site c d d.name))
                    (role_filters site.fold c d c.roles (permission_query_filters c hooks d)
                      (strict_scope_filters site c d d.name) c.shares))
                po
            ∙ role_filters-ok site.fold c d roles query strict shares ro qu f sh,
        ap
              (λ x.
                if x then ok true else unless_refused (refused_to_scoped_user c.perms d.name) known)
              el
            ∙ ap (λ x. unless_refused x known) re
            ∙ ap (λ x. on_known site c reads x "read" (some dc)) kn
            ∙ ap (λ x. if x then child_permission site c reads d "read" (some dc) else own) ch
            ∙ own_permission-test c roles shares query strict el po ro sh se.named on k z co,
      )
