-- ===== src/Admin/Grants.antt =====
-- The rows of the table of grants after `setRolePermissions` of rbac-admin.service.ts.
use at_nova_platform.Prelude.{
  String, ◌==◌, ◌≡◌, refl, ap, ◌∙◌, not, ◌&&◌, ◌||◌, List, [], ◌∷◌, ◌++◌, filter, has, arith,
  eq_iff, if◌then◌else◌,
}
use at_nova_platform.Admin.Tables.{Pairs, has_pair, RbacDb}
use at_nova_platform.Admin.{
  RbacActor, AuditEntry, ok, insert_pairs, set_role_permissions, mutate, require_role,
  require_permissions_exist, assert_critical_permissions_covered,
}
use at_nova_platform.Admin.Integrity.{Ensures, Ensures->>=}

has_pair-append :
    (a b : String) (xs ys : Pairs) → has_pair a b (xs ++ ys) ≡ (has_pair a b xs || has_pair a b ys)
has_pair-append a b [] ys = refl
has_pair-append a b (x ∷ xs) ys = ground (arith, has_pair-append a b xs ys)

-- The rows after an insertion that went through: the old ones and one for each name.
insert_pairs-has_pair :
    (key k p : String) (names : List String) (rows out : Pairs)
    → insert_pairs key names rows ≡ ok out
    → has_pair k p out ≡ (has_pair k p rows || k == key && has p names)
unfolding insert_pairs
insert_pairs-has_pair key k p [] rows out went =
    let same : rows ≡ out = cc in ground (arith, ap (λ r. has_pair k p r) same)
insert_pairs-has_pair key k p (q ∷ qs) rows out went =
    insert_pairs-has_pair key k p qs (rows ++ (key, q) ∷ []) out (ground arith)
    ∙ ground (arith, has_pair-append k p rows ((key, q) ∷ []))

-- Without the rows of a key.
has_pair-without :
    (key k p : String) (rows : Pairs)
    → has_pair k p (filter (λ (row : String × String). not (key == row.0)) rows)
      ≡ (not (k == key) && has_pair k p rows)
has_pair-without key k p [] = ground arith
has_pair-without key k p (row ∷ rows) =
    ground (arith, eq_iff key row.0, eq_iff k row.0, eq_iff k key, has_pair-without key k p rows)

-- What the table says after the grants of a role were set.
abbrev pub AreGranted : String → List String → RbacDb → RbacDb → Type 0
AreGranted role names before after =
    (k p : String)
    → has_pair k p after.role_permissions
      ≡ (if k == role then has p names else has_pair k p before.role_permissions)

module _ (role : String) (names : List String) (db : RbacDb) where
  set_role_permissions-AreGranted :
      Ensures
        (λ (out : RbacDb × AuditEntry). AreGranted role names db out.0)
        (set_role_permissions role names db)
  unfolding set_role_permissions
  set_role_permissions-AreGranted =
      let P = λ (out : RbacDb × AuditEntry). AreGranted role names db out.0 in
      Ensures->>= P (require_role db role) _ λ _ _.
        Ensures->>= P (require_permissions_exist db names) _ λ _ _.
          Ensures->>= P
            (insert_pairs role names
              (filter (λ (row : String × String). not (role == row.0)) db.role_permissions))
            _
            λ rows went k p.
              insert_pairs-has_pair role k p names
                (filter (λ (row : String × String). not (role == row.0)) db.role_permissions) rows
                went
              ∙ ground (arith, has_pair-without role k p db.role_permissions)

  pub mutate-AreGranted :
      (actor : RbacActor) (after : RbacDb)
      → mutate actor (set_role_permissions role names) db ≡ ok after
      → AreGranted role names db after
  unfolding mutate
  mutate-AreGranted actor after went =
      let done = set_role_permissions-AreGranted in
      let P = λ (out : RbacDb). AreGranted role names db out in
      let sound : Ensures P (mutate actor (set_role_permissions role names) db) =
        Ensures->>= P (set_role_permissions role names db) _ λ (out : RbacDb × AuditEntry) e.
          let kept : AreGranted role names db out.0 = rw e at done in
          Ensures->>= P (assert_critical_permissions_covered out.0) _ λ _ _. kept in
      rw went at sound
