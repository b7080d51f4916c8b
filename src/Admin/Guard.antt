-- ===== src/Admin/Guard.antt =====
-- What a change leaves behind: `mutate` of rbac-admin.service.ts.
use at_nova_platform.Prelude.{
  suc, String, ◌==◌, ◌≡◌, refl, ap, inl, inr, Bool, true, false, not, List, [], ◌∷◌, ◌++◌, map,
  arith, eq_iff, filter, has, is_nil, In, Bool-cases,
}
use at_nova_platform.Admin.Tables.{AuditRow, RbacDb, Pairs}
use at_nova_platform.Admin.{
  ok, RbacActor, AuditEntry, critical_permissions, covered, assert_critical_permissions_covered,
  mutate,
}
use at_nova_platform.Admin.Bindings.{Op, work}
use at_nova_platform.Admin.Integrity.{Ensures, Ensures->>=, role_names, IsConsistent}
use at_nova_platform.Admin.Bindings.Preserve.{work-Keeps}
use at_nova_platform.Admin.Bindings.Frame.{Untouched, work-Untouched}

-- Some existing role grants the permission.
pub HasHolder : RbacDb → String → Type 0
HasHolder db p =
    (role : String) × In (role, p) db.role_permissions × (has role (role_names db) ≡ true)

all_covered :
    (test : String → Bool) (ns : List String)
    → is_nil (filter (λ n. not (test n)) ns) ≡ true
    → (n : String) → In n ns
    → test n ≡ true
all_covered test [] h n at = absurd at
all_covered test (m ∷ ns) h n at = elim (Bool-cases (test m)) [
  | inl passes ↦ elim at [
    | inl same ↦ rw same passes
    | inr later ↦ all_covered test ns (rw passes at h) n later
  ]
  | inr fails ↦ let never : false ≡ true = rw fails at h in cc
]

granted :
    (p : String) (rows : Pairs)
    → has p (map (λ (row : String × String). row.1) rows) ≡ true
    → (role : String) × In (role, p) rows
granted p [] h = cc
granted p (row ∷ rows) h = elim (Bool-cases (p == row.1)) [
  | inl same ↦ (row.0, inl (ap (λ q. (row.0, q)) ((eq_iff p row.1).0 same)))
  | inr other ↦ let (role, at) = granted p rows (ground arith) in (role, inr at)
]

-- What a change that went through leaves behind.
pub record IsSound (actor : RbacActor) (before after : RbacDb) : Type 0 where
  pub consistent : IsConsistent after
  pub guarded : (p : String) → In p critical_permissions → HasHolder after p
  pub counted : after.revision ≡ suc before.revision
  pub assignments : after.user_roles ≡ before.user_roles
  pub audited :
      (row : AuditRow) × (after.audit_log ≡ before.audit_log ++ row ∷ [])
      × (row.actor_subject ≡ actor.subject)
      × (row.actor_user_id ≡ actor.user_id)

module _ (actor : RbacActor) (before : RbacDb) (consistent : IsConsistent before) where
  -- After the check every critical permission has a grant, and so an existing role.
  all_guarded :
      (db : RbacDb)
      → IsConsistent db
      → assert_critical_permissions_covered db ≡ ok tt
      → (p : String) → In p critical_permissions
      → HasHolder db p
  unfolding assert_critical_permissions_covered HasHolder
  all_guarded db c e p at =
      let (role, grant) =
        granted p db.role_permissions
          (all_covered (covered db) critical_permissions (ground arith) p at) in
      (role, grant, c.role_of_grant (role, p) grant)

  IsSound-mutation : (op : Op) → Ensures (IsSound actor before) (mutate actor (work op) before)
  unfolding mutate HasHolder
  IsSound-mutation op =
      let kept = work-Keeps before consistent op in
      let untouched = work-Untouched before op in
      Ensures->>= (IsSound actor before) (work op before) _ λ (out : RbacDb × AuditEntry) e.
        let c : IsConsistent out.0 = rw e at kept in
        let same : Untouched before out.0 = rw e at untouched in
        Ensures->>= (IsSound actor before) (assert_critical_permissions_covered out.0) _
          λ _ checked. record {
            consistent = record {
              role_of_grant = c.role_of_grant;
              permission_of_grant = c.permission_of_grant;
              capability_of_requirement = c.capability_of_requirement;
              permission_of_requirement = c.permission_of_requirement;
              permission_of_route = c.permission_of_route;
              permission_of_view = c.permission_of_view;
              role_of_user = c.role_of_user;
            };
            guarded = all_guarded out.0 c checked;
            counted = ap suc same.1;
            assignments = same.2;
            audited = (
              record {
                actor_subject = actor.subject;
                actor_user_id = actor.user_id;
                action = out.1.action;
                target_type = out.1.target_type;
                target_id = out.1.target_id;
                details = out.1.details;
              },
              rw same.0 refl,
              refl,
              refl,
            );
          }

-- From tables whose references are all good, every operation of the service that goes through
-- leaves such tables, a role that exists behind every critical permission, a revision one
-- higher, the roles of the users as they were, and one more audit row, at the end, which names
-- the actor.
pub mutate-IsSound :
    (actor : RbacActor) (op : Op) (before after : RbacDb)
    → IsConsistent before
    → mutate actor (work op) before ≡ ok after
    → IsSound actor before after
mutate-IsSound actor op before after consistent went =
    let sound = IsSound-mutation actor before consistent op in rw went at sound
