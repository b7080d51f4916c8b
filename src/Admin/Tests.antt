-- ===== src/Admin/Tests.antt =====
-- Tests and concrete uses: the policy tables.
use at_nova_platform.Prelude.{
  String, ◌≡◌, refl, inl, inr, true, false, List, [], ◌∷◌, none, some, arith, all, has, ◌++◌,
}
use at_nova_platform.Rbac.{PermissionView, public, permission}
use at_nova_platform.Admin.Tables.{RbacDb, no_details, permissions_set, route_bound}
use at_nova_platform.Admin.{
  RbacActor, mutate, permission_names, critical_permissions, create_role, set_role_permissions,
  require_role, require_permissions_exist, insert_pairs, assert_critical_permissions_covered, ok,
  err, orphaned_permissions,
}
use at_nova_platform.Admin.Bindings.{
  role_create, grants_set, work, UpdateRoutePolicyBody, update_route_policy,
}
use at_nova_platform.Admin.Integrity.{IsConsistent, Refers, role_names}
use at_nova_platform.Admin.Guard.{IsSound, mutate-IsSound}

abbrev entry : String → PermissionView
entry name = record { name = name; description = none; is_system = true }

abbrev pub small_db : RbacDb
small_db = record {
  roles =
      record { name = "admin"; description = none; is_system = true; keycloak_role_id = none } ∷ [];
  permissions =
      entry "read-permissions"
      ∷ entry "write-permissions"
      ∷ entry "read-users"
      ∷ entry "write-users"
      ∷ [];
  role_permissions =
      ("admin", "read-permissions")
      ∷ ("admin", "write-permissions")
      ∷ ("admin", "read-users")
      ∷ ("admin", "write-users")
      ∷ [];
  capabilities = [];
  capability_permissions = [];
  route_policies = [];
  view_permissions = [];
  user_roles = [];
  audit_log = [];
  revision = 1;
}

abbrev pub root : RbacActor
root = record { subject = "sub-1"; user_id = none }

-- The references of a list of rows, looked up one by one.
Refers-checked :
    {A : Type 0} (f : A → String) (xs : List A) (names : List String)
    → all (λ a. has (f a) names) xs ≡ true
    → Refers f xs names
Refers-checked f [] names e a at = absurd at
Refers-checked f (x ∷ xs) names e a (inl same) = rw same (ground arith)
Refers-checked f (x ∷ xs) names e a (inr at) = Refers-checked f xs names (ground arith) a at

pub small_db-IsConsistent : IsConsistent small_db
small_db-IsConsistent = record {
  role_of_grant =
      Refers-checked (λ (row : String × String). row.0) small_db.role_permissions
        (role_names small_db) refl;
  permission_of_grant =
      Refers-checked (λ (row : String × String). row.1) small_db.role_permissions
        (permission_names small_db) refl;
  capability_of_requirement = λ row at. absurd at;
  permission_of_requirement = λ row at. absurd at;
  permission_of_route = λ row at. absurd at;
  permission_of_view = λ row at. absurd at;
  role_of_user = λ row at. absurd at;
}

abbrev pub with_auditor : RbacDb
with_auditor = record small_db {
  roles =
      small_db.roles
      ++ record { name = "auditor"; description = none; is_system = false; keycloak_role_id = none }
        ∷ [];
  audit_log =
      record {
        actor_subject = "sub-1";
        actor_user_id = none;
        action = "role.create";
        target_type = "role";
        target_id = "auditor";
        details = no_details;
      }
      ∷ [];
  revision = 2;
}

pub adds_role : mutate root (work (role_create "auditor" none)) small_db ≡ ok with_auditor
unfolding mutate work create_role assert_critical_permissions_covered critical_permissions
adds_role = refl

abbrev pub with_grant : RbacDb
with_grant = record with_auditor {
  role_permissions = small_db.role_permissions ++ ("auditor", "read-users") ∷ [];
  audit_log =
      with_auditor.audit_log
      ++ record {
        actor_subject = "sub-1";
        actor_user_id = none;
        action = "role-permission.set";
        target_type = "role";
        target_id = "auditor";
        details = permissions_set ("read-users" ∷ []);
      }
        ∷ [];
  revision = 3;
}

pub sets_grant :
    mutate root (set_role_permissions "auditor" ("read-users" ∷ [])) with_auditor ≡ ok with_grant
unfolding mutate set_role_permissions require_role require_permissions_exist insert_pairs
    assert_critical_permissions_covered critical_permissions
sets_grant = refl

pub granted_by_op :
    mutate root (work (grants_set "auditor" ("read-users" ∷ []))) with_auditor ≡ ok with_grant
unfolding work
granted_by_op = sets_grant

abbrev pub with_route : RbacDb
with_route = record with_auditor {
  route_policies =
      record { route_id = "users.list"; kind = public; permission_name = none; audit = true } ∷ [];
}

abbrev pub closing : UpdateRoutePolicyBody
closing = record { kind = permission; permission_name = some "read-users"; audit = none }

abbrev pub with_closed_route : RbacDb
with_closed_route = record with_route {
  route_policies =
      record {
        route_id = "users.list";
        kind = permission;
        permission_name = some "read-users";
        audit = true;
      }
      ∷ [];
  audit_log =
      with_route.audit_log
      ++ record {
        actor_subject = "sub-1";
        actor_user_id = none;
        action = "route-policy.update";
        target_type = "route";
        target_id = "users.list";
        details = route_bound permission (some "read-users");
      }
        ∷ [];
  revision = 3;
}

pub closes_route :
    mutate root (update_route_policy "users.list" closing) with_route ≡ ok with_closed_route
unfolding mutate update_route_policy require_permissions_exist assert_critical_permissions_covered
    critical_permissions
closes_route = refl

-- A change that takes the last grant of a critical permission is refused.
keeps_last_grant :
    mutate root
      (work (grants_set "admin" ("read-permissions" ∷ "write-permissions" ∷ "read-users" ∷ [])))
      small_db
    ≡ err (orphaned_permissions ("write-users" ∷ []))
unfolding mutate work set_role_permissions require_role require_permissions_exist insert_pairs
    assert_critical_permissions_covered critical_permissions
keeps_last_grant = refl

mutate-IsSound_example : IsSound root small_db with_auditor
mutate-IsSound_example =
    mutate-IsSound root (role_create "auditor" none) small_db with_auditor small_db-IsConsistent
      adds_role
