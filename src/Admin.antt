-- ===== src/Admin.antt =====
-- backend-services/api/src/modules/admin/rbac-admin.service.ts: the audited changes of the policy,
-- over the tables of the migration packages/database/src/migrations/1717800000000-DynamicRbac.ts.
pub mod Tables
pub mod Bindings
pub mod Integrity
pub mod Preserve
pub mod Guard
pub mod Grants
pub mod Tests
use at_nova_platform.Prelude.{
  ℕ, suc, String, ◌==◌, Bool, true, false, not, ◌&&◌, ◌||◌, List, [], ◌∷◌, ◌++◌, map, Option, none,
  some, filter, any, find, has, is_nil, is_some, get_or, if◌then◌else◌,
}
use at_nova_platform.Rbac.{
  RoleView, PermissionView, Risk, RoutePolicyKind, public, authenticated, permission,
  RoutePolicyView, ViewMode, is_read,
}
use at_nova_platform.Admin.Tables.{
  CapabilityRow, ViewPermissionRow, Details, no_details, description_set, permissions_set, RbacDb,
  Pairs, has_pair, same_mode,
}

-- What the service throws. `constraint` is a statement that the database refuses.
pub data AdminError : Type 0 where
  role_exists role_missing role_built_in role_assigned : AdminError
  permission_exists permission_missing permission_built_in permission_bound : AdminError
  capability_exists capability_missing capability_built_in : AdminError
  route_missing : AdminError
  unknown_permissions orphaned_permissions : List String → AdminError
  constraint : AdminError

pub data Result (A : Type 0) : Type 0 where
  ok : A → Result A
  err : AdminError → Result A

infixl 5 ◌>>=◌ ◌>>◌
abbrev pub ◌>>=◌ : {A B : Type 0} → Result A → (A → Result B) → Result B
ok a >>= k = k a
err e >>= k = err e

abbrev pub ◌>>◌ : {B : Type 0} → Result (Unit {0}) → Result B → Result B
m >> k = m >>= λ _. k

-- `if (test) throw …`
abbrev pub throw_if : Bool → AdminError → Result (Unit {0})
throw_if true e = err e
throw_if false e = ok tt

abbrev pub or_throw : {A : Type 0} → Option A → AdminError → Result A
or_throw none e = err e
or_throw (some a) e = ok a

unfoldable pub critical_permissions : List String
critical_permissions = "read-permissions" ∷ "write-permissions" ∷ "read-users" ∷ "write-users" ∷ []

pub record RbacActor : Type 0 where
  pub subject : String
  pub user_id : Option String

pub record AuditEntry : Type 0 where
  pub action : String
  pub target_type : String
  pub target_id : String
  pub details : Details

-- The lookups of `findOneBy`.
abbrev pub find_role : String → RbacDb → Option RoleView
find_role name db = find (λ (r : RoleView). name == r.name) db.roles

abbrev pub find_permission : String → RbacDb → Option PermissionView
find_permission name db = find (λ (p : PermissionView). name == p.name) db.permissions

abbrev pub find_capability : String → RbacDb → Option CapabilityRow
find_capability id db = find (λ (c : CapabilityRow). id == c.id) db.capabilities

abbrev pub find_route : String → RbacDb → Option RoutePolicyView
find_route id db = find (λ (p : RoutePolicyView). id == p.route_id) db.route_policies

pub require_role : RbacDb → String → Result RoleView
require_role db name = or_throw (find_role name db) role_missing

pub require_permission : RbacDb → String → Result PermissionView
require_permission db name = or_throw (find_permission name db) permission_missing

abbrev pub permission_names : RbacDb → List String
permission_names db = map (λ (p : PermissionView). p.name) db.permissions

pub require_permissions_exist : RbacDb → List String → Result (Unit {0})
require_permissions_exist db names =
    let missing = filter (λ name. not (has name (permission_names db))) names in
    throw_if (not (is_nil missing)) (unknown_permissions missing)

-- One grant is enough: `permission_name IN (…) GROUP BY permission_name`.
abbrev pub covered : RbacDb → String → Bool
covered db p = has p (map (λ (row : String × String). row.1) db.role_permissions)

pub assert_critical_permissions_covered : RbacDb → Result (Unit {0})
assert_critical_permissions_covered db =
    let orphaned = filter (λ p. not (covered db p)) critical_permissions in
    throw_if (not (is_nil orphaned)) (orphaned_permissions orphaned)

-- The transaction of `mutate`: any error leaves the database as it was.
pub mutate : RbacActor → (RbacDb → Result (RbacDb × AuditEntry)) → RbacDb → Result RbacDb
mutate actor work db = do
  done ← work db
  assert_critical_permissions_covered done.0
  ok (record done.0 {
    audit_log =
        done.0.audit_log
        ++ record {
          actor_subject = actor.subject;
          actor_user_id = actor.user_id;
          action = done.1.action;
          target_type = done.1.target_type;
          target_id = done.1.target_id;
          details = done.1.details;
        }
          ∷ [];
    revision = suc done.0.revision;
  })

-- `INSERT` of one row for each name; the primary key is the pair.
pub insert_pairs : String → List String → Pairs → Result Pairs
insert_pairs key [] rows = ok rows
insert_pairs key (p ∷ ps) rows =
    let rest = insert_pairs key ps (rows ++ (key, p) ∷ []) in
    if has_pair key p rows then err constraint else rest

abbrev pub done : RbacDb → String → String → String → Details → Result (RbacDb × AuditEntry)
done db action target_type target_id details = ok (
  db,
  record { action = action; target_type = target_type; target_id = target_id; details = details },
)

pub create_role : String → Option String → RbacDb → Result (RbacDb × AuditEntry)
create_role name description db = do
  throw_if (is_some (find_role name db)) role_exists
  done
      (record db {
        roles =
            db.roles
            ++ record {
              name = name;
              description = description;
              is_system = false;
              keycloak_role_id = none;
            }
              ∷ [];
      })
      "role.create" "role" name no_details

pub update_role : String → Option String → RbacDb → Result (RbacDb × AuditEntry)
update_role name description db = do
  _ ← require_role db name
  done
      (record db {
        roles =
            map
              (λ (r : RoleView).
                if name == r.name then record r { description = description } else r)
              db.roles;
      })
      "role.update" "role" name (description_set description)

-- The foreign keys cascade to the role's grants.
pub delete_role : String → RbacDb → Result (RbacDb × AuditEntry)
delete_role name db = do
  role ← require_role db name
  throw_if role.is_system role_built_in
  throw_if (has name (map (λ (row : String × String). row.1) db.user_roles)) role_assigned
  done
      (record db {
        roles = filter (λ (r : RoleView). not (name == r.name)) db.roles;
        role_permissions =
            filter (λ (row : String × String). not (name == row.0)) db.role_permissions;
      })
      "role.delete" "role" name no_details

pub create_permission : String → Option String → RbacDb → Result (RbacDb × AuditEntry)
create_permission name description db = do
  throw_if (is_some (find_permission name db)) permission_exists
  done
      (record db {
        permissions =
            db.permissions
            ++ record { name = name; description = description; is_system = false } ∷ [];
      })
      "permission.create" "permission" name no_details

pub update_permission : String → Option String → RbacDb → Result (RbacDb × AuditEntry)
update_permission name description db = do
  _ ← require_permission db name
  done
      (record db {
        permissions =
            map
              (λ (p : PermissionView).
                if name == p.name then record p { description = description } else p)
              db.permissions;
      })
      "permission.update" "permission" name no_details

abbrev pub requires : String → Option String → Bool
requires name none = false
requires name (some p) = name == p

-- The foreign keys cascade to the grants and to the capabilities' requirements.
pub delete_permission : String → RbacDb → Result (RbacDb × AuditEntry)
delete_permission name db = do
  p ← require_permission db name
  throw_if p.is_system permission_built_in
  throw_if
      (any (λ (r : RoutePolicyView). requires name r.permission_name) db.route_policies
        || any (λ (v : ViewPermissionRow). name == v.permission_name) db.view_permissions)
      permission_bound
  done
      (record db {
        permissions = filter (λ (q : PermissionView). not (name == q.name)) db.permissions;
        role_permissions =
            filter (λ (row : String × String). not (name == row.1)) db.role_permissions;
        capability_permissions =
            filter (λ (row : String × String). not (name == row.1)) db.capability_permissions;
      })
      "permission.delete" "permission" name no_details

pub set_role_permissions : String → List String → RbacDb → Result (RbacDb × AuditEntry)
set_role_permissions role_name names db = do
  _ ← require_role db role_name
  require_permissions_exist db names
  rows ←
      insert_pairs role_name names
        (filter (λ (row : String × String). not (role_name == row.0)) db.role_permissions)
  done (record db { role_permissions = rows }) "role-permission.set" "role" role_name
      (permissions_set names)

-- After `createRole`: the id that Keycloak gives the new role is written outside the transaction, with
-- no audit row and no new revision; an empty id is none.
abbrev pub set_keycloak_role_id : String → Option String → RbacDb → RbacDb
set_keycloak_role_id name none db = db
set_keycloak_role_id name (some id) db = if id == "" then db else record db {
  roles =
      map (λ (r : RoleView). if name == r.name then record r { keycloak_role_id = some id } else r)
        db.roles;
}
