-- ===== src/Admin/Bindings.antt =====
-- The capability, route and view operations of rbac-admin.service.ts, and the choice among all.
pub mod Preserve
pub mod Routes
pub mod Frame
use Prim.Native.String
use at_nova_platform.Prelude.{
  String, ◌==◌, Bool, true, false, not, ◌&&◌, List, [], ◌∷◌, ◌++◌, map, Option, none, some, filter,
  any, has, is_nil, is_some, get_or, if◌then◌else◌,
}
use at_nova_platform.Rbac.{
  Risk, RoutePolicyKind, public, authenticated, permission, RoutePolicyView, ViewMode, read, write,
}
use at_nova_platform.Admin.Tables.{
  CapabilityRow, ViewPermissionRow, no_details, route_bound, view_bound, RbacDb, same_mode,
}
use at_nova_platform.Admin.{
  AdminError, constraint, capability_exists, capability_missing, capability_built_in, route_missing,
  Result, ok, err, ◌>>=◌, ◌>>◌, throw_if, or_throw, AuditEntry, find_capability, find_route,
  permission_names, require_permissions_exist, insert_pairs, done, create_role, update_role,
  delete_role, create_permission, update_permission, delete_permission, set_role_permissions,
}

pub record CreateCapabilityBody : Type 0 where
  pub id : String
  pub kind : String
  pub mode : String
  pub risk : Risk
  pub resource_scoped : Bool
  pub delegated : Bool
  pub requires_approval : Bool
  pub required_permissions : List String
  pub description : Option String

-- A field left out of the body is `none`; a description may be given as null.
pub record UpdateCapabilityBody : Type 0 where
  pub enabled : Option Bool
  pub risk : Option Risk
  pub requires_approval : Option Bool
  pub required_permissions : Option (List String)
  pub description : Option (Option String)

pub record UpdateRoutePolicyBody : Type 0 where
  pub kind : RoutePolicyKind
  pub permission_name : Option String
  pub audit : Option Bool

pub create_capability : CreateCapabilityBody → RbacDb → Result (RbacDb × AuditEntry)
create_capability body db = do
  throw_if (is_some (find_capability body.id db)) capability_exists
  require_permissions_exist db body.required_permissions
  rows ← insert_pairs body.id body.required_permissions db.capability_permissions
  done
      (record db {
        capabilities =
            db.capabilities
            ++ record {
              id = body.id;
              kind = body.kind;
              mode = body.mode;
              risk = body.risk;
              resource_scoped = body.resource_scoped;
              delegated = body.delegated;
              enabled = true;
              requires_approval = body.requires_approval;
              is_system = false;
              description = body.description;
            }
              ∷ [];
        capability_permissions = rows;
      })
      "capability.create" "capability" body.id no_details

pub patch_capability : String → UpdateCapabilityBody → CapabilityRow → CapabilityRow
patch_capability id body c =
    if id == c.id
    then (record c {
      enabled = get_or body.enabled c.enabled;
      risk = get_or body.risk c.risk;
      requires_approval = get_or body.requires_approval c.requires_approval;
      description = get_or body.description c.description;
    })
    else c

-- `if (body.requiredPermissions !== undefined) …`
pub replace_requirements : String → Option (List String) → RbacDb → Result RbacDb
replace_requirements id none db = ok db
replace_requirements id (some names) db = do
  require_permissions_exist db names
  rows ←
      insert_pairs id names
        (filter (λ (row : String × String). not (id == row.0)) db.capability_permissions)
  ok (record db { capability_permissions = rows })

pub update_capability : String → UpdateCapabilityBody → RbacDb → Result (RbacDb × AuditEntry)
update_capability id body db = do
  _ ← or_throw (find_capability id db) capability_missing
  db' ←
      replace_requirements id body.required_permissions
        (record db { capabilities = map (patch_capability id body) db.capabilities })
  done db' "capability.update" "capability" id no_details

pub delete_capability : String → RbacDb → Result (RbacDb × AuditEntry)
delete_capability id db = do
  c ← or_throw (find_capability id db) capability_missing
  throw_if c.is_system capability_built_in
  done
      (record db {
        capabilities = filter (λ (d : CapabilityRow). not (id == d.id)) db.capabilities;
        capability_permissions =
            filter (λ (row : String × String). not (id == row.0)) db.capability_permissions;
      })
      "capability.delete" "capability" id no_details

-- `body.kind === 'permission' ? (body.permissionName ?? null) : null`
abbrev pub bound_permission : UpdateRoutePolicyBody → Option String
bound_permission body = elim body.kind [ permission ↦ body.permission_name | _ ↦ none ]

-- The service checks a name that is not empty; the table checks that a route which wants a
-- permission has one, and its foreign key that the permission is there.
abbrev pub check_route_permission : RoutePolicyKind → Option String → RbacDb → Result (Unit {0})
check_route_permission permission (some name) db =
    if name == ""
    then throw_if (not (has name (permission_names db))) constraint
    else require_permissions_exist db (name ∷ [])
check_route_permission permission none db = err constraint
check_route_permission _ name db = ok tt

unfoldable pub update_route_policy :
    String → UpdateRoutePolicyBody → RbacDb → Result (RbacDb × AuditEntry)
update_route_policy route_id body db = do
  _ ← or_throw (find_route route_id db) route_missing
  let permission_name = bound_permission body
  check_route_permission body.kind permission_name db
  done
      (record db {
        route_policies =
            map
              (λ (p : RoutePolicyView).
                if route_id == p.route_id
                then (record p {
                  kind = body.kind;
                  permission_name = permission_name;
                  audit = get_or body.audit p.audit;
                })
                else p)
              db.route_policies;
      })
      "route-policy.update" "route" route_id (route_bound body.kind permission_name)

abbrev pub mode_name : ViewMode → String
mode_name read = "read"
mode_name write = "write"

abbrev pub is_binding : String → ViewMode → ViewPermissionRow → Bool
is_binding view_name mode v = view_name == v.view_name && same_mode mode v.mode

-- `upsert` by view and mode.
abbrev pub upsert_view : ViewPermissionRow → List ViewPermissionRow → List ViewPermissionRow
upsert_view row rows =
    if any (is_binding row.view_name row.mode) rows
    then map (λ v. if is_binding row.view_name row.mode v then row else v) rows
    else rows ++ row ∷ []

pub update_view_permission : String → ViewMode → String → RbacDb → Result (RbacDb × AuditEntry)
update_view_permission view_name mode permission_name db = do
  require_permissions_exist db (permission_name ∷ [])
  done
      (record db {
        view_permissions =
            upsert_view
              (record {
                view_name = view_name;
                mode = mode;
                permission_name = permission_name;
                is_system = false;
              })
              db.view_permissions;
      })
      "view-permission.update" "view" (String.◌++◌ view_name (String.◌++◌ ":" (mode_name mode)))
      (view_bound permission_name)

-- The operations that the controller offers.
pub data Op : Type 0 where
  role_create role_update : (name : String) (description : Option String) → Op
  role_delete : (name : String) → Op
  permission_create permission_update : (name : String) (description : Option String) → Op
  permission_delete : (name : String) → Op
  grants_set : (role : String) (permissions : List String) → Op
  capability_create : CreateCapabilityBody → Op
  capability_update : (id : String) → UpdateCapabilityBody → Op
  capability_delete : (id : String) → Op
  route_update : (route_id : String) → UpdateRoutePolicyBody → Op
  view_update : (view_name : String) (mode : ViewMode) (permission_name : String) → Op

unfoldable pub work : Op → RbacDb → Result (RbacDb × AuditEntry)
work (role_create name description) = create_role name description
work (role_update name description) = update_role name description
work (role_delete name) = delete_role name
work (permission_create name description) = create_permission name description
work (permission_update name description) = update_permission name description
work (permission_delete name) = delete_permission name
work (grants_set role permissions) = set_role_permissions role permissions
work (capability_create body) = create_capability body
work (capability_update id body) = update_capability id body
work (capability_delete id) = delete_capability id
work (route_update route_id body) = update_route_policy route_id body
work (view_update view_name mode permission_name) =
    update_view_permission view_name mode permission_name
