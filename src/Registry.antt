-- ===== src/Registry.antt =====
-- backend-services/api/src/rbac: rbac-registry.service.ts, which loads the registry from the policy
-- tables and keeps it fresh, with registry-holder.ts.
pub mod Loaded
pub mod Allowed
pub mod Steps
pub mod Fresh
pub mod Granted
pub mod Rebound
pub mod Claims
pub mod Reconcile
pub mod Reconciled
mod Tests
use at_nova_platform.Prelude.{
  ℕ, String, Bool, List, [], ◌∷◌, ◌++◌, map, Option, none, some, eqb, get_or, map_get, map_set,
  map_of, if◌then◌else◌,
}
use at_nova_platform.Rbac.{
  RoleView, PermissionView, CapabilityView, RoutePolicyView, ViewPermissionView, RbacRegistryData,
  RbacRegistry, new_registry,
}
use at_nova_platform.Admin.Tables.{CapabilityRow, ViewPermissionRow, Pairs, RbacDb}
use at_nova_platform.Admin.{RbacActor, AuditEntry, Result, ok, err, ◌>>=◌, mutate}
use at_nova_platform.Catalog.Baseline.{from_static_catalog}

-- What the eight queries of a load return. They are not one transaction, so another change can
-- come between two of them.
pub record Reads : Type 0 where
  pub roles : List RoleView
  pub permissions : List PermissionView
  pub role_permissions : Pairs
  pub capabilities : List CapabilityRow
  pub capability_permissions : Pairs
  pub route_policies : List RoutePolicyView
  pub view_permissions : List ViewPermissionRow
  pub revision_row : Option ℕ

-- The queries with no change between them.
abbrev pub reads_of : RbacDb → Reads
reads_of db = record {
  roles = db.roles;
  permissions = db.permissions;
  role_permissions = db.role_permissions;
  capabilities = db.capabilities;
  capability_permissions = db.capability_permissions;
  route_policies = db.route_policies;
  view_permissions = db.view_permissions;
  revision_row = some db.revision;
}

abbrev pub read_revision : Option ℕ → ℕ
read_revision none = 0
read_revision (some revision) = revision

-- `(rolePermissions[row.roleName] ??= []).push(row.permissionName)`, and the same on the `Map`
-- of the capabilities.
abbrev pub push_to : String → String → List (String × List String) → List (String × List String)
push_to key p lists = map_set key (get_or (map_get key lists) [] ++ p ∷ []) lists

abbrev pub push_all : List (String × List String) → Pairs → List (String × List String)
push_all lists [] = lists
push_all lists (row ∷ rows) = push_all (push_to row.0 row.1 lists) rows

abbrev pub no_grants : RoleView → String × List String
no_grants role = (role.name, [])

abbrev pub grants_by_role : List RoleView → Pairs → List (String × List String)
grants_by_role roles rows = push_all (map_of (map no_grants roles)) rows

abbrev pub required_by_capability : Pairs → List (String × List String)
required_by_capability rows = push_all [] rows

abbrev pub capability_view_of : List (String × List String) → CapabilityRow → CapabilityView
capability_view_of required c = record {
  id = c.id;
  kind = c.kind;
  mode = c.mode;
  risk = c.risk;
  resource_scoped = c.resource_scoped;
  delegated = c.delegated;
  enabled = c.enabled;
  requires_approval = c.requires_approval;
  is_system = c.is_system;
  required_permissions = get_or (map_get c.id required) [];
}

abbrev pub view_of : ViewPermissionRow → ViewPermissionView
view_of v = record { view_name = v.view_name; mode = v.mode; permission_name = v.permission_name }

unfoldable pub load_data : Reads → RbacRegistryData
load_data reads = record {
  revision = read_revision reads.revision_row;
  roles = reads.roles;
  permissions = reads.permissions;
  role_permissions = grants_by_role reads.roles reads.role_permissions;
  capabilities =
      map (capability_view_of (required_by_capability reads.capability_permissions))
        reads.capabilities;
  route_policies = reads.route_policies;
  view_permissions = map view_of reads.view_permissions;
}

-- One instance: the service's registry, and the one of the process-wide holder.
pub record Instance : Type 0 where
  pub current : RbacRegistry
  pub active : RbacRegistry

abbrev pub new_instance : Instance
new_instance = record { current = from_static_catalog; active = from_static_catalog }

abbrev pub set_active_registry : RbacRegistry → Instance → Instance
set_active_registry registry s = record s { active = registry }

abbrev pub refresh_from : Reads → Instance → Instance
refresh_from reads s =
    let registry = new_registry (load_data reads) in
    set_active_registry registry (record s { current = registry })

-- `refresh`; `none` is a query that fails, and the error is the caller's.
abbrev pub refresh : Option Reads → Instance → Option Instance
refresh none s = none
refresh (some reads) s = some (refresh_from reads s)

-- `start`, which must load at boot.
abbrev pub start : Option Reads → Option Instance
start loaded = refresh loaded new_instance

-- `pollForChanges`: the revision's query and, if it is another one, a load; an error of either is
-- logged and the registry kept.
unfoldable pub poll_for_changes : Option (Option ℕ) → Option Reads → Instance → Instance
poll_for_changes none loaded s = s
poll_for_changes (some row) loaded s =
    if eqb (read_revision row) s.current.policy.revision then s else get_or (refresh loaded s) s

-- `mutate` of rbac-admin.service.ts as one instance runs it: the transaction, then the refresh of its
-- own registry, when that load goes through.
unfoldable pub mutate_and_refresh :
    RbacActor
    → (RbacDb → Result (RbacDb × AuditEntry))
    → RbacDb × Instance
    → Result (RbacDb × Instance)
mutate_and_refresh actor work (db, s) = do
  after ← mutate actor work db
  ok (after, refresh_from (reads_of after) s)
