-- ===== src/Catalog/Baseline.antt =====
-- `RbacRegistry.fromStaticCatalog` (backend-services/api/src/rbac/rbac-registry.ts): the registry that
-- the API starts with answers as the functions on the static catalog do.
use at_nova_platform.Prelude.{
  String, ◌≡◌, refl, Bool, true, not, List, [], ◌∷◌, ◌++◌, map, none, some, filter, all, has,
  is_nil, arith, add_all, Bool-cases, inl, inr, ap, ◌∙◌, map_get, ◌||◌,
}
use at_nova_platform.Query.{mcp_read_view_permissions}
use at_nova_platform.Rbac.{
  ViewMode, read, write, CapabilityView, RoleView, PermissionView, ViewPermissionView, RbacRegistry,
  new_registry, roles_grant_permission, permissions_for_roles, capability_allowlist,
  permission_for_view, permissions_satisfy_capability, add_perms, collect_permissions,
}
use at_nova_platform.Catalog.{
  Role, sales_user_role, support_operations_user_role, admin_role, customer_support_role,
  ops_compliance_role, known_permissions, all_roles, role_name, role_permissions, CatalogCapability,
}
use at_nova_platform.Catalog.Capabilities.{capability_catalog, mcp_write_view_permissions}
use at_nova_platform.Catalog.Policy.{
  permissions_from, static_permissions_for_roles, static_roles_grant_permission,
  static_satisfy_capability, capabilities_for_permissions, is_set, permission_for_write_view,
}

abbrev pub role_view : Role → RoleView
role_view r = record {
  name = role_name r;
  description = none;
  is_system = true;
  keycloak_role_id = none;
}

abbrev pub permission_view : String → PermissionView
permission_view p = record { name = p; description = none; is_system = true }

abbrev pub capability_view : CatalogCapability → CapabilityView
capability_view c = record {
  id = c.id;
  kind = c.kind;
  mode = c.mode;
  risk = c.risk;
  resource_scoped = c.resource_scoped;
  delegated = is_set c.delegated;
  enabled = true;
  requires_approval = is_set c.requires_approval;
  is_system = true;
  required_permissions = c.required_permissions;
}

abbrev pub static_view : ViewMode → String × String → ViewPermissionView
static_view mode row = record { view_name = row.0; mode = mode; permission_name = row.1 }

unfoldable pub from_static_catalog : RbacRegistry
unfolding mcp_read_view_permissions
from_static_catalog = new_registry (record {
  revision = 0;
  roles = map role_view all_roles;
  permissions = map permission_view known_permissions;
  role_permissions = map (λ (r : Role). (role_name r, role_permissions r)) all_roles;
  capabilities = map capability_view capability_catalog;
  route_policies = [];
  view_permissions =
      map (static_view read) mcp_read_view_permissions
      ++ map (static_view write) mcp_write_view_permissions;
})

granted_to :
    (r : Role)
    → map_get (role_name r) from_static_catalog.role_permission_map ≡ some (role_permissions r)
unfolding from_static_catalog new_registry
granted_to sales_user_role = refl
granted_to support_operations_user_role = refl
granted_to admin_role = refl
granted_to customer_support_role = refl
granted_to ops_compliance_role = refl

-- A role of the catalog grants in the registry what the catalog gives it.
roles_grant_permission-static :
    (roles : List Role) (required : String)
    → roles_grant_permission from_static_catalog (map role_name roles) required
      ≡ static_roles_grant_permission roles required
unfolding roles_grant_permission
roles_grant_permission-static [] required = refl
roles_grant_permission-static (r ∷ rs) required =
    rw (granted_to r)
      (ap (λ b. has required (role_permissions r) || b) (roles_grant_permission-static rs required))

collect_permissions-static :
    (granted : List String) (roles : List Role)
    → collect_permissions from_static_catalog granted (map role_name roles)
      ≡ permissions_from granted roles
unfolding collect_permissions
collect_permissions-static granted [] = refl
collect_permissions-static granted (r ∷ rs) =
    ap (λ o. collect_permissions from_static_catalog (add_perms granted o) (map role_name rs))
      (granted_to r)
    ∙ collect_permissions-static (add_all granted (role_permissions r)) rs

-- Every capability has a permission that it requires.
abbrev requires_some : CatalogCapability → Bool
requires_some c = not (is_nil c.required_permissions)

satisfied-static :
    (c : CatalogCapability) (permissions : List String)
    → requires_some c ≡ true
    → permissions_satisfy_capability (capability_view c) permissions
      ≡ static_satisfy_capability c permissions
unfolding permissions_satisfy_capability
satisfied-static c permissions some_required = ground arith

allowlist-static :
    (cs : List CatalogCapability) (permissions : List String)
    → all requires_some cs ≡ true
    → map
        (λ (c : CapabilityView). c.id)
        (filter (λ c. permissions_satisfy_capability c permissions) (map capability_view cs))
      ≡ map
          (λ (c : CatalogCapability). c.id)
          (filter (λ c. static_satisfy_capability c permissions) cs)
allowlist-static [] permissions h = refl
allowlist-static (c ∷ cs) permissions h =
    let same = satisfied-static c permissions (ground arith) in
    let rest = allowlist-static cs permissions (ground arith) in
    elim (Bool-cases (static_satisfy_capability c permissions)) [
      | inl passes ↦ rw (same, passes) (ap (λ ids. c.id ∷ ids) rest)
      | inr fails ↦ rw (same, fails) rest
    ]

capability_allowlist-static :
    (permissions : List String)
    → capability_allowlist from_static_catalog permissions
      ≡ map (λ (c : CatalogCapability). c.id) (capabilities_for_permissions permissions)
unfolding from_static_catalog new_registry capability_allowlist
capability_allowlist-static permissions = allowlist-static capability_catalog permissions refl

-- The registry before the first load answers every question as the static catalog does: what
-- roles grant, the set that they grant, which capabilities a set allows, and what a view asks for.
pub from_static_catalog-static :
    (roles : List Role) (permissions : List String) (required view : String)
    → (roles_grant_permission from_static_catalog (map role_name roles) required
        ≡ static_roles_grant_permission roles required)
      × (permissions_for_roles from_static_catalog (map role_name roles)
          ≡ static_permissions_for_roles roles)
      × (capability_allowlist from_static_catalog permissions
          ≡ map (λ (c : CatalogCapability). c.id) (capabilities_for_permissions permissions))
      × (permission_for_view from_static_catalog view write ≡ permission_for_write_view view)
      × (permission_for_view from_static_catalog view read ≡ map_get view mcp_read_view_permissions)
unfolding from_static_catalog new_registry permission_for_view mcp_read_view_permissions
    permissions_for_roles
from_static_catalog-static roles permissions required view = (
  roles_grant_permission-static roles required,
  collect_permissions-static [] roles,
  capability_allowlist-static permissions,
  refl,
  refl,
)
