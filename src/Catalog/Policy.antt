-- ===== src/Catalog/Policy.antt =====
-- The functions on the static catalog: permissions.ts, capabilities.ts and data-views.ts of
-- backend-services/packages/shared/src/rbac.
use at_nova_platform.Prelude.{
  String, Bool, false, not, ◌&&◌, List, [], ◌∷◌, map, Option, none, some, filter, all, any, has,
  is_nil, add_all, map_get, map_of,
}
use at_nova_platform.Catalog.{
  Role, known_permissions, all_roles, role_name, role_permissions, CatalogCapability,
}
use at_nova_platform.Catalog.Capabilities.{capability_catalog, mcp_write_view_permissions}

abbrev pub is_permission : String → Bool
is_permission value = has value known_permissions

abbrev pub is_role : String → Bool
is_role value = has value (map role_name all_roles)

-- `toKnownRoles`
abbrev pub to_known_roles : List String → List String
to_known_roles values = filter is_role values

-- `permissionsForRoles`
abbrev pub permissions_from : List String → List Role → List String
permissions_from granted [] = granted
permissions_from granted (role ∷ roles) =
    permissions_from (add_all granted (role_permissions role)) roles

abbrev pub static_permissions_for_roles : List Role → List String
static_permissions_for_roles roles = permissions_from [] roles

-- `rolesGrantPermission`
abbrev pub static_roles_grant_permission : List Role → String → Bool
static_roles_grant_permission roles required =
    any (λ role. has required (role_permissions role)) roles

-- `CAPABILITY_BY_ID.get(id)`
abbrev pub static_get_capability : String → Option CatalogCapability
static_get_capability id =
    map_get id (map_of (map (λ (c : CatalogCapability). (c.id, c)) capability_catalog))

abbrev pub static_satisfy_capability : CatalogCapability → List String → Bool
static_satisfy_capability c permissions =
    all (λ permission. has permission permissions) c.required_permissions

abbrev pub capabilities_for_permissions : List String → List CatalogCapability
capabilities_for_permissions permissions =
    filter (λ c. static_satisfy_capability c permissions) capability_catalog

abbrev pub grants_all : List Role → Option CatalogCapability → Bool
grants_all roles none = false
grants_all roles (some c) =
    not (is_nil c.required_permissions)
    && all (λ permission. static_roles_grant_permission roles permission) c.required_permissions

abbrev pub roles_grant_capability : List Role → String → Bool
roles_grant_capability roles id = grants_all roles (static_get_capability id)

-- `=== true`
abbrev pub is_set : Option Bool → Bool
is_set none = false
is_set (some b) = b

abbrev pub capability_requires_approval : CatalogCapability → Bool
capability_requires_approval c = is_set c.requires_approval

-- A key that every object inherits, such as `constructor`, is left out.
abbrev pub permission_for_write_view : String → Option String
permission_for_write_view view = map_get view mcp_write_view_permissions

abbrev pub writable_views : List String → List String
writable_views permissions =
    map (λ (row : String × String). row.0)
      (filter (λ (row : String × String). has row.1 permissions) mcp_write_view_permissions)
