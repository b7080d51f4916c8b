-- ===== src/Catalog/Tests.antt =====
-- Tests and a concrete use of the static catalog.
use at_nova_platform.Prelude.{true, false, not, ◌≡◌, refl, map, map_get, [], ◌∷◌, all}
use at_nova_platform.Query.{mcp_read_view_permissions}
use at_nova_platform.Rbac.{
  read, write, roles_grant_permission, permissions_for_roles, capability_allowlist,
  permission_for_view,
}
use at_nova_platform.Catalog.{
  CatalogCapability, sales_user_role, ops_compliance_role, role_permissions, all_roles,
}
use at_nova_platform.Catalog.Capabilities.{capability_catalog}
use at_nova_platform.Catalog.Policy.{
  static_permissions_for_roles, static_roles_grant_permission, capabilities_for_permissions,
  permission_for_write_view, roles_grant_capability, writable_views, to_known_roles, is_permission,
  capability_requires_approval,
}
use at_nova_platform.Catalog.Baseline.{from_static_catalog, from_static_catalog-static}

-- The sales role may create sales, and no procedures.
sales_user :
    (roles_grant_capability (sales_user_role ∷ []) "sales.create" ≡ true)
    × (roles_grant_capability (sales_user_role ∷ []) "sop.create" ≡ false)
    × (writable_views (role_permissions ops_compliance_role) ≡ "sops" ∷ "sop_details" ∷ [])
    × (to_known_roles ("admin" ∷ "root" ∷ []) ≡ "admin" ∷ [])
sales_user = (refl, refl, refl, refl)

-- Every permission that a role or a capability names is a known one, and none asks for approval.
closed :
    (all (λ r. all is_permission (role_permissions r)) all_roles ≡ true)
    × (all (λ (c : CatalogCapability). all is_permission c.required_permissions) capability_catalog
        ≡ true)
    × (all (λ c. not (capability_requires_approval c)) capability_catalog ≡ true)
closed = (refl, refl, refl)

from_static_catalog-static_example :
    (roles_grant_permission from_static_catalog ("sales-user" ∷ []) "write-sales"
      ≡ static_roles_grant_permission (sales_user_role ∷ []) "write-sales")
    × (permissions_for_roles from_static_catalog ("sales-user" ∷ [])
        ≡ static_permissions_for_roles (sales_user_role ∷ []))
    × (capability_allowlist from_static_catalog ("read-sop" ∷ [])
        ≡ map (λ (c : CatalogCapability). c.id) (capabilities_for_permissions ("read-sop" ∷ [])))
    × (permission_for_view from_static_catalog "sops" write ≡ permission_for_write_view "sops")
    × (permission_for_view from_static_catalog "sops" read
        ≡ map_get "sops" mcp_read_view_permissions)
from_static_catalog-static_example =
    from_static_catalog-static (sales_user_role ∷ []) ("read-sop" ∷ []) "write-sales" "sops"
