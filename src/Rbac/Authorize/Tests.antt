-- ===== src/Rbac/Authorize/Tests.antt =====
-- Tests and concrete uses: the registry and the authorization middleware.
use at_nova_platform.Prelude.{
  String, ◌≡◌, ◌≢◌, ◌↔◌, ◌⊎◌, true, false, List, [], ◌∷◌, Option, none, some, has, In,
}
use at_nova_platform.Rbac.{
  CapabilityView, low, permission, RoutePolicyView, RbacRegistryData, new_registry,
  permissions_for_roles, roles_grant_permission, capability_allowlist, route_policy,
}
use at_nova_platform.Rbac.Resolve.{
  IsSatisfied, permissions_for_roles-roles_grant_permission, capability_allowlist_iff,
}
use at_nova_platform.Rbac.Authorize.{
  RouteAccessPolicy, permission_route, AuthContext, resolve_effective_policy, allowed,
  unauthenticated, forbidden, authorization_denied, authorize, gate,
}
use at_nova_platform.Rbac.Authorize.Deny.{MayPass, authorize_iff, authorize_refusal}

abbrev reads_sales : CapabilityView
reads_sales = record {
  id = "sales.search";
  kind = "mcp-tool";
  mode = "read";
  risk = low;
  resource_scoped = true;
  delegated = true;
  enabled = true;
  requires_approval = false;
  is_system = true;
  required_permissions = "read-sales" ∷ [];
}

abbrev sales_bound : RoutePolicyView
sales_bound = record {
  route_id = "sales.list";
  kind = permission;
  permission_name = some "read-sales";
  audit = false;
}

abbrev policy : RbacRegistryData
policy = record {
  revision = 1;
  roles =
      record { name = "sales"; description = none; is_system = true; keycloak_role_id = none } ∷ [];
  permissions = [];
  role_permissions = ("sales", "read-sales" ∷ []) ∷ [];
  capabilities = reads_sales ∷ [];
  route_policies = sales_bound ∷ [];
  view_permissions = [];
}

abbrev clerk : List String → AuthContext
clerk permissions = record {
  subject = "sub-1";
  email = none;
  given_name = none;
  family_name = none;
  roles = "sales" ∷ [];
  permissions = permissions;
  application_user_id = none;
}

abbrev declared : RouteAccessPolicy
declared = permission_route "sales.list" "read-nothing" none

permissions_for_roles_example :
    has "read-sales" (permissions_for_roles (new_registry policy) ("sales" ∷ []))
    ≡ roles_grant_permission (new_registry policy) ("sales" ∷ []) "read-sales"
permissions_for_roles_example =
    permissions_for_roles-roles_grant_permission (new_registry policy) "read-sales" ("sales" ∷ [])

capability_allowlist_iff_example :
    (has "sales.search" (capability_allowlist (new_registry policy) ("read-sales" ∷ [])) ≡ true) ↔ (
      (c : CapabilityView) × In c (new_registry policy).policy.capabilities
      × (c.id ≡ "sales.search")
      × IsSatisfied c ("read-sales" ∷ []))
capability_allowlist_iff_example =
    capability_allowlist_iff (new_registry policy) ("read-sales" ∷ []) "sales.search"

authorize_iff_example :
    ((authorize (new_registry policy) declared (some (clerk ("read-sales" ∷ [])))).0 ≡ allowed)
    ↔ MayPass
        (resolve_effective_policy (new_registry policy) declared)
        (some (clerk ("read-sales" ∷ [])))
authorize_iff_example =
    authorize_iff (new_registry policy) declared (some (clerk ("read-sales" ∷ [])))

nobody_refused : (authorize (new_registry policy) declared none).0 ≢ allowed
unfolding authorize resolve_effective_policy new_registry route_policy gate
nobody_refused e = cc

authorize_refusal_example :
    ((Path (Option AuthContext) none none)
      × (authorize (new_registry policy) declared none ≡ (unauthenticated, [])))
    ⊎ ((a : AuthContext) × (Path (Option AuthContext) none (some a))
        × (authorize (new_registry policy) declared none ≡ (
          forbidden,
          authorization_denied
                (resolve_effective_policy (new_registry policy) declared).route_id
                (resolve_effective_policy (new_registry policy) declared).permission_name
                a.subject
              ∷ [],
        )))
authorize_refusal_example = authorize_refusal (new_registry policy) declared none nobody_refused
