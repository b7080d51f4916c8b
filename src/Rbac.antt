-- ===== src/Rbac.antt =====
-- backend-services/api/src/rbac/rbac-registry.ts: the registry that authorization consults.
pub mod Resolve
pub mod Authorize
use at_nova_platform.Prelude.{
  ℕ, String, Bool, true, false, not, ◌&&◌, ◌||◌, List, [], ◌∷◌, map, Option, none, some, filter,
  all, any, has, insert_new, add_all, is_nil, map_get, map_of, if◌then◌else◌,
}

pub data ViewMode : Type 0 where
  read write : ViewMode

pub record RoleView : Type 0 where
  pub name : String
  pub description : Option String
  pub is_system : Bool
  pub keycloak_role_id : Option String

pub record PermissionView : Type 0 where
  pub name : String
  pub description : Option String
  pub is_system : Bool

pub data Risk : Type 0 where
  low high : Risk

pub record CapabilityView : Type 0 where
  pub id : String
  pub kind : String
  pub mode : String
  pub risk : Risk
  pub resource_scoped : Bool
  pub delegated : Bool
  pub enabled : Bool
  pub requires_approval : Bool
  pub is_system : Bool
  pub required_permissions : List String

pub data RoutePolicyKind : Type 0 where
  public authenticated permission : RoutePolicyKind

pub record RoutePolicyView : Type 0 where
  pub route_id : String
  pub kind : RoutePolicyKind
  pub permission_name : Option String
  pub audit : Bool

pub record ViewPermissionView : Type 0 where
  pub view_name : String
  pub mode : ViewMode
  pub permission_name : String

-- `rolePermissions` is an object: its entries, with no key twice.
pub record RbacRegistryData : Type 0 where
  pub revision : ℕ
  pub roles : List RoleView
  pub permissions : List PermissionView
  pub role_permissions : List (String × List String)
  pub capabilities : List CapabilityView
  pub route_policies : List RoutePolicyView
  pub view_permissions : List ViewPermissionView

-- `class RbacRegistry`: the data and the sets and maps that the constructor builds from it.
pub record RbacRegistry : Type 0 where
  pub policy : RbacRegistryData
  pub role_set : List String
  pub role_permission_map : List (String × List String)
  pub capability_map : List (String × CapabilityView)
  pub route_policy_map : List (String × RoutePolicyView)
  pub view_read_map : List (String × String)
  pub view_write_map : List (String × String)

abbrev pub is_read : ViewMode → Bool
is_read read = true
is_read write = false

abbrev pub view_entry : ViewPermissionView → String × String
view_entry view = (view.view_name, view.permission_name)

unfoldable pub new_registry : RbacRegistryData → RbacRegistry
new_registry policy = record {
  policy = policy;
  role_set = add_all [] (map (λ (role : RoleView). role.name) policy.roles);
  role_permission_map = map_of (
      map (λ (entry : String × List String). (entry.0, add_all [] entry.1))
        policy.role_permissions);
  capability_map = map_of (map (λ (c : CapabilityView). (c.id, c)) policy.capabilities);
  route_policy_map = map_of (map (λ (p : RoutePolicyView). (p.route_id, p)) policy.route_policies);
  view_read_map = map_of (
      map view_entry (filter (λ (v : ViewPermissionView). is_read v.mode) policy.view_permissions));
  view_write_map = map_of (
      map view_entry
        (filter (λ (v : ViewPermissionView). not (is_read v.mode)) policy.view_permissions));
}

-- `perms?.has(required) === true`
abbrev pub grants : Option (List String) → String → Bool
grants none required = false
grants (some perms) required = has required perms

-- `if (perms) for (const permission of perms) granted.add(permission)`
abbrev pub add_perms : List String → Option (List String) → List String
add_perms granted none = granted
add_perms granted (some perms) = add_all granted perms

module _ (r : RbacRegistry) where
  pub has_role : String → Bool
  has_role name = has name r.role_set

  unfoldable pub known_roles : List String → List String
  known_roles values = filter (λ value. has value r.role_set) values

  unfoldable pub collect_permissions : List String → List String → List String
  collect_permissions granted [] = granted
  collect_permissions granted (role ∷ roles) =
      collect_permissions (add_perms granted (map_get role r.role_permission_map)) roles

  unfoldable pub permissions_for_roles : List String → List String
  unfolding collect_permissions
  permissions_for_roles roles = collect_permissions [] roles

  unfoldable pub roles_grant_permission : List String → String → Bool
  roles_grant_permission roles required =
      any (λ role. grants (map_get role r.role_permission_map) required) roles

  unfoldable pub route_policy : String → Option RoutePolicyView
  route_policy route_id = map_get route_id r.route_policy_map

  unfoldable pub get_capability : String → Option CapabilityView
  get_capability id = map_get id r.capability_map

unfoldable pub permissions_satisfy_capability : CapabilityView → List String → Bool
permissions_satisfy_capability capability permissions =
    if not capability.enabled || is_nil capability.required_permissions
    then false
    else all (λ permission. has permission permissions) capability.required_permissions

module _ (r : RbacRegistry) where
  unfoldable pub capability_allowlist : List String → List String
  capability_allowlist permissions =
      map (λ (c : CapabilityView). c.id)
        (filter (λ c. permissions_satisfy_capability c permissions) r.policy.capabilities)

  unfoldable pub permission_for_view : String → ViewMode → Option String
  permission_for_view view mode =
      map_get view (if is_read mode then r.view_read_map else r.view_write_map)

  unfoldable pub accessible_views : List String → List String
  accessible_views permissions =
      map (λ (entry : String × String). entry.0)
        (filter (λ (entry : String × String). has entry.1 permissions) r.view_read_map)
