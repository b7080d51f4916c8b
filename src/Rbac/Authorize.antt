-- ===== src/Rbac/Authorize.antt =====
-- backend-services/api/src/auth/authorize.ts and route-policy.ts: the authorization middleware.
pub mod Deny
mod Tests
use at_nova_platform.Prelude.{
  String, ◌==◌, Bool, true, false, not, ◌&&◌, List, [], ◌∷◌, ◌++◌, map, Option, none, some, has,
  is_some, map_get, map_set, if◌then◌else◌,
}
use at_nova_platform.Rbac.{
  RoutePolicyKind, public, authenticated, permission, RoutePolicyView, RbacRegistry, route_policy,
}

-- The declared policy of a route. `other_shape` is a value that fits no member of the union.
pub data RouteAccessPolicy : Type 0 where
  public_route : String → RouteAccessPolicy
  authenticated_route : String → Option Bool → RouteAccessPolicy
  permission_route : String → String → Option Bool → RouteAccessPolicy
  other_shape : String → RouteAccessPolicy

abbrev pub route_id : RouteAccessPolicy → String
route_id (public_route id) = id
route_id (authenticated_route id audit) = id
route_id (permission_route id required audit) = id
route_id (other_shape id) = id

-- What a request carries of `AuthContext` that authorization and the services read.
pub record AuthContext : Type 0 where
  pub subject : String
  pub email : Option String
  pub given_name : Option String
  pub family_name : Option String
  pub roles : List String
  pub permissions : List String
  pub application_user_id : Option String

-- `policy.audit === true`
abbrev pub is_true : Option Bool → Bool
is_true none = false
is_true (some b) = b

abbrev pub declared_policy : RouteAccessPolicy → RoutePolicyView
declared_policy (public_route id) = record {
  route_id = id;
  kind = public;
  permission_name = none;
  audit = false;
}
declared_policy (authenticated_route id audit) = record {
  route_id = id;
  kind = authenticated;
  permission_name = none;
  audit = is_true audit;
}
declared_policy (permission_route id required audit) = record {
  route_id = id;
  kind = permission;
  permission_name = some required;
  audit = is_true audit;
}
declared_policy (other_shape id) = record {
  route_id = id;
  kind = permission;
  permission_name = none;
  audit = false;
}

pub resolve_effective_policy : RbacRegistry → RouteAccessPolicy → RoutePolicyView
resolve_effective_policy r policy = elim (route_policy r (route_id policy)) [
  | some from_registry ↦ from_registry
  | none ↦ declared_policy policy
]

-- How the middleware ends: `next()`, or `next(error)`.
pub data Verdict : Type 0 where
  allowed : Verdict
  unauthenticated forbidden : Verdict

-- The log lines that it writes.
pub data LogLine : Type 0 where
  authenticated_access : (route_id subject : String) → LogLine
  authorization_denied : (route_id : String) (required : Option String) (subject : String) → LogLine
  authorization_granted : (route_id permission subject : String) → LogLine

-- `!required` is true of the empty text too.
abbrev pub holds : Option String → List String → Bool
holds none permissions = false
holds (some required) permissions = not (required == "") && has required permissions

abbrev pub or_empty : Option String → String
or_empty none = ""
or_empty (some s) = s

pub gate_permission : RoutePolicyView → AuthContext → Verdict × List LogLine
gate_permission effective auth =
    if holds effective.permission_name auth.permissions
    then (
      allowed,
      if effective.audit
          then authorization_granted effective.route_id (or_empty effective.permission_name)
              auth.subject
            ∷ []
          else [],
    )
    else (
      forbidden,
      authorization_denied effective.route_id effective.permission_name auth.subject ∷ [],
    )

pub gate : RoutePolicyKind → RoutePolicyView → Option AuthContext → Verdict × List LogLine
gate public effective auth = (allowed, [])
gate authenticated effective none = (unauthenticated, [])
gate authenticated effective (some auth) = (
  allowed,
  if effective.audit then authenticated_access effective.route_id auth.subject ∷ [] else [],
)
gate permission effective none = (unauthenticated, [])
gate permission effective (some auth) = gate_permission effective auth

pub authorize : RbacRegistry → RouteAccessPolicy → Option AuthContext → Verdict × List LogLine
unfolding gate gate_permission
authorize r policy auth =
    let effective = resolve_effective_policy r policy in gate effective.kind effective auth

-- `defineRoutePolicy`: the module's map of policies, and `none` where it throws.
pub define_route_policy :
    RouteAccessPolicy
    → List (String × RouteAccessPolicy)
    → Option (List (String × RouteAccessPolicy))
define_route_policy policy registered =
    if is_some (map_get (route_id policy) registered)
    then none
    else some (map_set (route_id policy) policy registered)

pub get_registered_policies : List (String × RouteAccessPolicy) → List RouteAccessPolicy
get_registered_policies registered = map (λ (e : String × RouteAccessPolicy). e.1) registered
